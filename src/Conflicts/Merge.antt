-- ===== src/Conflicts/Merge.antt =====
-- `merge_json_values`: maps are joined key by key, arrays are joined without repeats.
use replicant.Prelude.{
  ◌≡◌, ◌≢◌, inl, inr, refl, ◌∙◌, sym, arith, Bool-cases, Option-cases, true, false, Option, none,
  some, Text, text_eq, text_eq-eq, if◌then◌else◌,
}
use replicant.Errors.{SyncResult, ok}
use replicant.Json.{
  Value, null, boolean, number, string, Fields, end, field, array, object, JsonLibrary,
}
use replicant.Conflicts.{merge_items, merge_json_values, merge_fields}

-- The value of a key among the entries that an iterator yields.
abbrev pub lookup : Text → Fields → Option Value
lookup k end = none
lookup k (field j v rest) = if text_eq j k then some v else lookup k rest

-- An iterator over a map yields no key twice.
abbrev pub IsMap : Fields → Type 0
IsMap end = Unit {0}
IsMap (field k v rest) = (lookup k rest ≡ none) × IsMap rest

-- What the code relies on of `serde_json::Map`.
pub record MapLaws (json : JsonLibrary) : Type 0 where
  pub get-insert :
      (k j : Text) (v : Value) (m : Fields)
      → json.get j (json.insert k v m) ≡ (if text_eq k j then some v else json.get j m)
  pub get-lookup : (k : Text) (m : Fields) → IsMap m → json.get k m ≡ lookup k m

-- What a key of the remote map becomes, with the local value of the key if there is one.
abbrev pub merge_entry : JsonLibrary → Option Value → Value → SyncResult Value
merge_entry json (some local_value) remote_value = merge_json_values json local_value remote_value
merge_entry json none remote_value = ok remote_value

abbrev IsAtom : Value → Type 0
IsAtom (object m) = ⊥
IsAtom (array xs) = ⊥
IsAtom v = Unit {0}

-- What is neither an object nor an array replaces the local value.
keeps_atom : (json : JsonLibrary) (l r : Value) → IsAtom r → merge_json_values json l r ≡ ok r
unfolding merge_json_values
keeps_atom json (object l) (object r) h = absurd h
keeps_atom json (array l) (array r) h = absurd h
keeps_atom json _ _ h = refl

module _ (json : JsonLibrary) where
  fields_step :
      (key : Text) (r : Value) (rest lm acc : Fields) {v : Value}
      → merge_entry json (json.get key lm) r ≡ ok v
      → merge_fields json (field key r rest) lm acc
        ≡ merge_fields json rest lm (json.insert key v acc)
  unfolding merge_json_values
  fields_step key r rest lm acc e = ground arith

  mutual
    unfolding merge_json_values

    total_values : (r l : Value) → (m : Value) × (merge_json_values json l r ≡ ok m)
    total_values null l = (null, keeps_atom json l null tt)
    total_values (boolean b) l = (boolean b, keeps_atom json l (boolean b) tt)
    total_values (number n) l = (number n, keeps_atom json l (number n) tt)
    total_values (string s) l = (string s, keeps_atom json l (string s) tt)
    total_values (array rs) (array ls) = (array (merge_items json ls rs), refl)
    total_values (array rs) l = (array rs, refl)
    total_values (object rm) (object lm) = let (m, e) = total_fields rm lm lm in (object m, rw e)
    total_values (object rm) l = (object rm, refl)

    total_fields : (rm lm acc : Fields) → (m : Fields) × (merge_fields json rm lm acc ≡ ok m)
    total_fields end lm acc = (acc, refl)
    total_fields (field key v rest) lm acc = elim (Option-cases (json.get key lm)) [
      | inl e ↦
          let (m, q) = total_fields rest lm (json.insert key v acc) in
          (m, fields_step key v rest lm acc (rw e) ∙ q)
      | inr (lv, e) ↦
          let (a, p) = total_values v lv in
          let (m, q) = total_fields rest lm (json.insert key a acc) in
          (m, fields_step key v rest lm acc (rw e p) ∙ q)
    ]

  -- Merging never fails.
  pub merge_json_values_total : (l r : Value) → (m : Value) × (merge_json_values json l r ≡ ok m)
  merge_json_values_total l r = total_values r l

  entry_total : (l : Option Value) (r : Value) → (v : Value) × (merge_entry json l r ≡ ok v)
  entry_total none r = (r, refl)
  entry_total (some l) r = merge_json_values_total l r

-- What a key of the merged map holds: the local value where the remote map lacks the key, and else
-- the remote value, merged with the local one if there is one.
abbrev pub Holds : JsonLibrary → Option Value → Option Value → Option Value → Type 0
Holds json l none m = m ≡ l
Holds json l (some r) m = (v : Value) × (merge_entry json l r ≡ ok v) × (m ≡ some v)

fields_end : (json : JsonLibrary) (lm acc : Fields) → merge_fields json end lm acc ≡ ok acc
unfolding merge_json_values
fields_end json lm acc = refl

lookup_hit :
    (k key : Text) (r : Value) (rest : Fields)
    → text_eq key k ≡ true
    → lookup k (field key r rest) ≡ some r
lookup_hit k key r rest h = rw h

lookup_miss :
    (k key : Text) (r : Value) (rest : Fields)
    → text_eq key k ≡ false
    → lookup k (field key r rest) ≡ lookup k rest
lookup_miss k key r rest h = rw h

some-ne-none : {v : Value} {o : Option Value} → o ≡ some v → o ≢ none
some-ne-none p q = cc

some_inj : {v w : Value} {o : Option Value} → o ≡ some v → o ≡ some w → v ≡ w
some_inj p q = ground arith

module _ (json : JsonLibrary) (laws : MapLaws json) where
  get-insert_hit :
      {k key : Text} (v : Value) (acc : Fields)
      → text_eq key k ≡ true
      → json.get k (json.insert key v acc) ≡ some v
  get-insert_hit {k} {key} v acc h = rw (laws.get-insert key k v acc, h)

  get-insert_miss :
      {k key : Text} (v : Value) (acc : Fields)
      → text_eq key k ≡ false
      → json.get k (json.insert key v acc) ≡ json.get k acc
  get-insert_miss {k} {key} v acc h = rw (laws.get-insert key k v acc, h)

  -- A key that the remaining entries lack keeps its value.
  fields_get_absent :
      (rm lm acc : Fields) {m : Fields} (k : Text)
      → lookup k rm ≡ none
      → merge_fields json rm lm acc ≡ ok m
      → json.get k m ≡ json.get k acc
  fields_get_absent end lm acc k a e = cc (fields_end json lm acc)
  fields_get_absent (field key r rest) lm acc k a e =
      let (v, ve) = entry_total json (json.get key lm) r in
      elim (Bool-cases (text_eq key k)) [
        | inl hit ↦ absurd (some-ne-none (lookup_hit k key r rest hit) a)
        | inr miss ↦
            fields_get_absent rest lm (json.insert key v acc) k
              (sym (lookup_miss k key r rest miss) ∙ a)
              (sym (fields_step json key r rest lm acc ve) ∙ e)
            ∙ get-insert_miss v acc miss
      ]

  -- A key among the remaining entries is merged.
  fields_get_present :
      (rm lm acc : Fields) {m : Fields} (k : Text) {r : Value}
      → IsMap rm
      → lookup k rm ≡ some r
      → merge_fields json rm lm acc ≡ ok m
      → (v : Value) × (merge_entry json (json.get k lm) r ≡ ok v) × (json.get k m ≡ some v)
  fields_get_present end lm acc k d p e = ground arith
  fields_get_present (field key r rest) lm acc {m} k {r = r'} d p e =
      let (v, ve) = entry_total json (json.get key lm) r in
      let e' : merge_fields json rest lm (json.insert key v acc) ≡ ok m =
        sym (fields_step json key r rest lm acc ve) ∙ e in
      elim (Bool-cases (text_eq key k)) [
        | inl hit ↦ (
          v,
          rw (← text_eq-eq key k hit, some_inj p (lookup_hit k key r rest hit)) ve,
          fields_get_absent rest lm (json.insert key v acc) k (rw (text_eq-eq key k hit) at d.0) e'
              ∙ get-insert_hit v acc hit,
        )
        | inr miss ↦
            fields_get_present rest lm (json.insert key v acc) k d.1
              (sym (lookup_miss k key r rest miss) ∙ p) e'
      ]

  Holds-cases :
      (lm rm : Fields) {m : Fields} (k : Text) (o : Option Value)
      → IsMap rm
      → lookup k rm ≡ o
      → merge_fields json rm lm lm ≡ ok m
      → Holds json (json.get k lm) o (json.get k m)
  Holds-cases lm rm k none d p e = fields_get_absent rm lm lm k p e
  Holds-cases lm rm k (some r) d p e = fields_get_present rm lm lm k d p e

-- Merging two objects, the remote one a map without repeated keys, succeeds with an object, where
-- `get` and `insert` are those of a map: a key that the remote map lacks keeps its local value, and
-- any other key holds the remote value, merged with the local one if there is one.
pub merge_json_values_keys :
    (json : JsonLibrary)
    → MapLaws json
    → (local_map remote_map : Fields) → IsMap remote_map
    → (merged : Fields) × (merge_json_values json (object local_map) (object remote_map)
        ≡ ok (object merged))
      × ((k : Text) → Holds json (json.get k local_map) (json.get k remote_map) (json.get k merged))
unfolding merge_json_values
merge_json_values_keys json laws local_map remote_map d =
    let (m, e) = total_fields json remote_map local_map local_map in
    (
      m,
      rw e,
      λ k.
          Holds-cases json laws local_map remote_map k (json.get k remote_map) d
            (sym (laws.get-lookup k remote_map d)) e,
    )
