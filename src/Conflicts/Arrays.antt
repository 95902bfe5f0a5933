-- ===== src/Conflicts/Arrays.antt =====
-- `merge_json_values` on arrays, and the revision of a merged document.
use replicant.Prelude.{
  ◌≡◌, ◌↔◌, inl, inr, refl, ap, ◌∙◌, sym, arith, Bool-cases, Bool, true, false, ◌||◌, if◌then◌else◌,
  ◌+◌, ◌^◌, ◌<◌, ℕ, ltb, none,
}
use replicant.Prelude.Int.{pos, ◌+ℤ◌, wrap_i64}
use replicant.Errors.{ok}
use replicant.Json.{Value, Items, nil, cons, array, JsonLibrary}
use replicant.Models.{Document}
use replicant.Conflicts.Merge.{merge_json_values_total}
use replicant.Conflicts.{
  contains, push, merge_items, merge_json_values, merge_json_documents, merge_json, resolve, max_ℤ,
}

-- `==` on values is equality.
abbrev pub ComparesValues : JsonLibrary → Type 0
ComparesValues json = (a b : Value) → (json.value_eq a b ≡ true) ↔ (a ≡ b)

abbrev pub append : Items → Items → Items
append nil ys = ys
append (cons x xs) ys = cons x (append xs ys)

append-nil : (xs : Items) → append xs nil ≡ xs
append-nil nil = refl
append-nil (cons x xs) = ap (cons x) (append-nil xs)

append_assoc : (xs ys zs : Items) → append (append xs ys) zs ≡ append xs (append ys zs)
append_assoc nil ys zs = refl
append_assoc (cons x xs) ys zs = ap (cons x) (append_assoc xs ys zs)

module _ (json : JsonLibrary) where
  -- No value stands twice.
  abbrev pub IsDistinct : Items → Type 0
  IsDistinct nil = Unit {0}
  IsDistinct (cons x xs) = (contains json xs x ≡ false) × IsDistinct xs

module _ (json : JsonLibrary) where
  push-append : (xs : Items) (v : Value) → push json xs v ≡ append xs (cons v nil)
  unfolding push
  push-append nil v = refl
  push-append (cons x xs) v = ap (cons x) (push-append xs v)

  contains-push :
      (xs : Items) (v w : Value)
      → contains json (push json xs v) w ≡ (contains json xs w || json.value_eq v w)
  unfolding contains push
  contains-push nil v w = ground arith
  contains-push (cons x xs) v w = ground (arith, contains-push xs v w)

  -- The local items stay in front.
  merge_items-append :
      (ls rs : Items) → (extra : Items) × (merge_items json ls rs ≡ append ls extra)
  unfolding merge_items
  merge_items-append ls nil = (nil, sym (append-nil ls))
  merge_items-append ls (cons r rs) = elim (Bool-cases (contains json ls r)) [
    | inl old ↦ rw old (merge_items-append ls rs)
    | inr new ↦
        let (extra, e) = merge_items-append (push json ls r) rs in
        (
          cons r extra,
          rw new (
              e
              ∙ ap (λ (t : Items). append t extra) (push-append ls r)
              ∙ append_assoc ls (cons r nil) extra),
        )
  ]

or_absorb : (a b c : Bool) → (b ≡ true → a ≡ true) → (a || c) ≡ (a || (b || c))
or_absorb true b c h = refl
or_absorb false true c h = ground arith
or_absorb false false c h = refl

or_assoc : (a b c : Bool) → ((a || b) || c) ≡ (a || (b || c))
or_assoc true b c = refl
or_assoc false b c = refl

module _ (json : JsonLibrary) (law : ComparesValues json) where
  contains_cons :
      (r : Value) (rs : Items) (v : Value)
      → contains json (cons r rs) v ≡ (json.value_eq r v || contains json rs v)
  unfolding contains
  contains_cons r rs v = refl

  value_eq_refl : (v : Value) → json.value_eq v v ≡ true
  value_eq_refl v = (law v v).1 refl

  value_eq_of : (v w : Value) → json.value_eq v w ≡ true → v ≡ w
  value_eq_of v w h = (law v w).0 h

  -- A value is in the merged array exactly if it is in one of the two.
  contains-merge_items :
      (ls rs : Items) (v : Value)
      → contains json (merge_items json ls rs) v ≡ (contains json ls v || contains json rs v)
  unfolding merge_items
  contains-merge_items ls nil v = unfold contains in ground arith
  contains-merge_items ls (cons r rs) v = elim (Bool-cases (contains json ls r)) [
    | inl old ↦ rw old (
        contains-merge_items ls rs v
        ∙ or_absorb (contains json ls v) (json.value_eq r v) (contains json rs v)
            (λ e. rw (value_eq_of r v e) at old)
        ∙ ap (λ (b : Bool). contains json ls v || b) (sym (contains_cons r rs v)))
    | inr new ↦ rw new (
        contains-merge_items (push json ls r) rs v
        ∙ ap (λ (b : Bool). b || contains json rs v) (contains-push json ls r v)
        ∙ or_assoc (contains json ls v) (json.value_eq r v) (contains json rs v)
        ∙ ap (λ (b : Bool). contains json ls v || b) (sym (contains_cons r rs v)))
  ]

  value_ne_comm : (x v : Value) → json.value_eq x v ≡ false → json.value_eq v x ≡ false
  value_ne_comm x v h = elim (Bool-cases (json.value_eq v x)) [
    | inr differ ↦ differ
    | inl same ↦ absurd (both_ways (rw (value_eq_of v x same) (value_eq_refl x)) h)
  ]
    where
      both_ways : {b : Bool} → b ≡ true → b ≡ false → ⊥
      both_ways p q = cc

  push-IsDistinct :
      (xs : Items) (v : Value)
      → IsDistinct json xs
      → contains json xs v ≡ false
      → IsDistinct json (push json xs v)
  unfolding push contains
  push-IsDistinct nil v d h = (refl, tt)
  push-IsDistinct (cons x xs) v (dx, ds) h = (
    rw (contains-push json xs v x, dx) (value_ne_comm x v (ground arith)),
    push-IsDistinct xs v ds (ground arith),
  )

  merge_items-IsDistinct :
      (ls rs : Items) → IsDistinct json ls → IsDistinct json (merge_items json ls rs)
  unfolding merge_items
  merge_items-IsDistinct ls nil d = d
  merge_items-IsDistinct ls (cons r rs) d = elim (Bool-cases (contains json ls r)) [
    | inl old ↦ rw old (merge_items-IsDistinct ls rs d)
    | inr new ↦ rw new (merge_items-IsDistinct (push json ls r) rs (push-IsDistinct ls r d new))
  ]

-- Merging two arrays, the local one without repeats and `==` being equality, gives the local items
-- in their places with others behind them, holds exactly the items of the two arrays, and repeats
-- none.
pub merge_json_values_items :
    (json : JsonLibrary)
    → ComparesValues json
    → (ls rs : Items) → IsDistinct json ls
    → (extra : Items) × (merge_json_values json (array ls) (array rs)
        ≡ ok (array (append ls extra)))
      × ((v : Value)
          → contains json (append ls extra) v ≡ (contains json ls v || contains json rs v))
      × IsDistinct json (append ls extra)
unfolding merge_json_values
merge_json_values_items json law ls rs d =
    let (extra, e) = merge_items-append json ls rs in
    (
      extra,
      rw e,
      λ v. rw e at (contains-merge_items json law ls rs v),
      rw e at (merge_items-IsDistinct json law ls rs d),
    )

-- The larger number.
abbrev pub larger : ℕ → ℕ → ℕ
larger m n = if ltb n m then m else n

next_revision :
    (m n : ℕ)
    → m + 1 < 2 ^ 63
    → n + 1 < 2 ^ 63
    → wrap_i64 (max_ℤ (pos m) (pos n) +ℤ pos 1) ≡ pos (larger m n + 1)
unfolding wrap_i64 ◌+ℤ◌
next_revision m n h k = ground arith

-- Merging two documents whose revisions are not negative and stay below the limit of `i64`
-- succeeds: the result is the local document with the contents merged, the revision behind the
-- larger one, and no hash.
pub resolve_merge :
    (json : JsonLibrary) (local remote : Document) (m n : ℕ)
    → local.sync_revision ≡ pos m
    → remote.sync_revision ≡ pos n
    → m + 1 < 2 ^ 63
    → n + 1 < 2 ^ 63
    → (merged : Value) × (merge_json_values json local.content remote.content ≡ ok merged)
      × (resolve json merge_json local remote
          ≡ ok (record local {
            content = merged;
            sync_revision = pos (larger m n + 1);
            content_hash = none;
          }))
unfolding resolve merge_json_documents
resolve_merge json local remote m n p q h k =
    let (merged, e) = merge_json_values_total json local.content remote.content in
    (merged, e, rw (e, p, q, next_revision m n h k))
