-- ===== src/Ffi/Arguments.antt =====
-- The arguments of the functions that change documents (replicant-client/src/ffi.rs).
use replicant.Prelude.{ℕ, ◌≡◌, refl, sym, ap, ◌∙◌, ◌⊎◌, inl, inr, Option, none, some, arith}
use replicant.Json.{Value}
use replicant.Ffi.{
  FfiLibrary, CStr, null, invalid, text, error_invalid_input, error_serialization, Replicant, Body,
  Got, ◌>>=◌, ◌>>◌, pure, return, or_return, not_null, to_str, Reply, finish,
}
use replicant.Ffi.Documents.{
  parse_id, parse_content, create_in, update_in, delete_in, replicant_create_document_with_id,
  replicant_update_document, replicant_delete_document,
}

-- The function is refused for its arguments, and leaves the handle as it was.
abbrev pub Refused : {A : Type 0} → Replicant → Reply A → Type 0
Refused r reply =
    ((reply.code ≡ error_invalid_input) ⊎ (reply.code ≡ error_serialization))
    × (reply.replicant ≡ some r)

abbrev pub both : {A B : Type 0} → Option A → Option B → Option (A × B)
both none b = none
both (some a) none = none
both (some a) (some b) = some (a, b)

module _ (lib : FfiLibrary) where
  -- The identifier that a C string holds.
  abbrev pub id_of : CStr → Option ℕ
  id_of null = none
  id_of invalid = none
  id_of (text t) = lib.parse_uuid t

  abbrev pub content_of : CStr → Option Value
  content_of null = none
  content_of invalid = none
  content_of (text t) = (lib.client).events.from_str t

  -- The function does its work exactly if the arguments are good.
  abbrev pub Guards :
      {A B : Type 0} → Option A → (A → Got B × Replicant) → Replicant → Reply B → Type 0
  Guards o work r reply =
      ((o ≡ none) × Refused r reply) ⊎ ((a : _) × (o ≡ some a) × (reply ≡ finish (work a)))

  module _ {B : Type 0} (r : Replicant) where
    one :
        (a : CStr) (work : ℕ → Body B)
        → Guards
            (id_of a)
            (λ i. work i r)
            r
            (finish ((not_null a >> (to_str a >>= λ t. parse_id lib t >>= work)) r))
    one null work = inl (refl, (inl refl, refl))
    one invalid work = inl (refl, (inl refl, refl))
    one (text t) work = read (lib.parse_uuid t)
      where
        read :
            (o : Option ℕ)
            → Guards o (λ i. work i r) r (finish ((or_return error_invalid_input o >>= work) r))
        read none = inl (refl, (inl refl, refl))
        read (some i) = inr (i, refl, refl)

    content :
        (i : ℕ) (b : CStr) (work : ℕ × Value → Body B)
        → Guards
            (both (some i) (content_of b))
            (λ p. work p r)
            r
            (finish ((to_str b >>= λ t. parse_content lib t >>= λ c. work (i, c)) r))
    content i null work = inl (refl, (inl refl, refl))
    content i invalid work = inl (refl, (inl refl, refl))
    content i (text t) work = read ((lib.client).events.from_str t)
      where
        read :
            (o : Option Value)
            → Guards
                (both (some i) o)
                (λ p. work p r)
                r
                (finish ((or_return error_serialization o >>= λ c. work (i, c)) r))
        read none = inl (refl, (inr refl, refl))
        read (some c) = inr ((i, c), refl, refl)

    identifier :
        (a b : CStr) (work : ℕ × Value → Body B)
        → Guards
            (both (id_of a) (content_of b))
            (λ p. work p r)
            r
            (finish (
              (to_str a >>= λ t.
              parse_id lib t >>= λ i. to_str b >>= λ u. parse_content lib u >>= λ c. work (i, c))
                r))
    identifier null b work = inl (refl, (inl refl, refl))
    identifier invalid b work = inl (refl, (inl refl, refl))
    identifier (text t) b work = read (lib.parse_uuid t)
      where
        read :
            (o : Option ℕ)
            → Guards
                (both o (content_of b))
                (λ p. work p r)
                r
                (finish (
                  (or_return error_invalid_input o >>= λ i.
                  to_str b >>= λ u. parse_content lib u >>= λ c. work (i, c))
                    r))
        read none = inl (refl, (inl refl, refl))
        read (some i) = content i b work

    -- Behind the checks for null pointers.
    two :
        (a b : CStr) (work : ℕ × Value → Body B)
        → Guards
            (both (id_of a) (content_of b))
            (λ p. work p r)
            r
            (finish (
              (not_null a
                  >> (not_null b
                      >> (to_str a >>= λ t. parse_id lib t >>= λ i.
                          to_str b >>= λ u. parse_content lib u >>= λ c. work (i, c))))
                r))
    two null b work = inl (refl, (inl refl, refl))
    two invalid null work = inl (refl, (inl refl, refl))
    two (text t) null work = null_content (id_of (text t))
      where
        null_content :
            (o : Option ℕ)
            → Guards
                (both o none)
                (λ (p : ℕ × Value). work p r)
                r
                (finish {A = B} (return error_invalid_input r))
        null_content none = inl (refl, (inl refl, refl))
        null_content (some i) = inl (refl, (inl refl, refl))
    two invalid invalid work = identifier invalid invalid work
    two invalid (text u) work = identifier invalid (text u) work
    two (text t) invalid work = identifier (text t) invalid work
    two (text t) (text u) work = identifier (text t) (text u) work

  pub replicant_update_document-args :
      (a b : CStr) (r : Replicant)
      → Guards
          (both (id_of a) (content_of b))
          (λ p. update_in lib r.has_engine (p.0) (p.1) r)
          r
          (replicant_update_document lib a b (some r))
  unfolding replicant_update_document
  replicant_update_document-args a b r = two r a b (λ p r'. update_in lib r'.has_engine p.0 p.1 r')

  pub replicant_create_document_with_id-args :
      (a b : CStr) (r : Replicant)
      → Guards
          (both (id_of a) (content_of b))
          (λ p. (create_in lib r.has_engine (p.0) (p.1) >>= λ id. pure tt) r)
          r
          (replicant_create_document_with_id lib a b (some r))
  unfolding replicant_create_document_with_id
  replicant_create_document_with_id-args a b r =
      two r a b (λ p r'. (create_in lib r'.has_engine p.0 p.1 >>= λ id. pure tt) r')

  pub replicant_delete_document-args :
      (a : CStr) (r : Replicant)
      → Guards
          (id_of a)
          (λ i. delete_in lib r.has_engine i r)
          r
          (replicant_delete_document lib a (some r))
  unfolding replicant_delete_document
  replicant_delete_document-args a r = one r a (λ i r'. delete_in lib r'.has_engine i r')

  -- With good arguments the creation is that of the mode.
  pub replicant_create_document_with_id-good :
      (a b : CStr) (i : ℕ) (c : Value) (r : Replicant)
      → id_of a ≡ some i
      → content_of b ≡ some c
      → replicant_create_document_with_id lib a b (some r)
        ≡ finish ((create_in lib r.has_engine i c >>= λ id. pure tt) r)
  replicant_create_document_with_id-good a b i c r is_id is_content =
      told (replicant_create_document_with_id-args a b r)
    where
      good : both (id_of a) (content_of b) ≡ some (i, c)
      good = rw (is_id, is_content) refl

      unsome : {p q : ℕ × Value} → some p ≡ some q → p ≡ q
      unsome h = cc

      told :
          Guards
            (both (id_of a) (content_of b))
            (λ p. (create_in lib r.has_engine (p.0) (p.1) >>= λ id. pure tt) r)
            r
            (replicant_create_document_with_id lib a b (some r))
          → replicant_create_document_with_id lib a b (some r)
            ≡ finish ((create_in lib r.has_engine i c >>= λ id. pure tt) r)
      told (inl (bad, _)) = absurd (ground (arith, bad, good))
      told (inr ((j, d), same, e)) =
          e
          ∙ ap (λ o. finish ((create_in lib r.has_engine (o.0) (o.1) >>= λ id. pure tt) r))
              (unsome (sym same ∙ good))
