-- ===== src/Server/Verify.antt =====
-- The check of a signature (replicant-server/src/auth.rs), where the database answers.
use replicant.Prelude.{
  ◌≡◌, ◌↔◌, refl, sym, ap, ◌∙◌, Bool, true, false, inl, inr, Option, none, some, List, [], Text,
  text_eq, text_eq_iff, Bool-cases, ◌&&◌, arith,
}
use replicant.Prelude.Int.{ℤ}
use replicant.Errors.{SyncResult, ok}
use replicant.Server.State.{Server, query}
use replicant.Server.Auth.{
  ApiCredentials, AuthLibrary, in_window, starts_with_rpa, find_secret, create_hmac_signature,
  compare_signature, look_up, verify_hmac,
}

-- The result of a call that returns a test.
abbrev pub Answers : SyncResult Bool → Type 0 → Type 0
Answers r P = (b : Bool) × (r ≡ ok b) × ((b ≡ true) ↔ P)

abbrev secret_of : Option Text → Text
secret_of none = []
secret_of (some t) = t

none_found : (secret : Text) → none ≡ some secret → false ≡ true
none_found secret e = ground (arith, e)

module _ (auth : AuthLibrary) (credentials : List ApiCredentials) (api_key signature : Text)
    (timestamp : ℤ) (email body : Text) where
  -- The signature is that of the secret of the key's active credential.
  abbrev pub Signed : Type 0
  Signed =
      (secret : Text) × (find_secret api_key credentials ≡ some secret)
      × (signature ≡ create_hmac_signature auth secret timestamp email api_key body)

  compare_signature_iff :
      (o : Option Text) (s : Server)
      → find_secret api_key credentials ≡ o
      → Answers
          ((compare_signature auth credentials api_key signature timestamp email body o
            (record s { faults = [] })).0)
          Signed
  unfolding compare_signature query
  compare_signature_iff none s e =
      (false, refl, ((λ p. ground (arith, p)), λ (secret, f, _). none_found secret (sym e ∙ f)))
  compare_signature_iff (some secret) s e =
      elim (Bool-cases
        (text_eq signature (create_hmac_signature auth secret timestamp email api_key body))) [
          | inl y ↦
              let fits =
                (text_eq_iff signature
                    (create_hmac_signature auth secret timestamp email api_key body)).0
                  y in
              rw y (true, refl, ((λ p. (secret, e, fits)), λ q. refl))
          | inr n ↦ rw n (
            false,
            refl,
            (
              (λ p. ground (arith, p)),
              λ (other, f, g).
                  let same : other ≡ secret = ap secret_of (sym f ∙ e) in
                  let y : text_eq signature
                        (create_hmac_signature auth secret timestamp email api_key body)
                      ≡ true =
                    (text_eq_iff signature
                        (create_hmac_signature auth secret timestamp email api_key body)).1
                      (g
                        ∙ ap (λ z. create_hmac_signature auth z timestamp email api_key body)
                            same) in
                  sym n ∙ y,
            ),
          )
        ]

  look_up_iff :
      (a c : Bool) (s : Server)
      → Answers
          ((look_up auth credentials api_key signature timestamp email body
            (a && c)
            (record s { faults = [] })).0)
          ((a ≡ true) × (c ≡ true) × Signed)
  unfolding look_up query
  look_up_iff false c s = (false, refl, ((λ p. ground (arith, p)), λ (p, _, _). p))
  look_up_iff true false s = (false, refl, ((λ p. ground (arith, p)), λ (_, p, _). p))
  look_up_iff true true s =
      let (b, run, (out, back)) = compare_signature_iff (find_secret api_key credentials) s refl in
      (b, run, ((λ p. (refl, refl, out p)), λ (_, _, q). back q))

  pub verify_hmac-tests :
      (s : Server)
      → Answers
          ((verify_hmac auth credentials api_key signature timestamp email body
            (record s { faults = [] })).0)
          ((in_window (auth.timestamp s.now) timestamp ≡ true)
            × (starts_with_rpa api_key ≡ true)
            × Signed)
  unfolding verify_hmac
  verify_hmac-tests s =
      look_up_iff (in_window (auth.timestamp s.now) timestamp) (starts_with_rpa api_key) s
