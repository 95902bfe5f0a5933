-- ===== src/Server/Accepts.antt =====
-- What the check of a signature (replicant-server/src/auth.rs) accepts, apart from its code.
use replicant.Prelude.{
  ℕ, suc, not, ◌+◌, ◌-◌, ◌^◌, ◌≤◌, ◌<◌, ◌≡◌, ◌≢◌, ◌↔◌, refl, sym, ap, ◌∙◌, subst, true, false, ◌&&◌,
  ◌⊎◌, inl, inr, some, List, [], ◌∷◌, ◌++◌, codes, Text, text_eq, text_eq_iff, text_eq_refl,
  Bool-cases, leb, arith,
}
use replicant.Prelude.Int.{pos, negsuc, sub_ℕ, ltb_ℤ, wrap_i64, show_int}
use replicant.Server.State.{Server}
use replicant.Server.Auth.{
  ApiCredentials, AuthLibrary, sub_i64, abs_i64, in_window, starts_with_rpa, find_secret,
  create_hmac_signature, verify_hmac,
}
use replicant.Server.Verify.{Answers, Signed, verify_hmac-tests}

-- At most 300 seconds lie between the two times.
abbrev pub InTime : ℕ → ℕ → Type 0
InTime now timestamp = (now ≤ timestamp + 300) × (timestamp ≤ now + 300)

abbrev pub HasPrefix : Text → Type 0
HasPrefix key = (rest : Text) × (key ≡ codes "rpa_" ++ rest)

abbrev pub Stored : ApiCredentials → List ApiCredentials → Type 0
Stored c [] = ⊥
Stored c (d ∷ ds) = (c ≡ d) ⊎ Stored c ds

-- No two rows have one key.
abbrev pub UniqueKeys : List ApiCredentials → Type 0
UniqueKeys [] = Unit {0}
UniqueKeys (c ∷ cs) = ((d : ApiCredentials) → Stored d cs → d.api_key ≢ c.api_key) × UniqueKeys cs

wrap_pos : (n : ℕ) → n < 2 ^ 63 → wrap_i64 (pos n) ≡ pos n
unfolding wrap_i64
wrap_pos n h = ground (arith, h)

wrap_negsuc : (n : ℕ) → n < 2 ^ 63 → wrap_i64 (negsuc n) ≡ negsuc n
unfolding wrap_i64
wrap_negsuc n h = ground (arith, h)

sub_i64_lem : (n m : ℕ) → n < 2 ^ 63 → m < 2 ^ 63 → sub_i64 (pos n) (pos m) ≡ sub_ℕ n m
unfolding sub_i64
sub_i64_lem n m h k =
    let n_same : n + 0 ≡ n = omega arith in
    let m_same : 0 + m ≡ m = omega arith in
    ap (λ z. wrap_i64 (sub_ℕ z (0 + m))) n_same
    ∙ ap (λ z. wrap_i64 (sub_ℕ n z)) m_same
    ∙ go (Bool-cases (leb m n))
  where
    go : (leb m n ≡ true) ⊎ (leb m n ≡ false) → wrap_i64 (sub_ℕ n m) ≡ sub_ℕ n m
    go (inl e) = rw e (wrap_pos (n - m) (omega (arith, h)))
    go (inr e) = rw e (wrap_negsuc (m - n - 1) (omega (arith, k)))

abs_i64_pos : (n : ℕ) → n < 2 ^ 63 → abs_i64 (pos n) ≡ pos n
unfolding abs_i64
abs_i64_pos n h =
    let same : n + 0 ≡ n = omega arith in ap (λ z. wrap_i64 (pos z)) same ∙ wrap_pos n h

abs_i64_negsuc : (n : ℕ) → suc n < 2 ^ 63 → abs_i64 (negsuc n) ≡ pos (suc n)
unfolding abs_i64
abs_i64_negsuc n h =
    let same : 0 + suc n ≡ suc n = omega arith in
    ap (λ z. wrap_i64 (pos z)) same ∙ wrap_pos (suc n) h

-- The distance of two times.
distance :
    (n m : ℕ)
    → n < 2 ^ 63
    → m < 2 ^ 63
    → (d : ℕ) × (abs_i64 (sub_i64 (pos n) (pos m)) ≡ pos d) × ((d ≤ 300) ↔ InTime n m)
distance n m h k = elim (Bool-cases (leb m n)) [
  | inl e ↦ (
    n - m,
    ap abs_i64 (sub_i64_lem n m h k ∙ rw e refl) ∙ abs_i64_pos (n - m) (omega (arith, h)),
    ((λ p. (ground (arith, p, e), ground (arith, p, e))), λ (q, r). ground (arith, q, r, e)),
  )
  | inr e ↦ (
    suc (m - n - 1),
    ap abs_i64 (sub_i64_lem n m h k ∙ rw e refl)
        ∙ abs_i64_negsuc (m - n - 1) (ground (arith, k, e)),
    ((λ p. (ground (arith, p, e), ground (arith, p, e))), λ (q, r). ground (arith, q, r, e)),
  )
]

in_window_iff :
    (n m : ℕ) → n < 2 ^ 63 → m < 2 ^ 63 → (in_window (pos n) (pos m) ≡ true) ↔ InTime n m
unfolding in_window
in_window_iff n m h k =
    let (d, is, (out, back)) = distance n m h k in
    subst (λ z. (not (ltb_ℤ (pos 300) z) ≡ true) ↔ InTime n m) (sym is)
      ((λ p. out (ground (arith, p))), λ q. ground (arith, back q))

starts_with_rpa_iff : (key : Text) → (starts_with_rpa key ≡ true) ↔ HasPrefix key
unfolding starts_with_rpa
starts_with_rpa_iff [] = ((λ p. ground (arith, p)), λ (r, e). ap starts_with_rpa e)
starts_with_rpa_iff (a ∷ []) = ((λ p. ground (arith, p)), λ (r, e). ap starts_with_rpa e)
starts_with_rpa_iff (a ∷ b ∷ []) = ((λ p. ground (arith, p)), λ (r, e). ap starts_with_rpa e)
starts_with_rpa_iff (a ∷ b ∷ c ∷ []) = ((λ p. ground (arith, p)), λ (r, e). ap starts_with_rpa e)
starts_with_rpa_iff (a ∷ b ∷ c ∷ d ∷ rest) =
    ((λ p. (rest, ground (arith, p))), λ (r, e). ap starts_with_rpa e)

-- The key's active row, where keys are unique.
module _ (api_key : Text) where
  find_secret-Stored :
      (cs : List ApiCredentials) (secret : Text)
      → find_secret api_key cs ≡ some secret
      → (c : ApiCredentials) × Stored c cs
        × (c.api_key ≡ api_key)
        × (c.is_active ≡ true)
        × (c.secret ≡ secret)
  unfolding find_secret
  find_secret-Stored [] secret e = ground (arith, e)
  find_secret-Stored (c ∷ cs) secret e =
      elim (Bool-cases (text_eq c.api_key api_key && c.is_active)) [
        | inl h ↦ (
          c,
          inl refl,
          (text_eq_iff c.api_key api_key).0 (ground (arith, h)),
          ground (arith, h),
          ground (arith, (rw h at e)),
        )
        | inr h ↦
            let (d, there, same, active, its) = find_secret-Stored cs secret (rw h at e) in
            (d, inr there, same, active, its)
      ]

  Stored-find_secret :
      (cs : List ApiCredentials) (c : ApiCredentials)
      → UniqueKeys cs
      → Stored c cs
      → c.api_key ≡ api_key
      → c.is_active ≡ true
      → find_secret api_key cs ≡ some c.secret
  unfolding find_secret
  Stored-find_secret [] c unique there same active = absurd there
  Stored-find_secret (d ∷ cs) c (apart, unique) (inl e) same active =
      subst (λ z. find_secret api_key (z ∷ cs) ≡ some c.secret) e
        (rw (same, text_eq_refl api_key, active) refl)
  Stored-find_secret (d ∷ cs) c (apart, unique) (inr there) same active =
      elim (Bool-cases (text_eq d.api_key api_key)) [
        | inl h ↦ absurd (apart c there (same ∙ sym ((text_eq_iff d.api_key api_key).0 h)))
        | inr h ↦ rw h (Stored-find_secret cs c unique there same active)
      ]

module _ (auth : AuthLibrary) (credentials : List ApiCredentials) (api_key signature : Text) where
  -- The signature is the hash of `timestamp.email.api_key.body` under the secret of an active row of
  -- the key.
  abbrev pub SignedBy : ℕ → Text → Text → Type 0
  SignedBy timestamp email body =
      (c : ApiCredentials) × Stored c credentials
      × (c.api_key ≡ api_key)
      × (c.is_active ≡ true)
      × (signature
          ≡ auth.hmac_hex c.secret (
              show_int (pos timestamp)
              ++ (codes "." ++ (email ++ (codes "." ++ (api_key ++ (codes "." ++ body)))))))

  Signed_iff :
      (timestamp : ℕ) (email body : Text)
      → UniqueKeys credentials
      → Signed auth credentials api_key signature (pos timestamp) email body
        ↔ SignedBy timestamp email body
  unfolding create_hmac_signature
  Signed_iff timestamp email body unique = (
    (λ (secret, found, signed).
        let (c, there, same, active, its) = find_secret-Stored api_key credentials secret found in
        (
          c,
          there,
          same,
          active,
          signed
              ∙ ap (λ z. create_hmac_signature auth z (pos timestamp) email api_key body) (sym its),
        )),
    λ (c, there, same, active, signed).
        (c.secret, Stored-find_secret api_key credentials c unique there same active, signed),
  )

  -- With no query failing, keys unique in the table, and both times from 0 up to the largest `i64`,
  -- the check of a signature returns a Boolean, and it is true exactly if the two times are at most
  -- 300 seconds apart, the key is `rpa_` with some text behind it, and an active row of the key has
  -- a secret whose hash of the time, the address, the key and the body, with dots between them, is
  -- the signature.
  pub verify_hmac_iff :
      (email body : Text)
      → UniqueKeys credentials
      → (s : Server) (now timestamp : ℕ) → auth.timestamp s.now ≡ pos now
      → now < 2 ^ 63
      → timestamp < 2 ^ 63
      → Answers
          ((verify_hmac auth credentials api_key signature
            (pos timestamp)
            email
            body
            (record s { faults = [] })).0)
          (InTime now timestamp × HasPrefix api_key × SignedBy timestamp email body)
  verify_hmac_iff email body unique s now timestamp clock h k =
      let (b, run, (out, back)) =
        verify_hmac-tests auth credentials api_key signature (pos timestamp) email body s in
      let window = in_window_iff now timestamp h k in
      let prefixed = starts_with_rpa_iff api_key in
      let signed = Signed_iff timestamp email body unique in
      (
        b,
        run,
        (
          (λ p.
              let (w, q, r) = out p in
              (
                window.0 (ap (λ z. in_window z (pos timestamp)) (sym clock) ∙ w),
                prefixed.0 q,
                signed.0 r,
              )),
          λ (w, q, r).
              back (
                ap (λ z. in_window z (pos timestamp)) clock ∙ window.1 w,
                prefixed.1 q,
                signed.1 r,
              ),
        ),
      )
