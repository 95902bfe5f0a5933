-- ===== src/Ot/Segment/Escape.antt =====
-- Escapes in a segment: `~0` for a tilde and `~1` for a slash.
use replicant.Prelude.{
  ℕ, ◌⊎◌, All-append, ◌≡◌, ◌≢◌, refl, [], ◌∷◌, arith, Text, codes, ◌==◌, All, ap, ◌∙◌, ==_ne,
  ==_iff, Bool-cases, inl, inr,
}
use replicant.Ot.Segment.{slash, tilde, replace_pair, replace_char, unescape, escape}

abbrev pub Lacks : ℕ → Text → Type 0
Lacks c = All (λ d. d ≢ c)

module _ (a b r : ℕ) where
  replace_pair_hit : (s : Text) → replace_pair a b r (a ∷ b ∷ s) ≡ r ∷ replace_pair a b r s
  unfolding replace_pair
  replace_pair_hit s = ground arith

  replace_pair_other :
      (d : ℕ) (s : Text) → d ≢ b → replace_pair a b r (a ∷ d ∷ s) ≡ a ∷ replace_pair a b r (d ∷ s)
  unfolding replace_pair
  replace_pair_other d s h = ground arith

  replace_pair_skip :
      (c : ℕ) (s : Text) → c ≢ a → replace_pair a b r (c ∷ s) ≡ c ∷ replace_pair a b r s
  unfolding replace_pair
  replace_pair_skip c [] h = refl
  replace_pair_skip c (d ∷ s) h = ground arith

  replace_pair-Lacks : (s : Text) → Lacks a s → replace_pair a b r s ≡ s
  replace_pair-Lacks [] h = unfold replace_pair in refl
  replace_pair-Lacks (c ∷ s) (hc, hs) =
      replace_pair_skip c s hc ∙ ap (λ (t : Text). c ∷ t) (replace_pair-Lacks s hs)

-- A text without a tilde is read as it stands.
pub unescape-Lacks : (s : Text) → Lacks tilde s → unescape s ≡ s
unfolding unescape
unescape-Lacks s h =
    rw (replace_pair-Lacks tilde b'1' slash s h) (replace_pair-Lacks tilde b'0' tilde s h)

-- The first step of `escape`.
tildes : Text → Text
tildes s = replace_char tilde (codes "~0") s

escape-tilde : (s : Text) → escape (tilde ∷ s) ≡ tilde ∷ b'0' ∷ escape s
unfolding escape replace_char
escape-tilde s = refl

escape-slash : (s : Text) → escape (slash ∷ s) ≡ tilde ∷ b'1' ∷ escape s
unfolding escape replace_char
escape-slash s = refl

escape_plain : (c : ℕ) (s : Text) → c ≢ tilde → c ≢ slash → escape (c ∷ s) ≡ c ∷ escape s
unfolding escape replace_char
escape_plain c s ht hs = rw (==_ne ht, ==_ne hs)

reads_slashes : (s : Text) → replace_pair tilde b'1' slash (escape s) ≡ tildes s
unfolding tildes
reads_slashes [] = unfold replace_pair escape replace_char in refl
reads_slashes (c ∷ s) = elim (Bool-cases (c == tilde)) [
  | inl t ↦
      rw
        (
          (==_iff c tilde).0 t,
          escape-tilde s,
          replace_pair_other tilde b'1' slash b'0' (escape s) (omega arith),
          replace_pair_skip tilde b'1' slash b'0' (escape s) (omega arith),
          reads_slashes s,
        )
        (unfold replace_char in refl)
  | inr nt ↦ elim (Bool-cases (c == slash)) [
    | inl l ↦
        rw
          (
            (==_iff c slash).0 l,
            escape-slash s,
            replace_pair_hit tilde b'1' slash (escape s),
            reads_slashes s,
          )
          (unfold replace_char in refl)
    | inr nl ↦
        rw
          (
            escape_plain c s (ground arith) (ground arith),
            replace_pair_skip tilde b'1' slash c (escape s) (ground arith),
            reads_slashes s,
          )
          (unfold replace_char in rw nt)
  ]
]

reads_tildes : (s : Text) → replace_pair tilde b'0' tilde (tildes s) ≡ s
unfolding tildes replace_char
reads_tildes [] = unfold replace_pair in refl
reads_tildes (c ∷ s) = ground (
  arith,
  replace_pair_hit tilde b'0' tilde (tildes s),
  replace_pair_skip tilde b'0' tilde c (tildes s),
  reads_tildes s,
)

-- Unescaping an escaped key gives the key back, whatever tildes and slashes it holds.
pub unescape-escape : (s : Text) → unescape (escape s) ≡ s
unfolding unescape
unescape-escape s = rw (reads_slashes s) (reads_tildes s)

replace_char-Lacks :
    (a d : ℕ) (r s : Text) → a ≡ d ⊎ Lacks d s → Lacks d r → Lacks d (replace_char a r s)
unfolding replace_char
replace_char-Lacks a d r [] h hr = tt
replace_char-Lacks a d r (c ∷ s) h hr = elim (Bool-cases (c == a)) [
  | inl hit ↦ rw hit (All-append (λ e. e ≢ d) r _ hr (replace_char-Lacks a d r s (rest h) hr))
  | inr miss ↦ rw miss (ground arith, replace_char-Lacks a d r s (rest h) hr)
]
  where
    rest : a ≡ d ⊎ Lacks d (c ∷ s) → a ≡ d ⊎ Lacks d s
    rest (inl e) = inl e
    rest (inr l) = inr l.1

-- An escaped key holds no slash.
pub escape-Lacks : (s : Text) → Lacks slash (escape s)
unfolding escape tildes
escape-Lacks s = replace_char-Lacks slash slash (codes "~1") (tildes s) (inl refl) (omega arith)
