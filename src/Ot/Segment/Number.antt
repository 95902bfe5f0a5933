-- ===== src/Ot/Segment/Number.antt =====
-- Array indices: what `to_string` prints, `parse::<usize>` reads.
use replicant.Prelude.{
  ℕ, zero, suc, ◌+◌, ◌/◌, ◌%◌, ◌^◌, ◌≤◌, ◌<◌, ◌≡◌, ◌≢◌, refl, ◌∙◌, Option, none, some, [], ◌∷◌,
  ◌++◌, arith, Text, ltb, ==_ne, All, All-append, Bool-cases, inl, inr, ◌⊎◌,
}
use replicant.Prelude.Int.{digits, show_nat}
use replicant.Ot.Segment.{push_digit, scan, parse_usize}
use replicant.Ot.Segment.Escape.{Lacks}

abbrev pub IsDigit : ℕ → Type 0
IsDigit c = (b'0' ≤ c) × (c ≤ b'9')

abbrev push : ℕ → Option ℕ → Option ℕ
unfolding push_digit
push c none = none
push c (some n) = push_digit c n

scan-append : (s : Text) (c : ℕ) (o : Option ℕ) → scan (s ++ c ∷ []) o ≡ push c (scan s o)
unfolding scan push
scan-append [] c none = refl
scan-append [] c (some n) = elim (push_digit c n) as (λ o. scan [] o ≡ o) [
  | none ↦ refl
  | some m ↦ refl
]
scan-append (d ∷ s) c none = refl
scan-append (d ∷ s) c (some n) = scan-append s c (push_digit d n)

push_last : (n : ℕ) → n < 2 ^ 64 → push_digit (b'0' + n % 10) (n / 10) ≡ some n
unfolding push_digit
push_last n h = ground arith

scan-digits : (f n : ℕ) → n < f → n < 2 ^ 64 → scan (digits f n) (some 0) ≡ some n
unfolding digits
scan-digits zero n h fits = absurd (omega arith)
scan-digits (suc f) n h fits = elim (Bool-cases (ltb n 10)) [
  | inl small ↦ rw small (unfold scan push_digit in ground arith)
  | inr large ↦
      rw
        (
          large,
          scan-append (digits f (n / 10)) (b'0' + n % 10) (some 0),
          scan-digits f (n / 10) (ground arith) (omega arith),
        )
        (unfold push in push_last n fits)
]

digits-IsDigit : (f n : ℕ) → All IsDigit (digits f n)
unfolding digits
digits-IsDigit zero n = tt
digits-IsDigit (suc f) n = elim (Bool-cases (ltb n 10)) [
  | inl small ↦ rw small (ground arith)
  | inr large ↦
      rw large (All-append IsDigit (digits f (n / 10)) _ (digits-IsDigit f (n / 10)) (omega arith))
]

append-ne-nil : (s : Text) (c : ℕ) → s ++ c ∷ [] ≢ []
append-ne-nil [] c = ground arith
append-ne-nil (d ∷ s) c = ground arith

digits-ne-nil : (f n : ℕ) → digits (suc f) n ≢ []
unfolding digits
digits-ne-nil f n = ground (arith, append-ne-nil (digits f (n / 10)) (b'0' + n % 10))

-- No sign in front: the digits are read at once.
parse_usize-scan : (s : Text) → s ≢ [] → All IsDigit s → parse_usize s ≡ scan s (some 0)
unfolding parse_usize
parse_usize-scan [] h d = absurd (h refl)
parse_usize-scan (c ∷ []) h d = refl
parse_usize-scan (c ∷ e ∷ s) h (dc, ds) = rw (==_ne {a = c} {b = b'+'} (omega arith))

pub show_nat-IsDigit : (n : ℕ) → All IsDigit (show_nat n)
unfolding show_nat
show_nat-IsDigit n = digits-IsDigit (suc n) n

-- Every 64-bit index is read back from its print.
pub parse_usize-show_nat : (n : ℕ) → n < 2 ^ 64 → parse_usize (show_nat n) ≡ some n
unfolding show_nat
parse_usize-show_nat n fits =
    parse_usize-scan (digits (suc n) n) (digits-ne-nil n n) (digits-IsDigit (suc n) n)
    ∙ scan-digits (suc n) n (omega arith) fits

pub IsDigit-Lacks : (d : ℕ) → (d < b'0') ⊎ (b'9' < d) → (s : Text) → All IsDigit s → Lacks d s
IsDigit-Lacks d h [] a = tt
IsDigit-Lacks d h (c ∷ s) (hc, hs) = (omega arith, IsDigit-Lacks d h s hs)

-- An index that is read is a 64-bit number, whatever the text.
scan-lt :
    (s : Text) (o : Option ℕ) {n : ℕ}
    → ((m : ℕ) → o ≡ some m → m < 2 ^ 64)
    → scan s o ≡ some n
    → n < 2 ^ 64
unfolding scan
scan-lt [] none h e = ground arith
scan-lt (c ∷ s) none h e = ground arith
scan-lt [] (some m) h e = ground (arith, h m)
scan-lt (c ∷ s) (some m) h e =
    scan-lt s (push_digit c m) (λ k q. unfold push_digit in ground arith) e

pub parse_usize-lt : (s : Text) {n : ℕ} → parse_usize s ≡ some n → n < 2 ^ 64
unfolding parse_usize
parse_usize-lt [] e = ground arith
parse_usize-lt (c ∷ []) e = scan-lt (c ∷ []) (some 0) (λ m q. ground arith) e
parse_usize-lt (c ∷ d ∷ s) {n} e = ground (
  arith,
  scan-lt (d ∷ s) (some 0) {n = n} (λ m q. ground arith),
  scan-lt (c ∷ d ∷ s) (some 0) {n = n} (λ m q. ground arith),
)
