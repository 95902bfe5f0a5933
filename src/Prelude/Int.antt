-- ===== src/Prelude/Int.antt =====
-- Signed integers over the native numbers, and the decimal print of numbers.
use Prim.Native.Nat.{ℕ, zero, suc, ◌+◌, ◌-◌, ◌/◌, ◌%◌, ◌^◌}
use mathlib.Core.List.{[], ◌∷◌, ◌++◌}
use mathlib.Core.Bool.{Bool}
use mathlib.Core.Path.{◌≡◌, refl}
use replicant.Prelude.Tests.{ltb, leb, if◌then◌else◌, Text}

-- `negsuc n` is -(n + 1).
pub data ℤ : Type 0 where
  pos : ℕ → ℤ
  negsuc : ℕ → ℤ

abbrev pub pos_part : ℤ → ℕ
pos_part (pos n) = n
pos_part (negsuc n) = 0

abbrev pub neg_part : ℤ → ℕ
neg_part (pos n) = 0
neg_part (negsuc n) = suc n

-- a - b, as an integer.
abbrev pub sub_ℕ : ℕ → ℕ → ℤ
sub_ℕ a b = if leb b a then pos (a - b) else negsuc (b - a - 1)

infixl 65 ◌+ℤ◌
unfoldable pub ◌+ℤ◌ : ℤ → ℤ → ℤ
a +ℤ b = sub_ℕ (pos_part a + pos_part b) (neg_part a + neg_part b)

abbrev pub ltb_ℤ : ℤ → ℤ → Bool
ltb_ℤ a b = ltb (pos_part a + neg_part b) (pos_part b + neg_part a)

-- The signed number that the low 64 bits of an integer stand for.
unfoldable pub wrap_i64 : ℤ → ℤ
wrap_i64 z =
    let bits = (pos_part z % 2 ^ 64 + (2 ^ 64 - neg_part z % 2 ^ 64)) % 2 ^ 64 in
    if ltb bits (2 ^ 63) then pos bits else negsuc (2 ^ 64 - bits - 1)

-- Decimal digits of `n`, with fuel above `n`.
unfoldable pub digits : ℕ → ℕ → Text
digits zero n = []
digits (suc f) n =
    let more = digits f (n / 10) ++ (b'0' + n % 10) ∷ [] in
    if ltb n 10 then (b'0' + n) ∷ [] else more

-- `to_string` of an unsigned number.
unfoldable pub show_nat : ℕ → Text
unfolding digits
show_nat n = digits (suc n) n

-- `to_string` of a signed number.
unfoldable pub show_int : ℤ → Text
unfolding show_nat
show_int (pos n) = show_nat n
show_int (negsuc n) = b'-' ∷ show_nat (suc n)

show_nat_runs : show_nat 1_024 ≡ 49 ∷ 48 ∷ 50 ∷ 52 ∷ []
unfolding show_nat
show_nat_runs = refl

wrap_i64_runs : wrap_i64 (pos (2 ^ 63)) ≡ negsuc (2 ^ 63 - 1)
unfolding wrap_i64
wrap_i64_runs = refl

wrap_i64_negative : wrap_i64 (negsuc 4) ≡ negsuc 4
unfolding wrap_i64
wrap_i64_negative = refl
