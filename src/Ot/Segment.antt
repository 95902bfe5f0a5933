-- ===== src/Ot/Segment.antt =====
-- One segment of a path, as replicant-core/src/ot/path_utils.rs reads and writes it: escapes and
-- array indices.
pub mod Escape
pub mod Number
pub mod RoundTrip
use replicant.Prelude.{
  ℕ, ◌+◌, ◌-◌, ◌*◌, ◌^◌, true, false, ◌&&◌, ◌||◌, Option, none, some, [], ◌∷◌, ◌++◌, Text, codes,
  ltb, ◌==◌, if◌then◌else◌,
}
use replicant.Prelude.Int.{show_nat}
use replicant.Ot.Types.{PathSegment, object, array}

abbrev pub slash : ℕ
slash = b'/'

abbrev pub tilde : ℕ
tilde = b'~'

-- `str::replace` of the two characters `a b` by `r`, from left to right.
unfoldable pub replace_pair : ℕ → ℕ → ℕ → Text → Text
replace_pair a b r [] = []
replace_pair a b r (c ∷ []) = c ∷ []
replace_pair a b r (c ∷ d ∷ s) = elim ((c == a) && (d == b)) [
  | true ↦ r ∷ replace_pair a b r s
  | false ↦ c ∷ replace_pair a b r (d ∷ s)
]

-- `str::replace` of a character by a text.
unfoldable pub replace_char : ℕ → Text → Text → Text
replace_char a r [] = []
replace_char a r (c ∷ s) = (if c == a then r else c ∷ []) ++ replace_char a r s

-- `segment.replace("~1", "/").replace("~0", "~")`
unfoldable pub unescape : Text → Text
unfolding replace_pair
unescape s = replace_pair tilde b'0' tilde (replace_pair tilde b'1' slash s)

-- `key.replace('~', "~0").replace('/', "~1")`
unfoldable pub escape : Text → Text
unfolding replace_char
escape s = replace_char slash (codes "~1") (replace_char tilde (codes "~0") s)

-- One round of `parse::<usize>`: `checked_mul` and `checked_add` on 64 bits.
unfoldable pub push_digit : ℕ → ℕ → Option ℕ
push_digit c n =
    if ltb c b'0' || ltb b'9' c
    then none
    else if ltb (n * 10 + (c - b'0')) (2 ^ 64)
    then some (n * 10 + (c - b'0'))
    else none

unfoldable pub scan : Text → Option ℕ → Option ℕ
unfolding push_digit
scan s none = none
scan [] (some n) = some n
scan (c ∷ s) (some n) = scan s (push_digit c n)

-- `str::parse::<usize>`: a leading `+` is allowed, and at least one digit is needed.
unfoldable pub parse_usize : Text → Option ℕ
unfolding scan
parse_usize [] = none
parse_usize (c ∷ []) = scan (c ∷ []) (some 0)
parse_usize (c ∷ d ∷ s) = if c == b'+' then scan (d ∷ s) (some 0) else scan (c ∷ d ∷ s) (some 0)

-- The body of the loop in `parse_path`.
unfoldable pub parse_segment : Text → PathSegment
unfolding parse_usize unescape
parse_segment s = elim (parse_usize (unescape s)) [
  | some index ↦ array index
  | none ↦ object (unescape s)
]

unfoldable pub show_segment : PathSegment → Text
unfolding escape show_nat
show_segment (object key) = escape key
show_segment (array i) = show_nat i
