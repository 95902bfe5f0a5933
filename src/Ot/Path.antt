-- ===== src/Ot/Path.antt =====
-- The functions of replicant-core/src/ot/path_utils.rs on one path. A path is a text.
pub mod RoundTrip
pub mod Adjust
use replicant.Prelude.{
  ℕ, suc, ◌-◌, ◌^◌, Bool, false, Option, none, some, List, [], ◌∷◌, ◌++◌, Text, codes, ◌==◌,
  if◌then◌else◌, text_eq, set,
}
use replicant.Prelude.Int.{ℤ, pos, negsuc, ◌+ℤ◌, ltb_ℤ, wrap_i64, show_int}
use replicant.Errors.{SyncError, invalid_operation, SyncResult, ok, err, ◌>>=◌}
use replicant.Ot.Types.{PathSegment, object, array, ParsedPath}
use replicant.Ot.Segment.{slash, parse_segment, show_segment}

abbrev pub cons_head : ℕ → List Text → List Text
cons_head c [] = (c ∷ []) ∷ []
cons_head c (p ∷ ps) = (c ∷ p) ∷ ps

-- `split('/')`: always at least one part.
unfoldable pub split_slash : Text → List Text
split_slash [] = [] ∷ []
split_slash (c ∷ s) = let rest = split_slash s in if c == slash then [] ∷ rest else cons_head c rest

unfoldable pub parse_segments : List Text → List PathSegment
unfolding parse_segment
parse_segments [] = []
parse_segments (p ∷ ps) = parse_segment p ∷ parse_segments ps

unfoldable pub parse_path : Text → SyncResult ParsedPath
unfolding parse_segments split_slash
parse_path [] = err (invalid_operation (codes "Empty path"))
parse_path (c ∷ s) =
    if c == slash
    then if text_eq (c ∷ s) (slash ∷ [])
      then ok (record { raw = c ∷ s; segments = [] })
      else ok (record { raw = c ∷ s; segments = parse_segments (split_slash s) })
    else err (invalid_operation (codes "Path must start with /: " ++ c ∷ s))

-- `.into_iter().rev().find_map(…)` over the array segments.
unfoldable pub last_index : List PathSegment → Option ℕ
last_index [] = none
last_index (seg ∷ segs) = elim (last_index segs) [
  | some i ↦ some i
  | none ↦ elim seg [ array i ↦ some i | object _ ↦ none ]
]

-- `.ok()?`
abbrev index_of : SyncResult ParsedPath → Option ℕ
unfolding last_index
index_of (ok p) = last_index p.segments
index_of (err e) = none

unfoldable pub extract_array_index : Text → Option ℕ
unfolding parse_path last_index
extract_array_index path = index_of (parse_path path)

abbrev pub is_target : ℕ → PathSegment → Bool
is_target target (array i) = i == target
is_target target (object _) = false

-- `.iter().enumerate().rev().find_map(…)`: the last place of the target.
unfoldable pub last_position : ℕ → List PathSegment → Option ℕ
last_position target [] = none
last_position target (seg ∷ segs) = elim (last_position target segs) [
  | some i ↦ some (suc i)
  | none ↦ if is_target target seg then some 0 else none
]

-- What the loop of `reconstruct_path` pushes.
unfoldable pub join_segments : List PathSegment → Text
unfolding show_segment
join_segments [] = []
join_segments (seg ∷ segs) = slash ∷ show_segment seg ++ join_segments segs

unfoldable pub reconstruct_path : List PathSegment → Text
unfolding join_segments
reconstruct_path [] = slash ∷ []
reconstruct_path (seg ∷ segs) = join_segments (seg ∷ segs)

-- `new_index as usize` of a number that is not negative, and of a negative one.
abbrev as_usize : ℤ → ℕ
as_usize (pos n) = n
as_usize (negsuc n) = 2 ^ 64 - suc n

-- The message of the refusal below zero.
unfoldable pub negative_index : ℤ → ℤ → ℤ → SyncError
unfolding show_int
negative_index old delta new = invalid_operation (
    codes "Index adjustment would be negative: "
    ++ (show_int old ++ (codes " + " ++ (show_int delta ++ (codes " = " ++ show_int new)))))

-- The part of `adjust_array_index` below the search; `isize` arithmetic wraps at 64 bits.
unfoldable pub shift_index : Text → List PathSegment → ℕ → ℤ → Option ℕ → SyncResult Text
unfolding reconstruct_path negative_index
shift_index path segments target delta none = ok path
shift_index path segments target delta (some at) =
    let old = wrap_i64 (pos target) in
    let new = wrap_i64 (old +ℤ delta) in
    if ltb_ℤ new (pos 0)
    then err (negative_index old delta new)
    else ok (reconstruct_path (set segments at (array (as_usize new))))

unfoldable pub adjust_array_index : Text → ℕ → ℤ → SyncResult Text
unfolding parse_path last_position shift_index
adjust_array_index path target delta = do
  parsed ← parse_path path
  shift_index path parsed.segments target delta (last_position target parsed.segments)
