-- ===== src/Ot/Path/Adjust.antt =====
-- `extract_array_index` and `adjust_array_index` on the print of canonical segments.
use replicant.Prelude.{
  ℕ, ◌^◌, ◌<◌, ◌≡◌, ◌≢◌, refl, ◌∙◌, ap, true, false, true, none, some, List, [], ◌∷◌, ◌++◌, arith,
  Text, ==_ne, ==_refl, All, length, set,
}
use replicant.Prelude.Int.{ltb_ℤ, ℤ, pos, negsuc, ◌+ℤ◌, wrap_i64}
use replicant.Errors.{ok, err}
use replicant.Ot.Types.{PathSegment, object, array, ParsedPath}
use replicant.Ot.Segment.RoundTrip.{IsCanonical}
use replicant.Ot.Path.{
  parse_path, reconstruct_path, last_index, extract_array_index, last_position, negative_index,
  shift_index, adjust_array_index,
}
use replicant.Ot.Path.RoundTrip.{parse_path-reconstruct_path}

-- No later segment is the index `i`.
abbrev pub Free : ℕ → List PathSegment → Type 0
Free i = All (λ seg. seg ≢ array i)

wrap_i64_pos : (n : ℕ) → n < 2 ^ 63 → wrap_i64 (pos n) ≡ pos n
unfolding wrap_i64
wrap_i64_pos n h = ground arith

wrap_i64_neg : (n : ℕ) → n < 2 ^ 63 → wrap_i64 (negsuc n) ≡ negsuc n
unfolding wrap_i64
wrap_i64_neg n h = ground arith

ltb_ℤ_pos : (n : ℕ) → ltb_ℤ (pos n) (pos 0) ≡ false
ltb_ℤ_pos n = ground arith

ltb_ℤ_neg : (n : ℕ) → ltb_ℤ (negsuc n) (pos 0) ≡ true
ltb_ℤ_neg n = ground arith

last_position-Free : (i : ℕ) (segs : List PathSegment) → Free i segs → last_position i segs ≡ none
unfolding last_position
last_position-Free i [] h = refl
last_position-Free i (array j ∷ segs) (hj, hs) =
    rw (last_position-Free i segs hs, ==_ne {a = j} {b = i} (λ e. hj (ap array e)), last_position)
last_position-Free i (object k ∷ segs) (hk, hs) = rw (last_position-Free i segs hs, last_position)

last_position-append :
    (i : ℕ) (pre segs : List PathSegment)
    → Free i segs
    → last_position i (pre ++ array i ∷ segs) ≡ some (length pre)
unfolding last_position
last_position-append i [] segs h = rw (last_position-Free i segs h, ==_refl i, last_position)
last_position-append i (seg ∷ pre) segs h = rw (last_position-append i pre segs h, last_position)

set-append :
    (pre : List PathSegment) (x y : PathSegment) (segs : List PathSegment)
    → set (pre ++ x ∷ segs) (length pre) y ≡ pre ++ y ∷ segs
set-append [] x y segs = refl
set-append (p ∷ pre) x y segs = ap (λ (l : List PathSegment). p ∷ l) (set-append pre x y segs)

pub append-ne-single :
    (pre segs : List PathSegment) (i : ℕ) → pre ++ array i ∷ segs ≢ object [] ∷ []
append-ne-single [] segs i e = cc
append-ne-single (p ∷ []) segs i e = cc
append-ne-single (p ∷ q ∷ pre) segs i e = cc

last_index-append : (pre : List PathSegment) (i : ℕ) → last_index (pre ++ array i ∷ []) ≡ some i
unfolding last_index
last_index-append [] i = refl
last_index-append (p ∷ pre) i = rw (last_index-append pre i, last_index)

-- The index at the end of a path is the one that is extracted.
pub extract_array_index_last :
    (pre : List PathSegment) (i : ℕ)
    → All IsCanonical (pre ++ array i ∷ [])
    → extract_array_index (reconstruct_path (pre ++ array i ∷ [])) ≡ some i
unfolding extract_array_index
extract_array_index_last pre i h = rw (
  parse_path-reconstruct_path (pre ++ array i ∷ []) h (append-ne-single pre [] i),
  last_index-append pre i,
)

module _ (pre segs : List PathSegment) (i : ℕ) (delta : ℤ)
    (canonical : All IsCanonical (pre ++ array i ∷ segs)) (free : Free i segs)
    (small : i < 2 ^ 63) where
  -- The call, as far as the parsing and the search.
  adjust_found :
      adjust_array_index (reconstruct_path (pre ++ array i ∷ segs)) i delta
      ≡ shift_index
          (reconstruct_path (pre ++ array i ∷ segs))
          (pre ++ array i ∷ segs)
          i
          delta
          (some (length pre))
  unfolding adjust_array_index
  adjust_found = rw (
    parse_path-reconstruct_path (pre ++ array i ∷ segs) canonical (append-ne-single pre segs i),
    last_position-append i pre segs free,
  )

  -- In a path of canonical segments, where the target is below the limit of `isize` and no later
  -- segment is that index, the segment of the target is moved by the delta if the result is an
  -- index below that limit, and nothing else of the path changes.
  pub adjust_array_index_shift :
      (j : ℕ)
      → pos i +ℤ delta ≡ pos j
      → j < 2 ^ 63
      → adjust_array_index (reconstruct_path (pre ++ array i ∷ segs)) i delta
        ≡ ok (reconstruct_path (pre ++ array j ∷ segs))
  adjust_array_index_shift j e fits =
      adjust_found
      ∙ unfold shift_index in
        rw (
          wrap_i64_pos i small,
          e,
          wrap_i64_pos j fits,
          ltb_ℤ_pos j,
          set-append pre (array i) (array j) segs,
        )

  -- In a path of canonical segments, where the target is below the limit of `isize` and no later
  -- segment is that index, a delta that leads below zero, within `isize`, is refused with the
  -- message that names the three numbers.
  pub adjust_array_index_negative :
      (k : ℕ)
      → pos i +ℤ delta ≡ negsuc k
      → k < 2 ^ 63
      → adjust_array_index (reconstruct_path (pre ++ array i ∷ segs)) i delta
        ≡ err (negative_index (pos i) delta (negsuc k))
  adjust_array_index_negative k e fits =
      adjust_found
      ∙ unfold shift_index in rw (wrap_i64_pos i small, e, wrap_i64_neg k fits, ltb_ℤ_neg k)

-- A path without the target index is returned as it is.
pub adjust_array_index_miss :
    (path : Text) (target : ℕ) (delta : ℤ) {p : ParsedPath}
    → parse_path path ≡ ok p
    → Free target p.segments
    → adjust_array_index path target delta ≡ ok path
unfolding adjust_array_index shift_index
adjust_array_index_miss path target delta {p} e free =
    rw (e, last_position-Free target p.segments free)
