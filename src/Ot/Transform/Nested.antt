-- ===== src/Ot/Transform/Nested.antt =====
-- `transform_operation_pair` on additions of keys to one element of an array, whose index is not the
-- last segment.
use replicant.Prelude.{
  ℕ, ◌+◌, ◌^◌, ◌<◌, ◌≡◌, refl, some, none, List, [], ◌∷◌, ◌++◌, arith, All, All-append,
  text_eq_refl, leb_refl, Text, append_assoc,
}
use replicant.Prelude.Int.{pos, ◌+ℤ◌}
use replicant.Errors.{ok}
use replicant.Json.{Value, PatchOperation, add}
use replicant.Ot.Types.{PathSegment, object, array}
use replicant.Ot.Segment.{parse_usize}
use replicant.Ot.Segment.RoundTrip.{IsCanonical}
use replicant.Ot.Path.{reconstruct_path, last_index, extract_array_index, adjust_array_index}
use replicant.Ot.Path.RoundTrip.{parse_path-reconstruct_path}
use replicant.Ot.Path.Adjust.{adjust_array_index_shift, append-ne-single}
use replicant.Ot.Relation.{get_parent_path}
use replicant.Ot.Relation.Parent.{get_parent_path-reconstruct_path}
use replicant.Ot.Transform.{transform_add_add, transform_operation_pair}

-- The path of a key of the element at `i` of the array at `pre`.
abbrev pub member : List PathSegment → ℕ → Text → Text
member pre i key = reconstruct_path (pre ++ array i ∷ object key ∷ [])

abbrev pub set_member : List PathSegment → ℕ → Text → Value → PatchOperation
set_member pre i key v = add (record { path = member pre i key; value = v })

last_index-member :
    (pre : List PathSegment) (i : ℕ) (key : Text)
    → last_index (pre ++ array i ∷ object key ∷ []) ≡ some i
unfolding last_index
last_index-member [] i key = refl
last_index-member (p ∷ pre) i key = rw (last_index-member pre i key, last_index)

module _ (pre : List PathSegment) (i : ℕ) (canonical : All IsCanonical pre)
    (small : i + 1 < 2 ^ 63) where
  member-IsCanonical :
      (key : Text) → parse_usize key ≡ none → All IsCanonical (pre ++ array i ∷ object key ∷ [])
  member-IsCanonical key h = All-append IsCanonical pre _ canonical (omega arith, (h, tt))

  extract-member :
      (key : Text) → parse_usize key ≡ none → extract_array_index (member pre i key) ≡ some i
  unfolding extract_array_index
  extract-member key h = rw (
    parse_path-reconstruct_path _ (member-IsCanonical key h) (append-ne-single pre _ i),
    last_index-member pre i key,
  )

  parent-member :
      (key : Text)
      → parse_usize key ≡ none
      → get_parent_path (member pre i key) ≡ some (reconstruct_path (pre ++ array i ∷ []))
  parent-member key h = rw (append_assoc pre (array i ∷ []) (object key ∷ [])) at (
      get_parent_path-reconstruct_path (pre ++ array i ∷ []) (object key) h
        (rw append_assoc (append-ne-single pre (object key ∷ []) i)))

  shift-member :
      (key : Text)
      → parse_usize key ≡ none
      → adjust_array_index (member pre i key) i (pos 1) ≡ ok (member pre (i + 1) key)
  shift-member key h =
      adjust_array_index_shift pre (object key ∷ []) i (pos 1) (member-IsCanonical key h)
        ((λ e. cc), tt) (omega arith) (i + 1) (unfold ◌+ℤ◌ in ground arith) small

-- Two additions of keys that are no numbers to one element of an array come back with the second
-- one moved to the next element, where the segments above are canonical and the index lies below
-- the limit of `isize`.
pub set_member-moved :
    (pre : List PathSegment) (i : ℕ) (key other : Text) (v w : Value)
    → All IsCanonical pre
    → i + 1 < 2 ^ 63
    → parse_usize key ≡ none
    → parse_usize other ≡ none
    → transform_operation_pair (set_member pre i key v) (set_member pre i other w)
      ≡ ok (some (set_member pre i key v), some (set_member pre (i + 1) other w))
unfolding transform_operation_pair
set_member-moved pre i key other v w c h k l = rw (
  extract-member pre i c h key k,
  extract-member pre i c h other l,
  transform_add_add,
  parent-member pre i c h key k,
  parent-member pre i c h other l,
  text_eq_refl (reconstruct_path (pre ++ array i ∷ [])),
  leb_refl i,
  shift-member pre i c h other l,
)
