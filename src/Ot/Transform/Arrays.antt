-- ===== src/Ot/Transform/Arrays.antt =====
-- `transform_operation_pair` on additions to and removals from one array, found by their paths.
use replicant.Prelude.{
  ℕ, ◌+◌, ◌-◌, ◌^◌, ◌<◌, ◌≡◌, some, List, [], ◌∷◌, ◌++◌, arith, leb, ltb, Bool-cases, inl, inr,
  true, All, All-append, text_eq_refl, Text,
}
use replicant.Prelude.Int.{pos, negsuc, ◌+ℤ◌}
use replicant.Errors.{ok}
use replicant.Json.{Value, PatchOperation, add, remove}
use replicant.Ot.Types.{PathSegment, array}
use replicant.Ot.Segment.RoundTrip.{IsCanonical}
use replicant.Ot.Path.{reconstruct_path, extract_array_index, adjust_array_index}
use replicant.Ot.Path.Adjust.{extract_array_index_last, adjust_array_index_shift, append-ne-single}
use replicant.Ot.Relation.{get_parent_path, option_eq}
use replicant.Ot.Relation.Parent.{get_parent_path-reconstruct_path}
use replicant.Ot.Transform.Convergence.{Converges, transform_edits-Converges}
use replicant.Ot.Transform.Edits.{Fits, Tie, Edit, insertion, deletion, transform_edits}
use replicant.Ot.Transform.{
  transform_add_add, transform_remove_remove, transform_add_remove, transform_operation_pair,
}

-- The path of an index of the array at `pre`.
abbrev pub element : List PathSegment → ℕ → Text
element pre i = reconstruct_path (pre ++ array i ∷ [])

-- The operation that a patch holds for an edit of the array at `pre`.
abbrev pub operation : List PathSegment → Edit Value → PatchOperation
operation pre (insertion i v) = add (record { path = element pre i; value = v })
operation pre (deletion i) = remove (record { path = element pre i })

abbrev pub index : Edit Value → ℕ
index (insertion i v) = i
index (deletion i) = i

-- The transformation of two operations on one array is that of the edits.
abbrev pub Transformed : List PathSegment → Edit Value → Edit Value → Type 0
Transformed pre a b =
    transform_operation_pair (operation pre a) (operation pre b)
    ≡ ok
        (some (operation pre (transform_edits a b).0), some (operation pre (transform_edits a b).1))

module _ (pre : List PathSegment) (canonical : All IsCanonical pre) where
  element-IsCanonical : (i : ℕ) → i < 2 ^ 63 → All IsCanonical (pre ++ array i ∷ [])
  element-IsCanonical i h = All-append IsCanonical pre _ canonical (omega arith)

  pub extract-element : (i : ℕ) → i < 2 ^ 63 → extract_array_index (element pre i) ≡ some i
  extract-element i h = extract_array_index_last pre i (element-IsCanonical i h)

  parent-element :
      (i : ℕ) → i < 2 ^ 63 → get_parent_path (element pre i) ≡ some (reconstruct_path pre)
  parent-element i h =
      get_parent_path-reconstruct_path pre (array i) (omega arith) (append-ne-single pre [] i)

  shift_up :
      (i : ℕ)
      → i + 1 < 2 ^ 63
      → adjust_array_index (element pre i) i (pos 1) ≡ ok (element pre (i + 1))
  shift_up i h =
      adjust_array_index_shift pre [] i (pos 1) (element-IsCanonical i (omega arith)) tt
        (omega arith) (i + 1) (unfold ◌+ℤ◌ in ground arith) h

  shift_down :
      (i : ℕ)
      → 0 < i
      → i < 2 ^ 63
      → adjust_array_index (element pre i) i (negsuc 0) ≡ ok (element pre (i - 1))
  shift_down i p h =
      adjust_array_index_shift pre [] i (negsuc 0) (element-IsCanonical i h) tt h (i - 1)
        (unfold ◌+ℤ◌ in ground arith) (omega arith)

  same_array :
      (i j : ℕ)
      → i < 2 ^ 63
      → j < 2 ^ 63
      → option_eq (get_parent_path (element pre i)) (get_parent_path (element pre j)) ≡ true
  same_array i j h k =
      rw (parent-element i h, parent-element j k) (text_eq_refl (reconstruct_path pre))

  add_add :
      (i j : ℕ) (v w : Value)
      → i + 1 < 2 ^ 63
      → j + 1 < 2 ^ 63
      → Transformed pre (insertion i v) (insertion j w)
  unfolding transform_operation_pair
  add_add i j v w h k =
      rw
        (
          extract-element i (omega arith),
          extract-element j (omega arith),
          transform_add_add,
          same_array i j (omega arith) (omega arith),
        )
        (elim (Bool-cases (leb i j)) [
          | inl le ↦ rw (le, shift_up j k)
          | inr gt ↦ rw (gt, shift_up i h)
        ])

  remove_remove :
      (i j : ℕ) → i + 1 < 2 ^ 63 → j + 1 < 2 ^ 63 → Transformed pre (deletion i) (deletion j)
  unfolding transform_operation_pair
  remove_remove i j h k =
      rw
        (
          extract-element i (omega arith),
          extract-element j (omega arith),
          transform_remove_remove,
          same_array i j (omega arith) (omega arith),
        )
        (elim (Bool-cases (ltb i j)) [
          | inl lt ↦ rw (lt, shift_down j (ground arith) (omega arith))
          | inr ge ↦ elim (Bool-cases (ltb j i)) [
            | inl gt ↦ rw (ge, gt, shift_down i (ground arith) (omega arith))
            | inr eq ↦ rw (ge, eq)
          ]
        ])

  add_remove :
      (i j : ℕ) (v : Value)
      → i + 1 < 2 ^ 63
      → j + 1 < 2 ^ 63
      → Transformed pre (insertion i v) (deletion j)
  unfolding transform_operation_pair
  add_remove i j v h k =
      rw
        (
          extract-element i (omega arith),
          extract-element j (omega arith),
          transform_add_remove,
          same_array i j (omega arith) (omega arith),
        )
        (elim (Bool-cases (leb i j)) [
          | inl le ↦ rw (le, shift_up j k)
          | inr gt ↦ rw (gt, shift_down i (ground arith) (omega arith))
        ])

  remove_add :
      (i j : ℕ) (w : Value)
      → i + 1 < 2 ^ 63
      → j + 1 < 2 ^ 63
      → Transformed pre (deletion i) (insertion j w)
  unfolding transform_operation_pair
  remove_add i j w h k =
      rw
        (
          extract-element i (omega arith),
          extract-element j (omega arith),
          transform_add_remove,
          same_array j i (omega arith) (omega arith),
        )
        (elim (Bool-cases (leb j i)) [
          | inl le ↦ rw (le, shift_up i h)
          | inr gt ↦ rw (gt, shift_down j (ground arith) (omega arith))
        ])

-- On the operations for two edits of one array, with canonical segments and indices below the limit
-- of `isize`, `transform_operation_pair` succeeds and returns the operations for the edits as the
-- transformation of edits by their indices rewrites them.
pub transform_operation_pair-operation :
    (pre : List PathSegment) (a b : Edit Value)
    → All IsCanonical pre
    → index a + 1 < 2 ^ 63
    → index b + 1 < 2 ^ 63
    → Transformed pre a b
transform_operation_pair-operation pre (insertion i v) (insertion j w) c h k =
    add_add pre c i j v w h k
transform_operation_pair-operation pre (insertion i v) (deletion j) c h k =
    add_remove pre c i j v h k
transform_operation_pair-operation pre (deletion i) (insertion j w) c h k =
    remove_add pre c i j w h k
transform_operation_pair-operation pre (deletion i) (deletion j) c h k = remove_remove pre c i j h k

-- Two operations on one array whose path has canonical segments, each an addition or a removal at
-- an index that fits the array and lies below the limit of `isize`, and not both removals of one
-- element: the transformation succeeds, and applying one operation and then the transformed other
-- one gives the same array in both orders, with indices that fit.
pub transform_operation_pair-Converges :
    (pre : List PathSegment) (xs : List Value) (a b : Edit Value)
    → All IsCanonical pre
    → index a + 1 < 2 ^ 63
    → index b + 1 < 2 ^ 63
    → Fits a xs
    → Fits b xs
    → ¬ Tie a b
    → (a' : Edit Value) × (b' : Edit Value) × (transform_operation_pair
          (operation pre a)
          (operation pre b)
        ≡ ok (some (operation pre a'), some (operation pre b')))
      × Converges xs a b (a', b')
transform_operation_pair-Converges pre xs a b c h k fa fb ne = (
  (transform_edits a b).0,
  (transform_edits a b).1,
  transform_operation_pair-operation pre a b c h k,
  transform_edits-Converges xs a b fa fb ne,
)
