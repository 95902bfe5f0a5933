-- ===== src/Ot/Transform/Convergence.antt =====
-- The transformed edits converge: both orders of two concurrent edits give one array.
use replicant.Prelude.{
  ℕ, zero, suc, ◌+◌, ◌-◌, ◌≤◌, ◌<◌, ◌≡◌, ◌≢◌, refl, sym, List, arith, leb, ltb, leb→le, lt→ltb,
  le→not_ltb, ltb→lt, length, Bool-cases, inl, inr, true,
}
use replicant.Ot.Transform.Edits.{
  Edit, insertion, deletion, run_edit, Fits, transform_edits, Tie, length-insert_at,
  length-delete_at, insert-insert, insert-delete, delete-insert, delete-delete,
}

-- The first edit, transformed, behind the second; and the second behind the first.
abbrev pub Converges : {A : Type 0} → List A → Edit A → Edit A → Edit A × Edit A → Type 0
Converges xs a b (a', b') =
    (run_edit b' (run_edit a xs) ≡ run_edit a' (run_edit b xs))
    × Fits a' (run_edit b xs)
    × Fits b' (run_edit a xs)

plus_one : (i : ℕ) → i + 1 ≡ suc i
plus_one i = omega arith

minus_one : (i : ℕ) → suc i - 1 ≡ i
minus_one i = omega arith

zero_leb : (n : ℕ) → leb 0 n ≡ true
zero_leb n = ground arith

module _ {A : Type 0} (xs : List A) where
  insertions_converge :
      (i j : ℕ) (a b : A)
      → i ≤ length xs
      → j ≤ length xs
      → Converges xs
          (insertion i a)
          (insertion j b)
          (transform_edits (insertion i a) (insertion j b))
  insertions_converge i j a b h k = elim (Bool-cases (leb i j)) [
    | inl le ↦
        rw (le, plus_one j)
          (
            insert-insert i j a b xs (ground arith) k,
            omega (arith, length-insert_at j b xs),
            omega (arith, length-insert_at i a xs),
          )
    | inr gt ↦
        rw (gt, plus_one i)
          (
            sym (insert-insert j i b a xs (ground arith) h),
            omega (arith, length-insert_at j b xs),
            omega (arith, length-insert_at i a xs),
          )
  ]

  insertion_deletion_converge :
      (i j : ℕ) (a : A)
      → i ≤ length xs
      → j < length xs
      → Converges xs (insertion i a) (deletion j) (transform_edits (insertion i a) (deletion j))
  insertion_deletion_converge zero j a h k =
      rw (zero_leb j, plus_one j)
        (
          insert-delete zero j a xs (omega arith) k,
          omega arith,
          omega (arith, length-insert_at zero a xs),
        )
  insertion_deletion_converge (suc i) j a h k = elim (Bool-cases (leb (suc i) j)) [
    | inl le ↦
        rw (le, plus_one j)
          (
            insert-delete (suc i) j a xs (ground arith) k,
            omega (arith, length-delete_at j xs k, leb→le (suc i) j le),
            omega (arith, length-insert_at (suc i) a xs),
          )
    | inr gt ↦
        rw (gt, minus_one i)
          (
            delete-insert i j a xs (ground arith) (omega arith),
            omega (arith, length-delete_at j xs k),
            omega (arith, length-insert_at (suc i) a xs),
          )
  ]

  deletion_insertion_converge :
      (i j : ℕ) (b : A)
      → i < length xs
      → j ≤ length xs
      → Converges xs (deletion i) (insertion j b) (transform_edits (deletion i) (insertion j b))
  deletion_insertion_converge i zero b h k =
      rw (zero_leb i, plus_one i)
        (
          sym (insert-delete zero i b xs (omega arith) h),
          omega (arith, length-insert_at zero b xs),
          omega arith,
        )
  deletion_insertion_converge i (suc j) b h k = elim (Bool-cases (leb (suc j) i)) [
    | inl le ↦
        rw (le, plus_one i)
          (
            sym (insert-delete (suc j) i b xs (ground arith) h),
            omega (arith, length-insert_at (suc j) b xs),
            omega (arith, length-delete_at i xs h, leb→le (suc j) i le),
          )
    | inr gt ↦
        rw (gt, minus_one j)
          (
            sym (delete-insert j i b xs (ground arith) (omega arith)),
            omega (arith, length-insert_at (suc j) b xs),
            omega (arith, length-delete_at i xs h),
          )
  ]

  deletions_converge :
      (i j : ℕ)
      → i < length xs
      → j < length xs
      → i ≢ j
      → Converges xs (deletion i) (deletion j) (transform_edits (deletion i) (deletion j))
  deletions_converge zero zero h k ne = absurd (ne refl)
  deletions_converge zero (suc j) h k ne =
      rw (lt→ltb 0 (suc j) (omega arith), minus_one j)
        (
          delete-delete zero j xs (omega arith) k,
          omega (arith, length-delete_at (suc j) xs k),
          omega (arith, length-delete_at zero xs h),
        )
  deletions_converge (suc i) zero h k ne =
      rw (le→not_ltb (suc i) 0 (omega arith), lt→ltb 0 (suc i) (omega arith), minus_one i)
        (
          sym (delete-delete zero i xs (omega arith) h),
          omega (arith, length-delete_at zero xs k),
          omega (arith, length-delete_at (suc i) xs h),
        )
  deletions_converge (suc i) (suc j) h k ne = elim (Bool-cases (ltb (suc i) (suc j))) [
    | inl lt ↦
        rw (lt, minus_one j)
          (
            delete-delete (suc i) j xs (ground arith) k,
            omega (arith, length-delete_at (suc j) xs k, ltb→lt (suc i) (suc j) lt),
            omega (arith, length-delete_at (suc i) xs h),
          )
    | inr ge ↦
        rw (ge, lt→ltb (suc j) (suc i) (ground arith), minus_one i)
          (
            sym (delete-delete (suc j) i xs (ground arith) h),
            omega (arith, length-delete_at (suc j) xs k),
            ground (arith, length-delete_at (suc i) xs h),
          )
  ]

-- Two edits that fit an array and do not delete one element: either order gives one array, and each
-- transformed edit fits where it runs.
pub transform_edits-Converges :
    {A : Type 0} (xs : List A) (a b : Edit A)
    → Fits a xs
    → Fits b xs
    → ¬ Tie a b
    → Converges xs a b (transform_edits a b)
transform_edits-Converges xs (insertion i a) (insertion j b) h k ne =
    insertions_converge xs i j a b h k
transform_edits-Converges xs (insertion i a) (deletion j) h k ne =
    insertion_deletion_converge xs i j a h k
transform_edits-Converges xs (deletion i) (insertion j b) h k ne =
    deletion_insertion_converge xs i j b h k
transform_edits-Converges xs (deletion i) (deletion j) h k ne = deletions_converge xs i j h k ne
