-- ===== src/Ot/Transform/Cases.antt =====
-- `transform_operation_pair` on operations that do not share an array.
use replicant.Prelude.{
  ℕ, ◌≡◌, refl, some, none, Option, arith, if◌then◌else◌, Bool, ◌&&◌, Bool-cases, Option-cases, inl,
  inr, ◌⊎◌, true, false, text_eq, text_eq-eq, text_eq_refl, Text,
}
use replicant.Errors.{ok}
use replicant.Json.{
  AddOperation, RemoveOperation, PatchOperation, add, remove, replace, move, copy, test,
}
use replicant.Ot.Types.{PathRelation, same}
use replicant.Ot.Path.{extract_array_index}
use replicant.Ot.Relation.{get_parent_path, option_eq, compare_paths, paths_conflict}
use replicant.Ot.Transform.{
  both, keep_adds, keep_removes, transform_add_add, transform_remove_remove, transform_add_remove,
  transform_replace_replace, transform_operation_pair,
}

-- The path that an operation changes.
abbrev pub path_of : PatchOperation → Text
path_of (add o) = o.path
path_of (remove o) = o.path
path_of (replace o) = o.path
path_of (move o) = o.path
path_of (copy o) = o.path
path_of (test o) = o.path

-- Both paths hold an array index, and they have one parent.
abbrev pub SharesArray : Text → Text → Type 0
SharesArray p q =
    (i : ℕ) × (j : ℕ) × (extract_array_index p ≡ some i)
    × (extract_array_index q ≡ some j)
    × (option_eq (get_parent_path p) (get_parent_path q) ≡ true)

keep_adds_lem : (rel : PathRelation) (l r : AddOperation) → keep_adds rel l r ≡ ok (some l, some r)
unfolding keep_adds
keep_adds_lem same l r = refl
keep_adds_lem _ l r = refl

keep_removes_lem :
    (rel : PathRelation) (l r : RemoveOperation) → keep_removes rel l r ≡ ok (some l, some r)
unfolding keep_removes
keep_removes_lem same l r = refl
keep_removes_lem _ l r = refl

-- The test for a shared array, by its outcome.
shared_cases :
    (p q : Text)
    → ¬ SharesArray p q
    → (both (extract_array_index p) (extract_array_index q) ≡ none)
      ⊎ ((m : ℕ × ℕ) × (both (extract_array_index p) (extract_array_index q) ≡ some m)
          × (option_eq (get_parent_path p) (get_parent_path q) ≡ false))
shared_cases p q h = elim (Option-cases (extract_array_index p)) [
  | inl e ↦ inl (rw e)
  | inr (i, e) ↦ elim (Option-cases (extract_array_index q)) [
    | inl f ↦ inl (rw (e, f))
    | inr (j, f) ↦ elim (Bool-cases (option_eq (get_parent_path p) (get_parent_path q))) [
      | inl shared ↦ absurd (h (i, j, e, f, shared))
      | inr apart ↦ inr ((i, j), rw (e, f), apart)
    ]
  ]
]

add_add_unshared :
    (l r : AddOperation) → ¬ SharesArray l.path r.path → transform_add_add l r ≡ ok (some l, some r)
unfolding transform_add_add
add_add_unshared l r h = elim (shared_cases l.path r.path h) [
  | inl e ↦ rw (e, transform_add_add) (keep_adds_lem (compare_paths l.path r.path) l r)
  | inr (m, e, apart) ↦
      rw (e, transform_add_add, apart) (keep_adds_lem (compare_paths l.path r.path) l r)
]

remove_remove_unshared :
    (l r : RemoveOperation)
    → ¬ SharesArray l.path r.path
    → transform_remove_remove l r ≡ ok (some l, some r)
unfolding transform_remove_remove
remove_remove_unshared l r h = elim (shared_cases l.path r.path h) [
  | inl e ↦ rw (e, transform_remove_remove) (keep_removes_lem (compare_paths l.path r.path) l r)
  | inr (m, e, apart) ↦
      rw (e, transform_remove_remove, apart) (keep_removes_lem (compare_paths l.path r.path) l r)
]

both_branches {ℓ} : {A : Type ℓ} (b : Bool) (a : A) → (if b then a else a) ≡ a
both_branches true a = refl
both_branches false a = refl

add_remove_unshared :
    (a : AddOperation) (r : RemoveOperation)
    → ¬ SharesArray a.path r.path
    → transform_add_remove a r ≡ ok (some a, some r)
unfolding transform_add_remove
add_remove_unshared a r h = elim (shared_cases a.path r.path h) [
  | inl e ↦ rw (e, transform_add_remove) (both_branches (paths_conflict a.path r.path) _)
  | inr (m, e, apart) ↦ rw (e, transform_add_remove, apart)
]

SharesArray-symm : (p q : Text) → SharesArray p q → SharesArray q p
SharesArray-symm p q (i, j, e, f, s) =
    (j, i, f, e, option_eq_symm (get_parent_path p) (get_parent_path q) s)
  where
    option_eq_symm : (a b : Option Text) → option_eq a b ≡ true → option_eq b a ≡ true
    option_eq_symm none none t = refl
    option_eq_symm none (some y) t = ground arith
    option_eq_symm (some x) none t = ground arith
    option_eq_symm (some x) (some y) t = rw (text_eq-eq x y t) (text_eq_refl y)

-- Operations whose paths do not both hold an array index under one parent come back as they are,
-- whatever their kinds.
pub transform_operation_pair_unshared :
    (l r : PatchOperation)
    → ¬ SharesArray (path_of l) (path_of r)
    → transform_operation_pair l r ≡ ok (some l, some r)
unfolding transform_operation_pair
transform_operation_pair_unshared (add l) (add r) h = rw (add_add_unshared l r h)
transform_operation_pair_unshared (remove l) (remove r) h = rw (remove_remove_unshared l r h)
transform_operation_pair_unshared (add l) (remove r) h = rw (add_remove_unshared l r h)
transform_operation_pair_unshared (remove l) (add r) h =
    rw (add_remove_unshared r l (λ s. h (SharesArray-symm r.path l.path s)))
transform_operation_pair_unshared (replace l) (replace r) h =
    unfold transform_replace_replace in rw (both_branches (text_eq l.path r.path) _)
transform_operation_pair_unshared (test l) r h = refl
transform_operation_pair_unshared l (test r) h = refl
transform_operation_pair_unshared _ _ h = refl

-- The kinds that the transformation never rewrites.
abbrev pub is_rewritten : PatchOperation → Bool
is_rewritten (add o) = true
is_rewritten (remove o) = true
is_rewritten _ = false

-- Beside a replacement, a move, a copy or a test an operation is never rewritten.
pub transform_operation_pair_other :
    (l r : PatchOperation)
    → (is_rewritten l && is_rewritten r) ≡ false
    → transform_operation_pair l r ≡ ok (some l, some r)
unfolding transform_operation_pair
transform_operation_pair_other (add l) (add r) h = ground arith
transform_operation_pair_other (remove l) (remove r) h = ground arith
transform_operation_pair_other (add l) (remove r) h = ground arith
transform_operation_pair_other (remove l) (add r) h = ground arith
transform_operation_pair_other (replace l) (replace r) h =
    unfold transform_replace_replace in rw (both_branches (text_eq l.path r.path) _)
transform_operation_pair_other (test l) r h = refl
transform_operation_pair_other l (test r) h = refl
transform_operation_pair_other _ _ h = refl
