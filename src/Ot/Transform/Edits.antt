-- ===== src/Ot/Transform/Edits.antt =====
-- Concurrent edits of one array, apart from paths: what the transformation has to do.
use replicant.Prelude.{
  ℕ, zero, suc, ◌+◌, ◌-◌, ◌≤◌, ◌<◌, ◌≡◌, refl, ap, List, [], ◌∷◌, arith, leb, ltb, if◌then◌else◌,
  length,
}

-- An insertion at an index, or a deletion at one.
pub data Edit (A : Type 0) : Type 0 where
  insertion : ℕ → A → Edit A
  deletion : ℕ → Edit A

abbrev pub insert_at {ℓ} : {A : Type ℓ} → ℕ → A → List A → List A
insert_at zero a xs = a ∷ xs
insert_at (suc i) a [] = a ∷ []
insert_at (suc i) a (x ∷ xs) = x ∷ insert_at i a xs

abbrev pub delete_at {ℓ} : {A : Type ℓ} → ℕ → List A → List A
delete_at i [] = []
delete_at zero (x ∷ xs) = xs
delete_at (suc i) (x ∷ xs) = x ∷ delete_at i xs

abbrev pub run_edit : {A : Type 0} → Edit A → List A → List A
run_edit (insertion i a) xs = insert_at i a xs
run_edit (deletion i) xs = delete_at i xs

-- The index is one that RFC 6902 allows.
abbrev pub Fits : {A : Type 0} → Edit A → List A → Type 0
Fits (insertion i a) xs = i ≤ length xs
Fits (deletion i) xs = i < length xs

-- The pair of edits after the transformation: each to run behind the other.
abbrev pub transform_edits : {A : Type 0} → Edit A → Edit A → Edit A × Edit A
transform_edits (insertion i a) (insertion j b) =
    if leb i j then (insertion i a, insertion (j + 1) b) else (insertion (i + 1) a, insertion j b)
transform_edits (insertion i a) (deletion j) =
    if leb i j then (insertion i a, deletion (j + 1)) else (insertion (i - 1) a, deletion j)
transform_edits (deletion i) (insertion j b) =
    if leb j i then (deletion (i + 1), insertion j b) else (deletion i, insertion (j - 1) b)
transform_edits (deletion i) (deletion j) =
    if ltb i j
    then (deletion i, deletion (j - 1))
    else if ltb j i
    then (deletion (i - 1), deletion j)
    else (deletion i, deletion j)

-- Two deletions of one element, which the transformation leaves to its caller.
abbrev pub Tie : {A : Type 0} → Edit A → Edit A → Type 0
Tie (deletion i) (deletion j) = i ≡ j
Tie (insertion i a) e = ⊥
Tie (deletion i) (insertion j b) = ⊥

module _ {A : Type 0} where
  pub length-insert_at : (i : ℕ) (a : A) (xs : List A) → length (insert_at i a xs) ≡ suc (length xs)
  length-insert_at zero a xs = refl
  length-insert_at (suc i) a [] = refl
  length-insert_at (suc i) a (x ∷ xs) = ap suc (length-insert_at i a xs)

  pub length-delete_at :
      (i : ℕ) (xs : List A) → i < length xs → suc (length (delete_at i xs)) ≡ length xs
  length-delete_at i [] h = absurd (omega arith)
  length-delete_at zero (x ∷ xs) h = refl
  length-delete_at (suc i) (x ∷ xs) h = ap suc (length-delete_at i xs (omega arith))

  -- Two insertions commute, the earlier one pushing the later one up.
  pub insert-insert :
      (i j : ℕ) (a b : A) (xs : List A)
      → i ≤ j
      → j ≤ length xs
      → insert_at (suc j) b (insert_at i a xs) ≡ insert_at i a (insert_at j b xs)
  insert-insert zero j a b xs h k = refl
  insert-insert (suc i) zero a b xs h k = absurd (omega arith)
  insert-insert (suc i) (suc j) a b [] h k = absurd (omega arith)
  insert-insert (suc i) (suc j) a b (x ∷ xs) h k =
      ap (λ (l : List A). x ∷ l) (insert-insert i j a b xs (omega arith) (omega arith))

  pub insert-delete :
      (i j : ℕ) (a : A) (xs : List A)
      → i ≤ j
      → j < length xs
      → delete_at (suc j) (insert_at i a xs) ≡ insert_at i a (delete_at j xs)
  insert-delete zero j a xs h k = refl
  insert-delete (suc i) j a [] h k = absurd (omega arith)
  insert-delete (suc i) zero a (x ∷ xs) h k = absurd (omega arith)
  insert-delete (suc i) (suc j) a (x ∷ xs) h k =
      ap (λ (l : List A). x ∷ l) (insert-delete i j a xs (omega arith) (omega arith))

  pub delete-insert :
      (i j : ℕ) (a : A) (xs : List A)
      → j ≤ i
      → i < length xs
      → delete_at j (insert_at (suc i) a xs) ≡ insert_at i a (delete_at j xs)
  delete-insert i j a [] h k = absurd (omega arith)
  delete-insert i zero a (x ∷ xs) h k = refl
  delete-insert zero (suc j) a (x ∷ xs) h k = absurd (omega arith)
  delete-insert (suc i) (suc j) a (x ∷ xs) h k =
      ap (λ (l : List A). x ∷ l) (delete-insert i j a xs (omega arith) (omega arith))

  pub delete-delete :
      (i j : ℕ) (xs : List A)
      → i ≤ j
      → suc j < length xs
      → delete_at j (delete_at i xs) ≡ delete_at i (delete_at (suc j) xs)
  delete-delete i j [] h k = absurd (omega arith)
  delete-delete zero j (x ∷ xs) h k = refl
  delete-delete (suc i) zero (x ∷ xs) h k = absurd (omega arith)
  delete-delete (suc i) (suc j) (x ∷ xs) h k =
      ap (λ (l : List A). x ∷ l) (delete-delete i j xs (omega arith) (omega arith))
