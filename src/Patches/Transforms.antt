-- ===== src/Patches/Transforms.antt =====
-- `transform_patches` on whole patches: what comes back where they share no array.
use replicant.Prelude.{◌≡◌, ◌↔◌, refl, inl, inr, true, ◌||◌, [], ◌∷◌, ◌++◌, arith, Bool-cases, All}
use replicant.Errors.{ok}
use replicant.Json.{Patch, PatchOperation, JsonLibrary}
use replicant.Ot.Transform.Cases.{SharesArray, path_of, transform_operation_pair_unshared}
use replicant.Patches.{
  operational, contains, push_new, push_result, transform_pair, transform_row, transform_rows,
  transform_operations, transform_patches,
}

-- `==` on operations is equality.
abbrev pub ComparesOperations : JsonLibrary → Type 0
ComparesOperations json = (a b : PatchOperation) → (json.operation_eq a b ≡ true) ↔ (a ≡ b)

-- No operation of the first patch shares an array with one of the second.
abbrev pub Apart : Patch → Patch → Type 0
Apart ls rs = All (λ l. All (λ r. ¬ SharesArray (path_of l) (path_of r)) rs) ls

module _ (json : JsonLibrary) where
  abbrev Has : Patch → PatchOperation → Type 0
  Has xs op = contains json xs op ≡ true

  -- A patch with each operation kept at its first place only.
  unfoldable pub push_all : Patch → Patch → Patch
  push_all acc [] = acc
  push_all acc (op ∷ ops) = push_all (push_new json acc op) ops

module _ (json : JsonLibrary) (law : ComparesOperations json) where
  contains-append :
      (xs ys : Patch) (op : PatchOperation)
      → contains json (xs ++ ys) op ≡ (contains json xs op || contains json ys op)
  unfolding contains
  contains-append [] ys op = refl
  contains-append (x ∷ xs) ys op = ground (arith, contains-append xs ys op)

  contains-push_new :
      (xs : Patch) (op : PatchOperation) → contains json (push_new json xs op) op ≡ true
  unfolding push_new
  contains-push_new xs op = elim (Bool-cases (contains json xs op)) [
    | inl old ↦ rw old old
    | inr new ↦
        rw (new, contains-append xs (op ∷ []) op, new) (unfold contains in rw ((law op op).1 refl))
  ]

  push_new-Has :
      (xs : Patch) (op x : PatchOperation) → Has json xs x → Has json (push_new json xs op) x
  unfolding push_new
  push_new-Has xs op x h = elim (Bool-cases (contains json xs op)) [
    | inl old ↦ rw old h
    | inr new ↦ rw (new, contains-append xs (op ∷ []) x, h)
  ]

  push_all-Has :
      (ops xs : Patch) (x : PatchOperation) → Has json xs x → Has json (push_all json xs ops) x
  unfolding push_all
  push_all-Has [] xs x h = h
  push_all-Has (op ∷ ops) xs x h = push_all-Has ops (push_new json xs op) x (push_new-Has xs op x h)

  -- Every operation that is pushed is in the result.
  push_all-covers : (ops xs : Patch) → All (Has json (push_all json xs ops)) ops
  unfolding push_all
  push_all-covers [] xs = tt
  push_all-covers (op ∷ ops) xs = (
    push_all-Has ops (push_new json xs op) op (contains-push_new xs op),
    push_all-covers ops (push_new json xs op),
  )

  push_new_old : (xs : Patch) (op : PatchOperation) → Has json xs op → push_new json xs op ≡ xs
  unfolding push_new
  push_new_old xs op h = rw h

  push_all_old : (ops xs : Patch) → All (Has json xs) ops → push_all json xs ops ≡ xs
  unfolding push_all
  push_all_old [] xs h = refl
  push_all_old (op ∷ ops) xs (ho, hs) = rw (push_new_old xs op ho) (push_all_old ops xs hs)

  pair_apart :
      (l r : PatchOperation) (tl tr : Patch)
      → ¬ SharesArray (path_of l) (path_of r)
      → transform_pair json l r tl tr ≡ ok (push_new json tl l, push_new json tr r)
  unfolding transform_pair push_result
  pair_apart l r tl tr h = rw (transform_operation_pair_unshared l r h)

  -- A row behind its first round: the local operation is there already.
  row_old :
      (l : PatchOperation) (rs tl tr : Patch)
      → All (λ r. ¬ SharesArray (path_of l) (path_of r)) rs
      → Has json tl l
      → transform_row json l rs tl tr ≡ ok (tl, push_all json tr rs)
  unfolding transform_row push_all
  row_old l [] tl tr h old = refl
  row_old l (r ∷ rs) tl tr (hr, hs) old =
      rw (pair_apart l r tl tr hr, push_new_old tl l old)
        (row_old l rs tl (push_new json tr r) hs old)

  row_apart :
      (l r : PatchOperation) (rs tl tr : Patch)
      → All (λ x. ¬ SharesArray (path_of l) (path_of x)) (r ∷ rs)
      → transform_row json l (r ∷ rs) tl tr ≡ ok (push_new json tl l, push_all json tr (r ∷ rs))
  unfolding transform_row push_all
  row_apart l r rs tl tr (hr, hs) =
      rw (pair_apart l r tl tr hr)
        (row_old l rs (push_new json tl l) (push_new json tr r) hs (contains-push_new tl l))

  rows-Apart :
      (ls : Patch) (r : PatchOperation) (rs tl tr : Patch)
      → Apart ls (r ∷ rs)
      → All (Has json tr) (r ∷ rs)
      → transform_rows json ls (r ∷ rs) tl tr ≡ ok (push_all json tl ls, tr)
  unfolding transform_rows push_all
  rows-Apart [] r rs tl tr h old = refl
  rows-Apart (l ∷ ls) r rs tl tr (hl, hs) old =
      rw (row_apart l r rs tl tr hl, push_all_old (r ∷ rs) tr old)
        (rows-Apart ls r rs (push_new json tl l) tr hs old)

-- Where `==` on operations is equality, two patches, neither empty, that share no array come back
-- with their repeated operations dropped and are otherwise as they were.
pub transform_patches-Apart :
    (json : JsonLibrary)
    → ComparesOperations json
    → (l r : PatchOperation) (ls rs : Patch) → Apart (l ∷ ls) (r ∷ rs)
    → transform_patches json (l ∷ ls) (r ∷ rs) operational
      ≡ ok (push_all json [] (l ∷ ls), push_all json [] (r ∷ rs))
unfolding transform_patches transform_operations transform_rows push_all
transform_patches-Apart json law l r ls rs (hl, hs) = rw (row_apart json law l r rs [] [] hl) (
    rows-Apart json law ls r rs (push_new json [] l) (push_all json [] (r ∷ rs)) hs
      (push_all-covers json law (r ∷ rs) []))
