-- ===== src/Patches/Repeats.antt =====
-- `transform_patches` on patches of several operations, where an operation has two outcomes, or
-- stands in its patch twice.
use replicant.Prelude.{
  ℕ, ◌+◌, ◌^◌, ◌<◌, ◌≡◌, ◌≢◌, refl, ap, ◌∙◌, sym, inl, inr, true, false, some, List, [], ◌∷◌, arith,
  leb, Bool-cases, All,
}
use replicant.Errors.{ok}
use replicant.Json.{Value, PatchOperation, JsonLibrary}
use replicant.Ot.Types.{PathSegment}
use replicant.Ot.Path.{extract_array_index}
use replicant.Ot.Segment.RoundTrip.{IsCanonical}
use replicant.Ot.Transform.{transform_operation_pair}
use replicant.Ot.Transform.Edits.{insertion}
use replicant.Ot.Transform.Arrays.{
  element, operation, extract-element, transform_operation_pair-operation,
}
use replicant.Ot.Transform.Cases.{SharesArray, path_of, transform_operation_pair_unshared}
use replicant.Patches.{
  operational, contains, push_new, push_result, transform_pair, transform_row, transform_rows,
  transform_operations, transform_patches,
}
use replicant.Patches.Transforms.{ComparesOperations, push_all, transform_patches-Apart}

module _ (json : JsonLibrary) (law : ComparesOperations json) where
  contains_single : (x op : PatchOperation) → x ≢ op → contains json (x ∷ []) op ≡ false
  unfolding contains
  contains_single x op h = elim (Bool-cases (json.operation_eq x op)) [
    | inl e ↦ absurd (h ((law x op).0 e))
    | inr e ↦ rw e
  ]

  contains_self : (x : PatchOperation) → contains json (x ∷ []) x ≡ true
  unfolding contains
  contains_self x = rw ((law x x).1 refl)

  push_new_single : (x op : PatchOperation) → x ≢ op → push_new json (x ∷ []) op ≡ x ∷ op ∷ []
  unfolding push_new
  push_new_single x op h = rw (contains_single x op h)

  push_new_self : (x : PatchOperation) → push_new json (x ∷ []) x ≡ x ∷ []
  unfolding push_new
  push_new_self x = rw (contains_self x)

  push_new_nil : (x : PatchOperation) → push_new json [] x ≡ x ∷ []
  unfolding push_new contains
  push_new_nil x = refl

-- Where `==` on operations is equality, a repeated operation comes back once, beside an operation
-- that shares no array with it.
pub transform_patches_repeated :
    (json : JsonLibrary)
    → ComparesOperations json
    → (l r : PatchOperation) → ¬ SharesArray (path_of l) (path_of r)
    → transform_patches json (l ∷ l ∷ []) (r ∷ []) operational ≡ ok (l ∷ [], r ∷ [])
unfolding push_all
transform_patches_repeated json law l r h = rw (
  transform_patches-Apart json law l r (l ∷ []) [] ((h, tt), ((h, tt), tt)),
  push_all,
  push_new_nil json law l,
  push_new_nil json law r,
  push_new_self json law l,
)

module _ (pre : List PathSegment) (i j : ℕ) (v w : Value) (canonical : All IsCanonical pre)
    (below : j < i) (small : i + 1 < 2 ^ 63) where
  elements_differ : element pre (i + 1) ≢ element pre i
  elements_differ e = different (
      sym (extract-element pre canonical (i + 1) small)
      ∙ ap extract_array_index e
      ∙ extract-element pre canonical i (omega arith))
    where
      different : some (i + 1) ≢ some i
      different q = ground arith

  shifted :
      transform_operation_pair (operation pre (insertion i v)) (operation pre (insertion j w))
      ≡ ok (some (operation pre (insertion (i + 1) v)), some (operation pre (insertion j w)))
  shifted = rw (not_below) at (
      transform_operation_pair-operation pre (insertion i v) (insertion j w) canonical small
        (omega arith))
    where
      not_below : leb i j ≡ false
      not_below = ground arith

-- Where `==` on operations is equality, a local insertion that one remote insertion in front of it
-- shifts and another remote operation, sharing no array with it, leaves alone comes back twice: at
-- the shifted index and at the old one. The segments are canonical and the index lies below the
-- limit of `isize`.
pub transform_patches_doubled :
    (json : JsonLibrary)
    → ComparesOperations json
    → (pre : List PathSegment) (i j : ℕ) (v w : Value) (r : PatchOperation) → All IsCanonical pre
    → j < i
    → i + 1 < 2 ^ 63
    → ¬ SharesArray (element pre i) (path_of r)
    → transform_patches json
        (operation pre (insertion i v) ∷ [])
        (operation pre (insertion j w) ∷ r ∷ [])
        operational
      ≡ ok (
        operation pre (insertion (i + 1) v) ∷ operation pre (insertion i v) ∷ [],
        push_new json (operation pre (insertion j w) ∷ []) r,
      )
unfolding transform_patches transform_operations transform_rows transform_row transform_pair
    push_result
transform_patches_doubled json law pre i j v w r c below small h = rw (
  shifted pre i j v w c below small,
  transform_operation_pair_unshared (operation pre (insertion i v)) r h,
  push_new_nil json law,
  push_new_nil json law,
  push_new_single json law (operation pre (insertion (i + 1) v)) (operation pre (insertion i v))
      (λ e. elements_differ pre i j v w c below small (ap path_of e)),
)
