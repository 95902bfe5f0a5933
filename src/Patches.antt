-- ===== src/Patches.antt =====
-- replicant-core/src/patches.rs: patches, checksums and the transformation of whole patches.
pub mod Reverse
pub mod Transforms
pub mod Repeats
mod Examples
use replicant.Prelude.{
  ◌≡◌, refl, ◌⊎◌, inl, inr, Bool, true, false, ◌||◌, Option, none, some, List, [], ◌∷◌, ◌++◌, Text,
  if◌then◌else◌,
}
use replicant.Errors.{SyncError, patch_failed, SyncResult, ok, err, ◌>>=◌}
use replicant.Json.{Value, Patch, PatchOperation, JsonLibrary}
use replicant.Ot.Transform.{Pair, transform_operation_pair}

pub data TransformStrategy : Type 0 where
  last_write_wins operational : TransformStrategy

abbrev applied : Value ⊎ Text → SyncResult Value
applied (inl new_state) = ok new_state
applied (inr message) = err (patch_failed message)

module _ (json : JsonLibrary) where
  unfoldable pub create_patch : Value → Value → SyncResult Patch
  create_patch from to = ok (json.diff from to)

  unfoldable pub apply_patch : Value → Patch → SyncResult Value
  apply_patch document patch = applied (json.patch document patch)

  unfoldable pub calculate_checksum : Value → Text
  calculate_checksum value = json.sha256_hex (json.to_string value)

  unfoldable pub compute_reverse_patch : Value → Patch → SyncResult Patch
  compute_reverse_patch original forward_patch =
      apply_patch original forward_patch >>= λ new_state. create_patch new_state original

  -- `Vec::contains`
  unfoldable pub contains : Patch → PatchOperation → Bool
  contains [] op = false
  contains (x ∷ xs) op = json.operation_eq x op || contains xs op

  -- `if !v.contains(&op) { v.push(op) }`
  unfoldable pub push_new : Patch → PatchOperation → Patch
  push_new ops op = if contains ops op then ops else ops ++ op ∷ []

  -- The same behind `if let Some(op)`.
  unfoldable pub push_result : Patch → Option PatchOperation → Patch
  push_result ops none = ops
  push_result ops (some op) = push_new ops op

  -- One round of the inner loop of `transform_operations`.
  unfoldable pub transform_pair :
      PatchOperation → PatchOperation → Patch → Patch → SyncResult (Patch × Patch)
  transform_pair local_op remote_op transformed_local transformed_remote =
      transform_operation_pair local_op remote_op >>= λ result.
      ok (push_result transformed_local result.0, push_result transformed_remote result.1)

  -- The inner loop, over the remote operations.
  unfoldable pub transform_row : PatchOperation → Patch → Patch → Patch → SyncResult (Patch × Patch)
  transform_row local_op [] transformed_local transformed_remote =
      ok (transformed_local, transformed_remote)
  transform_row local_op (remote_op ∷ remote_ops) transformed_local transformed_remote =
      transform_pair local_op remote_op transformed_local transformed_remote >>= λ acc.
      transform_row local_op remote_ops acc.0 acc.1

  -- The outer loop, over the local operations.
  unfoldable pub transform_rows : Patch → Patch → Patch → Patch → SyncResult (Patch × Patch)
  transform_rows [] remote_ops transformed_local transformed_remote =
      ok (transformed_local, transformed_remote)
  transform_rows (local_op ∷ local_ops) remote_ops transformed_local transformed_remote =
      transform_row local_op remote_ops transformed_local transformed_remote >>= λ acc.
      transform_rows local_ops remote_ops acc.0 acc.1

  unfoldable pub transform_operations : Patch → Patch → SyncResult (Patch × Patch)
  transform_operations [] remote_ops = ok ([], remote_ops)
  transform_operations (l ∷ local_ops) [] = ok (l ∷ local_ops, [])
  transform_operations (l ∷ local_ops) (r ∷ remote_ops) =
      transform_rows (l ∷ local_ops) (r ∷ remote_ops) [] []

  unfoldable pub transform_patches : Patch → Patch → TransformStrategy → SyncResult (Patch × Patch)
  transform_patches local remote last_write_wins = ok ([], remote)
  transform_patches local remote operational = transform_operations local remote

unfoldable pub merge_patches : Patch → Patch → Patch
merge_patches patch1 patch2 = patch1 ++ patch2
