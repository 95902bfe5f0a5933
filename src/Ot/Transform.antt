-- ===== src/Ot/Transform.antt =====
-- replicant-core/src/ot/transform.rs: two concurrent operations, each rewritten to run after the
-- other.
pub mod Edits
pub mod Convergence
pub mod Arrays
pub mod Cases
pub mod Nested
use replicant.Prelude.{ℕ, Option, none, some, leb, ltb, if◌then◌else◌, text_eq}
use replicant.Prelude.Int.{pos, negsuc}
use replicant.Errors.{SyncResult, ok, err, ◌>>=◌}
use replicant.Json.{
  AddOperation, RemoveOperation, ReplaceOperation, PatchOperation, add, remove, replace, move, copy,
  test,
}
use replicant.Ot.Types.{PathRelation, same}
use replicant.Ot.Path.{extract_array_index, adjust_array_index}
use replicant.Ot.Relation.{get_parent_path, option_eq, compare_paths, paths_conflict}

-- What a transformation returns: each operation rewritten, or gone.
abbrev pub Pair : Type 0 → Type 0 → Type 0
Pair A B = SyncResult (Option A × Option B)

abbrev pub both : Option ℕ → Option ℕ → Option (ℕ × ℕ)
both (some i) (some j) = some (i, j)
both (some i) none = none
both none o = none

-- The array branch of `transform_add_add`.
unfoldable pub shift_adds : AddOperation → AddOperation → ℕ → ℕ → Pair AddOperation AddOperation
shift_adds local remote local_idx remote_idx =
    if leb local_idx remote_idx
    then adjust_array_index remote.path remote_idx (pos 1)
      >>= (λ path. ok (some local, some (record remote { path = path })))
    else adjust_array_index local.path local_idx (pos 1) >>= λ path.
        ok (some (record local { path = path }), some remote)

-- The rest of `transform_add_add`: both cases of the match return the operations as they are.
unfoldable pub keep_adds :
    PathRelation → AddOperation → AddOperation → Pair AddOperation AddOperation
keep_adds same local remote = ok (some local, some remote)
keep_adds _ local remote = ok (some local, some remote)

unfoldable pub transform_add_add : AddOperation → AddOperation → Pair AddOperation AddOperation
unfolding shift_adds keep_adds
transform_add_add local remote =
    let rest = keep_adds (compare_paths local.path remote.path) local remote in
    elim (both (extract_array_index local.path) (extract_array_index remote.path)) [
      | none ↦ rest
      | some (i, j) ↦
          if option_eq (get_parent_path local.path) (get_parent_path remote.path)
          then shift_adds local remote i j
          else rest
    ]

-- The array branch of `transform_remove_remove`.
unfoldable pub shift_removes :
    RemoveOperation → RemoveOperation → ℕ → ℕ → Pair RemoveOperation RemoveOperation
shift_removes local remote local_idx remote_idx =
    if ltb local_idx remote_idx
    then adjust_array_index remote.path remote_idx (negsuc 0)
      >>= (λ path. ok (some local, some (record { path = path })))
    else if ltb remote_idx local_idx
    then adjust_array_index local.path local_idx (negsuc 0)
      >>= (λ path. ok (some (record { path = path }), some remote))
    else ok (some local, some remote)

unfoldable pub keep_removes :
    PathRelation → RemoveOperation → RemoveOperation → Pair RemoveOperation RemoveOperation
keep_removes same local remote = ok (some local, some remote)
keep_removes _ local remote = ok (some local, some remote)

unfoldable pub transform_remove_remove :
    RemoveOperation → RemoveOperation → Pair RemoveOperation RemoveOperation
unfolding shift_removes keep_removes
transform_remove_remove local remote =
    let rest = keep_removes (compare_paths local.path remote.path) local remote in
    elim (both (extract_array_index local.path) (extract_array_index remote.path)) [
      | none ↦ rest
      | some (i, j) ↦
          if option_eq (get_parent_path local.path) (get_parent_path remote.path)
          then shift_removes local remote i j
          else rest
    ]

-- The array branch of `transform_add_remove`.
unfoldable pub shift_add_remove :
    AddOperation → RemoveOperation → ℕ → ℕ → Pair AddOperation RemoveOperation
shift_add_remove addition removal add_idx rem_idx =
    if leb add_idx rem_idx
    then adjust_array_index removal.path rem_idx (pos 1)
      >>= (λ path. ok (some addition, some (record { path = path })))
    else adjust_array_index addition.path add_idx (negsuc 0) >>= λ path.
        ok (some (record addition { path = path }), some removal)

unfoldable pub transform_add_remove :
    AddOperation → RemoveOperation → Pair AddOperation RemoveOperation
unfolding shift_add_remove
transform_add_remove addition removal =
    elim (both (extract_array_index addition.path) (extract_array_index removal.path)) [
      | none ↦
          if paths_conflict addition.path removal.path
          then ok (some addition, some removal)
          else ok (some addition, some removal)
      | some (i, j) ↦
          if option_eq (get_parent_path addition.path) (get_parent_path removal.path)
          then shift_add_remove addition removal i j
          else ok (some addition, some removal)
    ]

unfoldable pub transform_replace_replace :
    ReplaceOperation → ReplaceOperation → Pair ReplaceOperation ReplaceOperation
transform_replace_replace local remote =
    if text_eq local.path remote.path
    then ok (some local, some remote)
    else ok (some local, some remote)

abbrev pub wrap : {A B : Type 0} → (A → B) → Option A → Option B
wrap f none = none
wrap f (some a) = some (f a)

-- `Ok((l.map(f), r.map(g)))` behind a `?`.
abbrev pub wrap_pair :
    {A B : Type 0}
    → (A → PatchOperation)
    → (B → PatchOperation)
    → Pair A B
    → Pair PatchOperation PatchOperation
wrap_pair f g (ok (a, b)) = ok (wrap f a, wrap g b)
wrap_pair f g (err e) = err e

abbrev pub swap_pair : Pair PatchOperation PatchOperation → Pair PatchOperation PatchOperation
swap_pair (ok (a, b)) = ok (b, a)
swap_pair (err e) = err e

-- The arms for tests, moves and copies, and the last arm, return both operations as they are.
unfoldable pub transform_operation_pair :
    PatchOperation → PatchOperation → Pair PatchOperation PatchOperation
unfolding transform_add_add transform_remove_remove transform_add_remove transform_replace_replace
transform_operation_pair (add l) (add r) = wrap_pair add add (transform_add_add l r)
transform_operation_pair (remove l) (remove r) =
    wrap_pair remove remove (transform_remove_remove l r)
transform_operation_pair (add a) (remove r) = wrap_pair add remove (transform_add_remove a r)
transform_operation_pair (remove r) (add a) =
    swap_pair (wrap_pair add remove (transform_add_remove a r))
transform_operation_pair (replace l) (replace r) =
    wrap_pair replace replace (transform_replace_replace l r)
transform_operation_pair (test l) r = ok (some (test l), some r)
transform_operation_pair l (test r) = ok (some l, some (test r))
transform_operation_pair (move l) r = ok (some (move l), some r)
transform_operation_pair (copy l) r = ok (some (copy l), some r)
transform_operation_pair l (move r) = ok (some l, some (move r))
transform_operation_pair l (copy r) = ok (some l, some (copy r))
transform_operation_pair l r = ok (some l, some r)
