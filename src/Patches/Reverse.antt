-- ===== src/Patches/Reverse.antt =====
-- `compute_reverse_patch`: the patch that the change log keeps to undo a change.
use replicant.Prelude.{◌≡◌, refl, ◌⊎◌, inl, inr}
use replicant.Errors.{SyncResult, ok, err, SyncError}
use replicant.Json.{Value, Patch, JsonLibrary}
use replicant.Patches.{apply_patch, create_patch, compute_reverse_patch}

-- The documented law of `json_patch::diff`: applying the difference gives the second value.
abbrev pub PatchesDiff : JsonLibrary → Type 0
PatchesDiff json = (a b : Value) → json.patch a (json.diff a b) ≡ inl b

-- The forward patch applies, and the reverse patch takes the new state back to the original; or
-- both calls fail with one error.
abbrev pub Reverses : JsonLibrary → Value → Patch → Type 0
Reverses json original forward =
    ((new_state : Value) × (reverse : Patch) × (apply_patch json original forward ≡ ok new_state)
      × (compute_reverse_patch json original forward ≡ ok reverse)
      × (apply_patch json new_state reverse ≡ ok original))
    ⊎ ((e : SyncError) × (apply_patch json original forward ≡ err e)
        × (compute_reverse_patch json original forward ≡ err e))

pub apply_patch-diff :
    (json : JsonLibrary)
    → PatchesDiff json
    → (a b : Value) → apply_patch json a (json.diff a b) ≡ ok b
unfolding apply_patch
apply_patch-diff json law a b = rw (law a b)

reverse_cases :
    (json : JsonLibrary)
    → PatchesDiff json
    → (original : Value) (forward : Patch) → (r : SyncResult Value)
    → apply_patch json original forward ≡ r
    → Reverses json original forward
unfolding compute_reverse_patch create_patch
reverse_cases json law original forward (ok s) e =
    inl (s, json.diff s original, e, rw e, apply_patch-diff json law s original)
reverse_cases json law original forward (err x) e = inr (x, e, rw e)

-- If applying a difference of `diff` gives its second value, a reverse patch exists exactly where
-- the forward patch applies, and then it takes the new state back to the original; otherwise the
-- error is that of the forward patch.
pub compute_reverse_patch_undoes :
    (json : JsonLibrary)
    → PatchesDiff json
    → (original : Value) (forward : Patch) → Reverses json original forward
compute_reverse_patch_undoes json law original forward =
    reverse_cases json law original forward (apply_patch json original forward) refl
