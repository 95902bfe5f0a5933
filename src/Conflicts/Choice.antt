-- ===== src/Conflicts/Choice.antt =====
-- The strategies that keep one of the two documents.
use replicant.Prelude.{◌≡◌, ◌≢◌, ◌≤◌, ◌⊎◌, inl, inr, refl, arith, Bool-cases, ltb}
use replicant.Errors.{ok}
use replicant.Json.{JsonLibrary}
use replicant.Models.{Document}
use replicant.Conflicts.{last_write_wins, first_write_wins, resolve}

-- A document of the two, written no earlier than either.
abbrev pub IsLatest : Document → Document → Document → Type 0
IsLatest local remote d =
    ((d ≡ local) ⊎ (d ≡ remote))
    × (local.updated_at ≤ d.updated_at)
    × (remote.updated_at ≤ d.updated_at)

-- A document of the two, created no later than either.
abbrev pub IsFirst : Document → Document → Document → Type 0
IsFirst local remote d =
    ((d ≡ local) ⊎ (d ≡ remote))
    × (d.created_at ≤ local.created_at)
    × (d.created_at ≤ remote.created_at)

-- Both strategies that keep one document succeed: the one returns a document of the two written
-- last, the other one a document of the two created first.
pub resolve-IsLatest-IsFirst :
    (json : JsonLibrary) (local remote : Document)
    → ((d : Document) × (resolve json last_write_wins local remote ≡ ok d)
        × IsLatest local remote d)
      × ((d : Document) × (resolve json first_write_wins local remote ≡ ok d)
          × IsFirst local remote d)
unfolding resolve
resolve-IsLatest-IsFirst json local remote = (
  elim (Bool-cases (ltb remote.updated_at local.updated_at)) [
    | inl later ↦ (local, rw later, (inl refl, ground arith, ground arith))
    | inr earlier ↦ (remote, rw earlier, (inr refl, ground arith, ground arith))
  ],
  elim (Bool-cases (ltb local.created_at remote.created_at)) [
    | inl first ↦ (local, rw first, (inl refl, ground arith, ground arith))
    | inr second ↦ (remote, rw second, (inr refl, ground arith, ground arith))
  ],
)

-- Two peers that each take the other's document for the remote one agree if the times differ, and
-- swap their documents if the times are equal.
pub resolve_peers :
    (json : JsonLibrary) (a b : Document)
    → (a.updated_at ≢ b.updated_at
        → resolve json last_write_wins a b ≡ resolve json last_write_wins b a)
      × (a.updated_at ≡ b.updated_at
          → (resolve json last_write_wins a b ≡ ok b) × (resolve json last_write_wins b a ≡ ok a))
unfolding resolve
resolve_peers json a b = ((λ ne. ground arith), λ e. (ground arith, ground arith))
