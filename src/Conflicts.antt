-- ===== src/Conflicts.antt =====
-- replicant-core/src/conflicts.rs: one document out of two, by a strategy.
pub mod Choice
pub mod Merge
pub mod Arrays
mod Examples
use replicant.Prelude.{
  ℕ, ◌≡◌, refl, Bool, true, false, ◌||◌, Option, none, some, Text, ltb, if◌then◌else◌,
}
use replicant.Prelude.Int.{ℤ, pos, ◌+ℤ◌, ltb_ℤ, wrap_i64}
use replicant.Errors.{conflict_detected, SyncResult, ok, err, ◌>>=◌}
use replicant.Json.{Value, Items, nil, cons, Fields, end, field, array, object, JsonLibrary}
use replicant.Models.{Document}

pub data ConflictStrategy : Type 0 where
  last_write_wins first_write_wins merge_json manual : ConflictStrategy

-- `i64::max`
abbrev pub max_ℤ : ℤ → ℤ → ℤ
max_ℤ a b = if ltb_ℤ b a then a else b

module _ (json : JsonLibrary) where
  -- `Vec::contains` and `Vec::push` on the items of an array.
  unfoldable pub contains : Items → Value → Bool
  contains nil v = false
  contains (cons x xs) v = json.value_eq x v || contains xs v

  unfoldable pub push : Items → Value → Items
  push nil v = cons v nil
  push (cons x xs) v = cons x (push xs v)

  -- The loop over the items of the remote array.
  unfoldable pub merge_items : Items → Items → Items
  merge_items merged nil = merged
  merge_items merged (cons item items) =
      merge_items (if contains merged item then merged else push merged item) items

  -- `merge_fields` is the loop over the entries of the remote map.
  unfoldable mutual
    unfolding merge_items

    pub merge_json_values : Value → Value → SyncResult Value
    merge_json_values (object local_map) (object remote_map) =
        merge_fields remote_map local_map local_map >>= λ merged. ok (object merged)
    merge_json_values (array local_arr) (array remote_arr) =
        ok (array (merge_items local_arr remote_arr))
    merge_json_values local remote = ok remote

    pub merge_fields : Fields → Fields → Fields → SyncResult Fields
    merge_fields end local_map merged = ok merged
    merge_fields (field key remote_value rest) local_map merged = elim (json.get key local_map) [
      | some local_value ↦ merge_json_values local_value remote_value >>= λ value.
          merge_fields rest local_map (json.insert key value merged)
      | none ↦ merge_fields rest local_map (json.insert key remote_value merged)
    ]

  -- `i64` addition wraps.
  unfoldable pub merge_json_documents : Document → Document → SyncResult Document
  merge_json_documents local remote =
      merge_json_values local.content remote.content >>= λ merged_content. ok (record local {
        content = merged_content;
        sync_revision = wrap_i64 (max_ℤ local.sync_revision remote.sync_revision +ℤ pos 1);
        content_hash = none;
      })

  unfoldable pub resolve : ConflictStrategy → Document → Document → SyncResult Document
  resolve last_write_wins local remote =
      if ltb remote.updated_at local.updated_at then ok local else ok remote
  resolve first_write_wins local remote =
      if ltb local.created_at remote.created_at then ok local else ok remote
  resolve merge_json local remote = merge_json_documents local remote
  resolve manual local remote = err (conflict_detected local.id)
