-- ===== src/Server/Database.antt =====
-- replicant-server/src/database.rs: the tables' operations, each inside its transaction. An `UPDATE`
-- runs the trigger of the first migration, which sets `updated_at`.
pub mod Updates
pub mod Stores
use replicant.Prelude.{
  ℕ, suc, ◌+◌, ◌-◌, ◌^◌, ◌≡◌, refl, Bool, true, false, ◌&&◌, Option, none, some, List, [], ◌∷◌,
  ◌++◌, Text, codes, if◌then◌else◌, ◌==◌, ltb, leb, take,
}
use replicant.Prelude.Int.{ℤ, pos, negsuc, ◌+ℤ◌, wrap_i64, ltb_ℤ}
use replicant.Errors.{
  DbError, row_not_found, database, SyncError, version_mismatch, database_error, SyncResult, ok,
  err,
}
use replicant.Json.{Value, Patch}
use replicant.Models.{Document}
use replicant.Protocol.{ChangeEventType, create, update, delete, ChangeEvent}
use replicant.Patches.{compute_reverse_patch}
use replicant.Server.State.{
  Row, EventRow, Tables, Server, Library, M, ◌>>=◌, ◌>>◌, pure, fail, query, put_tables,
  transaction,
}
use replicant.Server.Queries.{document_to_params, find_document, has_user}

-- PostgreSQL's `unique_violation`, `foreign_key_violation` and `numeric_value_out_of_range`.
abbrev pub unique_violation : SyncError
unique_violation = database_error (database (codes "23505"))

abbrev pub foreign_key_violation : SyncError
foreign_key_violation = database_error (database (codes "23503"))

abbrev pub out_of_range : SyncError
out_of_range = database_error (database (codes "22003"))

abbrev pub is_some : {A : Type 0} → Option A → Bool
is_some none = false
is_some (some a) = true

-- The row of a `SELECT` with `fetch_one`.
abbrev pub fetch_one : {A : Type 0} → Option A → M A
fetch_one none = fail (database_error row_not_found)
fetch_one (some a) = pure a

-- `ChangeEventParams`
pub record ChangeEventParams : Type 0 where
  pub document_id : ℕ
  pub user_id : ℕ
  pub event_type : ChangeEventType
  pub forward_patch : Option Value
  pub reverse_patch : Option Value
  pub applied : Bool

-- The `INSERT` of an event: its sequence number is taken whether or not the row is refused.
unfoldable pub insert_event : ChangeEventParams → M (Unit {0})
insert_event p s =
    if is_some (find_document p.document_id s.tables.documents) && has_user p.user_id s.tables.users
    then (
      ok tt,
      record s {
        next_sequence = suc s.next_sequence;
        tables = record s.tables {
          change_events =
              s.tables.change_events
              ++ record {
                sequence = s.next_sequence;
                document_id = p.document_id;
                user_id = p.user_id;
                event_type = p.event_type;
                forward_patch = p.forward_patch;
                reverse_patch = p.reverse_patch;
                applied = p.applied;
                created_at = s.now;
              }
                ∷ [];
        };
      },
    )
    else (err foreign_key_violation, record s { next_sequence = suc s.next_sequence })

unfoldable pub log_change_event : ChangeEventParams → M (Unit {0})
unfolding query insert_event
log_change_event params = do query; insert_event params

unfoldable pub get_document : ℕ → M Document
unfolding query find_document
get_document id = do query; λ s. fetch_one (find_document id s.tables.documents) s

-- The `INSERT INTO documents`.
unfoldable pub insert_document : Row → M (Unit {0})
insert_document row s =
    if is_some (find_document row.document.id s.tables.documents)
    then (err unique_violation, s)
    else if has_user row.document.user_id s.tables.users
    then (ok tt, put_tables (record s.tables { documents = s.tables.documents ++ row ∷ [] }) s)
    else (err foreign_key_violation, s)

module _ (lib : Library) where
  unfoldable pub create_document : Document → M (Unit {0})
  unfolding transaction query insert_document log_change_event document_to_params
  create_document doc = transaction (do
    query
    insert_document (document_to_params lib doc)
    log_change_event (record {
      document_id = doc.id;
      user_id = doc.user_id;
      event_type = create;
      forward_patch = some (lib.document_to_value doc);
      reverse_patch = none;
      applied = true;
    }))

-- The columns that the `UPDATE` of `update_document_in_tx` sets, from the bound row.
unfoldable pub updated_row : ℕ → Row → Row → Row
updated_row now params r = record {
  document = record r.document {
    content = params.document.content;
    sync_revision = r.document.sync_revision +ℤ pos 1;
    updated_at = now;
    deleted_at = params.document.deleted_at;
    content_hash = params.document.content_hash;
    title = params.document.title;
  };
  size_bytes = params.size_bytes;
}

abbrev pub eq_ℤ : ℤ → ℤ → Bool
eq_ℤ (pos m) (pos n) = m == n
eq_ℤ (pos m) (negsuc n) = false
eq_ℤ (negsuc m) (pos n) = false
eq_ℤ (negsuc m) (negsuc n) = m == n

-- `WHERE id = $1 AND sync_revision = $7`
abbrev pub matches_revision : ℕ → ℤ → Row → Bool
matches_revision id revision r = r.document.id == id && eq_ℤ r.document.sync_revision revision

unfoldable pub count_matches : ℕ → ℤ → List Row → ℕ
count_matches id revision [] = 0
count_matches id revision (r ∷ rows) =
    (if matches_revision id revision r then 1 else 0) + count_matches id revision rows

unfoldable pub update_rows : ℕ → Row → ℤ → List Row → List Row
unfolding updated_row
update_rows now params revision [] = []
update_rows now params revision (r ∷ rows) =
    (if matches_revision params.document.id revision r then updated_row now params r else r)
    ∷ update_rows now params revision rows

-- The `UPDATE`, with the number of rows that it affected; `sync_revision + 1` may leave `BIGINT`.
unfoldable pub update_where : Row → ℤ → M ℕ
unfolding update_rows count_matches
update_where params revision s =
    if count_matches params.document.id revision s.tables.documents == 0
    then (ok 0, s)
    else if ltb_ℤ revision (pos (2 ^ 63 - 1))
    then (
      ok (count_matches params.document.id revision s.tables.documents),
      put_tables
          (record s.tables { documents = update_rows s.now params revision s.tables.documents }) s,
    )
    else (err out_of_range, s)

-- The check of `rows_affected`.
abbrev pub check_affected : ℕ → ℤ → ℤ → M (Unit {0})
check_affected affected expected actual =
    if affected == 0 then fail (version_mismatch expected actual) else pure tt

abbrev pub ok_value : SyncResult Patch → Option Patch
ok_value (ok p) = some p
ok_value (err e) = none

module _ (lib : Library) where
  abbrev pub to_json : Option Patch → Option Value
  to_json none = none
  to_json (some p) = some (lib.patch_to_value p)

  -- The reverse patch for the log, or null where there is none.
  unfoldable pub reverse_json : Value → Option Patch → Option Value
  unfolding compute_reverse_patch
  reverse_json original none = none
  reverse_json original (some p) = to_json (ok_value (compute_reverse_patch lib.json original p))

  -- The row is locked from the `SELECT` on; other transactions meanwhile are in Server.Locks.
  unfoldable pub update_document_in_tx : Document → Option Patch → M (Unit {0})
  unfolding query find_document update_where log_change_event reverse_json document_to_params
  update_document_in_tx doc patch = do
    query
    original ← λ s. fetch_one (find_document doc.id s.tables.documents) s
    query
    affected ← update_where (document_to_params lib doc) original.sync_revision
    check_affected affected original.sync_revision doc.sync_revision
    log_change_event (record {
      document_id = doc.id;
      user_id = doc.user_id;
      event_type = update;
      forward_patch = to_json patch;
      reverse_patch = reverse_json original.content patch;
      applied = true;
    })

  unfoldable pub update_document : Document → Option Patch → M (Unit {0})
  unfolding transaction update_document_in_tx
  update_document doc patch = transaction (update_document_in_tx doc patch)
