-- ===== src/Client/Database.antt =====
-- replicant-client/src/database.rs and queries.rs: the documents and the queue of patches. Tables are
-- lists of rows in the order of insertion; a column of JSON text holds its value, and a time its
-- place in the order of times. The full-text index is written last, by queries of its own, whose
-- failures are logged only: Client.Search has it.
use replicant.Prelude.{
  ℕ, Bool, true, false, Option, none, some, List, [], ◌∷◌, ◌++◌, codes, Text, if◌then◌else◌, ◌==◌,
  take,
}
use replicant.Prelude.Int.{ℤ}
use replicant.Errors.{row_not_found, database_error}
use replicant.Models.{Document, SyncStatus, synced, pending, as_str, get_key}
use replicant.Client.State.{
  Row, ClientLibrary, Step, ◌>>=◌, ◌>>◌, give, stop_with, modify, reading, query,
}

-- Rows.

unfoldable pub find_row : ℕ → List Row → Option Row
find_row id [] = none
find_row id (r ∷ rows) = let rest = find_row id rows in if r.document.id == id then some r else rest

abbrev pub is_found : Option Row → Bool
is_found none = false
is_found (some r) = true

unfoldable pub has_row : ℕ → List Row → Bool
unfolding find_row
has_row id rows = is_found (find_row id rows)

-- The rows that a `WHERE id = ?` takes are changed.
unfoldable pub update_rows : ℕ → (Row → Row) → List Row → List Row
update_rows id f [] = []
update_rows id f (r ∷ rows) = (if r.document.id == id then f r else r) ∷ update_rows id f rows

abbrev pub change_rows : ℕ → (Row → Row) → Step (Unit {0})
change_rows id f =
    modify (λ s. record s {
      tables = record s.tables { documents = update_rows id f s.tables.documents };
    })

-- `unwrap_or`
abbrev or_else : {A : Type 0} → Option A → A → A
or_else none d = d
or_else (some a) d = a

abbrev map_text : (Text → Text) → Option Text → Option Text
map_text f none = none
map_text f (some t) = some (f t)

-- The row of the parameters.
unfoldable pub document_to_params : ClientLibrary → Document → Option SyncStatus → Row
document_to_params lib doc sync_status =
    let json = (lib.events).json in
    let from_content = map_text (take 128) (as_str (get_key json (codes "title") doc.content)) in
    record {
      document = record doc {
        content_hash = none;
        title = some (or_else doc.title (or_else from_content (lib.format_time doc.created_at)));
      };
      sync_status = or_else sync_status pending;
    }

-- `DO UPDATE SET`: the owner and the time of creation stay.
unfoldable pub overwrite : Row → Row → Row
overwrite new old = record {
  document = record new.document {
    user_id = old.document.user_id;
    created_at = old.document.created_at;
  };
  sync_status = new.sync_status;
}

unfoldable pub upsert : Row → List Row → List Row
unfolding has_row update_rows overwrite
upsert new rows =
    if has_row new.document.id rows
    then update_rows new.document.id (overwrite new) rows
    else rows ++ new ∷ []

unfoldable pub upsert_document : Row → Step (Unit {0})
unfolding upsert
upsert_document new =
    modify
      (λ s. record s { tables = record s.tables { documents = upsert new s.tables.documents } })

-- `fetch_one`
abbrev pub fetch_one : Option Row → Step Document
fetch_one none = stop_with (database_error row_not_found)
fetch_one (some r) = give r.document

unfoldable pub get_document : ℕ → Step Document
unfolding query find_row
get_document id = do query; found ← reading (λ s. find_row id s.tables.documents); fetch_one found

module _ (lib : ClientLibrary) where
  unfoldable pub save_document_with_status : Document → Option SyncStatus → Step (Unit {0})
  unfolding query upsert_document document_to_params
  save_document_with_status doc sync_status = do
    query
    upsert_document (document_to_params lib doc sync_status)

  unfoldable pub save_document : Document → Step (Unit {0})
  unfolding save_document_with_status
  save_document doc = save_document_with_status doc none

unfoldable pub mark_synced : ℕ → Step (Unit {0})
unfolding query update_rows
mark_synced id = do query; change_rows id (λ r. record r { sync_status = synced })

unfoldable pub update_sync_revision : ℕ → ℤ → Step (Unit {0})
unfolding query update_rows
update_sync_revision id revision = do
  query
  change_rows id (λ r. record r { document = record r.document { sync_revision = revision } })

unfoldable pub delete_document : ℕ → Step (Unit {0})
unfolding query update_rows
delete_document id = do
  query
  now ← reading (λ s. s.now)
  change_rows id (λ r. record r {
    document = record r.document { deleted_at = some now };
    sync_status = pending;
  })
