-- ===== src/Client/Queue.antt =====
-- replicant-client/src/database.rs and queries.rs: the lists of documents, and the queue of patches.
use replicant.Prelude.{
  ℕ, suc, Bool, true, false, Option, none, some, List, [], ◌∷◌, ◌++◌, Text, if◌then◌else◌, ◌==◌,
  leb, ◌&&◌, codes, length,
}
use replicant.Errors.{database, database_error}
use replicant.Json.{Patch}
use replicant.Models.{Document, SyncStatus, synced, pending, conflict}
use replicant.Protocol.{ChangeEventType, create, update, delete}
use replicant.Client.State.{
  Row, QueueRow, ClientLibrary, Step, ◌>>=◌, ◌>>◌, done, stop_with, modify, reading, outcome_of,
  query, transaction,
}
use replicant.Client.Database.{has_row, document_to_params, upsert_document}

abbrev pub is_some : {A : Type 0} → Option A → Bool
is_some none = false
is_some (some a) = true

abbrev pub is_none : {A : Type 0} → Option A → Bool
is_none none = true
is_none (some a) = false

abbrev pub is_pending : SyncStatus → Bool
is_pending pending = true
is_pending synced = false
is_pending conflict = false

pub record PendingDocumentInfo : Type 0 where
  pub id : ℕ
  pub is_deleted : Bool

-- `WHERE sync_status = 'pending'`
unfoldable pub pending_rows : List Row → List Row
pending_rows [] = []
pending_rows (r ∷ rows) =
    let rest = pending_rows rows in if is_pending r.sync_status then r ∷ rest else rest

-- `ORDER BY updated_at ASC`; rows of one time keep their order.
unfoldable pub insert_by_time : Row → List Row → List Row
insert_by_time r [] = r ∷ []
insert_by_time r (x ∷ rows) =
    let rest = insert_by_time r rows in
    if leb r.document.updated_at x.document.updated_at then r ∷ x ∷ rows else x ∷ rest

unfoldable pub order_by_time : List Row → List Row
unfolding insert_by_time
order_by_time [] = []
order_by_time (r ∷ rows) = insert_by_time r (order_by_time rows)

unfoldable pub pending_infos : List Row → List PendingDocumentInfo
pending_infos [] = []
pending_infos (r ∷ rows) =
    record { id = r.document.id; is_deleted = is_some r.document.deleted_at } ∷ pending_infos rows

unfoldable pub get_pending_documents : Step (List PendingDocumentInfo)
unfolding query pending_rows order_by_time pending_infos
get_pending_documents =
    query >> reading (λ s. pending_infos (order_by_time (pending_rows s.tables.documents)))

-- `WHERE deleted_at IS NULL`
unfoldable pub active_documents : List Row → List Document
active_documents [] = []
active_documents (r ∷ rows) =
    let rest = active_documents rows in
    if is_none r.document.deleted_at then r.document ∷ rest else rest

unfoldable pub get_all_documents : Step (List Document)
unfolding query active_documents
get_all_documents = query >> reading (λ s. active_documents s.tables.documents)

unfoldable pub count_documents : Step ℕ
unfolding query active_documents
count_documents = query >> reading (λ s. length (active_documents s.tables.documents))

-- The `INSERT` into the queue: the foreign key wants the document, and a row that is refused takes
-- no number.
unfoldable pub insert_queue :
    ClientLibrary → ℕ → ChangeEventType → Option Patch → Option Text → Step (Unit {0})
unfolding has_row
insert_queue lib id operation_type patch old_content_hash =
    reading (λ s. has_row id s.tables.documents) >>= λ known.
    if known
    then modify (λ s. record s {
      next_queue_id = suc s.next_queue_id;
      tables = record s.tables {
        sync_queue =
            s.tables.sync_queue
            ++ record {
              id = s.next_queue_id;
              document_id = id;
              operation_type = operation_type;
              patch = patch;
              old_content_hash = old_content_hash;
              created_at = lib.seconds s.now;
            }
              ∷ [];
      };
    })
    else stop_with (database_error (database (codes "787")))

module _ (lib : ClientLibrary) where
  -- The query behind the insertion is for the log, with its failure.
  unfoldable pub queue_sync_operation : ℕ → ChangeEventType → Option Patch → Step (Unit {0})
  unfolding query insert_queue
  queue_sync_operation id operation_type patch =
      query
      >> insert_queue lib id operation_type patch none
      >> (outcome_of query >>= λ counted. done)

  -- Both writes in one transaction, the document as pending.
  unfoldable pub save_document_and_queue_patch :
      Document → Patch → ChangeEventType → Option Text → Step (Unit {0})
  unfolding query transaction upsert_document document_to_params insert_queue
  save_document_and_queue_patch doc patch operation_type old_content_hash = transaction (do
    query
    upsert_document (document_to_params lib doc (some pending))
    query
    insert_queue lib doc.id operation_type (some patch) old_content_hash)

abbrev pub is_update : ChangeEventType → Bool
is_update update = true
is_update create = false
is_update delete = false

-- The later of two rows; of one time, the one that was inserted last.
abbrev later_row : QueueRow → Option QueueRow → QueueRow
later_row q none = q
later_row q (some r) = if leb q.created_at r.created_at then r else q

-- `WHERE document_id = ? AND operation_type = 'update' ORDER BY created_at DESC LIMIT 1`
unfoldable pub latest_update : ℕ → List QueueRow → Option QueueRow
latest_update id [] = none
latest_update id (q ∷ rows) =
    let rest = latest_update id rows in
    if (q.document_id == id) && is_update q.operation_type then some (later_row q rest) else rest

abbrev pub stored_patch : Option QueueRow → Option (Patch × Option Text)
stored_patch none = none
stored_patch (some q) = elim q.patch [ none ↦ none | some p ↦ some (p, q.old_content_hash) ]

unfoldable pub get_queued_patch : ℕ → Step (Option (Patch × Option Text))
unfolding query latest_update
get_queued_patch id = query >> reading (λ s. stored_patch (latest_update id s.tables.sync_queue))

unfoldable pub without : ℕ → List QueueRow → List QueueRow
without id [] = []
without id (q ∷ rows) = let rest = without id rows in if q.document_id == id then rest else q ∷ rest

unfoldable pub remove_from_sync_queue : ℕ → Step (Unit {0})
unfolding query without
remove_from_sync_queue id =
    query
    >> modify
        (λ s. record s { tables = record s.tables { sync_queue = without id s.tables.sync_queue } })
