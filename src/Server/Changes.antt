-- ===== src/Server/Changes.antt =====
-- The rest of replicant-server/src/database.rs: deletions, and the queries of documents and of the
-- change log.
pub mod Latest
use replicant.Prelude.{
  ℕ, Bool, true, false, ◌&&◌, Option, none, some, List, [], ◌∷◌, map, if◌then◌else◌, ◌==◌, ltb,
  take,
}
use Prim.Native.Nat.{min}
use replicant.Prelude.Int.{ℤ, pos, ltb_ℤ, wrap_i64}
use replicant.Models.{Document}
use replicant.Protocol.{delete, ChangeEvent}
use replicant.Server.State.{Row, EventRow, Library, M, ◌>>=◌, ◌>>◌, query, put_tables, transaction}
use replicant.Server.Database.{get_document, log_change_event}
use replicant.Server.Queries.{unwrap_or}
use replicant.Errors.{ok}

-- `UPDATE documents SET deleted_at = NOW() WHERE id = $1 AND user_id = $2`
unfoldable pub mark_deleted : ℕ → ℕ → ℕ → List Row → List Row
mark_deleted now id user [] = []
mark_deleted now id user (r ∷ rows) =
    (if r.document.id == id && r.document.user_id == user
      then record r { document = record r.document { deleted_at = some now; updated_at = now } }
      else r)
    ∷ mark_deleted now id user rows

unfoldable pub soft_delete : ℕ → ℕ → M (Unit {0})
unfolding mark_deleted
soft_delete id user s = (
  ok tt,
  put_tables (record s.tables { documents = mark_deleted s.now id user s.tables.documents }) s,
)

module _ (lib : Library) where
  unfoldable pub delete_document : ℕ → ℕ → M (Unit {0})
  unfolding transaction query get_document soft_delete log_change_event
  delete_document document_id user_id = transaction (do
    doc_to_delete ← get_document document_id
    query
    soft_delete document_id user_id
    log_change_event (record {
      document_id = document_id;
      user_id = user_id;
      event_type = delete;
      forward_patch = none;
      reverse_patch = some (lib.document_to_value doc_to_delete);
      applied = true;
    }))

module _ {A : Type 0} (before : A → A → Bool) where
  -- `ORDER BY`, where the order of equal keys is that of the table.
  unfoldable pub insert_ordered : A → List A → List A
  insert_ordered a [] = a ∷ []
  insert_ordered a (b ∷ bs) = if before b a then b ∷ insert_ordered a bs else a ∷ b ∷ bs

  unfoldable pub order_by : List A → List A
  unfolding insert_ordered
  order_by [] = []
  order_by (a ∷ as') = insert_ordered a (order_by as')

abbrev pub is_active : ℕ → Document → Bool
is_active user (doc) = doc.user_id == user && absent doc.deleted_at
  where
    absent : Option ℕ → Bool
    absent none = true
    absent (some t) = false

unfoldable pub active_documents : ℕ → List Row → List Document
active_documents user [] = []
active_documents user (r ∷ rows) =
    if is_active user r.document
    then r.document ∷ active_documents user rows
    else active_documents user rows

-- `updated_at DESC`
abbrev pub newer : Document → Document → Bool
newer a b = ltb b.updated_at a.updated_at

unfoldable pub get_user_documents : ℕ → M (List Document)
unfolding query active_documents order_by
get_user_documents user_id = do
  query
  λ s. (ok (order_by newer (active_documents user_id s.tables.documents)), s)

-- A row of the log as the sequence-based synchronisation sends it.
abbrev pub to_event : EventRow → ChangeEvent
to_event r = record {
  sequence = r.sequence;
  document_id = r.document_id;
  user_id = r.user_id;
  event_type = r.event_type;
  forward_patch = r.forward_patch;
  reverse_patch = r.reverse_patch;
  created_at = r.created_at;
}

-- `WHERE user_id = $1 AND sequence > $2`
unfoldable pub events_after : ℕ → ℤ → List EventRow → List EventRow
events_after user last [] = []
events_after user last (r ∷ rows) =
    if r.user_id == user && ltb_ℤ last (pos r.sequence)
    then r ∷ events_after user last rows
    else events_after user last rows

abbrev pub earlier : EventRow → EventRow → Bool
earlier a b = ltb a.sequence b.sequence

-- `limit.unwrap_or(100).min(1000)`
abbrev pub page_limit : Option ℕ → ℕ
page_limit limit = min (unwrap_or limit 100) 1_000

-- The `u64` sequence is cast to `i64`. Each row's type is one of the three that the table's check
-- allows, so none is skipped.
unfoldable pub get_changes_since : ℕ → ℕ → Option ℕ → M (List ChangeEvent)
unfolding query events_after order_by
get_changes_since user_id last_sequence limit = do
  query
  λ s. (
    ok (
        map to_event (
          take (page_limit limit) (
            order_by earlier
              (events_after user_id (wrap_i64 (pos last_sequence)) s.tables.change_events)))),
    s,
  )

-- `COALESCE(MAX(sequence), 0)` of a user's events.
unfoldable pub max_sequence : ℕ → List EventRow → ℕ
max_sequence user [] = 0
max_sequence user (r ∷ rows) =
    if r.user_id == user && ltb (max_sequence user rows) r.sequence
    then r.sequence
    else max_sequence user rows

unfoldable pub get_latest_sequence : ℕ → M ℕ
unfolding query max_sequence
get_latest_sequence user_id = do query; λ s. (ok (max_sequence user_id s.tables.change_events), s)

-- `WHERE document_id = $1 AND applied = false`
unfoldable pub unapplied_events : ℕ → List EventRow → List EventRow
unapplied_events id [] = []
unapplied_events id (r ∷ rows) =
    if r.document_id == id && (if r.applied then false else true)
    then r ∷ unapplied_events id rows
    else unapplied_events id rows

unfoldable pub get_unapplied_changes : ℕ → M (List ChangeEvent)
unfolding query unapplied_events order_by
get_unapplied_changes document_id = do
  query
  λ s. (
    ok (
        map to_event
          (order_by (λ a b. earlier b a) (unapplied_events document_id s.tables.change_events))),
    s,
  )
