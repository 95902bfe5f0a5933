-- ===== src/Client/Edits.antt =====
-- replicant-client/src/client.rs: a local edit, in the tables of the client.
use replicant.Prelude.{
  ℕ, suc, ◌≡◌, ◌≢◌, refl, sym, ap, ◌∙◌, Bool, true, false, Option, none, some, [], ◌∷◌, ◌++◌,
}
use replicant.Errors.{SyncResult, ok, err}
use replicant.Json.{Value}
use replicant.Models.{Document, pending}
use replicant.Patches.{create_patch, calculate_checksum}
use replicant.Protocol.{ClientMessage, update}
use replicant.Client.State.{
  Row, QueueRow, Tables, Client, ClientLibrary, continue_with, query, transaction, reading,
  reliable,
}
use replicant.Client.Database.{
  find_row, has_row, document_to_params, overwrite, upsert, upsert_document,
}
use replicant.Client.Queue.{insert_queue, save_document_and_queue_patch, get_queued_patch}
use replicant.Client.Uploads.{
  edited, save_edit, announce_edit, update_document, try_immediate_sync, sync_connected, send_now,
  lose_connection, upload_message, queued_or_none, upload_type, track_upload,
  start_reconnection_loop,
}
use replicant.Client.Rows.{find_row-id, find_row-upsert-old, find_row-upsert-other, has_row-some}
use replicant.Client.Receive.{get_document-found}

continue-reading-tables :
    {A : Type 0} (f : Client → A) (r : SyncResult (Unit {0}) × Client) (t : Tables)
    → (r.1).tables ≡ t
    → ((continue_with (λ _. reading f) r).1).tables ≡ t
continue-reading-tables f (ok v, s) t e = e
continue-reading-tables f (err x, s) t e = e

get_queued_patch-tables : (id : ℕ) (s : Client) → ((get_queued_patch id s).1).tables ≡ s.tables
unfolding get_queued_patch query
get_queued_patch-tables id s = continue-reading-tables _ (query s) s.tables refl

module _ (lib : ClientLibrary) where
  send_now-tables :
      (id : ℕ) (m : ClientMessage) (o : Option Bool) (s : Client)
      → ((send_now lib id m o s).1).tables ≡ s.tables
  unfolding lose_connection start_reconnection_loop
  send_now-tables id m none s = refl
  send_now-tables id m (some true) s = refl
  send_now-tables id m (some false) s = refl

  sync_connected-tables :
      (d : Document) (b : Bool) (s : Client) → ((sync_connected lib d b s).1).tables ≡ s.tables
  unfolding sync_connected track_upload
  sync_connected-tables d false s = refl
  sync_connected-tables d true s =
      let found = get_queued_patch d.id s in
      let queued = queued_or_none found.0 in
      send_now-tables d.id (upload_message lib d.id d queued) ((found.1).ws_client)
        ((track_upload d.id (upload_type queued) found.1).1)
      ∙ get_queued_patch-tables d.id s

  -- The row of the queue for an edit.
  unfoldable pub queued_edit : Document → Value → Client → QueueRow
  queued_edit doc content s = record {
    id = s.next_queue_id;
    document_id = doc.id;
    operation_type = update;
    patch = some ((lib.events).json.diff doc.content content);
    old_content_hash = some (calculate_checksum (lib.events).json doc.content);
    created_at = lib.seconds s.now;
  }

  -- The row of the document behind an edit.
  unfoldable pub edited_row : Row → Value → Client → Row
  unfolding document_to_params overwrite
  edited_row r content s =
      overwrite (document_to_params lib (edited r.document content s.now) (some pending)) r

  -- The tables behind an edit.
  abbrev stored : Row → Value → Client → Client
  stored r content s = record (reliable s) {
    next_queue_id = suc s.next_queue_id;
    tables = record {
      documents =
          upsert (document_to_params lib (edited r.document content s.now) (some pending))
            s.tables.documents;
      sync_queue = s.tables.sync_queue ++ queued_edit r.document content s ∷ [];
    };
  }

  abbrev edited_params : Row → Value → Client → Row
  edited_params r content s =
      document_to_params lib (edited r.document content s.now) (some pending)

  find_row-edited :
      (s : Client) (id : ℕ) (r : Row) (content : Value)
      → find_row id s.tables.documents ≡ some r
      → find_row r.document.id (upsert (edited_params r content s) s.tables.documents)
        ≡ some (edited_row r content s)
  unfolding edited_row document_to_params
  find_row-edited s id r content e =
      find_row-upsert-old (edited_params r content s) r s.tables.documents
        (ap (λ k. find_row k s.tables.documents) (find_row-id id s.tables.documents r e) ∙ e)

  save_edit-stored :
      (s : Client) (id : ℕ) (r : Row) (content : Value)
      → find_row id s.tables.documents ≡ some r
      → save_edit lib r.document content (reliable s) ≡ (ok tt, stored r content s)
  unfolding save_edit create_patch save_document_and_queue_patch transaction query upsert_document
      insert_queue document_to_params queued_edit
  save_edit-stored s id r content e =
      let known : has_row r.document.id (upsert (edited_params r content s) s.tables.documents)
          ≡ true =
        has_row-some r.document.id (upsert (edited_params r content s) s.tables.documents)
          (edited_row r content s) (find_row-edited s id r content e) in
      rw known refl

  try_immediate_sync-tables :
      (d : Document) (s : Client) → ((try_immediate_sync lib d s).1).tables ≡ s.tables
  unfolding try_immediate_sync
  try_immediate_sync-tables d s = sync_connected-tables d s.is_connected s

  announce_edit-tables :
      (s : Client) (d : Document) (r : Row) (content : Value) (now : ℕ)
      → find_row d.id s.tables.documents ≡ some r
      → ((announce_edit lib d content now (reliable s)).0 ≡ ok tt)
        × (((announce_edit lib d content now (reliable s)).1).tables ≡ s.tables)
  unfolding announce_edit
  announce_edit-tables s d r content now e =
      rw (get_document-found s d.id r e) (refl, try_immediate_sync-tables (edited d content now) _)

  pub update_document-stored :
      (s : Client) (id : ℕ) (r : Row) (content : Value)
      → find_row id s.tables.documents ≡ some r
      → ((update_document lib id content (reliable s)).0 ≡ ok tt)
        × (((update_document lib id content (reliable s)).1).tables ≡ (stored r content s).tables)
  unfolding update_document
  update_document-stored s id r content e =
      rw (get_document-found s id r e, save_edit-stored s id r content e)
        (announce_edit-tables (stored r content s) r.document (edited_row r content s) content s.now
          (find_row-edited s id r content e))

  -- With no query failing, an edit of a document that is there succeeds, connected or not: the
  -- document has the new content, is pending and keeps its revision, the queue has the difference
  -- with the old content's hash behind its rows, and no other document changes.
  pub update_document-pending :
      (s : Client) (id : ℕ) (r : Row) (content : Value)
      → find_row id s.tables.documents ≡ some r
      → ((update_document lib id content (reliable s)).0 ≡ ok tt)
        × ((r' : Row) × (find_row id
                ((update_document lib id content (reliable s)).1).tables.documents
              ≡ some r')
            × (r'.document.content ≡ content)
            × (r'.document.sync_revision ≡ r.document.sync_revision)
            × (r'.sync_status ≡ pending))
        × (((update_document lib id content (reliable s)).1).tables.sync_queue
            ≡ s.tables.sync_queue ++ queued_edit r.document content s ∷ [])
        × ((k : ℕ)
            → k ≢ id
            → find_row k ((update_document lib id content (reliable s)).1).tables.documents
              ≡ find_row k s.tables.documents)
  unfolding edited_row document_to_params overwrite
  update_document-pending s id r content e =
      let done = update_document-stored s id r content e in
      let is_id = find_row-id id s.tables.documents r e in
      (
        done.0,
        (
          edited_row r content s,
          ap (λ (t : Tables). find_row id t.documents) done.1
              ∙ ap (λ k. find_row k (upsert (edited_params r content s) s.tables.documents))
                  (sym is_id)
              ∙ find_row-edited s id r content e,
          refl,
          refl,
          refl,
        ),
        ap (λ (t : Tables). t.sync_queue) done.1,
        λ k n.
            ap (λ (t : Tables). find_row k t.documents) done.1
            ∙ find_row-upsert-other (edited_params r content s) k s.tables.documents
                (λ p. n (p ∙ is_id)),
      )
