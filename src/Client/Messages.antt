-- ===== src/Client/Messages.antt =====
-- replicant-client/src/client.rs: what a client does with the messages of the server, and their
-- protection while its own changes are on the way.
use replicant.Prelude.{
  ℕ, ◌&&◌, Bool, true, false, Option, none, some, ◌++◌, Text, codes, if◌then◌else◌, not,
}
use replicant.Prelude.Int.{ℤ, ltb_ℤ}
use replicant.Errors.{SyncResult, ok, err}
use replicant.Json.{Value}
use replicant.Models.{Document, DocumentPatch, synced}
use replicant.Patches.{apply_patch}
use replicant.Protocol.{
  ServerMessage, document_created, document_updated, document_deleted, document_created_response,
  document_updated_response, document_deleted_response, sync_document, sync_complete,
  conflict_detected,
}
use replicant.Client.Events.Emit.{
  emit_document_created, emit_document_updated, emit_document_deleted, emit_sync_completed,
  emit_sync_error, emit_conflict_detected,
}
use replicant.Client.State.{ClientLibrary, Step, ◌>>=◌, ◌>>◌, done, lift, reading, outcome_of, emit}
use replicant.Client.Database.{
  get_document, save_document, save_document_with_status, mark_synced, update_sync_revision,
  delete_document,
}
use replicant.Client.Queue.{remove_from_sync_queue}

abbrev pub same_revision : ℤ → ℤ → Bool
same_revision a b = not (ltb_ℤ a b) && not (ltb_ℤ b a)

-- The failure's text in an event.
abbrev failed_text : Text → Option Text → Text
failed_text what none = what ++ codes " failed: unknown"
failed_text what (some e) = what ++ codes " failed: " ++ e

-- A confirmation, with the revision that the server may name.
unfoldable pub confirm : ℕ → Option ℤ → Step (Unit {0})
confirm id none = do mark_synced id; remove_from_sync_queue id
confirm id (some revision) = do
  update_sync_revision id revision
  mark_synced id
  remove_from_sync_queue id

module _ (lib : ClientLibrary) where
  -- The document is stored as synced, and the change is announced.
  unfoldable pub store_updated : Document → Step (Unit {0})
  store_updated document = do
    save_document_with_status lib document (some synced)
    emit (emit_document_updated lib.events document.id document.content)

  unfoldable pub store_created : Document → Step (Unit {0})
  store_created document = do
    save_document_with_status lib document (some synced)
    emit (emit_document_created lib.events document.id document.content)

  -- The patched document is stored as pending, and marked as synced then.
  unfoldable pub store_patched : Document → Value → ℕ → Step (Unit {0})
  store_patched doc content now = do
    save_document lib (record doc { content = content; content_hash = none; updated_at = now })
    mark_synced doc.id
    emit (emit_document_updated lib.events doc.id content)

  unfoldable pub apply_update : DocumentPatch → Step (Unit {0})
  unfolding store_patched
  apply_update patch = do
    doc ← get_document patch.document_id
    content ← lift (apply_patch (lib.events).json doc.content patch.patch)
    now ← reading (λ s. s.now)
    store_patched doc content now

  -- A failure to read the local document counts as its absence.
  unfoldable pub receive_created : Document → SyncResult Document → Step (Unit {0})
  unfolding store_updated store_created
  receive_created document (ok existing) =
      if same_revision existing.sync_revision document.sync_revision
      then mark_synced document.id
      else store_updated document
  receive_created document (err failure) = store_created document

  unfoldable pub receive_deleted : ℕ → Step (Unit {0})
  receive_deleted id = do
    delete_document id
    mark_synced id
    emit (emit_document_deleted lib.events id)

  unfoldable pub receive_sync : Document → SyncResult Document → Step (Unit {0})
  unfolding store_updated store_created
  receive_sync document (ok local) =
      if not (ltb_ℤ document.sync_revision local.sync_revision)
      then store_updated document
      else done
  receive_sync document (err failure) = store_created document

  unfoldable pub receive_response : Text → ℕ → Bool → Option Text → Option ℤ → Step (Unit {0})
  unfolding confirm
  receive_response what id true error revision = confirm id revision
  receive_response what id false error revision =
      emit (emit_sync_error lib.events (failed_text what error))

  unfoldable pub handle_server_message : ServerMessage → Step (Unit {0})
  unfolding apply_update receive_created receive_deleted receive_sync receive_response
  handle_server_message (document_updated patch) = apply_update patch
  handle_server_message (document_created document) =
      outcome_of (get_document document.id) >>= receive_created document
  handle_server_message (document_deleted id) = receive_deleted id
  handle_server_message (conflict_detected id resolution) =
      emit (emit_conflict_detected lib.events id)
  handle_server_message (sync_document document) =
      outcome_of (get_document document.id) >>= receive_sync document
  handle_server_message (sync_complete count) = emit (emit_sync_completed lib.events count)
  handle_server_message (document_created_response id success error) =
      receive_response (codes "Create") id success error none
  handle_server_message (document_updated_response id success error revision) =
      receive_response (codes "Update") id success error revision
  handle_server_message (document_deleted_response id success error) =
      receive_response (codes "Delete") id success error none
  handle_server_message _ = done
