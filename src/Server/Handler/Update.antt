-- ===== src/Server/Handler/Update.antt =====
-- The handling of `UpdateDocument` in replicant-server/src/sync_handler.rs.
use replicant.Prelude.{ℕ, true, false, none, some, codes, if◌then◌else◌, ◌==◌, text_eq}
use replicant.Errors.{SyncError, version_mismatch, SyncResult, ok, err}
use replicant.Models.{Document, DocumentPatch}
use replicant.Patches.{calculate_checksum, apply_patch}
use replicant.Protocol.{invalid_auth, invalid_patch, document_updated_response, sync_document}
use replicant.Server.State.{Library, M, ◌>>=◌, ◌>>◌, pure, attempt}
use replicant.Server.Database.{get_document, update_document}
use replicant.Server.Broadcast.{send, send_error_message, broadcast_to_user_except}
use replicant.Server.Handler.Create.{SyncHandler}

-- `?` on a result that touches no state.
abbrev pub lift : {A : Type 0} → SyncResult A → M A
lift r s = (r, s)

module _ (lib : Library) (h : SyncHandler) (user_id : ℕ) (patch : DocumentPatch) where
  -- The update is stored: the row is read again and sent to the user's other clients.
  unfoldable pub announce_updated : ℕ → M (Unit {0})
  announce_updated id = do
    updated_doc ← get_document id
    send h.tx (document_updated_response updated_doc.id true none (some updated_doc.sync_revision))
    broadcast_to_user_except user_id h.client_id (sync_document updated_doc)

  -- After a version mismatch the current row goes to all of the user's clients.
  unfoldable pub announce_current : SyncError → M (Unit {0})
  announce_current (version_mismatch expected actual) = do
    current ← attempt (get_document patch.document_id)
    elim current [
      | ok current_doc ↦ do
        send h.tx (sync_document current_doc)
        broadcast_to_user_except user_id h.client_id (sync_document current_doc)
      | err e ↦ pure tt
    ]
  announce_current _ = pure tt

  unfoldable pub refuse_update : SyncError → M (Unit {0})
  unfolding announce_current
  refuse_update e = do
    announce_current e
    send h.tx (document_updated_response patch.document_id false (some (lib.show_error e)) none)

  unfoldable pub store_update : Document → M (Unit {0})
  unfolding announce_updated refuse_update
  store_update doc = do
    result ← attempt (update_document lib doc (some patch.patch))
    elim result [ ok u ↦ announce_updated doc.id | err e ↦ refuse_update e ]

  -- The document as the patch leaves it.
  unfoldable pub patched : Document → M Document
  patched doc = do
    new_content ← lift (apply_patch lib.json doc.content patch.patch)
    pure (record doc {
      content = new_content;
      content_hash = some (calculate_checksum lib.json new_content);
    })

  -- The part behind the first read of the document.
  unfoldable pub update_read : Document → M (Unit {0})
  unfolding store_update patched
  update_read doc =
      if doc.user_id == user_id
      then if text_eq (calculate_checksum lib.json doc.content) patch.content_hash
        then patched doc >>= store_update
        else send_error_message h.tx invalid_patch (codes "Content hash mismatch")
      else send_error_message h.tx invalid_auth (codes "Cannot update another user's document")

  unfoldable pub handle_update : M (Unit {0})
  unfolding update_read
  handle_update = get_document patch.document_id >>= update_read
