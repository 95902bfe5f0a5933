-- ===== src/Server/Handler.antt =====
-- replicant-server/src/sync_handler.rs: the handling of one client message. Monitoring and tracing
-- are left out.
pub mod Stale
pub mod Create
pub mod Update
pub mod Preserve
pub mod Creation
pub mod Deletion
pub mod Ownership
pub mod Overwrite
use replicant.Prelude.{
  ℕ, Bool, true, false, Option, none, some, List, [], ◌∷◌, ◌++◌, Text, codes, if◌then◌else◌, ◌==◌,
  length,
}
use replicant.Errors.{server, server_sync, ok, err}
use replicant.Protocol.{
  ClientMessage, authenticate, create_document, update_document, delete_document, request_sync,
  request_full_sync, get_changes_since, ack_changes, ping, invalid_auth, server_error,
  document_deleted, document_deleted_response, sync_document, sync_complete, pong,
}
use replicant.Models.{Document}
use replicant.Server.State.{Library, M, ◌>>=◌, ◌>>◌, pure, fail, attempt}
use replicant.Server.Database.{get_document}
use replicant.Server.Changes.{get_user_documents}
use replicant.Server.Changes
use replicant.Server.Broadcast.{send, send_error_message, broadcast_to_user_except}
use replicant.Server.Handler.Create.{SyncHandler, handle_create}
use replicant.Server.Handler.Update.{handle_update}

module _ (lib : Library) (h : SyncHandler) where
  unfoldable pub delete_owned : ℕ → ℕ → M (Unit {0})
  delete_owned user_id document_id = do
    result ← attempt (Changes.delete_document lib document_id user_id)
    elim result [
      | ok u ↦ do
        send h.tx (document_deleted_response document_id true none)
        broadcast_to_user_except user_id h.client_id (document_deleted document_id)
      | err e ↦ send h.tx (document_deleted_response document_id false (some (lib.show_error e)))
    ]

  unfoldable pub handle_delete : ℕ → ℕ → M (Unit {0})
  unfolding delete_owned
  handle_delete user_id document_id = do
    doc ← get_document document_id
    if doc.user_id == user_id
        then delete_owned user_id document_id
        else send_error_message h.tx invalid_auth (codes "Cannot delete another user's document")

  -- A document is sent if it is there and is the user's.
  unfoldable pub send_if_owned : ℕ → ℕ → M (Unit {0})
  send_if_owned user_id doc_id = do
    result ← attempt (get_document doc_id)
    elim result [
      | ok doc ↦ if doc.user_id == user_id then send h.tx (sync_document doc) else pure tt
      | err e ↦ pure tt
    ]

  unfoldable pub send_owned : ℕ → List ℕ → M (Unit {0})
  unfolding send_if_owned
  send_owned user_id [] = pure tt
  send_owned user_id (doc_id ∷ doc_ids) = send_if_owned user_id doc_id >> send_owned user_id doc_ids

  unfoldable pub handle_request_sync : ℕ → List ℕ → M (Unit {0})
  unfolding send_owned
  handle_request_sync user_id document_ids = do
    send_owned user_id document_ids
    send h.tx (sync_complete (length document_ids))

  unfoldable pub send_documents : List Document → M (Unit {0})
  send_documents [] = pure tt
  send_documents (doc ∷ docs) = send h.tx (sync_document doc) >> send_documents docs

  unfoldable pub handle_full_sync : ℕ → M (Unit {0})
  unfolding send_documents
  handle_full_sync user_id = do
    documents ← get_user_documents user_id
    send_documents documents
    send h.tx (sync_complete (length documents))

  -- The match on the message.
  unfoldable pub dispatch : ℕ → ClientMessage → M (Unit {0})
  unfolding handle_create handle_update handle_delete handle_request_sync handle_full_sync
  dispatch user_id (create_document document) = handle_create lib h user_id document
  dispatch user_id (update_document patch) = handle_update lib h user_id patch
  dispatch user_id (delete_document document_id) = handle_delete user_id document_id
  dispatch user_id (request_sync document_ids) = handle_request_sync user_id document_ids
  dispatch user_id request_full_sync = handle_full_sync user_id
  dispatch user_id ping = send h.tx pong
  dispatch user_id (authenticate email client_id api_key signature timestamp) =
      send_error_message h.tx invalid_auth
        (codes "Authentication should be handled before this point")
  dispatch user_id (get_changes_since last_sequence limit) =
      send_error_message h.tx server_error (codes "Sequence-based sync not yet implemented")
  dispatch user_id (ack_changes up_to_sequence) =
      send_error_message h.tx server_error (codes "Change acknowledgment not yet implemented")

  abbrev pub with_user : Option ℕ → ClientMessage → M (Unit {0})
  unfolding dispatch
  with_user (some user_id) msg = dispatch user_id msg
  with_user none msg = fail (server (server_sync (codes "Unauthorized: user_id not found")))

  unfoldable pub handle_message : ClientMessage → M (Unit {0})
  unfolding dispatch
  handle_message msg = with_user h.user_id msg
