-- ===== src/Client/Sync.antt =====
-- replicant-client/src/client.rs: the upload of the changes that are pending, and the requests for the
-- server's documents. A wait for confirmations is the end of one function and the start of the next.
use replicant.Prelude.{ℕ, Bool, true, false, Option, none, some, List, [], ◌∷◌, Text, codes, length}
use replicant.Errors.{SyncError, client, web_socket, SyncResult, ok, err}
use replicant.Json.{Patch}
use replicant.Models.{Document}
use replicant.Protocol.{ClientMessage, request_full_sync, delete_document}
use replicant.Client.Events.Emit.{emit_sync_started}
use replicant.Client.State.{
  UploadType, ClientLibrary, Step, ◌>>=◌, ◌>>◌, give, done, stop_with, modify, reading, outcome_of,
  emit,
}
use replicant.Client.Database.{get_document}
use replicant.Client.Queue.{
  PendingDocumentInfo, get_pending_documents, get_queued_patch, get_all_documents,
}
use replicant.Client.Tracking.{no_uploads, process_deferred_messages}
use replicant.Client.Uploads.{
  track_upload, send_on, not_connected, send, upload_type, upload_message, queued_or_none,
}

abbrev pub not_connected_again : SyncError
not_connected_again = client (web_socket (codes "Not connected during reconnection sync"))

-- A send on the connection, if there is one.
abbrev pub send_or : SyncError → Option Bool → ClientMessage → Step (Unit {0})
send_or refusal none message = stop_with refusal
send_or refusal (some is_open) message = send_on is_open message

-- How the two uploads read the queue: the first one fails with it, the second one takes a failure
-- for an empty queue.
abbrev pub read_strictly : ℕ → Step (Option (Patch × Option Text))
read_strictly id = get_queued_patch id

abbrev pub read_or_none : ℕ → Step (Option (Patch × Option Text))
read_or_none id = outcome_of (get_queued_patch id) >>= λ found. give (queued_or_none found)

module _ (lib : ClientLibrary) where
  module _ (refusal : SyncError) (read : ℕ → Step (Option (Patch × Option Text))) where
    unfoldable pub upload_found : PendingDocumentInfo → Bool → SyncResult Document → Step (Unit {0})
    unfolding track_upload
    upload_found info is_deleted (err failure) = done
    upload_found info true (ok doc) = do
      track_upload info.id UploadType.delete
      ws_client ← reading (λ s. s.ws_client)
      send_or refusal ws_client (delete_document info.id)
    upload_found info false (ok doc) = do
      found ← read info.id
      track_upload info.id (upload_type found)
      ws_client ← reading (λ s. s.ws_client)
      send_or refusal ws_client (upload_message lib info.id doc found)

    unfoldable pub upload_one : PendingDocumentInfo → Step (Unit {0})
    unfolding upload_found
    upload_one info = outcome_of (get_document info.id) >>= upload_found info info.is_deleted

    unfoldable pub upload_each : List PendingDocumentInfo → Step (Unit {0})
    unfolding upload_one
    upload_each [] = done
    upload_each (info ∷ infos) = upload_one info >> upload_each infos

  unfoldable pub sync_pending_documents : Step (Unit {0})
  unfolding get_pending_documents upload_each
  sync_pending_documents = get_pending_documents >>= upload_each not_connected read_strictly

  unfoldable pub perform_pending_sync_after_reconnection : Step (Unit {0})
  unfolding get_pending_documents upload_each
  perform_pending_sync_after_reconnection =
      get_pending_documents >>= upload_each not_connected_again read_or_none

  unfoldable pub sync_all : Step (Unit {0})
  unfolding send
  sync_all = send request_full_sync

  -- The initial sync up to the wait for the confirmations.
  unfoldable pub begin_initial_sync : Step (Unit {0})
  unfolding sync_pending_documents
  begin_initial_sync = do
    emit (emit_sync_started lib.events)
    modify (λ s. record s { sync_protection_mode = true })
    sync_pending_documents

  -- The initial sync behind the wait.
  unfoldable pub finish_initial_sync : Step (Unit {0})
  unfolding process_deferred_messages sync_all
  finish_initial_sync = do
    modify (λ s. record s { sync_protection_mode = false })
    processed ← outcome_of (process_deferred_messages lib)
    sync_all

  -- The retry of uploads that were not confirmed in time, up to its wait.
  abbrev pub retry : Bool → Step (Unit {0})
  retry true = done
  retry false = modify (λ s. record s { pending_uploads = [] }) >> sync_pending_documents

  unfoldable pub retry_failed_uploads : Step (Unit {0})
  unfolding sync_pending_documents
  retry_failed_uploads = reading (λ s. no_uploads s.pending_uploads) >>= retry

  -- One round of the task that a reconnection triggers.
  unfoldable pub reconnection_sync : Step (Unit {0})
  unfolding perform_pending_sync_after_reconnection sync_all
  reconnection_sync = perform_pending_sync_after_reconnection >> (outcome_of sync_all >>= λ r. done)

unfoldable pub count_documents : Step ℕ
unfolding get_all_documents
count_documents = get_all_documents >>= λ docs. give (length docs)

unfoldable pub count_pending_sync : Step ℕ
unfolding get_pending_documents
count_pending_sync = get_pending_documents >>= λ docs. give (length docs)
