-- ===== src/Client/Tracking.antt =====
-- replicant-client/src/client.rs: the messages of the server while local changes are on the way, which
-- puts the documents that the server sends off. The tracing of elapsed times is left out.
use replicant.Prelude.{
  ℕ, Bool, true, false, List, [], ◌∷◌, ◌++◌, if◌then◌else◌, ◌==◌, ◌||◌, leb, length,
}
use replicant.Errors.{SyncResult, ok, err}
use replicant.Models.{Document}
use replicant.Protocol.{
  ServerMessage, document_created_response, document_updated_response, document_deleted_response,
  sync_document,
}
use replicant.Client.State.{
  PendingUpload, Client, ClientLibrary, Step, ◌>>=◌, ◌>>◌, done, modify, reading, outcome_of,
}
use replicant.Client.Database.{get_document}
use replicant.Client.Messages.{handle_server_message}

-- `HashMap::contains_key` and `HashMap::remove`.
unfoldable pub has_pending_upload : ℕ → List (ℕ × PendingUpload) → Bool
has_pending_upload id [] = false
has_pending_upload id ((k, u) ∷ uploads) = (k == id) || has_pending_upload id uploads

unfoldable pub remove_upload : ℕ → List (ℕ × PendingUpload) → List (ℕ × PendingUpload)
remove_upload id [] = []
remove_upload id ((k, u) ∷ uploads) =
    let rest = remove_upload id uploads in if k == id then rest else (k, u) ∷ rest

abbrev pub no_uploads : List (ℕ × PendingUpload) → Bool
no_uploads [] = true
no_uploads (u ∷ uploads) = false

-- The upload is confirmed; behind the last one the waiting task is notified.
unfoldable pub finish_upload : ℕ → Client → Client
unfolding has_pending_upload remove_upload
finish_upload id s =
    let left = remove_upload id s.pending_uploads in
    if has_pending_upload id s.pending_uploads
    then record s {
      pending_uploads = left;
      upload_complete = if no_uploads left then true else s.upload_complete;
    }
    else s

abbrev pub drop_first : List ServerMessage → List ServerMessage
drop_first [] = []
drop_first (m ∷ ms) = ms

abbrev pub max_deferred_messages : ℕ
max_deferred_messages = 100

-- A full queue loses its oldest message.
unfoldable pub push_deferred : ServerMessage → List ServerMessage → List ServerMessage
push_deferred msg queue =
    (if leb max_deferred_messages (length queue) then drop_first queue else queue) ++ msg ∷ []

unfoldable pub defer_message : ServerMessage → Step (Unit {0})
unfolding push_deferred
defer_message msg =
    modify (λ s. record s { deferred_messages = push_deferred msg s.deferred_messages })

module _ (lib : ClientLibrary) where
  unfoldable pub handle_all : List ServerMessage → Step (Unit {0})
  handle_all [] = done
  handle_all (msg ∷ msgs) = outcome_of (handle_server_message lib msg) >>= λ result. handle_all msgs

  unfoldable pub process_deferred_messages : Step (Unit {0})
  unfolding handle_all
  process_deferred_messages = reading (λ s. s.deferred_messages) >>= λ msgs.
      modify (λ s. record s { deferred_messages = [] }) >> handle_all msgs

  unfoldable pub track_response : ServerMessage → ℕ → Bool → Step (Unit {0})
  unfolding finish_upload process_deferred_messages
  track_response msg id true =
      modify (finish_upload id)
      >> (outcome_of process_deferred_messages >>= λ result. handle_server_message lib msg)
  track_response msg id false = handle_server_message lib msg

  abbrev pub defer_if : Bool → Document → Step (Unit {0})
  defer_if true document = defer_message (sync_document document)
  defer_if false document = handle_server_message lib (sync_document document)

  -- A document that is not there has no upload to protect.
  unfoldable pub track_unprotected : Document → SyncResult Document → Step (Unit {0})
  unfolding has_pending_upload defer_message
  track_unprotected document (ok local) =
      reading (λ s. has_pending_upload document.id s.pending_uploads) >>= λ uploading.
      defer_if uploading document
  track_unprotected document (err failure) = handle_server_message lib (sync_document document)

  unfoldable pub track_sync : Document → Bool → Step (Unit {0})
  unfolding defer_message track_unprotected
  track_sync document true = defer_message (sync_document document)
  track_sync document false = outcome_of (get_document document.id) >>= track_unprotected document

  unfoldable pub handle_server_message_with_tracking : ServerMessage → Step (Unit {0})
  unfolding track_response track_sync
  handle_server_message_with_tracking (document_created_response id success error) =
      track_response (document_created_response id success error) id success
  handle_server_message_with_tracking (document_updated_response id success error revision) =
      track_response (document_updated_response id success error revision) id success
  handle_server_message_with_tracking (document_deleted_response id success error) =
      track_response (document_deleted_response id success error) id success
  handle_server_message_with_tracking (sync_document document) =
      reading (λ s. s.sync_protection_mode) >>= track_sync document
  handle_server_message_with_tracking msg = handle_server_message lib msg

  -- The task that handles the messages as they arrive; a failure is logged.
  unfoldable pub message_handler : List ServerMessage → Step (Unit {0})
  unfolding handle_server_message_with_tracking
  message_handler [] = done
  message_handler (msg ∷ msgs) =
      outcome_of (handle_server_message_with_tracking msg) >>= λ result. message_handler msgs
