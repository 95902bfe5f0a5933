-- ===== src/Client/Uploads.antt =====
-- replicant-client/src/client.rs: the local changes of documents, and their upload. The clock is read
-- once in each function, the queries that only serve the log are left out, and the test for a
-- connection is the flag that the socket's tasks keep.
use replicant.Prelude.{ℕ, suc, Bool, true, false, Option, none, some, [], ◌∷◌, ◌++◌, codes, Text}
use replicant.Prelude.Int.{pos}
use replicant.Errors.{SyncError, client, web_socket, SyncResult, ok, err}
use replicant.Json.{Value, Patch}
use replicant.Models.{Document, pending}
use replicant.Patches.{create_patch, calculate_checksum}
use replicant.Protocol.{ChangeEventType, ClientMessage}
use replicant.Client.Events.Emit.{
  emit_document_created, emit_document_updated, emit_document_deleted, emit_connection_lost,
}
use replicant.Client.State.{
  UploadType, ClientLibrary, Step, ◌>>=◌, ◌>>◌, give, done, stop_with, lift, modify, reading,
  outcome_of, emit,
}
use replicant.Client.Database
use replicant.Client.Database.{get_document, save_document_with_status}
use replicant.Client.Queue.{get_queued_patch, save_document_and_queue_patch}
use replicant.Client.Tracking.{remove_upload}

-- `HashMap::insert`
unfoldable pub track_upload : ℕ → UploadType → Step (Unit {0})
unfolding remove_upload
track_upload id operation_type = modify (λ s. record s {
  pending_uploads =
      (id, record { operation_type = operation_type; sent_at = s.now })
      ∷ remove_upload id s.pending_uploads;
})

abbrev pub forget_upload : ℕ → Step (Unit {0})
forget_upload id = modify (λ s. record s { pending_uploads = remove_upload id s.pending_uploads })

abbrev pub not_connected : SyncError
not_connected = client (web_socket (codes "Not connected"))

abbrev pub failed_to_send : SyncError
failed_to_send = client (web_socket (codes "Failed to send message"))

-- `WebSocketClient::send` on a channel that is open or not.
abbrev pub send_on : Bool → ClientMessage → Step (Unit {0})
send_on true message = modify (λ s. record s { sent = s.sent ++ message ∷ [] })
send_on false message = stop_with failed_to_send

-- The lock on the connection, and a send on it under `?`.
abbrev pub send_if : Option Bool → ClientMessage → Step (Unit {0})
send_if none message = stop_with not_connected
send_if (some is_open) message = send_on is_open message

unfoldable pub send : ClientMessage → Step (Unit {0})
send message = reading (λ s. s.ws_client) >>= λ ws_client. send_if ws_client message

unfoldable pub start_reconnection_loop : Step (Unit {0})
start_reconnection_loop = modify (λ s. record s { reconnection_loops = suc s.reconnection_loops })

-- With a patch in the queue the change is an update, without one it is a creation.
abbrev pub upload_type : Option (Patch × Option Text) → UploadType
upload_type none = UploadType.create
upload_type (some q) = UploadType.update

abbrev pub queued_or_none : SyncResult (Option (Patch × Option Text)) → Option (Patch × Option Text)
queued_or_none (ok found) = found
queued_or_none (err failure) = none

-- The document that is stored with the new content.
abbrev pub edited : Document → Value → ℕ → Document
edited doc content now = record doc { content = content; content_hash = none; updated_at = now }

module _ (lib : ClientLibrary) where
  abbrev pub hash_or : Value → Option Text → Text
  hash_or content none = calculate_checksum (lib.events).json content
  hash_or content (some hash) = hash

  abbrev pub upload_message : ℕ → Document → Option (Patch × Option Text) → ClientMessage
  upload_message id document none = ClientMessage.create_document document
  upload_message id document (some (patch, old_hash)) =
      ClientMessage.update_document (record {
        document_id = id;
        patch = patch;
        content_hash = hash_or document.content old_hash;
      })

  -- The connection is taken for lost.
  unfoldable pub lose_connection : ℕ → Step (Unit {0})
  unfolding start_reconnection_loop
  lose_connection id =
      modify (λ s. record s { is_connected = false })
      >> (reading (λ s. s.server_url) >>= λ url. emit (emit_connection_lost lib.events url))
      >> forget_upload id
      >> start_reconnection_loop

  abbrev pub send_now : ℕ → ClientMessage → Option Bool → Step (Unit {0})
  send_now id message none = forget_upload id >> stop_with not_connected
  send_now id message (some true) = send_on true message
  send_now id message (some false) = lose_connection id >> stop_with failed_to_send

  unfoldable pub sync_connected : Document → Bool → Step (Unit {0})
  unfolding track_upload
  sync_connected document false =
      stop_with (client (web_socket (codes "Client is offline - document should remain pending")))
  sync_connected document true = do
    found ← outcome_of (get_queued_patch document.id)
    track_upload document.id (upload_type (queued_or_none found))
    ws_client ← reading (λ s. s.ws_client)
    send_now document.id (upload_message document.id document (queued_or_none found)) ws_client

  unfoldable pub try_immediate_sync : Document → Step (Unit {0})
  unfolding sync_connected
  try_immediate_sync document = reading (λ s. s.is_connected) >>= sync_connected document

  unfoldable pub create_document_with_id : ℕ → Value → Step Document
  create_document_with_id id content = do
    now ← reading (λ s. s.now)
    user_id ← reading (λ s. s.user_id)
    let doc : Document = record {
      id = id;
      user_id = user_id;
      content = content;
      sync_revision = pos 1;
      content_hash = none;
      title = none;
      created_at = now;
      updated_at = now;
      deleted_at = none;
    }
    save_document_with_status lib doc (some pending)
    emit (emit_document_created lib.events id content)
    tried ← outcome_of (try_immediate_sync doc)
    give doc

  -- The patch and the hash of the old content are stored with the document.
  unfoldable pub save_edit : Document → Value → Step (Unit {0})
  unfolding create_patch save_document_and_queue_patch
  save_edit doc content = do
    patch ← lift (create_patch (lib.events).json doc.content content)
    now ← reading (λ s. s.now)
    save_document_and_queue_patch lib (edited doc content now) patch ChangeEventType.update
        (some (calculate_checksum (lib.events).json doc.content))

  -- The document is read again behind the store, and an upload that fails is left for later.
  unfoldable pub announce_edit : Document → Value → ℕ → Step (Unit {0})
  unfolding try_immediate_sync
  announce_edit doc content now = do
    saved ← get_document doc.id
    emit (emit_document_updated lib.events doc.id content)
    tried ← outcome_of (try_immediate_sync (edited doc content now))
    done

  unfoldable pub update_document : ℕ → Value → Step (Unit {0})
  unfolding save_edit announce_edit
  update_document id content = do
    doc ← get_document id
    save_edit doc content
    now ← reading (λ s. s.now)
    announce_edit doc content now

  abbrev pub send_delete : ℕ → Option Bool → Step (Unit {0})
  send_delete id none = done
  send_delete id (some true) = send_on true (ClientMessage.delete_document id)
  send_delete id (some false) =
      modify (λ s. record s { is_connected = false })
      >> (reading (λ s. s.server_url) >>= λ url. emit (emit_connection_lost lib.events url))
      >> start_reconnection_loop

  -- A deletion is not tracked as an upload.
  unfoldable pub delete_document : ℕ → Step (Unit {0})
  unfolding start_reconnection_loop
  delete_document id = do
    Database.delete_document id
    emit (emit_document_deleted lib.events id)
    ws_client ← reading (λ s. s.ws_client)
    send_delete id ws_client
