-- ===== src/Client/Deferred.antt =====
-- What the handling of a server message does to the queue of deferred messages.
use replicant.Prelude.{
  ℕ, ◌≡◌, ◌≤◌, Bool, true, false, List, [], ◌∷◌, Bool-cases, inl, inr, leb, length, length-append,
  arith,
}
use replicant.Errors.{SyncResult, ok, err}
use replicant.Models.{Document}
use replicant.Protocol.{
  ServerMessage, auth_success, auth_error, document_created, document_updated, document_deleted,
  document_created_response, document_updated_response, document_deleted_response, sync_document,
  sync_complete, conflict_detected, changes, changes_acknowledged, error, pong,
}
use replicant.Client.State.{Client, ClientLibrary}
use replicant.Client.Database.{get_document}
use replicant.Client.Messages.{handle_server_message}
use replicant.Client.Tracking.{
  max_deferred_messages, has_pending_upload, finish_upload, push_deferred, defer_message,
  handle_all, process_deferred_messages, track_response, track_unprotected, track_sync,
  handle_server_message_with_tracking,
}
use replicant.Client.Kept.{Keeps-get_document, Keeps-handle_server_message, Keeps-handle_all}

length-push_deferred :
    (m : ServerMessage) (ms : List ServerMessage)
    → length ms ≤ max_deferred_messages
    → length (push_deferred m ms) ≤ max_deferred_messages
unfolding push_deferred
length-push_deferred m [] h = omega arith
length-push_deferred m (x ∷ ms) h =
    elim (Bool-cases (leb max_deferred_messages (length (x ∷ ms)))) [
      | inl e ↦ rw e (omega (arith, length-append ms (m ∷ [])))
      | inr e ↦ rw e (ground (arith, length-append ms (m ∷ [])))
    ]

-- The queue's length.
abbrev deferred : Client → ℕ
deferred s = length s.deferred_messages

module _ (lib : ClientLibrary) where
  handled :
      (msg : ServerMessage) (s : Client)
      → deferred s ≤ max_deferred_messages
      → deferred ((handle_server_message lib msg s).1) ≤ max_deferred_messages
  handled msg s h = rw ((Keeps-handle_server_message lib msg).kept s) h

  tracked_response :
      (msg : ServerMessage) (id : ℕ) (b : Bool) (s : Client)
      → deferred s ≤ max_deferred_messages
      → deferred ((track_response lib msg id b s).1) ≤ max_deferred_messages
  unfolding track_response process_deferred_messages
  tracked_response msg id false s h = handled msg s h
  tracked_response msg id true s h =
      let started : Client = record (finish_upload id s) { deferred_messages = [] } in
      let msgs = (finish_upload id s).deferred_messages in
      let empty : ((handle_all lib msgs started).1).deferred_messages ≡ [] =
        (Keeps-handle_all lib msgs).kept started in
      handled msg ((handle_all lib msgs started).1) (rw empty (omega arith))

  tracked_document :
      (d : Document) (r : SyncResult Document) (s : Client)
      → deferred s ≤ max_deferred_messages
      → deferred ((track_unprotected lib d r s).1) ≤ max_deferred_messages
  unfolding track_unprotected defer_message
  tracked_document d (ok local) s h =
      elim (Bool-cases (has_pending_upload d.id s.pending_uploads)) [
        | inl e ↦ rw e (length-push_deferred _ _ h)
        | inr e ↦ rw e (handled _ s h)
      ]
  tracked_document d (err failure) s h = handled _ s h

  tracked_sync :
      (d : Document) (b : Bool) (s : Client)
      → deferred s ≤ max_deferred_messages
      → deferred ((track_sync lib d b s).1) ≤ max_deferred_messages
  unfolding track_sync defer_message
  tracked_sync d true s h = length-push_deferred _ _ h
  tracked_sync d false s h =
      tracked_document d ((get_document d.id s).0) ((get_document d.id s).1)
        (rw ((Keeps-get_document d.id).kept s) h)

  -- Whatever message arrives and whichever queries fail, a queue of at most 100 deferred messages
  -- stays within 100.
  pub handle_server_message_with_tracking-length :
      (msg : ServerMessage) (s : Client)
      → length s.deferred_messages ≤ max_deferred_messages
      → length (((handle_server_message_with_tracking lib msg s).1).deferred_messages)
        ≤ max_deferred_messages
  unfolding handle_server_message_with_tracking
  handle_server_message_with_tracking-length (document_created_response id b e) s h =
      tracked_response _ id b s h
  handle_server_message_with_tracking-length (document_updated_response id b e r) s h =
      tracked_response _ id b s h
  handle_server_message_with_tracking-length (document_deleted_response id b e) s h =
      tracked_response _ id b s h
  handle_server_message_with_tracking-length (sync_document d) s h =
      tracked_sync d s.sync_protection_mode s h
  handle_server_message_with_tracking-length (document_updated patch) s h = handled _ s h
  handle_server_message_with_tracking-length (document_created d) s h = handled _ s h
  handle_server_message_with_tracking-length (document_deleted id) s h = handled _ s h
  handle_server_message_with_tracking-length (conflict_detected id r) s h = handled _ s h
  handle_server_message_with_tracking-length (sync_complete n) s h = handled _ s h
  handle_server_message_with_tracking-length (auth_success a b) s h = handled _ s h
  handle_server_message_with_tracking-length (auth_error a) s h = handled _ s h
  handle_server_message_with_tracking-length (changes a b c) s h = handled _ s h
  handle_server_message_with_tracking-length (changes_acknowledged a) s h = handled _ s h
  handle_server_message_with_tracking-length (error a b) s h = handled _ s h
  handle_server_message_with_tracking-length pong s h = handled _ s h
