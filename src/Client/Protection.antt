-- ===== src/Client/Protection.antt =====
-- replicant-client/src/client.rs: the documents of `SyncDocument` while local changes are protected.
use replicant.Prelude.{◌≡◌, refl, ap, ◌∙◌, Bool, true, false, Option, some, List, [], ◌∷◌, map}
use replicant.Errors.{DbError, ok, err, database_error}
use replicant.Models.{Document}
use replicant.Protocol.{sync_document}
use replicant.Client.State.{Row, Client, ClientLibrary, query, reliable}
use replicant.Client.Database.{find_row}
use replicant.Client.Queue.{get_pending_documents}
use replicant.Client.Tracking.{
  has_pending_upload, push_deferred, defer_message, defer_if, track_sync, track_unprotected,
  handle_server_message_with_tracking, message_handler,
}
use replicant.Client.Sync.{sync_pending_documents, begin_initial_sync}
use replicant.Client.Receive.{get_document-found}

-- The client with the document at the end of its deferred messages.
abbrev pub deferring : Document → Client → Client
deferring d s = record s { deferred_messages = push_deferred (sync_document d) s.deferred_messages }

module _ (lib : ClientLibrary) where
  track_sync-protected :
      (d : Document) (b : Bool) (s : Client)
      → b ≡ true
      → track_sync lib d b s ≡ (ok tt, deferring d s)
  unfolding track_sync defer_message
  track_sync-protected d b s e = ap (λ c. track_sync lib d c s) e

  track_sync-uploading :
      (d : Document) (b : Bool) (s : Client) (r : Row)
      → find_row d.id s.tables.documents ≡ some r
      → has_pending_upload d.id s.pending_uploads ≡ true
      → track_sync lib d b (reliable s) ≡ (ok tt, deferring d (reliable s))
  unfolding track_sync track_unprotected defer_message
  track_sync-uploading d true s r e u = refl
  track_sync-uploading d false s r e u =
      ap (λ q. track_unprotected lib d (q.0) (q.1)) (get_document-found s d.id r e)
      ∙ ap (λ b. defer_if lib b d (reliable s)) u

  -- With no query failing, a `SyncDocument` for a document that is there and whose upload is on its
  -- way only joins the deferred messages: the tables, the events and all else stay.
  pub handle_server_message_with_tracking-uploading :
      (d : Document) (s : Client) (r : Row)
      → find_row d.id s.tables.documents ≡ some r
      → has_pending_upload d.id s.pending_uploads ≡ true
      → handle_server_message_with_tracking lib (sync_document d) (reliable s)
        ≡ (ok tt, deferring d (reliable s))
  unfolding handle_server_message_with_tracking
  handle_server_message_with_tracking-uploading d s r e u =
      track_sync-uploading d s.sync_protection_mode s r e u

  message_handler-protected :
      (ds : List Document) (s : Client)
      → s.sync_protection_mode ≡ true
      → ((message_handler lib (map sync_document ds) s).1).tables ≡ s.tables
  unfolding message_handler handle_server_message_with_tracking
  message_handler-protected [] s e = refl
  message_handler-protected (d ∷ ds) s e =
      ap (λ q. ((message_handler lib (map sync_document ds) (q.1)).1).tables)
        (track_sync-protected d s.sync_protection_mode s e)
      ∙ message_handler-protected ds (deferring d s) e

  -- If the first query of the initial sync fails, the sync returns that error, and whatever
  -- messages `SyncDocument` the client's message handler takes from then on, with no other message
  -- between them, none of them reaches the tables.
  pub begin_initial_sync-message_handler :
      (s : Client) (e : DbError) (faults : List (Option DbError)) (ds : List Document)
      → ((begin_initial_sync lib (record s { faults = some e ∷ faults })).0
          ≡ err (database_error e))
        × (((message_handler lib
                (map sync_document ds)
                ((begin_initial_sync lib (record s { faults = some e ∷ faults })).1)).1
              ).tables
            ≡ s.tables)
  unfolding begin_initial_sync sync_pending_documents get_pending_documents query
  begin_initial_sync-message_handler s e faults ds = (refl, message_handler-protected ds _ refl)
