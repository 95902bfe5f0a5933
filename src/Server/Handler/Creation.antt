-- ===== src/Server/Handler/Creation.antt =====
-- What `CreateDocument` leaves of a document of another id.
use replicant.Prelude.{ℕ, codes, ◌≢◌, true, false, none, some, ◌==◌}
use replicant.Prelude.Int.{pos}
use replicant.Models.{Document}
use replicant.Protocol.{document_created, document_created_response, sync_document}
use replicant.Server.State.{Library, ◌>>◌, query}
use replicant.Server.Keeps.{
  Keeps, Keeps->>=, Keeps-attempt, Keeps-query, Keeps-send, Keeps-send_error_message,
  Keeps-broadcast, Keeps-if, Keeps-result, settle_keeps,
}
use replicant.Server.Database.{eq_ℤ, log_change_event, update_document_in_tx}
use replicant.Server.Broadcast.{broadcast_to_user}
use replicant.Server.Handler.Create.{
  SyncHandler, message, conflict_event, labelled, replace_existing, hash_matches, create_conflict,
  announce_created, create_new, create_validated, handle_create, is_duplicate_key_error,
}
use replicant.Server.Handler.Preserve.{
  Shows, Keeps-get_document, Keeps-log, Keeps-update_document_in_tx, Keeps-labelled,
  Keeps-create_document,
}

-- The creation of a document of another id.
module _ (id : ℕ) (d : Document) (lib : Library) (h : SyncHandler) (user : ℕ) (document : Document)
    (ne : id ≢ document.id) where
  Keeps-replace_existing :
      (existing : Document) → Keeps (Shows id d) (replace_existing lib user existing document)
  unfolding replace_existing
  Keeps-replace_existing existing = record {
    kept = λ s k. settle_keeps (Shows id d) s.tables _ k (body.kept s k);
  }
    where
      body : Keeps (Shows id d) (do
        labelled lib (codes "Failed to begin transaction: ") query
        labelled lib
            (codes "Failed to log conflict: ")
            (log_change_event (conflict_event lib user existing document))
        labelled lib (codes "Failed to update document: ") (update_document_in_tx lib document none)
        labelled lib (codes "Failed to commit transaction: ") query)
      body =
          Keeps->>= (Keeps-labelled id d lib (codes "Failed to begin transaction: ") Keeps-query)
            (λ u.
              Keeps->>=
                (Keeps-labelled id d lib (codes "Failed to log conflict: ")
                  (Keeps-log id d (conflict_event lib user existing document)))
                (λ v.
                  Keeps->>=
                    (Keeps-labelled id d lib (codes "Failed to update document: ")
                      (Keeps-update_document_in_tx id d lib document none ne))
                    (λ w.
                      Keeps-labelled id d lib (codes "Failed to commit transaction: ")
                        Keeps-query)))

  Keeps-create_conflict :
      (existing : Document) → Keeps (Shows id d) (create_conflict lib h user document existing)
  unfolding create_conflict broadcast_to_user
  Keeps-create_conflict existing = Keeps->>= (Keeps-attempt (Keeps-replace_existing existing)) (λ r.
      Keeps-result r
        (λ u.
          Keeps->>= (Keeps-send h.tx (document_created_response document.id true none))
            (λ v. Keeps-broadcast user none (sync_document document)))
        (λ e. Keeps-send h.tx (document_created_response document.id false (some (message lib e)))))

  Keeps-announce_created : Keeps (Shows id d) (announce_created lib h user document)
  unfolding announce_created
  Keeps-announce_created =
      Keeps->>= (Keeps-send h.tx (document_created_response document.id true none))
        (λ v. Keeps-broadcast user h.client_id (document_created document))

  Keeps-create_new : Keeps (Shows id d) (create_new lib h user document)
  unfolding create_new
  Keeps-create_new = Keeps->>= (Keeps-attempt (Keeps-create_document id d lib document)) (λ r.
      Keeps-result r (λ u. Keeps-announce_created)
        (λ e. Keeps-if (is_duplicate_key_error e) Keeps-announce_created (
          Keeps-send h.tx (document_created_response document.id false (some (lib.show_error e))))))

  Keeps-create_validated : Keeps (Shows id d) (create_validated lib h user document)
  unfolding create_validated
  Keeps-create_validated =
      Keeps->>= (Keeps-attempt (Keeps-get_document id d document.id))
        (λ r. Keeps-result r (λ existing. Keeps-create_conflict existing) (λ e. Keeps-create_new))

  pub Keeps-handle_create : Keeps (Shows id d) (handle_create lib h user document)
  unfolding handle_create
  Keeps-handle_create =
      Keeps-if (document.user_id == user)
        (Keeps-if (eq_ℤ document.sync_revision (pos 1))
          (Keeps-if (hash_matches lib document) Keeps-create_validated
            (Keeps-send_error_message h.tx _ _))
          (Keeps-send_error_message h.tx _ _))
        (Keeps-send_error_message h.tx _ _)
