-- ===== src/Server/Handler/Deletion.antt =====
-- What a deletion, and the messages that only read, leave of another user's documents.
use replicant.Prelude.{ℕ, length, ◌≢◌, true, false, none, some, List, [], ◌∷◌, ◌==◌}
use replicant.Models.{Document}
use replicant.Protocol.{document_deleted_response, document_deleted, sync_document, sync_complete}
use replicant.Server.State.{Library}
use replicant.Server.Keeps.{
  Keeps, Keeps->>=, Keeps-attempt, Keeps-pure, Keeps-query, Keeps-send, Keeps-send_error_message,
  Keeps-broadcast, Keeps-if, Keeps-result,
}
use replicant.Server.Changes.{get_user_documents}
use replicant.Server.Handler.{
  delete_owned, handle_delete, send_if_owned, send_owned, handle_request_sync, send_documents,
  handle_full_sync,
}
use replicant.Server.Handler.Create.{SyncHandler}
use replicant.Server.Handler.Preserve.{Shows, Keeps-get_document, Keeps-delete_document}

-- Messages that store nothing, and deletions.
module _ (id : ℕ) (d : Document) (lib : Library) (h : SyncHandler) (user : ℕ) where
  Keeps-delete_owned : (i : ℕ) → d.user_id ≢ user → Keeps (Shows id d) (delete_owned lib h user i)
  unfolding delete_owned
  Keeps-delete_owned i ne =
      Keeps->>= (Keeps-attempt (Keeps-delete_document id d lib i user ne)) (λ r.
        Keeps-result r
          (λ u.
            Keeps->>= (Keeps-send h.tx (document_deleted_response i true none))
              (λ v. Keeps-broadcast user h.client_id (document_deleted i)))
          (λ e. Keeps-send h.tx (document_deleted_response i false (some (lib.show_error e)))))

  pub Keeps-handle_delete :
      (i : ℕ) → d.user_id ≢ user → Keeps (Shows id d) (handle_delete lib h user i)
  unfolding handle_delete
  Keeps-handle_delete i ne = Keeps->>= (Keeps-get_document id d i) (λ doc.
      Keeps-if (doc.user_id == user) (Keeps-delete_owned i ne) (Keeps-send_error_message h.tx _ _))

  Keeps-send_if_owned : (i : ℕ) → Keeps (Shows id d) (send_if_owned lib h user i)
  unfolding send_if_owned
  Keeps-send_if_owned i = Keeps->>= (Keeps-attempt (Keeps-get_document id d i)) (λ r.
      Keeps-result r
        (λ doc.
          Keeps-if (doc.user_id == user) (Keeps-send h.tx (sync_document doc)) (Keeps-pure tt))
        (λ e. Keeps-pure tt))

  Keeps-send_owned : (ids : List ℕ) → Keeps (Shows id d) (send_owned lib h user ids)
  unfolding send_owned
  Keeps-send_owned [] = Keeps-pure tt
  Keeps-send_owned (i ∷ ids) = Keeps->>= (Keeps-send_if_owned i) (λ u. Keeps-send_owned ids)

  pub Keeps-handle_request_sync :
      (ids : List ℕ) → Keeps (Shows id d) (handle_request_sync lib h user ids)
  unfolding handle_request_sync
  Keeps-handle_request_sync ids =
      Keeps->>= (Keeps-send_owned ids) (λ u. Keeps-send h.tx (sync_complete (length ids)))

  Keeps-send_documents : (docs : List Document) → Keeps (Shows id d) (send_documents lib h docs)
  unfolding send_documents
  Keeps-send_documents [] = Keeps-pure tt
  Keeps-send_documents (doc ∷ docs) =
      Keeps->>= (Keeps-send h.tx (sync_document doc)) (λ u. Keeps-send_documents docs)

  Keeps-get_user_documents : Keeps (Shows id d) (get_user_documents user)
  unfolding get_user_documents
  Keeps-get_user_documents = Keeps->>= Keeps-query (λ u. record { kept = λ s k. k })

  pub Keeps-handle_full_sync : Keeps (Shows id d) (handle_full_sync lib h user)
  unfolding handle_full_sync
  Keeps-handle_full_sync = Keeps->>= Keeps-get_user_documents (λ (docs : List Document).
      Keeps->>= (Keeps-send_documents docs) (λ u. Keeps-send h.tx (sync_complete (length docs))))
