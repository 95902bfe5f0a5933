-- ===== src/Server/Handler/Create.antt =====
-- The handling of `CreateDocument` in replicant-server/src/sync_handler.rs.
use replicant.Prelude.{
  ℕ, Bool, true, false, Option, none, some, ◌++◌, Text, codes, if◌then◌else◌, ◌==◌, text_eq,
}
use replicant.Prelude.Int.{pos, show_int}
use replicant.Errors.{database, SyncError, database_error, invalid_operation, SyncResult, ok, err}
use replicant.Models.{Document}
use replicant.Patches.{calculate_checksum}
use replicant.Protocol.{
  create, invalid_auth, invalid_patch, document_created, document_created_response, sync_document,
}
use replicant.Server.State.{Library, M, ◌>>=◌, ◌>>◌, attempt, query, settle}
use replicant.Server.Database.{
  ChangeEventParams, eq_ℤ, get_document, create_document, log_change_event, update_document_in_tx,
}
use replicant.Server.Broadcast.{
  send, send_error_message, broadcast_to_user, broadcast_to_user_except,
}

-- One per connection: its channel, and who is on it once authenticated.
pub record SyncHandler : Type 0 where
  pub tx : ℕ
  pub user_id : Option ℕ
  pub client_id : Option ℕ

unfoldable pub set_user_id : SyncHandler → ℕ → SyncHandler
set_user_id h user_id = record h { user_id = some user_id }

unfoldable pub set_client_id : SyncHandler → ℕ → SyncHandler
set_client_id h client_id = record h { client_id = some client_id }

unfoldable pub is_duplicate_key_error : SyncError → Bool
is_duplicate_key_error (database_error (database code)) = text_eq code (codes "23505")
is_duplicate_key_error _ = false

module _ (lib : Library) where
  -- `.map_err(|e| format!("… {}", e))`. The text of the block's `Result<(), String>` stands in an
  -- `invalid_operation`.
  abbrev pub map_err : {A : Type 0} → Text → SyncResult A → SyncResult A
  map_err label (ok a) = ok a
  map_err label (err e) = err (invalid_operation (label ++ lib.show_error e))

  abbrev pub labelled : {A : Type 0} → Text → M A → M A
  labelled label m s = (map_err label (m s).0, (m s).1)

  abbrev pub message : SyncError → Text
  message (invalid_operation t) = t
  message e = lib.show_error e

  -- The loser's event.
  abbrev pub conflict_event : ℕ → Document → Document → ChangeEventParams
  conflict_event user_id existing document = record {
    document_id = document.id;
    user_id = user_id;
    event_type = create;
    forward_patch = some existing.content;
    reverse_patch = none;
    applied = false;
  }

  -- The transaction of a creation that finds a document: the server's content is logged as not
  -- applied, and the client's version replaces it.
  unfoldable pub replace_existing : ℕ → Document → Document → M (Unit {0})
  replace_existing user_id existing document s = settle s.tables (
      (do
        labelled (codes "Failed to begin transaction: ") query
        labelled (codes "Failed to log conflict: ")
            (log_change_event (conflict_event user_id existing document))
        labelled (codes "Failed to update document: ") (update_document_in_tx lib document none)
        labelled (codes "Failed to commit transaction: ") query)
        s)

  -- The hash that the client sent, if it sent one, is that of the content.
  unfoldable pub hash_matches : Document → Bool
  hash_matches document = elim document.content_hash [
    | none ↦ true
    | some hash ↦ text_eq (calculate_checksum lib.json document.content) hash
  ]

  module _ (h : SyncHandler) (user_id : ℕ) (document : Document) where
    -- The document is there already.
    unfoldable pub create_conflict : Document → M (Unit {0})
    create_conflict existing = do
      result ← attempt (replace_existing user_id existing document)
      elim result [
        | ok u ↦ do
          send h.tx (document_created_response document.id true none)
          broadcast_to_user user_id (sync_document document)
        | err e ↦ send h.tx (document_created_response document.id false (some (message e)))
      ]

    unfoldable pub announce_created : M (Unit {0})
    announce_created = do
      send h.tx (document_created_response document.id true none)
      broadcast_to_user_except user_id h.client_id (document_created document)

    -- The document is not there.
    unfoldable pub create_new : M (Unit {0})
    create_new = do
      result ← attempt (create_document lib document)
      elim result [
        | ok u ↦ announce_created
        | err e ↦
            if is_duplicate_key_error e
            then announce_created
            else send h.tx (document_created_response document.id false (some (lib.show_error e)))
      ]

    unfoldable pub create_validated : M (Unit {0})
    create_validated = do
      existing ← attempt (get_document document.id)
      elim existing [ ok existing_doc ↦ create_conflict existing_doc | err e ↦ create_new ]

    unfoldable pub handle_create : M (Unit {0})
    handle_create =
        if document.user_id == user_id
        then if eq_ℤ document.sync_revision (pos 1)
          then if hash_matches document
            then create_validated
            else send_error_message h.tx invalid_patch
                (codes "Content hash mismatch - data may be corrupted")
          else send_error_message h.tx invalid_patch (
              codes "New documents must have version=1, got version="
              ++ show_int document.sync_revision)
        else send_error_message h.tx invalid_auth (codes "Cannot create document for another user")
