-- ===== src/Server/Handler/Ownership.antt =====
-- What the handling of a message leaves of another user's documents.
use replicant.Prelude.{
  ℕ, ◌≡◌, ◌≢◌, refl, sym, ◌∙◌, ap, arith, inl, inr, Bool-cases, Option-cases, true, Option, none,
  some, List, [], ◌∷◌, ◌==◌,
}
use replicant.Errors.{SyncError, SyncResult, ok, err, version_mismatch}
use replicant.Json.{Value}
use replicant.Patches.{apply_patch, calculate_checksum}
use replicant.Models.{Document, DocumentPatch}
use replicant.Protocol.{
  ClientMessage, create_document, update_document, delete_document, request_sync, request_full_sync,
  ping, authenticate, get_changes_since, ack_changes, pong, create_document,
  document_updated_response, sync_document,
}
use replicant.Server.State.{fault, Row, Server, Library, ◌>>=◌, query}
use replicant.Server.Keeps.{
  Keeps, Keeps-next, Keeps->>=, Keeps-attempt, Keeps-pure, Keeps-send, Keeps-send_error_message,
  Keeps-broadcast, Keeps-if, Keeps-result,
}
use replicant.Server.Queries.{find_document}
use replicant.Server.Database.{get_document}
use replicant.Server.Handler.{dispatch, handle_message}
use replicant.Server.Handler.Create.{SyncHandler}
use replicant.Server.Handler.Update.{
  announce_updated, announce_current, refuse_update, store_update, patched, update_read,
  handle_update,
}
use replicant.Server.Handler.Creation.{Keeps-handle_create}
use replicant.Server.Handler.Deletion.{
  Keeps-handle_delete, Keeps-handle_request_sync, Keeps-handle_full_sync,
}
use replicant.Server.Handler.Preserve.{Shows, Keeps-get_document, Keeps-update_document}

-- The update of a document that the user owns, where `id` is another user's.
module _ (id : ℕ) (d : Document) (lib : Library) (h : SyncHandler) (user : ℕ)
    (patch : DocumentPatch) where
  Keeps-announce_updated : (i : ℕ) → Keeps (Shows id d) (announce_updated lib h user patch i)
  unfolding announce_updated
  Keeps-announce_updated i = Keeps->>= (Keeps-get_document id d i) (λ (doc : Document).
      Keeps->>=
        (Keeps-send h.tx (document_updated_response doc.id true none (some doc.sync_revision)))
        (λ u. Keeps-broadcast user h.client_id (sync_document doc)))

  Keeps-announce_current :
      (e : SyncError) → Keeps (Shows id d) (announce_current lib h user patch e)
  unfolding announce_current
  Keeps-announce_current (version_mismatch expected actual) =
      Keeps->>= (Keeps-attempt (Keeps-get_document id d patch.document_id)) (λ r.
        Keeps-result r
          (λ doc.
            Keeps->>= (Keeps-send h.tx (sync_document doc))
              (λ u. Keeps-broadcast user h.client_id (sync_document doc)))
          (λ e. Keeps-pure tt))
  Keeps-announce_current _ = Keeps-pure tt

  Keeps-refuse_update : (e : SyncError) → Keeps (Shows id d) (refuse_update lib h user patch e)
  unfolding refuse_update
  Keeps-refuse_update e = Keeps->>= (Keeps-announce_current e) (λ u. Keeps-send h.tx _)

  Keeps-store_update :
      (doc : Document) → id ≢ doc.id → Keeps (Shows id d) (store_update lib h user patch doc)
  unfolding store_update
  Keeps-store_update doc ne =
      Keeps->>= (Keeps-attempt (Keeps-update_document id d lib doc (some patch.patch) ne))
        (λ r. Keeps-result r (λ u. Keeps-announce_updated doc.id) (λ e. Keeps-refuse_update e))

  patched_cases :
      (doc : Document) (r : SyncResult Value)
      → apply_patch lib.json doc.content patch.patch ≡ r
      → id ≢ doc.id
      → Keeps (Shows id d) (patched lib h user patch doc >>= store_update lib h user patch)
  unfolding patched
  patched_cases doc (ok c) e ne = record {
    kept = λ s k.
        rw (patched, e)
          ((Keeps-store_update
              (record doc { content = c; content_hash = some (calculate_checksum lib.json c) })
              ne).kept
            s k);
  }
  patched_cases doc (err x) e ne = record { kept = λ s k. rw (patched, e) k }

  Keeps-update_read :
      (doc : Document)
      → (doc.user_id ≡ user → id ≢ doc.id)
      → Keeps (Shows id d) (update_read lib h user patch doc)
  unfolding update_read
  Keeps-update_read doc ne = elim (Bool-cases (doc.user_id == user)) [
    | inl own ↦
        rw (update_read, own)
          (Keeps-if _ (patched_cases doc _ refl (ne (ground arith)))
            (Keeps-send_error_message h.tx _ _))
    | inr other ↦ rw (update_read, other) (Keeps-send_error_message h.tx _ _)
  ]

find_document_id :
    (i : ℕ) (rows : List Row) {doc : Document} → find_document i rows ≡ some doc → doc.id ≡ i
unfolding find_document
find_document_id i [] e = ground arith
find_document_id i (r ∷ rows) {doc} e = ground (arith, find_document_id i rows {doc = doc})

get_document-eq-ok :
    (i : ℕ) (s : Server) {doc : Document}
    → (get_document i s).0 ≡ ok doc
    → find_document i s.tables.documents ≡ some doc
unfolding get_document query
get_document-eq-ok i s e = elim (Option-cases (fault s.faults)) [
  | inl calm ↦ elim (Option-cases (find_document i s.tables.documents)) [
    | inl gone ↦ ground arith
    | inr (d, there) ↦ ground arith
  ]
  | inr (f, fails) ↦ ground arith
]

read_same :
    (i : ℕ) (s : Server) {doc d : Document}
    → (get_document i s).0 ≡ ok doc
    → find_document doc.id s.tables.documents ≡ some d
    → doc ≡ d
read_same i s {doc} {d} e k =
    some_inj (rw (find_document_id i s.tables.documents (get_document-eq-ok i s e)) at k)
      (get_document-eq-ok i s e)
  where
    some_inj : {o : Option Document} → o ≡ some d → o ≡ some doc → doc ≡ d
    some_inj p q = ground arith

Keeps-handle_update :
    (id : ℕ) (d : Document) (lib : Library) (h : SyncHandler) (user : ℕ) (patch : DocumentPatch)
    → d.user_id ≢ user
    → Keeps (Shows id d) (handle_update lib h user patch)
unfolding handle_update
Keeps-handle_update id d lib h user patch ne = record {
  kept = λ s k.
      Keeps-next (get_document patch.document_id s) (update_read lib h user patch)
        ((Keeps-get_document id d patch.document_id).kept s k)
        (λ doc e. Keeps-update_read id d lib h user patch doc (λ own same. ne (
          ap (λ (x : Document). x.user_id) (sym (read_same patch.document_id s e (rw (same) at k)))
          ∙ own)));
}

-- The message creates a document of the id.
abbrev pub Creates : ℕ → ClientMessage → Type 0
Creates id (create_document document) = id ≡ document.id
Creates id _ = ⊥

module _ (id : ℕ) (d : Document) (lib : Library) (h : SyncHandler) (user : ℕ)
    (ne : d.user_id ≢ user) where
  Keeps-dispatch :
      (msg : ClientMessage) → ¬ Creates id msg → Keeps (Shows id d) (dispatch lib h user msg)
  unfolding dispatch
  Keeps-dispatch (create_document document) c = Keeps-handle_create id d lib h user document c
  Keeps-dispatch (update_document patch) c = Keeps-handle_update id d lib h user patch ne
  Keeps-dispatch (delete_document i) c = Keeps-handle_delete id d lib h user i ne
  Keeps-dispatch (request_sync ids) c = Keeps-handle_request_sync id d lib h user ids
  Keeps-dispatch request_full_sync c = Keeps-handle_full_sync id d lib h user
  Keeps-dispatch ping c = Keeps-send h.tx pong
  Keeps-dispatch (authenticate email client_id api_key signature timestamp) c =
      Keeps-send_error_message h.tx _ _
  Keeps-dispatch (get_changes_since last_sequence limit) c = Keeps-send_error_message h.tx _ _
  Keeps-dispatch (ack_changes up_to_sequence) c = Keeps-send_error_message h.tx _ _

-- Whatever message an authenticated user's connection sends, and whichever queries fail on the way,
-- another user's document stays as it is, unless the message creates a document of the same id.
pub handle_message_others :
    (lib : Library) (h : SyncHandler) (user : ℕ) (msg : ClientMessage) (s : Server) (id : ℕ)
    (d : Document)
    → h.user_id ≡ some user
    → ¬ Creates id msg
    → find_document id s.tables.documents ≡ some d
    → d.user_id ≢ user
    → find_document id (handle_message lib h msg s).1.tables.documents ≡ some d
unfolding handle_message
handle_message_others lib h user msg s id d u c k ne =
    simp u ((Keeps-dispatch id d lib h user ne msg c).kept s k)
