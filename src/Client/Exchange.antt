-- ===== src/Client/Exchange.antt =====
-- A client's upload of local edits, as the server's handler takes it.
use replicant.Prelude.{
  ℕ, ◌≡◌, ◌≢◌, ◌≤◌, refl, sym, ap, ◌∙◌, true, false, inl, inr, Option, some, Bool-cases, Text,
  text_eq, text_eq-eq, codes, ◌==◌, ==_iff, text_eq_iff,
}
use replicant.Errors.{SyncResult, ok}
use replicant.Json.{Value, Patch}
use replicant.Models.{Document, DocumentPatch}
use replicant.Patches.{apply_patch, calculate_checksum}
use replicant.Patches.Reverse.{PatchesDiff, apply_patch-diff}
use replicant.Protocol.{ClientMessage, invalid_patch}
use replicant.Server.State.{Server, Library, next}
use replicant.Server.Database.{get_document}
use replicant.Server.Handler.Create.{SyncHandler}
use replicant.Server.Broadcast.{send_error_message}
use replicant.Server.Handler.Update.{handle_update, update_read, patched, store_update}
use replicant.Server.Handler.{with_user, dispatch, handle_message}
use replicant.Client.State.{Row, Client, ClientLibrary, reliable}
use replicant.Client.Database.{find_row}
use replicant.Client.Uploads.{update_document, upload_message, queued_or_none}
use replicant.Client.Resend.{
  NoneAfter, queued_after, later, get_queued_patch-update_document, update_document_twice,
}

-- The patch that leads from one content to another, with the hash of the first one.
abbrev pub edit_patch : ClientLibrary → ℕ → Value → Value → DocumentPatch
edit_patch clib id from to = record {
  document_id = id;
  patch = (clib.events).json.diff from to;
  content_hash = calculate_checksum (clib.events).json from;
}

module _ (lib : Library) (clib : ClientLibrary) (h : SyncHandler) (user : ℕ) (srv read : Server)
    (doc : Document) (id : ℕ) (shared : lib.json ≡ (clib.events).json)
    (is_user : h.user_id ≡ some user) (owned : doc.user_id ≡ user)
    (reads : get_document id srv ≡ (ok doc, read)) where
  same_checksum :
      (v : Value) → calculate_checksum lib.json v ≡ calculate_checksum (clib.events).json v
  same_checksum v = ap (λ json. calculate_checksum json v) shared

  handled_update :
      (p : DocumentPatch)
      → p.document_id ≡ id
      → handle_message lib h (ClientMessage.update_document p) srv
        ≡ update_read lib h user p doc read
  unfolding handle_message dispatch handle_update
  handled_update p e =
      ap (λ o. with_user lib h o (ClientMessage.update_document p) srv) is_user
      ∙ ap (λ k. next (get_document k srv) (update_read lib h user p)) e
      ∙ ap (λ q. next q (update_read lib h user p)) reads

  is_owner : (doc.user_id == user) ≡ true
  is_owner = (==_iff doc.user_id user).1 owned

  accepted :
      (a b : Value)
      → PatchesDiff lib.json
      → doc.content ≡ a
      → update_read lib h user (edit_patch clib id a b) doc read
        ≡ store_update lib h user
            (edit_patch clib id a b)
            (record doc { content = b; content_hash = some (calculate_checksum lib.json b) })
            read
  unfolding update_read patched
  accepted a b law e =
      let hash : text_eq (calculate_checksum lib.json doc.content)
            (calculate_checksum (clib.events).json a)
          ≡ true =
        (text_eq_iff (calculate_checksum lib.json doc.content)
            (calculate_checksum (clib.events).json a)).1
          (ap (calculate_checksum lib.json) e ∙ same_checksum a) in
      let fits : apply_patch lib.json doc.content ((clib.events).json.diff a b) ≡ ok b =
        ap (λ v. apply_patch lib.json v ((clib.events).json.diff a b)) e
        ∙ ap (λ json. apply_patch lib.json a (json.diff a b)) (sym shared)
        ∙ apply_patch-diff lib.json law a b in
      rw (is_owner, hash, fits) refl

  refused :
      (a b : Value)
      → calculate_checksum lib.json doc.content ≢ calculate_checksum lib.json a
      → update_read lib h user (edit_patch clib id a b) doc read
        ≡ send_error_message h.tx invalid_patch (codes "Content hash mismatch") read
  unfolding update_read
  refused a b n =
      let hash : text_eq (calculate_checksum lib.json doc.content)
            (calculate_checksum (clib.events).json a)
          ≡ false =
        elim (Bool-cases (
          text_eq (calculate_checksum lib.json doc.content)
            (calculate_checksum (clib.events).json a))) [
              | inl t ↦ absurd (n (text_eq-eq _ _ t ∙ sym (same_checksum a)))
              | inr f ↦ f
            ] in
      rw (is_owner, hash) refl

  -- The message for what the client finds in its queue.
  abbrev upload : Document → SyncResult (Option (Patch × Option Text)) → ClientMessage
  upload d queued = upload_message clib id d (queued_or_none queued)

  upload-edit :
      (d : Document) (a b : Value) (queued : SyncResult (Option (Patch × Option Text)))
      → queued
        ≡ ok (some ((clib.events).json.diff a b, some (calculate_checksum (clib.events).json a)))
      → handle_message lib h (upload d queued) srv
        ≡ update_read lib h user (edit_patch clib id a b) doc read
  upload-edit d a b queued e =
      ap (λ q. handle_message lib h (upload d q) srv) e
      ∙ handled_update (edit_patch clib id a b) refl

  -- A client edits a document, with no query failing and no row of its queue younger than its
  -- clock's second; the queued patch is sent to a server that uses the same JSON functions, applies
  -- differences, and reads for the sender a document of the sender's that has the content the
  -- client had. Then the server's handler goes on to store exactly the client's new content, with
  -- its hash.
  pub handle_message-update_document :
      (s : Client) (r : Row) (d : Document) (content : Value)
      → PatchesDiff lib.json
      → find_row id s.tables.documents ≡ some r
      → NoneAfter (clib.seconds s.now) s.tables.sync_queue
      → doc.content ≡ r.document.content
      → handle_message lib h (upload d (queued_after clib id content s)) srv
        ≡ store_update lib h user
            (edit_patch clib id r.document.content content)
            (record doc {
              content = content;
              content_hash = some (calculate_checksum lib.json content);
            })
            read
  handle_message-update_document s r d content law e none_after same =
      upload-edit d r.document.content content (queued_after clib id content s)
        (get_queued_patch-update_document clib s id r content e none_after)
      ∙ accepted r.document.content content law same

  -- A client edits a document twice before an upload, with no query failing, no row of its queue
  -- younger than its clock's second, and a clock that does not go back; what it then sends is
  -- refused with a hash mismatch by every server that uses the same JSON functions and reads for
  -- the sender a document of the sender's whose hash is not that of the first edit's content.
  pub handle_message-update_document_twice :
      (s : Client) (t : ℕ) (r : Row) (d : Document) (first second : Value)
      → find_row id s.tables.documents ≡ some r
      → NoneAfter (clib.seconds s.now) s.tables.sync_queue
      → clib.seconds s.now ≤ clib.seconds t
      → calculate_checksum lib.json doc.content ≢ calculate_checksum lib.json first
      → handle_message lib h
          (upload d (
            queued_after clib id second (later t ((update_document clib id first (reliable s)).1))))
          srv
        ≡ send_error_message h.tx invalid_patch (codes "Content hash mismatch") read
  handle_message-update_document_twice s t r d first second e none_after le differs =
      upload-edit d first second _
        (update_document_twice clib s id t r first second e none_after le)
      ∙ refused first second differs
