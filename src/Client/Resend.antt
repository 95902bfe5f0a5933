-- ===== src/Client/Resend.antt =====
-- What an upload finds in the queue behind local edits.
use replicant.Prelude.{
  ℕ, ◌≡◌, ◌≤◌, refl, sym, ap, subst, ◌∙◌, true, inl, inr, Option, some, List, [], ◌∷◌, ◌++◌, Text,
  leb, ◌==◌, ◌&&◌, All, All-append, Bool-cases, arith,
}
use replicant.Errors.{SyncResult, ok}
use replicant.Json.{Value, Patch}
use replicant.Patches.{calculate_checksum}
use replicant.Protocol.{update}
use replicant.Client.State.{Row, QueueRow, Client, ClientLibrary, query, reliable}
use replicant.Client.Database.{find_row}
use replicant.Client.Queue.{latest_update, stored_patch, get_queued_patch, is_update}
use replicant.Client.Uploads.{update_document}
use replicant.Client.Rows.{find_row-id}
use replicant.Client.Edits.{queued_edit, update_document-pending}

-- No row of the queue is younger than the time.
abbrev pub NoneAfter : ℕ → List QueueRow → Type 0
NoneAfter t rows = All (λ (q : QueueRow). q.created_at ≤ t) rows

NoneAfter-le : (t u : ℕ) → t ≤ u → (rows : List QueueRow) → NoneAfter t rows → NoneAfter u rows
NoneAfter-le t u le [] h = tt
NoneAfter-le t u le (q ∷ rows) (h, hs) = (omega arith, NoneAfter-le t u le rows hs)

latest_update-append :
    (id : ℕ) (new : QueueRow) (rows : List QueueRow)
    → new.document_id ≡ id
    → new.operation_type ≡ update
    → NoneAfter new.created_at rows
    → latest_update id (rows ++ new ∷ []) ≡ some new
unfolding latest_update
latest_update-append id new [] e o h =
    let known : (new.document_id == id) ≡ true = ground (arith, e) in
    rw (known, ap is_update o) refl
latest_update-append id new (q ∷ rows) e o (h, hs) =
    let later : leb q.created_at new.created_at ≡ true = ground arith in
    rw (latest_update-append id new rows e o hs, later)
      (elim (Bool-cases ((q.document_id == id) && is_update q.operation_type)) [
        | inl z ↦ rw z refl
        | inr z ↦ rw z refl
      ])

-- The patch that an upload takes from the queue behind an edit.
abbrev pub queued_after :
    ClientLibrary → ℕ → Value → Client → SyncResult (Option (Patch × Option Text))
queued_after lib id content s =
    (get_queued_patch id (reliable ((update_document lib id content (reliable s)).1))).0

-- The client at a later time.
abbrev pub later : ℕ → Client → Client
later t s = record s { now = t }

module _ (lib : ClientLibrary) where
  pub get_queued_patch-update_document :
      (s : Client) (id : ℕ) (r : Row) (content : Value)
      → find_row id s.tables.documents ≡ some r
      → NoneAfter (lib.seconds s.now) s.tables.sync_queue
      → queued_after lib id content s
        ≡ ok (
            some (
              (lib.events).json.diff r.document.content content,
              some (calculate_checksum (lib.events).json r.document.content),
            ))
  unfolding get_queued_patch query queued_edit
  get_queued_patch-update_document s id r content e h =
      ap (λ q. ok (stored_patch (latest_update id q)))
        (update_document-pending lib s id r content e).2
      ∙ ap (λ o. ok (stored_patch o))
          (latest_update-append id (queued_edit lib r.document content s) s.tables.sync_queue
            (find_row-id id s.tables.documents r e) refl h)

  pub update_document_twice :
      (s : Client) (id t : ℕ) (r : Row) (first second : Value)
      → find_row id s.tables.documents ≡ some r
      → NoneAfter (lib.seconds s.now) s.tables.sync_queue
      → lib.seconds s.now ≤ lib.seconds t
      → queued_after lib id second (later t ((update_document lib id first (reliable s)).1))
        ≡ ok (
            some (
              (lib.events).json.diff first second,
              some (calculate_checksum (lib.events).json first),
            ))
  unfolding queued_edit
  update_document_twice s id t r first second e h le =
      let edit = update_document-pending lib s id r first e in
      let after = (update_document lib id first (reliable s)).1 in
      let settled : NoneAfter (lib.seconds t) after.tables.sync_queue =
        subst (NoneAfter (lib.seconds t)) (sym edit.2) (
          All-append (λ (q : QueueRow). q.created_at ≤ lib.seconds t) s.tables.sync_queue
            (queued_edit lib r.document first s ∷ [])
            (NoneAfter-le (lib.seconds s.now) (lib.seconds t) le s.tables.sync_queue h) (le, tt)) in
      get_queued_patch-update_document (later t after) id edit.1.0 second edit.1.1 settled
      ∙ ap
          (λ c.
            ok (
              some
                ((lib.events).json.diff c second, some (calculate_checksum (lib.events).json c))))
          edit.1.2
