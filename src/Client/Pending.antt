-- ===== src/Client/Pending.antt =====
-- replicant-client/src/client.rs: the upload of the pending documents over an open connection.
use replicant.Prelude.{
  Text, subst, ℕ, ◌≡◌, refl, sym, ap, ◌∙◌, Bool, true, false, inl, inr, Option, none, some, List,
  [], ◌∷◌, ◌++◌, map, append-nil, append_assoc, ◌==◌, ==_refl, leb, All, Bool-cases, Option-cases,
  arith,
}
use replicant.Errors.{SyncError, SyncResult, ok}
use replicant.Json.{Patch}
use replicant.Models.{Document}
use replicant.Protocol.{ClientMessage}
use replicant.Client.State.{
  Row, Tables, Client, ClientLibrary, query, continue_with, Step, ◌>>=◌, ◌>>◌, reading,
}
use replicant.Client.Database.{find_row, is_found, has_row}
use replicant.Client.Queue.{
  PendingDocumentInfo, is_some, is_pending, pending_rows, insert_by_time, order_by_time,
  pending_infos, get_pending_documents, get_queued_patch,
}
use replicant.Client.Offline.{extract_document_id}
use replicant.Client.Uploads.{track_upload, not_connected, upload_message, upload_type}
use replicant.Client.Sync.{
  read_strictly, read_or_none, send_or, upload_found, upload_one, upload_each,
  sync_pending_documents,
}
use replicant.Client.Rows.{find_row-id}
use replicant.Client.Receive.{get_document-found}

-- No query fails, and the connection is open.
abbrev pub online : Client → Client
online s = record s { faults = []; ws_client = some true }

-- A row with the id is there.
abbrev Known : List Row → Row → Type 0
Known rows r = has_row r.document.id rows ≡ true

module _ (P : Row → Type 0) where
  All-pending_rows : (rows : List Row) → All P rows → All P (pending_rows rows)
  unfolding pending_rows
  All-pending_rows [] h = tt
  All-pending_rows (r ∷ rows) (p, h) = elim (Bool-cases (is_pending r.sync_status)) [
    | inl e ↦ rw e (p, All-pending_rows rows h)
    | inr e ↦ rw e (All-pending_rows rows h)
  ]

  All-insert_by_time :
      (r : Row) (rows : List Row) → P r → All P rows → All P (insert_by_time r rows)
  unfolding insert_by_time
  All-insert_by_time r [] p h = (p, tt)
  All-insert_by_time r (x ∷ rows) p (q, h) =
      elim (Bool-cases (leb r.document.updated_at x.document.updated_at)) [
        | inl e ↦ rw e (p, (q, h))
        | inr e ↦ rw e (q, All-insert_by_time r rows p h)
      ]

  All-order_by_time : (rows : List Row) → All P rows → All P (order_by_time rows)
  unfolding order_by_time
  All-order_by_time [] h = tt
  All-order_by_time (r ∷ rows) (p, h) =
      All-insert_by_time r (order_by_time rows) p (All-order_by_time rows h)

Known-cons : (x : Row) (docs rows : List Row) → All (Known docs) rows → All (Known (x ∷ docs)) rows
unfolding has_row find_row
Known-cons x docs [] h = tt
Known-cons x docs (r ∷ rows) (p, h) = elim (Bool-cases (x.document.id == r.document.id)) [
  | inl e ↦ (rw e refl, Known-cons x docs rows h)
  | inr e ↦ (rw e p, Known-cons x docs rows h)
]

Known-All : (rows : List Row) → All (Known rows) rows
unfolding has_row find_row
Known-All [] = tt
Known-All (r ∷ rows) = (rw (==_refl r.document.id) refl, Known-cons r rows rows (Known-All rows))

-- A message about the document has been sent, and nothing of the tables has changed.
abbrev Sends : ℕ → Client → SyncResult (Unit {0}) × Client → Type 0
Sends id s after =
    (m : ClientMessage) × (after ≡ (ok tt, online (after.1)))
    × ((after.1).sent ≡ s.sent ++ m ∷ [])
    × ((after.1).tables ≡ s.tables)
    × (extract_document_id m ≡ some id)

-- One message for each document, in their order.
abbrev pub SendsEach : List PendingDocumentInfo → Client → SyncResult (Unit {0}) × Client → Type 0
SendsEach infos s after =
    (ms : List ClientMessage) × (after.0 ≡ ok tt)
    × ((after.1).sent ≡ s.sent ++ ms)
    × (map extract_document_id ms ≡ map (λ (i : PendingDocumentInfo). some i.id) infos)

-- The same, and the connection is still open.
abbrev pub SendsAll : List PendingDocumentInfo → Client → SyncResult (Unit {0}) × Client → Type 0
SendsAll infos s after =
    (ms : List ClientMessage) × (after.0 ≡ ok tt)
    × ((after.1).sent ≡ s.sent ++ ms)
    × (map extract_document_id ms ≡ map (λ (i : PendingDocumentInfo). some i.id) infos)
    × (after.1 ≡ online (after.1))

module _ (lib : ClientLibrary) where
  extract_document_id-upload_message :
      (id : ℕ) (doc : Document) (found : Option (Patch × Option Text))
      → doc.id ≡ id
      → extract_document_id (upload_message lib id doc found) ≡ some id
  unfolding extract_document_id
  extract_document_id-upload_message id doc none e = ap some e
  extract_document_id-upload_message id doc (some (p, h)) e = refl

  -- How an upload reads the queue while no query fails: it gets what is there.
  abbrev pub Reads : (ℕ → Step (Option (Patch × Option Text))) → Type 0
  Reads read =
      (id : ℕ) (s : Client)
      → (found : Option (Patch × Option Text)) × (read id (online s) ≡ (ok found, online s))

  read_strictly-Reads : Reads read_strictly
  unfolding get_queued_patch query
  read_strictly-Reads id s = (_, refl)

  pub read_or_none-Reads : Reads read_or_none
  unfolding get_queued_patch query
  read_or_none-Reads id s = (_, refl)

  module _ (refusal : SyncError) (read : ℕ → Step (Option (Patch × Option Text)))
      (reads : Reads read) where
    upload_found-Sends :
        (info : PendingDocumentInfo) (b : Bool) (doc : Document) (s : Client)
        → doc.id ≡ info.id
        → Sends info.id s (upload_found lib refusal read info b (ok doc) (online s))
    unfolding upload_found track_upload extract_document_id
    upload_found-Sends info true doc s e = (_, refl, refl, refl, refl)
    upload_found-Sends info false doc s e =
        let (found, same) = reads info.id s in
        let send = λ (q : Option (Patch × Option Text)).
          track_upload info.id (upload_type q)
          >> (reading (λ (c : Client). c.ws_client) >>= λ ws_client.
              send_or refusal ws_client (upload_message lib info.id doc q)) in
        subst (λ r. Sends info.id s (continue_with send r)) (sym same)
          (_, refl, refl, refl, extract_document_id-upload_message info.id doc found e)

    upload_one-Sends :
        (info : PendingDocumentInfo) (s : Client)
        → has_row info.id s.tables.documents ≡ true
        → Sends info.id s (upload_one lib refusal read info (online s))
    unfolding upload_one has_row
    upload_one-Sends info s known = elim (Option-cases (find_row info.id s.tables.documents)) [
      | inl none_found ↦
          let missing : is_found (find_row info.id s.tables.documents) ≡ false =
            ap is_found none_found in
          ground (arith, missing, known)
      | inr (r, found) ↦
          subst
            (λ q. Sends info.id s (upload_found lib refusal read info info.is_deleted (q.0) (q.1)))
            (sym (get_document-found (record s { ws_client = some true }) info.id r found))
            (upload_found-Sends info info.is_deleted r.document s
              (find_row-id info.id s.tables.documents r found))
    ]

    upload_each-SendsAll :
        (docs rows : List Row) (s : Client)
        → s.tables.documents ≡ docs
        → All (Known docs) rows
        → SendsAll
            (pending_infos rows)
            s
            (upload_each lib refusal read (pending_infos rows) (online s))
    unfolding upload_each pending_infos
    upload_each-SendsAll docs [] s e h = ([], refl, sym (append-nil s.sent), refl, refl)
    upload_each-SendsAll docs (r ∷ rows) s e (p, h) =
        let info : PendingDocumentInfo = record {
          id = r.document.id;
          is_deleted = is_some r.document.deleted_at;
        } in
        let step =
          upload_one-Sends info s (subst (λ d. has_row r.document.id d ≡ true) (sym e) p) in
        let after = (upload_one lib refusal read info (online s)).1 in
        let rest =
          upload_each-SendsAll docs rows after (ap (λ (t : Tables). t.documents) step.3 ∙ e) h in
        let others = upload_each lib refusal read (pending_infos rows) in
        let run : continue_with (λ _. others) (upload_one lib refusal read info (online s))
            ≡ others (online after) =
          ap (continue_with (λ _. others)) step.1 in
        (
          step.0 ∷ rest.0,
          ap (λ q. q.0) run ∙ rest.1,
          ap (λ q. (q.1).sent) run
              ∙ rest.2
              ∙ ap (λ z. z ++ rest.0) step.2
              ∙ append_assoc s.sent (step.0 ∷ []) rest.0,
          (λ i. step.4 i ∷ rest.3 i),
          ap (λ q. q.1) run ∙ rest.4 ∙ sym (ap (λ q. online (q.1)) run),
        )

  pub upload_pending-SendsAll :
      (refusal : SyncError) (read : ℕ → Step (Option (Patch × Option Text)))
      → Reads read
      → (s : Client)
      → SendsAll (pending_infos (order_by_time (pending_rows s.tables.documents))) s (
          upload_each lib refusal read
            (pending_infos (order_by_time (pending_rows s.tables.documents)))
            (online s))
  upload_pending-SendsAll refusal read reads s =
      upload_each-SendsAll refusal read reads s.tables.documents
        (order_by_time (pending_rows s.tables.documents)) s refl
        (All-order_by_time (Known s.tables.documents) (pending_rows s.tables.documents) (
          All-pending_rows (Known s.tables.documents) s.tables.documents
            (Known-All s.tables.documents)))

  -- With no query failing and an open connection, the upload of pending documents succeeds and
  -- sends exactly one message for each of them behind the messages sent before, in the order of
  -- their last changes.
  pub sync_pending_documents-SendsEach :
      (s : Client)
      → SendsEach
          (pending_infos (order_by_time (pending_rows s.tables.documents)))
          s
          (sync_pending_documents lib (online s))
  unfolding sync_pending_documents get_pending_documents query
  sync_pending_documents-SendsEach s =
      let (ms, done_, sent, ids, _) =
        upload_pending-SendsAll not_connected read_strictly read_strictly-Reads s in
      (ms, done_, sent, ids)
