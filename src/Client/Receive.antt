-- ===== src/Client/Receive.antt =====
-- replicant-client/src/client.rs: the documents of `SyncDocument` against those that are there.
use replicant.Prelude.{
  ℕ, ◌≡◌, ◌≢◌, refl, sym, ap, subst, ◌∙◌, true, false, ◌⊎◌, inl, inr, Option, none, some, List, [],
  ◌∷◌, map, Bool-cases, Option-cases, arith,
}
use native.Mathlib.Decide.{ℕ_discrete}
use replicant.Prelude.Int.{ℤ, pos, ltb_ℤ}
use replicant.Errors.{ok, err, database_error, row_not_found}
use replicant.Models.{Document, synced}
use replicant.Protocol.{sync_document}
use replicant.Client.State.{Row, Client, ClientLibrary, query, reliable}
use replicant.Client.Database.{
  find_row, fetch_one, get_document, document_to_params, overwrite, upsert, upsert_document,
  save_document_with_status,
}
use replicant.Client.Messages.{store_updated, store_created, receive_sync, handle_server_message}
use replicant.Client.Tracking.{handle_all}
use replicant.Client.Rows.{find_row-upsert-old, find_row-upsert-other}

pub get_document-found :
    (s : Client) (id : ℕ) (r : Row)
    → find_row id s.tables.documents ≡ some r
    → get_document id (reliable s) ≡ (ok r.document, reliable s)
unfolding get_document query
get_document-found s id r e = ap (λ o. fetch_one o (reliable s)) e

pub get_document-missing :
    (s : Client) (id : ℕ)
    → find_row id s.tables.documents ≡ none
    → get_document id (reliable s) ≡ (err (database_error row_not_found), reliable s)
unfolding get_document query
get_document-missing s id e = ap (λ o. fetch_one o (reliable s)) e

-- `a` is at most `b`.
abbrev pub NotAbove : ℤ → ℤ → Type 0
NotAbove a b = ltb_ℤ b a ≡ false

NotAbove-refl : (a : ℤ) → NotAbove a a
NotAbove-refl a = ground arith

NotAbove-trans : (a b c : ℤ) → NotAbove a b → NotAbove b c → NotAbove a c
NotAbove-trans a b c h k = ground arith

abbrev revision_of : Option Row → ℤ
revision_of none = pos 0
revision_of (some r) = r.document.sync_revision

missing_ne :
    (s : Client) (id k : ℕ) (r : Row)
    → find_row id s.tables.documents ≡ none
    → find_row k s.tables.documents ≡ some r
    → k ≢ id
missing_ne s id k r z e p =
    let q : none ≡ some r = sym z ∙ ap (λ i. find_row i s.tables.documents) (sym p) ∙ e in
    ground (arith, q)

module _ (lib : ClientLibrary) (d : Document) where
  -- The row that is stored for the document.
  abbrev incoming : Row
  incoming = document_to_params lib d (some synced)

  -- What a stored document leaves in the table of documents.
  abbrev Stores : Client → Client → Type 0
  Stores s after =
      (after.tables.documents ≡ upsert incoming s.tables.documents) × (after ≡ reliable after)

  sync_older :
      (s : Client) (r : Row)
      → find_row d.id s.tables.documents ≡ some r
      → ltb_ℤ d.sync_revision r.document.sync_revision ≡ true
      → handle_server_message lib (sync_document d) (reliable s) ≡ (ok tt, reliable s)
  unfolding handle_server_message receive_sync
  sync_older s r e h =
      ap (λ q. receive_sync lib d (q.0) (q.1)) (get_document-found s d.id r e) ∙ rw h refl

  sync_newer :
      (s : Client) (r : Row)
      → find_row d.id s.tables.documents ≡ some r
      → ltb_ℤ d.sync_revision r.document.sync_revision ≡ false
      → handle_server_message lib (sync_document d) (reliable s) ≡ store_updated lib d (reliable s)
  unfolding handle_server_message receive_sync
  sync_newer s r e h =
      ap (λ q. receive_sync lib d (q.0) (q.1)) (get_document-found s d.id r e) ∙ rw h refl

  sync_missing :
      (s : Client)
      → find_row d.id s.tables.documents ≡ none
      → handle_server_message lib (sync_document d) (reliable s) ≡ store_created lib d (reliable s)
  unfolding handle_server_message receive_sync
  sync_missing s e = ap (λ q. receive_sync lib d (q.0) (q.1)) (get_document-missing s d.id e)

  store_updated-Stores : (s : Client) → Stores s ((store_updated lib d (reliable s)).1)
  unfolding store_updated save_document_with_status upsert_document query
  store_updated-Stores s = (refl, refl)

  store_created-Stores : (s : Client) → Stores s ((store_created lib d (reliable s)).1)
  unfolding store_created save_document_with_status upsert_document query
  store_created-Stores s = (refl, refl)

  -- With no query failing, a `SyncDocument` for a document that is there does nothing if its
  -- revision is lower; else the row takes the server's content and revision, is synced and keeps
  -- its owner.
  pub handle_server_message-sync_document :
      (s : Client) (r : Row)
      → find_row d.id s.tables.documents ≡ some r
      → ((ltb_ℤ d.sync_revision r.document.sync_revision ≡ true)
          × (handle_server_message lib (sync_document d) (reliable s) ≡ (ok tt, reliable s)))
        ⊎ (NotAbove r.document.sync_revision d.sync_revision
            × (r' : Row) × (find_row d.id
                  ((handle_server_message lib (sync_document d) (reliable s)).1).tables.documents
                ≡ some r')
            × (r'.document.content ≡ d.content)
            × (r'.document.sync_revision ≡ d.sync_revision)
            × (r'.document.user_id ≡ r.document.user_id)
            × (r'.sync_status ≡ synced))
  unfolding document_to_params overwrite
  handle_server_message-sync_document s r e =
      elim (Bool-cases (ltb_ℤ d.sync_revision r.document.sync_revision)) [
        | inl h ↦ inl (h, sync_older s r e h)
        | inr h ↦ inr (
          h,
          overwrite incoming r,
          ap (λ q. find_row d.id ((q.1).tables.documents)) (sync_newer s r e h)
              ∙ ap (find_row d.id) (store_updated-Stores s).0
              ∙ find_row-upsert-old incoming r s.tables.documents e,
          refl,
          refl,
          refl,
          refl,
        )
      ]

  -- The row's revision did not decrease.
  abbrev Rises : ℕ → Row → Client → Type 0
  Rises k r after =
      (r' : Row) × (find_row k after.tables.documents ≡ some r')
      × NotAbove r.document.sync_revision r'.document.sync_revision

  stored-Rises :
      (s after : Client) (k : ℕ) (r : Row)
      → find_row k s.tables.documents ≡ some r
      → k ≢ d.id
      → Stores s after
      → Rises k r after
  unfolding document_to_params
  stored-Rises s after k r e n (rows, same) = (
    r,
    ap (find_row k) rows ∙ find_row-upsert-other incoming k s.tables.documents n ∙ e,
    NotAbove-refl r.document.sync_revision,
  )

  -- A document that is received, whatever is there.
  sync-Rises :
      (s : Client) (k : ℕ) (r : Row)
      → find_row k s.tables.documents ≡ some r
      → Rises k r ((handle_server_message lib (sync_document d) (reliable s)).1)
        × (((handle_server_message lib (sync_document d) (reliable s)).1)
            ≡ reliable ((handle_server_message lib (sync_document d) (reliable s)).1))
  unfolding document_to_params overwrite
  sync-Rises s k r e = elim (Option-cases (find_row d.id s.tables.documents)) [
    | inl z ↦ rw (sync_missing s z) (
      stored-Rises s _ k r e (missing_ne s d.id k r z e) (store_created-Stores s),
      (store_created-Stores s).1,
    )
    | inr (old, z) ↦ elim (Bool-cases (ltb_ℤ d.sync_revision old.document.sync_revision)) [
      | inl h ↦ rw (sync_older s old z h) ((r, e, NotAbove-refl r.document.sync_revision), refl)
      | inr h ↦ rw (sync_newer s old z h) (elim (ℕ_discrete k d.id) [
        | no n ↦ (stored-Rises s _ k r e n (store_updated-Stores s), (store_updated-Stores s).1)
        | yes p ↦
            let here : find_row d.id s.tables.documents ≡ some r =
              ap (λ i. find_row i s.tables.documents) (sym p) ∙ e in
            let level : old.document.sync_revision ≡ r.document.sync_revision =
              ap revision_of (sym z ∙ here) in
            let stored = store_updated-Stores s in
            (
              (
                overwrite incoming old,
                ap (λ i. find_row i (((store_updated lib d (reliable s)).1).tables.documents)) p
                    ∙ ap (find_row d.id) stored.0
                    ∙ find_row-upsert-old incoming old s.tables.documents z,
                subst (λ a. ltb_ℤ d.sync_revision a ≡ false) level h,
              ),
              stored.1,
            )
      ])
    ]
  ]

module _ (lib : ClientLibrary) where
  -- Whatever documents the server sends by `SyncDocument`, one after the other, with no other
  -- message between them and no query failing, a document that the client has stays there, and its
  -- revision never decreases.
  pub handle_all-sync_document :
      (ds : List Document) (s : Client) (k : ℕ) (r : Row)
      → find_row k s.tables.documents ≡ some r
      → (r' : Row) × (find_row k
            ((handle_all lib (map sync_document ds) (reliable s)).1).tables.documents
          ≡ some r')
        × NotAbove r.document.sync_revision r'.document.sync_revision
  unfolding handle_all
  handle_all-sync_document [] s k r e = (r, e, NotAbove-refl r.document.sync_revision)
  handle_all-sync_document (d ∷ ds) s k r e =
      let step = sync-Rises lib d s k r e in
      let after = (handle_server_message lib (sync_document d) (reliable s)).1 in
      let rest = handle_all-sync_document ds after k step.0.0 step.0.1 in
      (
        rest.0,
        ap
              (λ (t : Client).
                find_row k ((handle_all lib (map sync_document ds) t).1).tables.documents)
              step.1
            ∙ rest.1,
        NotAbove-trans r.document.sync_revision ((step.0.0).document.sync_revision)
            ((rest.0).document.sync_revision) step.0.2 rest.2,
      )
