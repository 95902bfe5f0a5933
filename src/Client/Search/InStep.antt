-- ===== src/Client/Search/InStep.antt =====
-- replicant-client/src/database.rs: the index behind writes of documents, and a rebuilt one.
use replicant.Prelude.{
  ℕ, ◌≡◌, ◌≢◌, refl, sym, ap, ◌∙◌, subst, true, inl, inr, List, [], ◌∷◌, ◌++◌, map, append-nil,
  ◌==◌, ==_iff, Bool-cases, Text, arith,
}
use replicant.Prelude.Int.{ℤ}
use replicant.Errors.{ok}
use replicant.Json.{Value}
use replicant.Models.{SyncStatus, synced}
use replicant.Client.State.{Row, Client, ClientLibrary, Step, reliable, query}
use replicant.Client.Database.{
  update_rows, save_document_with_status, mark_synced, update_sync_revision, delete_document,
}
use replicant.Client.Queue.{is_some, is_none, active_documents, save_document_and_queue_patch}
use replicant.Client.Search.{
  FtsEntry, SearchLibrary, Search, search_query, search_transaction, delete_fts_entry, rows_of,
  clear_fts_index,
}
use replicant.Client.Search.Index.{
  extracts, insert_entries, fill_fts_index, rebuild_fts_index, replace_entry,
  update_fts_for_document, index_behind, save_and_index, save_queue_and_index, delete_and_index,
}
use replicant.Client.Search.Entries.{
  entries_for, entries_for-append, entries_for-delete_fts_entry, entries_for-delete_fts_entry-other,
  rows_of_twice, rows_of_other, entry, index_rows-entry, entries_for-map,
}
use replicant.Client.Search.Changes.{
  Change, saves, queues, deletes, marks, revises, apply, apply_all, Written, save-Written,
  queue-Written, delete-Written,
}

-- Each document has the entries that it has in an index that is built anew.
abbrev pub InStep : SearchLibrary → Search → Type 0
InStep sqlite s =
    (id : ℕ)
    → entries_for id s.documents_fts ≡ entries_for id ((rebuild_fts_index sqlite s).1).documents_fts

module _ (sqlite : SearchLibrary) (path : Text) (others : List Text)
    (readable : (v : Value) → is_some (extracts sqlite (path ∷ others) v) ≡ true) where
  abbrev pub paths : List Text
  paths = path ∷ others

  abbrev pub at : Client → List FtsEntry → Search
  at c entries = record { client = reliable c; search_config = paths; documents_fts = entries }

  abbrev pub listed : List Row → List FtsEntry
  listed rows = map (entry sqlite paths) (active_documents rows)

  -- Each document has its entries, if any.
  abbrev pub Fits : List Row → List FtsEntry → Type 0
  Fits rows entries = (id : ℕ) → entries_for id entries ≡ listed (rows_of id rows)

  pub listed-Fits : (rows : List Row) → Fits rows (listed rows)
  listed-Fits rows id = entries_for-map sqlite paths id rows

  rebuild_fts_index_lem :
      (c : Client) (entries : List FtsEntry)
      → rebuild_fts_index sqlite (at c entries) ≡ (ok tt, at c (listed c.tables.documents))
  unfolding rebuild_fts_index clear_fts_index fill_fts_index insert_entries search_query
  rebuild_fts_index_lem c entries =
      rw (index_rows-entry sqlite paths readable (active_documents c.tables.documents)) refl

  pub Fits-InStep :
      (c : Client) (entries : List FtsEntry)
      → Fits c.tables.documents entries
      → InStep sqlite (at c entries)
  Fits-InStep c entries fits id =
      fits id
      ∙ sym (listed-Fits c.tables.documents id)
      ∙ ap (λ r. entries_for id (r.1).documents_fts) (sym (rebuild_fts_index_lem c entries))

  abbrev replaced : ℕ → List Row → List FtsEntry → List FtsEntry
  replaced id rows entries = delete_fts_entry id entries ++ listed (rows_of id rows)

  update_fts_for_document_lem :
      (id : ℕ) (c : Client) (entries : List FtsEntry)
      → update_fts_for_document sqlite id (at c entries)
        ≡ (ok tt, at c (replaced id c.tables.documents entries))
  unfolding update_fts_for_document replace_entry search_transaction insert_entries search_query
  update_fts_for_document_lem id c entries =
      rw (index_rows-entry sqlite paths readable (active_documents (rows_of id c.tables.documents)))
        refl

  replaced-Fits :
      (id : ℕ) (before after : List Row) (entries : List FtsEntry)
      → Fits before entries
      → ((j : ℕ) → j ≢ id → rows_of j after ≡ rows_of j before)
      → Fits after (replaced id after entries)
  unfolding active_documents
  replaced-Fits id before after entries fits same j = elim (Bool-cases (j == id)) [
    | inl h ↦
        subst (λ k. entries_for k (replaced id after entries) ≡ listed (rows_of k after))
          (sym ((==_iff j id).0 h))
          (entries_for-append id (delete_fts_entry id entries) (listed (rows_of id after))
            ∙ ap (λ l. l ++ entries_for id (listed (rows_of id after)))
                (entries_for-delete_fts_entry id entries)
            ∙ listed-Fits (rows_of id after) id
            ∙ ap listed (rows_of_twice id after))
    | inr h ↦
        let n : j ≢ id = λ e. ground (arith, h, e) in
        entries_for-append j (delete_fts_entry id entries) (listed (rows_of id after))
        ∙ ap (λ l. entries_for j (delete_fts_entry id entries) ++ l)
            (listed-Fits (rows_of id after) j ∙ ap listed (rows_of_other j id after n))
        ∙ append-nil (entries_for j (delete_fts_entry id entries))
        ∙ entries_for-delete_fts_entry-other j id entries n
        ∙ fits j
        ∙ ap listed (sym (same j n))
  ]

  -- A state with its index in step.
  abbrev pub Fitting : Search → Type 0
  Fitting s =
      (c : Client) × (entries : List FtsEntry) × (s ≡ at c entries)
      × Fits c.tables.documents entries

  index_behind-Fitting :
      (id : ℕ) (write : Step (Unit {0})) (c : Client) (entries : List FtsEntry)
      → Fits c.tables.documents entries
      → Written id c (write (reliable c))
      → Fitting (index_behind sqlite id write (at c entries)).1
  unfolding index_behind
  index_behind-Fitting id write c entries fits (after, inl (e, fails, same)) =
      (after, entries, rw fails refl, λ j. fits j ∙ ap (λ rows. listed (rows_of j rows)) (sym same))
  index_behind-Fitting id write c entries fits (after, inr (wrote, same)) = (
    after,
    replaced id after.tables.documents entries,
    rw (wrote, update_fts_for_document_lem id after entries) refl,
    replaced-Fits id c.tables.documents after.tables.documents entries fits same,
  )

  -- A change of rows that the index does not show.
  abbrev restamp : (Row → ℤ) → (Row → SyncStatus) → Row → Row
  restamp revision status r = record {
    document = record r.document { sync_revision = revision r };
    sync_status = status r;
  }

  listed-restamp :
      (revision : Row → ℤ) (status : Row → SyncStatus) (j id : ℕ) (rows : List Row)
      → listed (rows_of j rows) ≡ listed (rows_of j (update_rows id (restamp revision status) rows))
  unfolding update_rows rows_of active_documents
  listed-restamp revision status j id [] = refl
  listed-restamp revision status j id (r ∷ rows) =
      let rest = listed-restamp revision status j id rows in
      elim (Bool-cases (r.document.id == id)) [
        | inl h ↦ elim (Bool-cases (r.document.id == j)) [
          | inl k ↦ elim (Bool-cases (is_none r.document.deleted_at)) [
            | inl d ↦ rw (h, k, d) (ap (λ l. entry sqlite paths r.document ∷ l) rest)
            | inr d ↦ rw (h, k, d) rest
          ]
          | inr k ↦ rw (h, k) rest
        ]
        | inr h ↦ elim (Bool-cases (r.document.id == j)) [
          | inl k ↦ elim (Bool-cases (is_none r.document.deleted_at)) [
            | inl d ↦ rw (h, k, d) (ap (λ l. entry sqlite paths r.document ∷ l) rest)
            | inr d ↦ rw (h, k, d) rest
          ]
          | inr k ↦ rw (h, k) rest
        ]
      ]

  module _ (lib : ClientLibrary) where
    apply-Fitting :
        (change : Change) (c : Client) (entries : List FtsEntry)
        → Fits c.tables.documents entries
        → Fitting (apply lib sqlite change (at c entries)).1
    unfolding apply save_and_index save_queue_and_index delete_and_index mark_synced
        update_sync_revision query
    apply-Fitting (saves doc status) c entries fits =
        index_behind-Fitting doc.id (save_document_with_status lib doc status) c entries fits
          (save-Written lib doc status c)
    apply-Fitting (queues doc patch operation_type hash) c entries fits =
        index_behind-Fitting doc.id
          (save_document_and_queue_patch lib doc patch operation_type hash) c entries fits
          (queue-Written lib doc patch operation_type hash c)
    apply-Fitting (deletes id) c entries fits =
        index_behind-Fitting id (delete_document id) c entries fits (delete-Written id c)
    apply-Fitting (marks id) c entries fits = (
      (mark_synced id (reliable c)).1,
      entries,
      refl,
      λ j.
          fits j
          ∙ listed-restamp (λ r. r.document.sync_revision) (λ r. synced) j id c.tables.documents,
    )
    apply-Fitting (revises id revision) c entries fits = (
      (update_sync_revision id revision (reliable c)).1,
      entries,
      refl,
      λ j. fits j ∙ listed-restamp (λ r. revision) (λ r. r.sync_status) j id c.tables.documents,
    )

    pub apply_all-Fitting :
        (changes : List Change) (s : Search) → Fitting s → Fitting (apply_all lib sqlite changes s)
    unfolding apply_all
    apply_all-Fitting [] s fitting = fitting
    apply_all-Fitting (change ∷ changes) s (c, entries, is, fits) =
        apply_all-Fitting changes (apply lib sqlite change s).1 (
          subst (λ t. Fitting (apply lib sqlite change t).1) (sym is)
            (apply-Fitting change c entries fits))
