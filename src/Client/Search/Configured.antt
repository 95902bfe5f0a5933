-- ===== src/Client/Search/Configured.antt =====
-- replicant-client/src/database.rs: what a configured search keeps.
use replicant.Prelude.{
  ◌≡◌, refl, sym, ap, ◌∙◌, subst, true, inl, inr, List, [], ◌∷◌, ◌++◌, append-nil, append_assoc,
  Bool-cases, Text, arith,
}
use replicant.Errors.{SyncResult, ok, err}
use replicant.Json.{Value}
use replicant.Client.State.{Client, ClientLibrary, reliable}
use replicant.Client.Queue.{is_some, active_documents}
use replicant.Client.Search.{
  FtsEntry, SearchLibrary, Search, continue_search, search_query, undo, search_transaction,
  has_path, insert_search_path, insert_search_paths, clear_fts_index,
}
use replicant.Client.Search.Index.{extracts, insert_entries, fill_fts_index, configure_search}
use replicant.Client.Search.Entries.{index_rows-entry}
use replicant.Client.Search.Changes.{Change, apply_all}
use replicant.Client.Search.InStep.{
  InStep, listed, listed-Fits, Fits-InStep, Fitting, apply_all-Fitting,
}

abbrev with_paths : Client → List FtsEntry → List Text → Search
with_paths c entries paths = record {
  client = reliable c;
  search_config = paths;
  documents_fts = entries;
}

insert_search_paths_lem :
    (c : Client) (entries : List FtsEntry) (paths there : List Text)
    → (insert_search_paths paths (with_paths c entries there)).0 ≡ ok tt
    → insert_search_paths paths (with_paths c entries there)
      ≡ (ok tt, with_paths c entries (there ++ paths))
unfolding insert_search_paths insert_search_path search_query
insert_search_paths_lem c entries [] there fine =
    ap (λ ps. (ok tt, with_paths c entries ps)) (sym (append-nil there))
insert_search_paths_lem c entries (path ∷ paths) there fine =
    elim (Bool-cases (has_path path there)) [
      | inl h ↦ absurd (ground (arith, (rw h at fine)))
      | inr h ↦ rw h (
          insert_search_paths_lem c entries paths (there ++ path ∷ []) (rw h at fine)
          ∙ ap (λ ps. (ok tt, with_paths c entries ps)) (append_assoc there (path ∷ []) paths))
    ]

module _ (sqlite : SearchLibrary) (path : Text) (others : List Text)
    (readable : (v : Value) → is_some (extracts sqlite (path ∷ others) v) ≡ true) where
  -- The transaction, once the paths are inserted.
  filled : SyncResult (Unit {0}) × Search → SyncResult (Unit {0}) × Search
  filled r =
      continue_search (λ u. search_query)
        (continue_search (λ u. fill_fts_index sqlite) (continue_search (λ u. clear_fts_index) r))

  filled_lem :
      (c : Client) (entries : List FtsEntry) (before : Search) (r : SyncResult (Unit {0}) × Search)
      → (undo before (filled r)).0 ≡ ok tt
      → (r.0 ≡ ok tt → r ≡ (ok tt, with_paths c entries (path ∷ others)))
      → Fitting sqlite path others readable (undo before (filled r)).1
  unfolding filled clear_fts_index fill_fts_index insert_entries search_query
  filled_lem c entries before (err e, s) fine inserted = absurd (ground (arith, fine))
  filled_lem c entries before (ok done, s) fine inserted = (
    c,
    listed sqlite path others readable c.tables.documents,
    ap (λ r. (undo before (filled r)).1) (inserted refl)
        ∙ rw
            (index_rows-entry sqlite (path ∷ others) readable (active_documents c.tables.documents))
            refl,
    listed-Fits sqlite path others readable c.tables.documents,
  )

  configure_search-Fitting :
      (s : Search)
      → s.client.faults ≡ []
      → (configure_search sqlite (path ∷ others) s).0 ≡ ok tt
      → Fitting sqlite path others readable (configure_search sqlite (path ∷ others) s).1
  unfolding configure_search search_transaction search_query filled
  configure_search-Fitting s calm fine =
      let c = s.client in
      let start : Search = with_paths c s.documents_fts s.search_config in
      let same : start ≡ s =
        ap
          (λ faults. record {
            client = record s.client { faults = faults };
            search_config = s.search_config;
            documents_fts = s.documents_fts;
          })
          (sym calm) in
      subst (λ t. Fitting sqlite path others readable (configure_search sqlite (path ∷ others) t).1)
        same
        (filled_lem c s.documents_fts start
          (insert_search_paths (path ∷ others) (with_paths c s.documents_fts []))
          (subst (λ t. (configure_search sqlite (path ∷ others) t).0 ≡ ok tt) (sym same) fine)
          (insert_search_paths_lem c s.documents_fts (path ∷ others) []))

  -- If the search is configured with some paths, none of them malformed, the call succeeds, and no
  -- query fails, then after any sequence of saves, queued edits, deletions, confirmations and new
  -- revisions, the index has for each document the entries that an index built anew has.
  pub apply_all-InStep :
      (lib : ClientLibrary) (changes : List Change) (s : Search)
      → s.client.faults ≡ []
      → (configure_search sqlite (path ∷ others) s).0 ≡ ok tt
      → InStep sqlite (apply_all lib sqlite changes (configure_search sqlite (path ∷ others) s).1)
  apply_all-InStep lib changes s calm fine =
      let (c, entries, is, fits) =
        apply_all-Fitting sqlite path others readable lib changes _
          (configure_search-Fitting s calm fine) in
      subst (InStep sqlite) (sym is) (Fits-InStep sqlite path others readable c entries fits)
