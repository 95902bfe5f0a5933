-- ===== src/Client/Search/Index.antt =====
-- replicant-client/src/database.rs and queries.rs: the queries of the full-text index, and the functions
-- that write documents with it.
use replicant.Prelude.{ℕ, Option, none, some, List, [], ◌∷◌, ◌++◌, Text, codes, take}
use replicant.Errors.{database, database_error, SyncResult, ok, err}
use replicant.Json.{Value, Patch}
use replicant.Models.{Document, SyncStatus}
use replicant.Protocol.{ChangeEventType}
use replicant.Client.State.{Row, ClientLibrary, Step}
use replicant.Client.Database.{save_document_with_status, delete_document}
use replicant.Client.Queue.{active_documents, save_document_and_queue_patch}
use replicant.Client.Search.{
  FtsEntry, SearchLibrary, Search, SearchStep, ◌>>=◌, ◌>>◌, give, modify, on_client, search_query,
  search_transaction, insert_search_paths, delete_fts_entry, rows_of, title_or_empty, add_extract,
  add_entry, clear_fts_index,
}

module _ (sqlite : SearchLibrary) where
  unfoldable pub extracts : List Text → Value → Option (List Text)
  unfolding add_extract
  extracts [] content = some []
  extracts (path ∷ paths) content =
      add_extract (sqlite.json_extract content path) (extracts paths content)

  -- `COALESCE((SELECT GROUP_CONCAT(..)), '')`
  unfoldable pub concat : List Text → Text
  concat [] = []
  concat (t ∷ texts) = sqlite.group_concat (t ∷ texts)

  unfoldable pub entry_of : List Text → Document → Option FtsEntry
  unfolding extracts concat
  entry_of paths doc = elim (extracts paths doc.content) [
    | none ↦ none
    | some texts ↦
        some
          (record { document_id = doc.id; title = title_or_empty doc.title; body = concat texts })
  ]

  -- The `SELECT` of the insertions into the index, from some rows.
  unfoldable pub index_rows : List Text → List Document → Option (List FtsEntry)
  unfolding entry_of add_entry
  index_rows paths [] = some []
  index_rows paths (doc ∷ docs) = add_entry (entry_of paths doc) (index_rows paths docs)

  abbrev pub append_entries : Option (List FtsEntry) → SearchStep (Unit {0})
  append_entries none s = (err (database_error (database (codes "1"))), s)
  append_entries (some entries) s = (ok tt, record s { documents_fts = s.documents_fts ++ entries })

  -- `INSERT INTO documents_fts`, from the rows that the function picks and that are not deleted.
  unfoldable pub insert_entries : (List Row → List Row) → SearchStep (Unit {0})
  unfolding index_rows active_documents
  insert_entries pick s =
      append_entries
        (index_rows s.search_config (active_documents (pick s.client.tables.documents))) s

  unfoldable pub fill_fts_index : SearchStep (Unit {0})
  unfolding search_query insert_entries
  fill_fts_index = search_query >> insert_entries (λ rows. rows)

  unfoldable pub rebuild_fts_index : SearchStep (Unit {0})
  unfolding clear_fts_index fill_fts_index
  rebuild_fts_index = clear_fts_index >> fill_fts_index

  unfoldable pub configure_search : List Text → SearchStep (Unit {0})
  unfolding search_query search_transaction insert_search_paths clear_fts_index fill_fts_index
  configure_search json_paths = search_transaction (
      search_query
      >> modify (λ s. record s { search_config = [] })
      >> insert_search_paths json_paths
      >> clear_fts_index
      >> fill_fts_index)

  -- The entry of one document is written anew.
  unfoldable pub replace_entry : ℕ → SearchStep (Unit {0})
  unfolding search_query search_transaction delete_fts_entry rows_of insert_entries
  replace_entry id = search_transaction (
      search_query
      >> modify (λ s. record s { documents_fts = delete_fts_entry id s.documents_fts })
      >> search_query
      >> insert_entries (rows_of id))

  abbrev pub unless_unset : List Text → SearchStep (Unit {0}) → SearchStep (Unit {0})
  unless_unset [] step = give tt
  unless_unset (path ∷ paths) step = step

  unfoldable pub update_fts_for_document : ℕ → SearchStep (Unit {0})
  unfolding search_query replace_entry
  update_fts_for_document id =
      search_query >> λ s. unless_unset s.search_config (replace_entry id) s

  -- A write of a document, and behind it the index, whose failure is logged only.
  abbrev pub keep_result : {A : Type 0} → A → SyncResult (Unit {0}) × Search → SyncResult A × Search
  keep_result value (result, after) = (ok value, after)

  unfoldable pub index_behind : ℕ → Step (Unit {0}) → SearchStep (Unit {0})
  unfolding update_fts_for_document
  index_behind id write =
      on_client write >>= λ value s. keep_result value (update_fts_for_document id s)

  -- The three functions that write documents, the index included.

  unfoldable pub save_and_index :
      ClientLibrary → Document → Option SyncStatus → SearchStep (Unit {0})
  unfolding index_behind save_document_with_status
  save_and_index lib doc sync_status =
      index_behind doc.id (save_document_with_status lib doc sync_status)

  unfoldable pub save_queue_and_index :
      ClientLibrary → Document → Patch → ChangeEventType → Option Text → SearchStep (Unit {0})
  unfolding index_behind save_document_and_queue_patch
  save_queue_and_index lib doc patch operation_type old_content_hash =
      index_behind doc.id
        (save_document_and_queue_patch lib doc patch operation_type old_content_hash)

  unfoldable pub delete_and_index : ℕ → SearchStep (Unit {0})
  unfolding index_behind delete_document
  delete_and_index id = index_behind id (delete_document id)

  -- `JOIN .. ON d.id = fts.document_id WHERE d.deleted_at IS NULL`
  unfoldable pub join : List Row → List FtsEntry → List Document
  unfolding rows_of active_documents
  join rows [] = []
  join rows (e ∷ entries) = active_documents (rows_of e.document_id rows) ++ join rows entries

  abbrev pub found_documents : ℕ → Option (List FtsEntry) → SearchStep (List Document)
  found_documents limit none s = (err (database_error (database (codes "1"))), s)
  found_documents limit (some entries) s =
      (ok (take limit (join s.client.tables.documents entries)), s)

  unfoldable pub search_documents : Text → ℕ → SearchStep (List Document)
  unfolding search_query join
  search_documents text limit =
      search_query >> λ s. found_documents limit (sqlite.matching text s.documents_fts) s
