-- ===== src/Client/Search.antt =====
-- replicant-client/src/database.rs and queries.rs: the full-text index, beside the tables of a client.
pub mod Index
pub mod Entries
pub mod Changes
pub mod InStep
pub mod Configured
use replicant.Prelude.{
  ℕ, Bool, true, false, Option, none, some, List, [], ◌∷◌, ◌++◌, Text, if◌then◌else◌, ◌==◌, ◌||◌,
  codes, take, text_eq,
}
use replicant.Errors.{DbError, SyncError, database, database_error, SyncResult, ok, err}
use replicant.Json.{Value, Patch}
use replicant.Models.{Document, SyncStatus}
use replicant.Protocol.{ChangeEventType}
use replicant.Client.State.{Row, Client, ClientLibrary, Step, first_fault, other_faults}
use replicant.Client.Database.{save_document_with_status, delete_document}
use replicant.Client.Queue.{is_some, active_documents, save_document_and_queue_patch}

-- A row of `documents_fts`.
pub record FtsEntry : Type 0 where
  pub document_id : ℕ
  pub title : Text
  pub body : Text

-- What the code takes from SQLite: a value at a JSON path as text, nothing where there is none, and no
-- result for a malformed path; `GROUP_CONCAT` of some texts, in an order of its own; and the
-- entries that match a query, by rank, with no result for a malformed query.
pub record SearchLibrary : Type 0 where
  pub json_extract : Value → Text → Option (Option Text)
  pub group_concat : List Text → Text
  pub matching : Text → List FtsEntry → Option (List FtsEntry)

pub record Search : Type 0 where
  pub client : Client
  pub search_config : List Text
  pub documents_fts : List FtsEntry

-- Steps on this state.

abbrev pub SearchStep : Type 0 → Type 0
SearchStep A = Search → SyncResult A × Search

abbrev pub continue_search :
    {A B : Type 0} → (A → SearchStep B) → SyncResult A × Search → SyncResult B × Search
continue_search rest (err failure, after) = (err failure, after)
continue_search rest (ok value, after) = rest value after

infixl 5 ◌>>=◌ ◌>>◌
abbrev pub ◌>>=◌ : {A B : Type 0} → SearchStep A → (A → SearchStep B) → SearchStep B
◌>>=◌ first rest before = continue_search rest (first before)

abbrev pub ◌>>◌ : {B : Type 0} → SearchStep (Unit {0}) → SearchStep B → SearchStep B
first >> second = first >>= λ _. second

abbrev pub give : {A : Type 0} → A → SearchStep A
give value s = (ok value, s)

abbrev pub modify : (Search → Search) → SearchStep (Unit {0})
modify f s = (ok tt, f s)

abbrev pub on_client : {A : Type 0} → Step A → SearchStep A
on_client step s = ((step s.client).0, record s { client = (step s.client).1 })

-- A query is sent: it may fail before it does anything.
unfoldable pub search_query : SearchStep (Unit {0})
search_query s = (
  first_fault s.client.faults,
  record s { client = record s.client { faults = other_faults s.client.faults } },
)

abbrev pub undo : {A : Type 0} → Search → SyncResult A × Search → SyncResult A × Search
undo before (ok value, after) = (ok value, after)
undo before (err failure, after) = (
  err failure,
  record after { search_config = before.search_config; documents_fts = before.documents_fts },
)

-- A transaction on the two tables of the search.
unfoldable pub search_transaction : SearchStep (Unit {0}) → SearchStep (Unit {0})
unfolding search_query
search_transaction body s = undo s ((search_query >> body >> search_query) s)

-- `INSERT INTO search_config`: the path is the key.
unfoldable pub has_path : Text → List Text → Bool
has_path path [] = false
has_path path (p ∷ paths) = text_eq path p || has_path path paths

unfoldable pub insert_search_path : Text → SearchStep (Unit {0})
unfolding has_path
insert_search_path path s =
    if has_path path s.search_config
    then (err (database_error (database (codes "1555"))), s)
    else (ok tt, record s { search_config = s.search_config ++ path ∷ [] })

unfoldable pub insert_search_paths : List Text → SearchStep (Unit {0})
unfolding search_query insert_search_path
insert_search_paths [] = give tt
insert_search_paths (path ∷ paths) =
    search_query >> insert_search_path path >> insert_search_paths paths

-- `DELETE FROM documents_fts WHERE document_id = ?`
unfoldable pub delete_fts_entry : ℕ → List FtsEntry → List FtsEntry
delete_fts_entry id [] = []
delete_fts_entry id (e ∷ entries) =
    let rest = delete_fts_entry id entries in if e.document_id == id then rest else e ∷ rest

-- `WHERE d.id = ?`
unfoldable pub rows_of : ℕ → List Row → List Row
rows_of id [] = []
rows_of id (r ∷ rows) = let rest = rows_of id rows in if r.document.id == id then r ∷ rest else rest

-- `COALESCE(d.title, '')`
abbrev pub title_or_empty : Option Text → Text
title_or_empty none = []
title_or_empty (some t) = t

-- One more text for `GROUP_CONCAT`: a missing value is none, a malformed path fails the query.
unfoldable pub add_extract : Option (Option Text) → Option (List Text) → Option (List Text)
add_extract none rest = none
add_extract (some found) none = none
add_extract (some none) (some texts) = some texts
add_extract (some (some t)) (some texts) = some (t ∷ texts)

unfoldable pub add_entry : Option FtsEntry → Option (List FtsEntry) → Option (List FtsEntry)
add_entry none rest = none
add_entry (some e) none = none
add_entry (some e) (some entries) = some (e ∷ entries)

unfoldable pub clear_fts_index : SearchStep (Unit {0})
unfolding search_query
clear_fts_index = search_query >> modify (λ s. record s { documents_fts = [] })
