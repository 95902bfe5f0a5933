-- ===== src/Server/Locks.antt =====
-- replicant-server/src/database.rs: the transactions of several connections, statement by statement.
-- A row is locked by `FOR UPDATE` or by a write up to the end of the transaction, and a statement that
-- wants a locked row waits. No query fails, and a transaction that has written commits.
pub mod Statements
pub mod Isolated
use replicant.Prelude.{
  ℕ, ◌+◌, ◌-◌, ◌^◌, ◌≡◌, Bool, Option, none, some, List, [], ◌∷◌, ◌++◌, if◌then◌else◌, ◌==◌,
}
use replicant.Prelude.Int.{ℤ, pos, ltb_ℤ}
use replicant.Models.{Document}
use replicant.Server.State.{Row, Library}
use replicant.Server.Queries.{document_to_params, find_document}
use replicant.Server.Database.{count_matches, update_rows}
use replicant.Server.Changes.{mark_deleted}

-- Where a transaction stands: an update of a document in front of its `SELECT`, behind it with the
-- revision that it read, or behind its `UPDATE`; a deletion in front of its `UPDATE` or behind it; or
-- the end, with the revision that was expected and the one that was sent for a version mismatch.
pub data Transaction : Type 0 where
  updates : Document → Transaction
  has_read : Document → ℤ → Transaction
  has_updated : Document → Transaction
  deletes : ℕ → ℕ → Transaction
  has_deleted : ℕ → Transaction
  mismatched : ℤ → ℤ → Transaction
  finished : Transaction

-- The transaction has the row of this document locked.
unfoldable pub holds : ℕ → Transaction → Bool
holds id (has_read doc revision) = doc.id == id
holds id (has_updated doc) = doc.id == id
holds id (has_deleted i) = i == id
holds id _ = Bool.false

unfoldable pub count_locks : ℕ → List Transaction → ℕ
unfolding holds
count_locks id [] = 0
count_locks id (t ∷ ts) = (if holds id t then 1 else 0) + count_locks id ts

-- `SELECT .. FOR UPDATE`: it waits for the row, and then reads it.
abbrev pub read_row : Document → Option Document → Transaction
read_row doc none = finished
read_row doc (some original) = has_read doc original.sync_revision

unfoldable pub select_for_update : Document → List Transaction → List Row → Transaction
unfolding count_locks find_document
select_for_update doc others rows =
    if count_locks doc.id others == 0 then read_row doc (find_document doc.id rows) else updates doc

module _ (lib : Library) (now : ℕ) where
  -- The `UPDATE`, and the check of `rows_affected`.
  unfoldable pub update_row : Document → ℤ → List Row → Transaction × List Row
  unfolding count_matches update_rows document_to_params
  update_row doc revision rows =
      if count_matches doc.id revision rows == 0
      then (mismatched revision doc.sync_revision, rows)
      else if ltb_ℤ revision (pos (2 ^ 63 - 1))
      then (has_updated doc, update_rows now (document_to_params lib doc) revision rows)
      else (finished, rows)

  -- The next statement of a transaction, beside the others.
  unfoldable pub advance : Transaction → List Transaction → List Row → Transaction × List Row
  unfolding select_for_update update_row count_locks mark_deleted
  advance (updates doc) others rows = (select_for_update doc others rows, rows)
  advance (has_read doc revision) others rows = update_row doc revision rows
  advance (has_updated doc) others rows = (finished, rows)
  advance (deletes id user) others rows =
      if count_locks id others == 0
      then (has_deleted id, mark_deleted now id user rows)
      else (deletes id user, rows)
  advance (has_deleted id) others rows = (finished, rows)
  advance t others rows = (t, rows)

pub record Database : Type 0 where
  pub documents : List Row
  pub transactions : List Transaction

-- One step: a transaction begins, or one of them executes a statement.
pub data Step (lib : Library) (s t : Database) : Type 0 where
  begins_update :
      (doc : Document) → t ≡ record s { transactions = updates doc ∷ s.transactions } → Step lib s t
  begins_delete :
      (id user : ℕ)
      → t ≡ record s { transactions = deletes id user ∷ s.transactions }
      → Step lib s t
  executes :
      (now : ℕ) (before after : List Transaction) (tx : Transaction)
      → s.transactions ≡ before ++ tx ∷ after
      → t ≡ record {
        documents = (advance lib now tx (before ++ after) s.documents).1;
        transactions = before ++ (advance lib now tx (before ++ after) s.documents).0 ∷ after;
      }
      → Step lib s t

pub data Reach (lib : Library) (start : Database) : Database → Type 0 where
  here : Reach lib start start
  later : {s t : Database} → Reach lib start s → Step lib s t → Reach lib start t
