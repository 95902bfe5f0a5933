-- ===== src/Server/Locks/Isolated.antt =====
-- What the row locks of PostgreSQL keep from an update (replicant-server/src/database.rs).
use replicant.Prelude.{
  ℕ, ◌+◌, ◌≤◌, ◌≡◌, refl, sym, subst, Bool, true, false, Option, List, [], ◌∷◌, ◌++◌, if◌then◌else◌,
  All, arith,
}
use replicant.Models.{Document}
use replicant.Json.{Patch}
use replicant.Server.State.{Row, Server, Library}
use replicant.Server.Database.Stores.{CanUpdate, in_tx_stores}
use replicant.Server.Database.{update_document_in_tx}
use replicant.Server.Database.Updates.{count_matches-find_document}
use replicant.Server.Locks.{
  Transaction, updates, has_read, has_updated, deletes, has_deleted, mismatched, finished, holds,
  count_locks, select_for_update, update_row, advance, Database, Step, begins_update, begins_delete,
  executes, Reach, here, later,
}
use replicant.Server.Locks.Statements.{Fits, count_locks-append, split, joined, advance-Moves}

unfoldable pub is_mismatched : Transaction → Bool
is_mismatched (mismatched expected actual) = true
is_mismatched _ = false

-- Every transaction fits, and no row has two holders.
abbrev Isolated : Database → Type 0
Isolated s = All (Fits s.documents) s.transactions × ((id : ℕ) → count_locks id s.transactions ≤ 1)

module _ (lib : Library) where
  Step-Isolated : (s t : Database) → Step lib s t → Isolated s → Isolated t
  unfolding count_locks holds
  Step-Isolated s t (begins_update doc e) (fits, few) =
      subst Isolated (sym e) ((tt, fits), λ id. omega (arith, few id))
  Step-Isolated s t (begins_delete i user e) (fits, few) =
      subst Isolated (sym e) ((tt, fits), λ id. omega (arith, few id))
  Step-Isolated s t (executes now before after tx at e) (fits, few) =
      let here_fits = subst (All (Fits s.documents)) at fits in
      let (fit, others) = split (Fits s.documents) before tx after here_fits in
      let counted : (id : ℕ)
          → (if holds id tx then 1 else 0) + count_locks id (before ++ after) ≤ 1 =
        λ id.
          let bound = subst (λ ts. count_locks id ts ≤ 1) at (few id) in
          omega (
            arith,
            bound,
            count_locks-append id before (tx ∷ after),
            count_locks-append id before after,
          ) in
      let moved = advance-Moves lib now (before ++ after) s.documents others tx fit counted in
      let r = advance lib now tx (before ++ after) s.documents in
      subst Isolated (sym e) (
        joined (Fits r.1) before r.0 after moved.stands moved.beside,
        λ id. omega (
          arith,
          moved.single id,
          count_locks-append id before (r.0 ∷ after),
          count_locks-append id before after,
        ),
      )

  Reach-Isolated :
      (rows : List Row) (s : Database)
      → Reach lib (record { documents = rows; transactions = [] }) s
      → Isolated s
  unfolding count_locks
  Reach-Isolated rows s here = (tt, λ id. omega arith)
  Reach-Isolated rows s (later {s = r} reached step) =
      Step-Isolated r s step (Reach-Isolated rows r reached)

Fits-is_mismatched :
    (rows : List Row) (ts : List Transaction)
    → All (Fits rows) ts
    → All (λ t. is_mismatched t ≡ false) ts
unfolding is_mismatched
Fits-is_mismatched rows [] fits = tt
Fits-is_mismatched rows (t ∷ ts) (fit, fits) = (sound t fit, Fits-is_mismatched rows ts fits)
  where
    sound : (t : Transaction) → Fits rows t → is_mismatched t ≡ false
    sound (updates doc) f = refl
    sound (has_read doc revision) f = refl
    sound (has_updated doc) f = refl
    sound (deletes i user) f = refl
    sound (has_deleted i) f = refl
    sound (mismatched x y) f = absurd f
    sound finished f = refl

-- Any number of updates and deletions of documents begin at any time, and their statements are
-- executed in any order, where a `SELECT .. FOR UPDATE` and a deletion wait for the row up to the
-- end of the transaction that has it locked, no query fails, and what has written commits: no
-- update ends with a version mismatch.
pub Reach-is_mismatched :
    (lib : Library) (rows : List Row) (s : Database)
    → Reach lib (record { documents = rows; transactions = [] }) s
    → All (λ t. is_mismatched t ≡ false) s.transactions
Reach-is_mismatched lib rows s reached =
    Fits-is_mismatched s.documents s.transactions (Reach-Isolated lib rows s reached).0

-- With no other transaction the statements leave the rows of `update_document_in_tx`.
advance-update_document_in_tx :
    (lib : Library) (doc original : Document) (patch : Option Patch) (s : Server)
    → CanUpdate doc original s
    → (advance lib s.now (updates doc) [] s.tables.documents
        ≡ (has_read doc original.sync_revision, s.tables.documents))
      × (advance lib s.now (has_read doc original.sync_revision) [] s.tables.documents
          ≡ (has_updated doc, (update_document_in_tx lib doc patch s).1.tables.documents))
unfolding advance select_for_update update_row
advance-update_document_in_tx lib doc original patch s can =
    let found = count_matches-find_document doc.id s.tables.documents original can.found in
    (rw can.found refl, rw (found, can.room, in_tx_stores lib doc patch original s can) refl)
