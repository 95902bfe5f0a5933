-- ===== src/Server/Handler/Overwrite.antt =====
-- `CreateDocument` for an id that another user's document has.
use replicant.Prelude.{ℕ, suc, ◌≡◌, refl, arith, true, false, none, some, [], ◌∷◌, ◌++◌, ◌==◌}
use replicant.Prelude.Int.{pos}
use replicant.Errors.{ok}
use replicant.Models.{Document}
use replicant.Protocol.{create, document_created_response, sync_document}
use replicant.Server.Broadcast.{send, broadcast_to_user}
use replicant.Server.State.{Tables, Server, Library, query, ◌>>◌}
use replicant.Server.Keeps.{Keeps, Keeps->>=, Keeps-send, Keeps-broadcast}
use replicant.Server.Queries.{find_document, has_user}
use replicant.Server.Database.{eq_ℤ, get_document, insert_event, log_change_event}
use replicant.Server.Database.Updates.{stored, find-update_rows_self}
use replicant.Server.Database.Stores.{CanUpdate, update_event, updated, in_tx_stores}
use replicant.Server.Handler.Create.{
  SyncHandler, conflict_event, hash_matches, replace_existing, create_conflict, create_validated,
  handle_create,
}

-- The log with the loser's event.
abbrev pub conflict_logged : Library → ℕ → Document → Document → Server → Server
conflict_logged lib user existing document s = record s {
  next_sequence = suc s.next_sequence;
  tables = record s.tables {
    change_events =
        s.tables.change_events
        ++ record {
          sequence = s.next_sequence;
          document_id = document.id;
          user_id = user;
          event_type = create;
          forward_patch = some existing.content;
          reverse_patch = none;
          applied = false;
          created_at = s.now;
        }
          ∷ [];
  };
}

module _ (lib : Library) (user : ℕ) (existing document : Document) where
  conflict_logs :
      (s : Server)
      → CanUpdate document existing s
      → has_user user s.tables.users ≡ true
      → log_change_event (conflict_event lib user existing document) s
        ≡ (ok tt, conflict_logged lib user existing document s)
  unfolding log_change_event insert_event
  conflict_logs s can owner = rw (can.calm, can.found, owner)

  -- The transaction of a calm server, in one equation.
  replace_existing-updated :
      (s : Server)
      → CanUpdate document existing s
      → has_user user s.tables.users ≡ true
      → replace_existing lib user existing document s
        ≡ (ok tt, updated lib document none existing (conflict_logged lib user existing document s))
  unfolding replace_existing query
  replace_existing-updated s can owner = rw (
    can.calm,
    conflict_logs (record s { faults = [] })
        (record { calm = refl; found = can.found; room = can.room; user = can.user }) owner,
    in_tx_stores lib document none existing
        (conflict_logged lib user existing document (record s { faults = [] }))
        (record { calm = refl; found = can.found; room = can.room; user = can.user }),
  )

module _ (lib : Library) (h : SyncHandler) (user : ℕ) (existing document : Document)
    (s : Server) where
  get_document_calm : CanUpdate document existing s → get_document document.id s ≡ (ok existing, s)
  unfolding get_document query
  get_document_calm can = rw (can.calm, can.found)

  announced :
      (t : Tables)
      → Keeps
          (λ u. u ≡ t)
          (send h.tx (document_created_response document.id true none)
            >> broadcast_to_user user (sync_document document))
  unfolding broadcast_to_user
  announced t =
      Keeps->>= (Keeps-send h.tx (document_created_response document.id true none))
        (λ u. Keeps-broadcast user none (sync_document document))

  -- What is announced afterwards changes no table.
  create_conflict_tables :
      CanUpdate document existing s
      → has_user user s.tables.users ≡ true
      → (create_conflict lib h user document existing s).1.tables
        ≡ (updated lib document none existing (conflict_logged lib user existing document s)).tables
  unfolding create_conflict
  create_conflict_tables can owner =
      rw (replace_existing-updated lib user existing document s can owner) (
        (announced _).kept
          (updated lib document none existing (conflict_logged lib user existing document s)) refl)

  handle_create_tables :
      CanUpdate document existing s
      → document.user_id ≡ user
      → document.sync_revision ≡ pos 1
      → hash_matches lib document ≡ true
      → (handle_create lib h user document s).1.tables
        ≡ (updated lib document none existing (conflict_logged lib user existing document s)).tables
  unfolding handle_create create_validated
  handle_create_tables can own first hash =
      rw (==_eq own, is_one first, hash, get_document_calm can)
        (create_conflict_tables can (rw own at can.user))
    where
      ==_eq : {a b : ℕ} → a ≡ b → (a == b) ≡ true
      ==_eq e = ground arith

      is_one : document.sync_revision ≡ pos 1 → eq_ℤ document.sync_revision (pos 1) ≡ true
      is_one e = ground arith

-- A user creates a document, of revision 1 and with a matching hash, whose id one in the database
-- already has, whoever owns that one. Where no query fails, the row there can be updated and the
-- user exists, that row takes the new content, hash and title under its next revision, and its
-- owner stays; the log gets the old content, as an event of the user that was not applied, and the
-- event of an update.
pub handle_create_replaces :
    (lib : Library) (h : SyncHandler) (user : ℕ) (existing document : Document) (s : Server)
    → CanUpdate document existing s
    → document.user_id ≡ user
    → document.sync_revision ≡ pos 1
    → hash_matches lib document ≡ true
    → (t : Tables) × ((handle_create lib h user document s).1.tables ≡ t)
      × (find_document document.id t.documents ≡ some (stored lib s.now document existing))
      × (t.change_events
          ≡ (conflict_logged lib user existing document s).tables.change_events
            ++ update_event lib document none existing
                (conflict_logged lib user existing document s)
              ∷ [])
handle_create_replaces lib h user existing document s can own first hash = (
  (updated lib document none existing (conflict_logged lib user existing document s)).tables,
  handle_create_tables lib h user existing document s can own first hash,
  find-update_rows_self lib s.now document s.tables.documents existing can.found,
  refl,
)
