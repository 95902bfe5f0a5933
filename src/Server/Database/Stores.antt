-- ===== src/Server/Database/Stores.antt =====
-- What an update leaves behind where the database answers every query.
use replicant.Prelude.{
  Bool-cases, inl, inr, ◌⊎◌, ◌==◌, arith, ℕ, suc, ◌-◌, ◌^◌, ◌≡◌, refl, true, Option, some, [], ◌∷◌,
  ◌++◌,
}
use replicant.Prelude.Int.{pos, ltb_ℤ}
use replicant.Errors.{ok}
use replicant.Json.{Patch}
use replicant.Models.{Document}
use replicant.Protocol.{update}
use replicant.Server.State.{EventRow, Server, Library}
use replicant.Server.Queries.{document_to_params, find_document, has_user}
use replicant.Server.Database.{
  is_some, update_rows, to_json, reverse_json, update_document_in_tx, update_document,
}
use replicant.Server.Database.Updates.{
  count_matches-find_document, stored, find-update_rows_self, find-update_rows_other,
}

-- The event of an update in the log.
abbrev pub update_event : Library → Document → Option Patch → Document → Server → EventRow
update_event lib doc patch original s = record {
  sequence = s.next_sequence;
  document_id = doc.id;
  user_id = doc.user_id;
  event_type = update;
  forward_patch = to_json lib patch;
  reverse_patch = reverse_json lib original.content patch;
  applied = true;
  created_at = s.now;
}

-- The server after the update.
abbrev pub updated : Library → Document → Option Patch → Document → Server → Server
updated lib doc patch original s = record s {
  next_sequence = suc s.next_sequence;
  tables = record s.tables {
    documents =
        update_rows s.now (document_to_params lib doc) original.sync_revision s.tables.documents;
    change_events = s.tables.change_events ++ update_event lib doc patch original s ∷ [];
  };
}

params_id : (lib : Library) (doc : Document) → (document_to_params lib doc).document.id ≡ doc.id
unfolding document_to_params
params_id lib doc = refl

-- The conditions under which an update goes through: no query fails, the row is there, its revision
-- can grow, and its user exists.
pub record CanUpdate (doc original : Document) (s : Server) : Type 0 where
  pub calm : s.faults ≡ []
  pub found : find_document doc.id s.tables.documents ≡ some original
  pub room : ltb_ℤ original.sync_revision (pos (2 ^ 63 - 1)) ≡ true
  pub user : has_user doc.user_id s.tables.users ≡ true

module _ (lib : Library) (doc : Document) (patch : Option Patch) (original : Document) (s : Server)
    (can : CanUpdate doc original s) where
  still_there :
      is_some (
        find_document doc.id (
          update_rows s.now (document_to_params lib doc) original.sync_revision s.tables.documents))
      ≡ true
  still_there = rw (find-update_rows_self lib s.now doc s.tables.documents original can.found)

  pub in_tx_stores :
      update_document_in_tx lib doc patch s ≡ (ok tt, updated lib doc patch original s)
  unfolding update_document_in_tx
  in_tx_stores =
      rw
        (
          can.calm,
          can.found,
          count_matches-find_document doc.id s.tables.documents original can.found,
          can.room,
        )
        (rw (
          count_matches-find_document doc.id s.tables.documents original can.found,
          still_there,
          can.user,
        ))

-- The update of a calm server, in one equation.
pub update_document-updated :
    (lib : Library) (doc : Document) (patch : Option Patch) (original : Document) (s : Server)
    → CanUpdate doc original s
    → update_document lib doc patch s ≡ (ok tt, updated lib doc patch original s)
unfolding update_document
update_document-updated lib doc patch original s can = rw (
  can.calm,
  in_tx_stores lib doc patch original (record s { faults = [] })
      (record { calm = refl; found = can.found; room = can.room; user = can.user }),
)

-- Where no query fails, the document's row is there, its revision is below the largest `i64` and
-- its user exists, an update succeeds: the row holds the new content, hash and title under the next
-- revision and keeps its owner and creation time, every other row is as it was, one event with the
-- patch and its reverse is logged, and the users stay.
pub update_document_stores :
    (lib : Library) (doc : Document) (patch : Option Patch) (original : Document) (s : Server)
    → CanUpdate doc original s
    → (t : Server) × (update_document lib doc patch s ≡ (ok tt, t))
      × (find_document doc.id t.tables.documents ≡ some (stored lib s.now doc original))
      × ((id : ℕ)
          → (id ≡ doc.id)
            ⊎ (find_document id t.tables.documents ≡ find_document id s.tables.documents))
      × (t.tables.change_events
          ≡ s.tables.change_events ++ update_event lib doc patch original s ∷ [])
      × (t.tables.users ≡ s.tables.users)
      × (t.faults ≡ [])
update_document_stores lib doc patch original s can = (
  updated lib doc patch original s,
  update_document-updated lib doc patch original s can,
  find-update_rows_self lib s.now doc s.tables.documents original can.found,
  (λ id. elim (Bool-cases (id == doc.id)) [
    | inl hit ↦ inl (ground arith)
    | inr miss ↦ inr (
        find-update_rows_other lib s.now doc s.tables.documents original.sync_revision id
          (ground arith))
  ]),
  refl,
  refl,
  can.calm,
)
