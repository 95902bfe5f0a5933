-- ===== src/Server/Handler/Stale.antt =====
-- Two updates of one document whose handlers (replicant-server/src/sync_handler.rs) both read it before
-- either has stored it.
use replicant.Prelude.{
  ℕ, ◌-◌, ◌^◌, ◌≡◌, refl, sym, ap, ◌∙◌, Bool-cases, Option-cases, inl, inr, true, Option, some,
  List, [], ◌∷◌, ◌==◌, ==_refl, text_eq, text_eq_refl, subst,
}
use replicant.Prelude.Int.{pos, ltb_ℤ, ◌+ℤ◌}
use replicant.Errors.{SyncResult, ok}
use replicant.Json.{Value}
use replicant.Models.{Document, DocumentPatch}
use replicant.Patches.{calculate_checksum, apply_patch}
use replicant.Protocol.{ServerMessage}
use replicant.Server.State.{Tables, Server, Library, query}
use replicant.Server.Queries.{find_document, has_user}
use replicant.Server.Database.{get_document}
use replicant.Server.Database.Updates.{stored, find-update_rows_self}
use replicant.Server.Database.Stores.{CanUpdate, updated, update_document-updated}
use replicant.Server.Broadcast.{is_open, send, find_user, drop_dead, broadcast_to_user_except}
use replicant.Server.Handler.Create.{SyncHandler}
use replicant.Server.Handler.Update.{
  announce_updated, store_update, patched, update_read, handle_update,
}

-- The tables, and no query fails.
abbrev Calm : Server → Server → Type 0
Calm s t = (t.tables ≡ s.tables) × (t.faults ≡ []) × (t.now ≡ s.now)

drop_dead-Calm :
    (user : ℕ) (dead : List ℕ) (s : Server) → s.faults ≡ [] → Calm s (drop_dead user dead s)
unfolding drop_dead
drop_dead-Calm user [] s calm = (refl, calm, refl)
drop_dead-Calm user (d ∷ dead) s calm = (refl, calm, refl)

broadcast-Calm :
    (user : ℕ) (exclude : Option ℕ) (msg : ServerMessage) (s : Server)
    → s.faults ≡ []
    → Calm s (broadcast_to_user_except user exclude msg s).1
unfolding broadcast_to_user_except
broadcast-Calm user exclude msg s calm = elim (Option-cases (find_user user s.user_clients)) [
  | inl e ↦ rw (broadcast_to_user_except, e) (refl, calm, refl)
  | inr (ids, e) ↦ rw (broadcast_to_user_except, e) (drop_dead-Calm user _ _ calm)
]

module _ (lib : Library) (h : SyncHandler) (user : ℕ) (patch : DocumentPatch) where
  announce-Calm :
      (id : ℕ) (d : Document) (s : Server)
      → s.faults ≡ []
      → find_document id s.tables.documents ≡ some d
      → Calm s (announce_updated lib h user patch id s).1
  unfolding announce_updated get_document query send
  announce-Calm id d s calm there = elim (Bool-cases (is_open h.tx s.channels)) [
    | inl o ↦ rw (calm, there, o) (broadcast-Calm user h.client_id _ _ refl)
    | inr c ↦ rw (calm, there, c) (refl, refl, refl)
  ]

  -- The document as it is stored with the patched content.
  abbrev pub changed : Document → Value → Document
  changed read content = record read {
    content = content;
    content_hash = some (calculate_checksum lib.json content);
  }

  -- What the handler checks of the document that it has read.
  pub record Applies (read : Document) (content : Value) : Type 0 where
    pub owner : read.user_id ≡ user
    pub hash : calculate_checksum lib.json read.content ≡ patch.content_hash
    pub result : apply_patch lib.json read.content patch.patch ≡ ok content

  passed :
      (read : Document) (content : Value) (s : Server)
      → Applies read content
      → update_read lib h user patch read s ≡ store_update lib h user patch (changed read content) s
  unfolding update_read patched
  passed read content s applies =
      let is_owner : (read.user_id == user) ≡ true = rw applies.owner (==_refl user) in
      let hash : text_eq (calculate_checksum lib.json read.content) patch.content_hash ≡ true =
        rw applies.hash (text_eq_refl patch.content_hash) in
      rw (is_owner, hash, applies.result) refl

  store_update-announced :
      (doc current : Document) (s : Server)
      → CanUpdate doc current s
      → store_update lib h user patch doc s
        ≡ announce_updated lib h user patch doc.id (updated lib doc (some patch.patch) current s)
  unfolding store_update
  store_update-announced doc current s can =
      rw (update_document-updated lib doc (some patch.patch) current s can) refl

  update_read-stored :
      (read current : Document) (content : Value) (s : Server)
      → Applies read content
      → CanUpdate (changed read content) current s
      → Calm
          (updated lib (changed read content) (some patch.patch) current s)
          (update_read lib h user patch read s).1
  update_read-stored read current content s applies can =
      let doc = changed read content in
      subst
        (λ (r : SyncResult (Unit {0}) × Server).
          Calm (updated lib doc (some patch.patch) current s) r.1)
        (sym (passed read content s applies ∙ store_update-announced doc current s can))
        (announce-Calm read.id (stored lib s.now doc current)
          (updated lib doc (some patch.patch) current s) can.calm
          (find-update_rows_self lib s.now doc s.tables.documents current can.found))

module _ (lib : Library) (h k : SyncHandler) (user : ℕ) (first second : DocumentPatch)
    (original : Document) (s : Server) (c d : Value) where
  -- The state behind the first of the two.
  abbrev between : Server
  between = (update_read lib h user first original s).1

  -- The row that the first one leaves.
  abbrev once : Document
  once = stored lib s.now (changed lib h user first original c) original

  between-CanUpdate :
      Applies lib h user first original c
      → CanUpdate (changed lib h user first original c) original s
      → ltb_ℤ (original.sync_revision +ℤ pos 1) (pos (2 ^ 63 - 1)) ≡ true
      → CanUpdate (changed lib k user second original d) once between
  unfolding stored
  between-CanUpdate applies can room =
      let doc = changed lib h user first original c in
      let (tables, calm, _) =
        update_read-stored lib h user first original original c s applies can in
      record {
        calm = calm;
        found =
            ap (λ (t : Tables). find_document original.id t.documents) tables
            ∙ find-update_rows_self lib s.now doc s.tables.documents original can.found;
        room = room;
        user = ap (λ (t : Tables). has_user original.user_id t.users) tables ∙ can.user;
      }

  -- Two handlers of one user take updates of one document, and both read it before either stores.
  -- Each patch has the hash of the content that was read and applies to it, no query fails, the row
  -- can be updated and its revision is at least two below the largest `i64`. Then each handler goes
  -- on from the document that was read, and when the first and then the second has gone on, the row
  -- holds what the second patch makes of the content that was read, under the second next revision:
  -- the first patch is lost.
  pub update_read_lost :
      first.document_id ≡ original.id
      → second.document_id ≡ original.id
      → Applies lib h user first original c
      → Applies lib k user second original d
      → CanUpdate (changed lib h user first original c) original s
      → ltb_ℤ (original.sync_revision +ℤ pos 1) (pos (2 ^ 63 - 1)) ≡ true
      → (handle_update lib h user first s ≡ update_read lib h user first original s)
        × (handle_update lib k user second s ≡ update_read lib k user second original s)
        × (r : Document) × (find_document original.id
              (update_read lib k user second original between).1.tables.documents
            ≡ some r)
        × (r.content ≡ d)
        × (r.sync_revision ≡ original.sync_revision +ℤ pos 1 +ℤ pos 1)
  unfolding handle_update get_document query stored
  update_read_lost one two applies after can room =
      let next_can = between-CanUpdate applies can room in
      let doc = changed lib k user second original d in
      let (tables, _, _) =
        update_read-stored lib k user second original once d between after next_can in
      (
        rw (one, can.calm, can.found) refl,
        rw (two, can.calm, can.found) refl,
        stored lib between.now doc once,
        ap (λ (t : Tables). find_document original.id t.documents) tables
            ∙ find-update_rows_self lib between.now doc between.tables.documents once
                next_can.found,
        refl,
        refl,
      )
