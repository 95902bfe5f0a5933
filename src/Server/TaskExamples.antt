-- ===== src/Server/TaskExamples.antt =====
-- Handlers, transactions and tasks of one server that cross each other.
use replicant.Prelude.{◌^◌, ◌-◌, ◌≡◌, refl, false, true, Bool, some, none, [], ◌∷◌, All}
use replicant.Prelude.Int.{pos, ltb_ℤ, ◌+ℤ◌}
use replicant.Json.{null, boolean, Value, replace}
use replicant.Models.{Document, DocumentPatch}
use replicant.Patches.{calculate_checksum, apply_patch}
use replicant.Sample.{sample_json}
use replicant.Server.Queries.{find_document}
use replicant.Server.Database.Stores.{CanUpdate}
use replicant.Server.Handler.Create.{SyncHandler}
use replicant.Server.Handler.Update.{update_read, handle_update}
use replicant.Server.Handler.Stale.{changed, Applies, update_read_lost}
use replicant.Server.Locks.{
  Transaction, updates, deletes, Database, begins_update, begins_delete, executes, advance, Reach,
  here, later,
}
use replicant.Server.Locks
use replicant.Server.Locks.Isolated.{is_mismatched, Reach-is_mismatched}
use replicant.Server.Race.{Registry, Tasks, leaves, inserts, finished}
use replicant.Server.Race
use replicant.Server.Race.Lost.{Unreached, leaves-Unreached}
use replicant.Server.Broadcast.{find_client, find_user}
use replicant.Server.Examples.{
  lib, old, newer, other_version, server, server_found, server_user, server_room,
}

server_room_after : ltb_ℤ (pos 1 +ℤ pos 1) (pos (2 ^ 63 - 1)) ≡ true
unfolding ◌+ℤ◌
server_room_after = refl

-- Two patches of the content that the server has.
abbrev edit : Value → DocumentPatch
edit content = record {
  document_id = 1;
  patch = replace (record { path = []; value = content }) ∷ [];
  content_hash = calculate_checksum sample_json null;
}

abbrev owner : SyncHandler
owner = record { tx = 0; user_id = some 7; client_id = some 5 }

abbrev also_owner : SyncHandler
also_owner = record { tx = 1; user_id = some 7; client_id = some 6 }

edit-Applies : (h : SyncHandler) (b : Bool) → Applies lib h 7 (edit (boolean b)) old (boolean b)
unfolding sample_json apply_patch
edit-Applies h b = record { owner = refl; hash = refl; result = refl }

edited-CanUpdate :
    CanUpdate (changed lib owner 7 (edit (boolean true)) old (boolean true)) old server
edited-CanUpdate = record {
  calm = refl;
  found = server_found;
  room = server_room;
  user = server_user;
}

update_read_lost_example :
    (handle_update lib owner 7 (edit (boolean true)) server
      ≡ update_read lib owner 7 (edit (boolean true)) old server)
    × (handle_update lib also_owner 7 (edit (boolean false)) server
        ≡ update_read lib also_owner 7 (edit (boolean false)) old server)
    × (r : Document) × (find_document 1
          (update_read lib also_owner 7
            (edit (boolean false))
            old
            (update_read lib owner 7 (edit (boolean true)) old server).1).1.tables.documents
        ≡ some r)
    × (r.content ≡ boolean false)
    × (r.sync_revision ≡ pos 1 +ℤ pos 1 +ℤ pos 1)
update_read_lost_example =
    update_read_lost lib owner also_owner 7 (edit (boolean true)) (edit (boolean false)) old server
      (boolean true) (boolean false) refl refl (edit-Applies owner true)
      (edit-Applies also_owner false) edited-CanUpdate server_room_after

-- Two updates of one document begin; one reads and writes, and the other waits meanwhile.
abbrev at_rest : Database
at_rest = record { documents = server.tables.documents; transactions = [] }

abbrev crossing : Database
crossing =
    let rows = server.tables.documents in
    let one = (advance lib 30 (updates newer) (updates other_version ∷ []) rows).0 in
    let two = (advance lib 30 (updates other_version) (one ∷ []) rows).0 in
    let written = advance lib 30 one (two ∷ []) rows in
    record { documents = written.1; transactions = written.0 ∷ two ∷ [] }

crosses : Reach lib at_rest crossing
unfolding advance find_document
crosses =
    later
      (later
        (later (later (later here (begins_update other_version refl)) (begins_update newer refl))
          (executes 30 [] (updates other_version ∷ []) (updates newer) refl refl))
        (executes 30 (Locks.has_read newer (pos 1) ∷ []) [] (updates other_version) refl refl))
      (executes 30 [] (updates other_version ∷ []) (Locks.has_read newer (pos 1)) refl refl)

Reach-is_mismatched_example : All (λ t. is_mismatched t ≡ false) crossing.transactions
Reach-is_mismatched_example = Reach-is_mismatched lib server.tables.documents crossing crosses

abbrev registry : Registry
registry = record { clients = []; user_clients = (7, 5 ∷ []) ∷ [] }

listed : find_user 7 registry.user_clients ≡ some (5 ∷ [])
unfolding find_user
listed = refl

leaves-Unreached_example :
    (t : Tasks) × Race.Reach
      (record { registry = registry; tasks = leaves 7 5 ∷ inserts 7 6 1 ∷ [] })
      t
    × (find_client (7, 6) (t.registry).clients ≡ some 1)
    × (find_user 7 (t.registry).user_clients ≡ none)
    × Unreached 7 (t.registry).user_clients
    × (t.tasks ≡ finished ∷ finished ∷ [])
leaves-Unreached_example = leaves-Unreached 7 5 6 1 registry [] listed
