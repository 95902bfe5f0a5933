-- ===== src/Server/Examples.antt =====
-- The theorems on the server, on two users' documents and the sample library.
use replicant.Prelude.{
  ◌<◌, ℕ, ◌-◌, ◌^◌, ◌≡◌, ◌⊎◌, refl, arith, true, false, none, some, [], ◌∷◌, ◌++◌, codes,
}
use replicant.Prelude.Int.{pos, ltb_ℤ}
use replicant.Errors.{ok}
use replicant.Json.{Patch, null, boolean, replace}
use replicant.Models.{Document}
use replicant.Protocol.{update, delete_document}
use replicant.Server.Connection.{message, welcome, after_frame, handle_frames, open_connection}
use replicant.Server.Session.{handle_frames_others}
use replicant.Server.ConnectionExamples.{auth, credentials, forged, not_signed}
use replicant.Server.State.{Tables, Server, Library}
use replicant.Server.Queries.{find_document, has_user}
use replicant.Server.Database.{update_document}
use replicant.Server.Database.Updates.{stored}
use replicant.Server.Database.Stores.{CanUpdate, update_event, update_document_stores}
use replicant.Server.Handler.{handle_message}
use replicant.Server.Handler.Create.{SyncHandler, hash_matches, handle_create}
use replicant.Server.Handler.Ownership.{handle_message_others}
use replicant.Server.Handler.Overwrite.{conflict_logged, handle_create_replaces}
use replicant.Server.Changes.{max_sequence, get_changes_since, get_latest_sequence}
use replicant.Server.Changes.Latest.{get_changes_since-get_latest_sequence}
use replicant.Sample.{sample_json}

abbrev pub lib : Library
lib = record {
  json = sample_json;
  document_to_value = λ d. d.content;
  patch_to_value = λ p. null;
  show_error = λ e. codes "error";
  format_time = λ t. codes "2024-01-01";
}

-- The document 1 of the user 7.
abbrev pub old : Document
old = record {
  id = 1;
  user_id = 7;
  content = null;
  sync_revision = pos 1;
  content_hash = none;
  title = none;
  created_at = 10;
  updated_at = 20;
  deleted_at = none;
}

abbrev pub newer : Document
newer = record old { content = boolean true }

abbrev pub other_version : Document
other_version = record old { content = boolean false }

-- The same id, from the user 8.
abbrev theirs : Document
theirs = record old { user_id = 8; content = boolean false }

abbrev pub server : Server
server = record {
  tables = record {
    users = (7, codes "a@b") ∷ (8, codes "c@d") ∷ [];
    documents = record { document = old; size_bytes = pos 4 } ∷ [];
    change_events = [];
  };
  next_sequence = 1;
  faults = [];
  now = 30;
  channels = record { id = 0; is_open = true; sent = [] } ∷ [];
  clients = [];
  user_clients = [];
}

abbrev handler : SyncHandler
handler = record { tx = 0; user_id = some 8; client_id = some 5 }

pub server_found : find_document 1 server.tables.documents ≡ some old
unfolding find_document
server_found = refl

pub server_user : has_user 7 server.tables.users ≡ true
unfolding has_user
server_user = refl

server_other_user : has_user 8 server.tables.users ≡ true
unfolding has_user
server_other_user = refl

pub server_room : ltb_ℤ (pos 1) (pos (2 ^ 63 - 1)) ≡ true
server_room = refl

newer-CanUpdate : CanUpdate newer old server
newer-CanUpdate = record {
  calm = refl;
  found = server_found;
  room = server_room;
  user = server_user;
}

theirs-CanUpdate : CanUpdate theirs old server
theirs-CanUpdate = record {
  calm = refl;
  found = server_found;
  room = server_room;
  user = server_other_user;
}

abbrev change : Patch
change = replace (record { path = []; value = boolean true }) ∷ []

update_document_stores_example :
    (t : Server) × (update_document lib newer (some change) server ≡ (ok tt, t))
    × (find_document 1 t.tables.documents ≡ some (stored lib 30 newer old))
    × ((id : ℕ)
        → (id ≡ 1)
          ⊎ (find_document id t.tables.documents ≡ find_document id server.tables.documents))
    × (t.tables.change_events ≡ update_event lib newer (some change) old server ∷ [])
    × (t.tables.users ≡ server.tables.users)
    × (t.faults ≡ [])
update_document_stores_example =
    update_document_stores lib newer (some change) old server newer-CanUpdate

handle_message_others_example :
    find_document 1 (handle_message lib handler (delete_document 1) server).1.tables.documents
    ≡ some old
handle_message_others_example =
    handle_message_others lib handler 8 (delete_document 1) server 1 old refl (λ c. c) server_found
      (omega arith)

handle_frames_others_example :
    find_document 1
      (after_frame
        (handle_frames lib auth credentials (message (delete_document 1) ∷ forged))
        (welcome lib auth credentials (open_connection 0) 8 5 server)).tables.documents
    ≡ some old
handle_frames_others_example =
    handle_frames_others lib auth credentials (open_connection 0) 8 5
      (message (delete_document 1) ∷ forged) server 1 old (omega arith)
      ((λ c. c), (not_signed, ((λ c. c), tt))) server_found

theirs_hash : hash_matches lib theirs ≡ true
unfolding hash_matches
theirs_hash = refl

handle_create_replaces_example :
    (t : Tables) × ((handle_create lib handler 8 theirs server).1.tables ≡ t)
    × (find_document 1 t.documents ≡ some (stored lib 30 theirs old))
    × (t.change_events
        ≡ (conflict_logged lib 8 old theirs server).tables.change_events
          ++ update_event lib theirs none old (conflict_logged lib 8 old theirs server) ∷ [])
handle_create_replaces_example =
    handle_create_replaces lib handler 8 old theirs server theirs-CanUpdate refl refl theirs_hash

-- The server with one event in its log.
abbrev logged : Server
logged = record server {
  tables = record server.tables {
    change_events =
        record {
          sequence = 1;
          document_id = 1;
          user_id = 7;
          event_type = update;
          forward_patch = none;
          reverse_patch = none;
          applied = true;
          created_at = 30;
        }
        ∷ [];
  };
  next_sequence = 2;
}

logged_small : max_sequence 7 logged.tables.change_events < 2 ^ 63
unfolding max_sequence
logged_small = omega arith

get_changes_since-get_latest_sequence_run :
    (latest : ℕ) × (get_latest_sequence 7 logged ≡ (ok latest, logged))
    × (get_changes_since 7 latest none logged ≡ (ok [], logged))
get_changes_since-get_latest_sequence_run =
    get_changes_since-get_latest_sequence 7 none logged refl logged_small
