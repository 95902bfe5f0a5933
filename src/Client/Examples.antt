-- ===== src/Client/Examples.antt =====
-- The theorems on received messages, on a document and the sample library.
use native.Mathlib.Omega.{arith}
use replicant.Prelude.{
  ◌≤◌, ◌≡◌, ◌⊎◌, refl, true, false, Option, none, some, [], ◌∷◌, map, codes, Text, length,
}
use replicant.Prelude.Int.{pos, ltb_ℤ}
use replicant.Errors.{ok, err, unavailable, database_error}
use replicant.Json.{Value, null, boolean, JsonLibrary}
use replicant.Models.{Document, synced}
use replicant.Protocol.{sync_document}
use replicant.Sample.{sample_json}
use replicant.Client.Events.{EventLibrary}
use replicant.Client.Events.Register.{new}
use replicant.Client.State.{UploadType, Row, Client, ClientLibrary, reliable}
use replicant.Client.Database.{find_row}
use replicant.Client.Messages.{handle_server_message}
use replicant.Client.Tracking.{
  message_handler, max_deferred_messages, has_pending_upload, handle_server_message_with_tracking,
  handle_all,
}
use replicant.Client.Deferred.{handle_server_message_with_tracking-length}
use replicant.Client.Receive.{
  NotAbove, handle_server_message-sync_document, handle_all-sync_document,
}
use replicant.Client.Sync.{begin_initial_sync}
use replicant.Client.Protection.{
  begin_initial_sync-message_handler, deferring, handle_server_message_with_tracking-uploading,
}

abbrev pub print : Value → Text
print null = codes "null"
print (boolean true) = codes "true"
print _ = codes "other"

abbrev pub read : Text → Option Value
read t = some (boolean true)

-- The sample library, with a print that tells some values apart.
unfoldable pub json : JsonLibrary
unfolding sample_json
json = record sample_json { to_string = print }

unfoldable pub events : EventLibrary
unfolding json
events = record { json = json; show_uuid = λ n. n ∷ []; from_str = read }

unfoldable pub lib : ClientLibrary
unfolding events
lib = record { events = events; format_time = λ t. codes "2024-01-01"; seconds = λ t. t }

-- The document 1 of the user 7.
abbrev pub local : Document
local = record {
  id = 1;
  user_id = 7;
  content = null;
  sync_revision = pos 2;
  content_hash = none;
  title = some (codes "notes");
  created_at = 10;
  updated_at = 20;
  deleted_at = none;
}

abbrev pub row : Row
row = record { document = local; sync_status = synced }

unfoldable pub device : Client
unfolding new
device = record {
  tables = record { documents = row ∷ []; sync_queue = [] };
  next_queue_id = 1;
  faults = [];
  now = 30;
  user_id = 7;
  server_url = codes "ws://host";
  ws_client = some true;
  sent = [];
  is_connected = true;
  pending_uploads = [];
  upload_complete = false;
  sync_protection_mode = false;
  deferred_messages = [];
  event_dispatcher = new;
  reconnection_loops = 0;
}

-- The server's versions of the document.
abbrev newer : Document
newer = record local { content = boolean true; sync_revision = pos 3 }

abbrev older : Document
older = record local { content = boolean false; sync_revision = pos 1 }

pub device_row : find_row 1 device.tables.documents ≡ some row
unfolding device find_row
device_row = refl

-- The initial sync is uploading.
unfoldable protected : Client
unfolding device
protected = record device {
  sync_protection_mode = true;
  deferred_messages = sync_document older ∷ [];
}

handle_server_message_with_tracking-length_example :
    length (
      ((handle_server_message_with_tracking lib (sync_document newer) protected).1
      ).deferred_messages)
    ≤ max_deferred_messages
unfolding protected
handle_server_message_with_tracking-length_example =
    handle_server_message_with_tracking-length lib (sync_document newer) protected (omega arith)

handle_server_message-sync_document_example :
    ((ltb_ℤ newer.sync_revision row.document.sync_revision ≡ true)
      × (handle_server_message lib (sync_document newer) (reliable device)
          ≡ (ok tt, reliable device)))
    ⊎ (NotAbove row.document.sync_revision newer.sync_revision
        × (r' : Row) × (find_row 1
              ((handle_server_message lib (sync_document newer) (reliable device)).1
                ).tables.documents
            ≡ some r')
        × (r'.document.content ≡ newer.content)
        × (r'.document.sync_revision ≡ newer.sync_revision)
        × (r'.document.user_id ≡ row.document.user_id)
        × (r'.sync_status ≡ synced))
handle_server_message-sync_document_example =
    handle_server_message-sync_document lib newer device row device_row

handle_all-sync_document_example :
    (r' : Row) × (find_row 1
        ((handle_all lib (map sync_document (newer ∷ older ∷ [])) (reliable device)).1
          ).tables.documents
      ≡ some r')
    × NotAbove row.document.sync_revision r'.document.sync_revision
handle_all-sync_document_example =
    handle_all-sync_document lib (newer ∷ older ∷ []) device 1 row device_row

-- An upload of the document is on its way.
unfoldable uploading : Client
unfolding device
uploading = record device {
  pending_uploads = (1, record { operation_type = UploadType.update; sent_at = 30 }) ∷ [];
}

handle_server_message_with_tracking-uploading_example :
    handle_server_message_with_tracking lib (sync_document newer) (reliable uploading)
    ≡ (ok tt, deferring newer (reliable uploading))
unfolding uploading device find_row has_pending_upload
handle_server_message_with_tracking-uploading_example =
    handle_server_message_with_tracking-uploading lib newer uploading row refl refl

begin_initial_sync-message_handler_example :
    ((begin_initial_sync lib (record device { faults = some (unavailable (codes "busy")) ∷ [] })).0
      ≡ err (database_error (unavailable (codes "busy"))))
    × (((message_handler lib (map sync_document (newer ∷ older ∷ [])) (
            (begin_initial_sync lib
              (record device { faults = some (unavailable (codes "busy")) ∷ [] })).1)).1
          ).tables
        ≡ device.tables)
begin_initial_sync-message_handler_example =
    begin_initial_sync-message_handler lib device (unavailable (codes "busy")) []
      (newer ∷ older ∷ [])
