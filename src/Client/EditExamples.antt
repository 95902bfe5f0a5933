-- ===== src/Client/EditExamples.antt =====
-- The theorems on local edits and uploads, on the document of the other examples.
use replicant.Prelude.{ℕ, true, false, ◌≡◌, ◌≢◌, ◌⊎◌, refl, some, none, [], ◌∷◌, ◌++◌, arith, codes}
use replicant.Prelude.Int.{pos}
use replicant.Errors.{SyncError, unavailable, ok, err}
use replicant.Json.{null, boolean}
use replicant.Models.{pending}
use replicant.Patches.{calculate_checksum}
use replicant.Patches.Reverse.{PatchesDiff}
use replicant.Protocol.{update, invalid_patch}
use replicant.Sample.{sample_json}
use replicant.Server.Queries.{find_document}
use replicant.Server.State.{query, Server, Library}
use replicant.Server.Database.{get_document}
use replicant.Server.Broadcast.{send_error_message}
use replicant.Server.Handler.Create.{SyncHandler}
use replicant.Server.Handler.Update.{store_update}
use replicant.Server.Handler.{handle_message}
use replicant.Client.State.{Row, Client, reliable}
use replicant.Client.Database.{find_row}
use replicant.Client.Queue.{
  save_document_and_queue_patch, pending_infos, order_by_time, pending_rows,
}
use replicant.Client.Uploads.{update_document, upload_message, queued_or_none}
use replicant.Client.Sync.{sync_pending_documents}
use replicant.Client.Edits.{queued_edit, update_document-pending}
use replicant.Client.Resend.{queued_after, later}
use replicant.Client.Exchange.{
  edit_patch, handle_message-update_document, handle_message-update_document_twice,
}
use replicant.Client.Pending.{online, SendsEach, sync_pending_documents-SendsEach}
use replicant.Client.Atomic.{Both, save_document_and_queue_patch-atomic}
use replicant.Client.Examples.{lib, events, json, local, row, device, device_row}

update_document-pending_example :
    ((update_document lib 1 (boolean true) (reliable device)).0 ≡ ok tt)
    × ((r' : Row) × (find_row 1
            ((update_document lib 1 (boolean true) (reliable device)).1).tables.documents
          ≡ some r')
        × (r'.document.content ≡ boolean true)
        × (r'.document.sync_revision ≡ pos 2)
        × (r'.sync_status ≡ pending))
    × (((update_document lib 1 (boolean true) (reliable device)).1).tables.sync_queue
        ≡ device.tables.sync_queue ++ queued_edit lib local (boolean true) device ∷ [])
    × ((k : ℕ)
        → k ≢ 1
        → find_row k ((update_document lib 1 (boolean true) (reliable device)).1).tables.documents
          ≡ find_row k device.tables.documents)
update_document-pending_example = update_document-pending lib device 1 row (boolean true) device_row

-- The server with the same document.
unfoldable server_lib : Library
unfolding json
server_lib = record {
  json = json;
  document_to_value = λ d. d.content;
  patch_to_value = λ p. null;
  show_error = λ e. codes "error";
  format_time = λ t. codes "2024-01-01";
}

unfoldable server : Server
server = record {
  tables = record {
    users = (7, codes "a@b") ∷ [];
    documents = record { document = local; size_bytes = pos 4 } ∷ [];
    change_events = [];
  };
  next_sequence = 1;
  faults = [];
  now = 30;
  channels = record { id = 0; is_open = true; sent = [] } ∷ [];
  clients = [];
  user_clients = [];
}

abbrev handler : SyncHandler
handler = record { tx = 0; user_id = some 7; client_id = some 5 }

server_reads : get_document 1 server ≡ (ok local, server)
unfolding server get_document query find_document
server_reads = refl

json_law : PatchesDiff server_lib.json
unfolding server_lib json sample_json
json_law a b = refl

same_json : server_lib.json ≡ (lib.events).json
unfolding server_lib lib events
same_json = refl

handle_message-update_document_example :
    handle_message server_lib handler
      (upload_message lib 1 local (queued_or_none (queued_after lib 1 (boolean true) device)))
      server
    ≡ store_update server_lib handler 7
        (edit_patch lib 1 null (boolean true))
        (record local {
          content = boolean true;
          content_hash = some (calculate_checksum server_lib.json (boolean true));
        })
        server
unfolding device
handle_message-update_document_example =
    handle_message-update_document server_lib lib handler 7 server server local 1 same_json refl
      refl server_reads device row local (boolean true) json_law device_row tt refl

checksums_differ :
    calculate_checksum server_lib.json null ≢ calculate_checksum server_lib.json (boolean true)
unfolding server_lib json sample_json calculate_checksum
checksums_differ e = ground (arith, e)

handle_message-update_document_twice_example :
    handle_message server_lib handler
      (upload_message lib 1 local (
        queued_or_none (
          queued_after lib 1
            (boolean false)
            (later 40 ((update_document lib 1 (boolean true) (reliable device)).1)))))
      server
    ≡ send_error_message 0 invalid_patch (codes "Content hash mismatch") server
unfolding device lib
handle_message-update_document_twice_example =
    handle_message-update_document_twice server_lib lib handler 7 server server local 1 same_json
      refl refl server_reads device 40 row local (boolean true) (boolean false) device_row tt
      (omega arith) checksums_differ

sync_pending_documents-SendsEach_example :
    SendsEach
      (pending_infos (order_by_time (pending_rows device.tables.documents)))
      device
      (sync_pending_documents lib (online device))
sync_pending_documents-SendsEach_example = sync_pending_documents-SendsEach lib device

-- The second of the transaction's queries fails.
unfoldable failing : Client
unfolding device
failing = record device { faults = none ∷ some (unavailable (codes "busy")) ∷ [] }

save_document_and_queue_patch-atomic_example :
    ((e : SyncError) × ((save_document_and_queue_patch lib local [] update none failing).0 ≡ err e)
      × (((save_document_and_queue_patch lib local [] update none failing).1).tables
          ≡ failing.tables))
    ⊎ (((save_document_and_queue_patch lib local [] update none failing).0 ≡ ok tt)
        × Both lib local [] update none failing.tables
            (((save_document_and_queue_patch lib local [] update none failing).1).tables))
save_document_and_queue_patch-atomic_example =
    save_document_and_queue_patch-atomic lib local [] update none failing
