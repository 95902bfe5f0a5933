-- ===== src/Client/Offline.antt =====
-- replicant-client/src/offline_queue.rs: what a message is about.
use replicant.Prelude.{ℕ, Option, none, some, Text, codes}
use replicant.Protocol.{ClientMessage, create_document, update_document, delete_document}

unfoldable pub extract_document_id : ClientMessage → Option ℕ
extract_document_id (create_document document) = some document.id
extract_document_id (update_document patch) = some patch.document_id
extract_document_id (delete_document document_id) = some document_id
extract_document_id _ = none

unfoldable pub operation_type : ClientMessage → Text
operation_type (create_document document) = codes "create"
operation_type (update_document patch) = codes "update"
operation_type (delete_document document_id) = codes "delete"
operation_type _ = codes "other"
