-- ===== src/Protocol.antt =====
-- replicant-core/src/protocol.rs: the messages between client and server. `u64`, `u32` and `usize`
-- are numbers.
use replicant.Prelude.{ℕ, Bool, Option, List, Text}
use replicant.Prelude.Int.{ℤ}
use replicant.Json.{Value}
use replicant.Models.{Document, DocumentPatch}

pub data ClientMessage : Type 0 where
  authenticate : Text → ℕ → Option Text → Option Text → Option ℤ → ClientMessage
  create_document : Document → ClientMessage
  update_document : DocumentPatch → ClientMessage
  delete_document : ℕ → ClientMessage
  request_sync : List ℕ → ClientMessage
  request_full_sync : ClientMessage
  get_changes_since : ℕ → Option ℕ → ClientMessage
  ack_changes : ℕ → ClientMessage
  ping : ClientMessage

pub data ErrorCode : Type 0 where
  invalid_auth document_not_found invalid_patch version_mismatch : ErrorCode
  server_error rate_limit_exceeded invalid_message : ErrorCode

pub data ConflictResolution : Type 0 where
  server_wins client_wins : ConflictResolution
  manual : Document → DocumentPatch → ConflictResolution

pub data ChangeEventType : Type 0 where
  create update delete : ChangeEventType

pub record ChangeEvent : Type 0 where
  pub sequence : ℕ
  pub document_id : ℕ
  pub user_id : ℕ
  pub event_type : ChangeEventType
  pub forward_patch : Option Value
  pub reverse_patch : Option Value
  pub created_at : ℕ

pub data ServerMessage : Type 0 where
  auth_success : ℕ → ℕ → ServerMessage
  auth_error : Text → ServerMessage
  document_created : Document → ServerMessage
  document_updated : DocumentPatch → ServerMessage
  document_deleted : ℕ → ServerMessage
  document_created_response : ℕ → Bool → Option Text → ServerMessage
  document_updated_response : ℕ → Bool → Option Text → Option ℤ → ServerMessage
  document_deleted_response : ℕ → Bool → Option Text → ServerMessage
  sync_document : Document → ServerMessage
  sync_complete : ℕ → ServerMessage
  conflict_detected : ℕ → ConflictResolution → ServerMessage
  changes : List ChangeEvent → ℕ → Bool → ServerMessage
  changes_acknowledged : ℕ → ServerMessage
  error : ErrorCode → Text → ServerMessage
  pong : ServerMessage
