-- ===== src/Errors.antt =====
-- replicant-core/src/errors.rs. The error of another crate is its print, but for those of `sqlx`.
use replicant.Prelude.{ℕ, Option, Text}
use replicant.Prelude.Int.{ℤ}

-- An `sqlx::Error`, as far as the code tells them apart: no row for `fetch_one`, a PostgreSQL error
-- by its code, and any other failure by its print.
pub data DbError : Type 0 where
  row_not_found : DbError
  database : Text → DbError
  unavailable : Text → DbError

-- The text of an `ApiError` with its meta information.
pub data ApiError : Type 0 where
  internal_server_error : Text → ApiError
  bad_request : Text → Option Text → ApiError
  unauthorized : Text → ApiError
  service_unavailable : Text → ApiError
  not_found : Text → ApiError
  conflict : Text → Option Text → ApiError

pub data ServerError : Type 0 where
  api_error : ApiError → ServerError
  hashing_error : Text → ServerError
  server_sync : Text → ServerError
  send_error : ServerError

pub data ClientError : Type 0 where
  web_socket invalid_state client_send_error lock_error : Text → ClientError
  connection_lost thread_safety_violation no_callbacks_registered channel_closed : ClientError

pub data SyncError : Type 0 where
  patch_failed : Text → SyncError
  document_not_found : ℕ → SyncError
  version_mismatch : ℤ → ℤ → SyncError
  authentication_failed network_error : Text → SyncError
  database_error : DbError → SyncError
  serialization_error uuid_parse : Text → SyncError
  conflict_detected : ℕ → SyncError
  invalid_operation : Text → SyncError
  io date_parse migration_error : Text → SyncError
  client : ClientError → SyncError
  server : ServerError → SyncError

pub data SyncResult {ℓ} (T : Type ℓ) : Type ℓ where
  err : SyncError → SyncResult T
  ok : T → SyncResult T

-- The `?` operator.
infixl 5 ◌>>=◌
abbrev pub ◌>>=◌ {ℓ κ} :
    {T : Type ℓ} → {U : Type κ} → SyncResult T → (T → SyncResult U) → SyncResult U
err failure >>= rest = err failure
ok value >>= rest = rest value
