-- ===== src/Client/Events/Actions.antt =====
-- replicant-client/src/events.rs: the calls that the threads of a client make on a dispatcher, and the
-- states they lead to.
use replicant.Prelude.{ℕ, Option, none, List, [], ◌∷◌, Text}
use replicant.Json.{Value}
use replicant.Client.Events.{
  EventType, EventLibrary, SyncEvent, created, updated, deleted, started, completed, failed,
  conflicted, lost, attempted, succeeded, EventDispatcher,
}
use replicant.Client.Events.Register.{
  new, register_document_callback, register_sync_callback, register_error_callback,
  register_connection_callback, register_conflict_callback, register_rust_callback,
  register_rust_callback_filtered,
}
use replicant.Client.Events.Emit.{
  title_of, emit_document_created, emit_document_updated, emit_document_deleted, emit_sync_started,
  emit_sync_completed, emit_sync_error, emit_conflict_detected, emit_connection_lost,
  emit_connection_attempted, emit_connection_succeeded,
}
use replicant.Client.Events.Process.{process_events, pending_event_count}

-- A call of one of the functions `emit_*`.
pub data Emission : Type 0 where
  document_created document_updated : ℕ → Value → Emission
  document_deleted : ℕ → Emission
  sync_started : Emission
  sync_completed : ℕ → Emission
  sync_error : Text → Emission
  conflict_detected : ℕ → Emission
  connection_lost connection_attempted connection_succeeded : Text → Emission

-- A call that changes the dispatcher.
pub data Action : Type 0 where
  register_document : ℕ → ℕ → Option EventType → Action
  register_sync register_error register_connection register_conflict : ℕ → ℕ → Action
  register_rust : ℕ → Action
  register_rust_filtered : ℕ → EventType → Action
  emit : Emission → Action
  process count : Action

module _ (lib : EventLibrary) where
  unfoldable pub emit_event : Emission → EventDispatcher → EventDispatcher
  emit_event (document_created id content) = emit_document_created lib id content
  emit_event (document_updated id content) = emit_document_updated lib id content
  emit_event (document_deleted id) = emit_document_deleted lib id
  emit_event sync_started = emit_sync_started lib
  emit_event (sync_completed n) = emit_sync_completed lib n
  emit_event (sync_error message) = emit_sync_error lib message
  emit_event (conflict_detected id) = emit_conflict_detected lib id
  emit_event (connection_lost url) = emit_connection_lost lib url
  emit_event (connection_attempted url) = emit_connection_attempted lib url
  emit_event (connection_succeeded url) = emit_connection_succeeded lib url

  unfoldable pub emit_events : List Emission → EventDispatcher → EventDispatcher
  unfolding emit_event
  emit_events [] d = d
  emit_events (m ∷ ms) d = emit_events ms (emit_event m d)

  -- The event that an emission is to bring to a Rust callback.
  unfoldable pub intended : Emission → SyncEvent
  intended (document_created id content) = created (lib.show_uuid id) (title_of lib content) content
  intended (document_updated id content) = updated (lib.show_uuid id) (title_of lib content) content
  intended (document_deleted id) = deleted (lib.show_uuid id)
  intended sync_started = started
  intended (sync_completed n) = completed n
  intended (sync_error message) = failed message
  intended (conflict_detected id) = conflicted (lib.show_uuid id) none none
  intended (connection_lost url) = lost url
  intended (connection_attempted url) = attempted url
  intended (connection_succeeded url) = succeeded url

  -- The dispatcher after a call by the thread `current`.
  unfoldable pub act : ℕ → Action → EventDispatcher → EventDispatcher
  act current (register_document callback context filter) d =
      register_document_callback current callback context filter d
  act current (register_sync callback context) d = register_sync_callback current callback context d
  act current (register_error callback context) d =
      register_error_callback current callback context d
  act current (register_connection callback context) d =
      register_connection_callback current callback context d
  act current (register_conflict callback context) d =
      register_conflict_callback current callback context d
  act current (register_rust callback) d = register_rust_callback current callback d
  act current (register_rust_filtered callback filter) d =
      register_rust_callback_filtered current callback filter d
  act current (emit m) d = emit_event m d
  act current process d = (process_events lib current d).dispatcher
  act current count d = (pending_event_count lib current d).dispatcher

  -- The states that calls by any threads lead to from a new dispatcher.
  pub data Reachable : EventDispatcher → Type 0 where
    start : Reachable new
    after :
        (current : ℕ) (a : Action) {d : EventDispatcher} → Reachable d → Reachable (act current a d)
