-- ===== src/Client/Events.antt =====
-- replicant-client/src/events.rs: events are queued by any thread, and delivered to callbacks by the
-- thread that registered the first one. A callback is known by a number, and a call of it is an
-- entry of a log; callbacks emit no events, and no lock is poisoned. A thread is a number.
pub mod Register
pub mod Emit
pub mod Process
pub mod Received
pub mod Actions
pub mod Delivery
pub mod Emitted
pub mod Threads
use replicant.Prelude.{
  ℕ, ◌+◌, ◌%◌, ◌^◌, Bool, true, false, ◌||◌, Option, none, some, List, [], ◌∷◌, ◌++◌, Text, codes,
  if◌then◌else◌, ◌==◌,
}
use replicant.Errors.{client, thread_safety_violation, no_callbacks_registered, SyncResult, ok, err}
use replicant.Json.{Value, null, JsonLibrary}
use replicant.Models.{as_str, get_key}

pub data EventType : Type 0 where
  document_created document_updated document_deleted sync_started sync_completed : EventType
  sync_error conflict_detected connection_lost connection_attempted : EventType
  connection_succeeded : EventType

-- The discriminants.
abbrev pub discriminant : EventType → ℕ
discriminant document_created = 0
discriminant document_updated = 1
discriminant document_deleted = 2
discriminant sync_started = 3
discriminant sync_completed = 4
discriminant sync_error = 5
discriminant conflict_detected = 6
discriminant connection_lost = 7
discriminant connection_attempted = 8
discriminant connection_succeeded = 9

abbrev pub same_type : EventType → EventType → Bool
same_type a b = discriminant a == discriminant b

pub record QueuedEvent : Type 0 where
  pub event_type : EventType
  pub document_id : Option Text
  pub title : Option Text
  pub content : Option Text
  pub error : Option Text
  pub numeric_data : ℕ
  pub boolean_data : Bool

pub data SyncEvent : Type 0 where
  created : Text → Text → Value → SyncEvent
  updated : Text → Text → Value → SyncEvent
  deleted : Text → SyncEvent
  started : SyncEvent
  completed : ℕ → SyncEvent
  failed : Text → SyncEvent
  conflicted : Text → Option Text → Option Text → SyncEvent
  lost attempted succeeded : Text → SyncEvent

unfoldable pub event_type : SyncEvent → EventType
event_type (created id title content) = document_created
event_type (updated id title content) = document_updated
event_type (deleted id) = document_deleted
event_type started = sync_started
event_type (completed n) = sync_completed
event_type (failed message) = sync_error
event_type (conflicted id winning losing) = conflict_detected
event_type (lost url) = connection_lost
event_type (attempted url) = connection_attempted
event_type (succeeded url) = connection_succeeded

-- What the events take from other crates: `Uuid::to_string`, and `serde_json`'s reading of a value.
pub record EventLibrary : Type 0 where
  pub json : JsonLibrary
  pub show_uuid : ℕ → Text
  pub from_str : Text → Option Value

abbrev pub get_or : {A : Type 0} → A → Option A → A
get_or d none = d
get_or d (some a) = a

module _ (lib : EventLibrary) where
  -- `.as_ref().and_then(|c| serde_json::from_str(c).ok()).unwrap_or(Value::Null)`
  abbrev pub parsed : Option Text → Value
  parsed none = null
  parsed (some c) = get_or null (lib.from_str c)

  unfoldable pub from_queued : QueuedEvent → SyncEvent
  from_queued e = elim e.event_type [
    | document_created ↦
        created (get_or [] e.document_id) (get_or (codes "Untitled") e.title) (parsed e.content)
    | document_updated ↦
        updated (get_or [] e.document_id) (get_or (codes "Untitled") e.title) (parsed e.content)
    | document_deleted ↦ deleted (get_or [] e.document_id)
    | sync_started ↦ started
    | sync_completed ↦ completed e.numeric_data
    | sync_error ↦ failed (get_or (codes "Unknown error") e.error)
    | conflict_detected ↦ conflicted (get_or [] e.document_id) e.content e.error
    | connection_lost ↦ lost (get_or [] e.title)
    | connection_attempted ↦ attempted (get_or [] e.title)
    | connection_succeeded ↦ succeeded (get_or [] e.title)
  ]

pub record DocumentCallbackEntry : Type 0 where
  pub callback : ℕ
  pub context : ℕ
  pub event_filter : Option EventType

-- `SyncCallbackEntry`, `ErrorCallbackEntry`, `ConnectionCallbackEntry` and `ConflictCallbackEntry`.
pub record CallbackEntry : Type 0 where
  pub callback : ℕ
  pub context : ℕ

pub record RustCallbackEntry : Type 0 where
  pub callback : ℕ
  pub event_filter : Option EventType

-- A call of a callback; a C string that may be null is an option.
pub data Call : Type 0 where
  rust : ℕ → SyncEvent → Call
  document : ℕ → EventType → Option Text → Option Text → Option Text → ℕ → Call
  sync : ℕ → EventType → ℕ → ℕ → Call
  error : ℕ → EventType → Option Text → ℕ → Call
  connection : ℕ → EventType → Bool → ℕ → ℕ → Call
  conflict : ℕ → EventType → Option Text → Option Text → Option Text → ℕ → Call

pub record EventDispatcher : Type 0 where
  pub document_callbacks : List DocumentCallbackEntry
  pub sync_callbacks : List CallbackEntry
  pub error_callbacks : List CallbackEntry
  pub connection_callbacks : List CallbackEntry
  pub conflict_callbacks : List CallbackEntry
  pub rust_callbacks : List RustCallbackEntry
  pub event_queue : List QueuedEvent
  pub callback_thread_id : Option ℕ
