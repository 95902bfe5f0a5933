-- ===== src/Client/State.antt =====
-- The state of a client (`Client` of replicant-client/src/client.rs, with its tables), and the steps
-- that its functions are made of: they run on the whole state, and may fail.
use replicant.Prelude.{ℕ, Bool, Option, none, some, List, [], ◌∷◌, Text}
use replicant.Errors.{DbError, SyncError, database_error, SyncResult, ok, err}
use replicant.Json.{Patch}
use replicant.Models.{Document, SyncStatus}
use replicant.Protocol.{ChangeEventType, ClientMessage, ServerMessage}
use replicant.Client.Events.{EventLibrary, EventDispatcher}

-- A row of `documents`: its document has a title and no content hash.
pub record Row : Type 0 where
  pub document : Document
  pub sync_status : SyncStatus

-- A row of `sync_queue`.
pub record QueueRow : Type 0 where
  pub id : ℕ
  pub document_id : ℕ
  pub operation_type : ChangeEventType
  pub patch : Option Patch
  pub old_content_hash : Option Text
  pub created_at : ℕ

-- What a transaction can undo.
pub record Tables : Type 0 where
  pub documents : List Row
  pub sync_queue : List QueueRow

pub data UploadType : Type 0 where
  create update delete : UploadType

pub record PendingUpload : Type 0 where
  pub operation_type : UploadType
  pub sent_at : ℕ

-- `faults` says how the coming queries fare, `some e` for a failure; past its end they succeed.
-- `now` is the clock. `ws_client` says if the writer's channel is open, and `sent` holds the messages
-- put there in their order; `upload_complete` is the permit that `Notify` keeps. `deferred_messages`
-- has the oldest first, and `reconnection_loops` counts the tasks that were started.
pub record Client : Type 0 where
  pub tables : Tables
  pub next_queue_id : ℕ
  pub faults : List (Option DbError)
  pub now : ℕ
  pub user_id : ℕ
  pub server_url : Text
  pub ws_client : Option Bool
  pub sent : List ClientMessage
  pub is_connected : Bool
  pub pending_uploads : List (ℕ × PendingUpload)
  pub upload_complete : Bool
  pub sync_protection_mode : Bool
  pub deferred_messages : List ServerMessage
  pub event_dispatcher : EventDispatcher
  pub reconnection_loops : ℕ

-- What the code takes from other crates: with that of the events, `chrono`'s format of a time, and
-- the whole second of a time, which SQLite's `CURRENT_TIMESTAMP` gives.
pub record ClientLibrary : Type 0 where
  pub events : EventLibrary
  pub format_time : ℕ → Text
  pub seconds : ℕ → ℕ

-- The state in which no query is going to fail.
abbrev pub reliable : Client → Client
reliable s = record s { faults = [] }

-- A step: its result, and the state it leaves.
abbrev pub Step : Type 0 → Type 0
Step A = Client → SyncResult A × Client

abbrev pub continue_with :
    {A B : Type 0} → (A → Step B) → SyncResult A × Client → SyncResult B × Client
continue_with rest (err failure, after) = (err failure, after)
continue_with rest (ok value, after) = rest value after

infixl 5 ◌>>=◌ ◌>>◌
abbrev pub ◌>>=◌ : {A B : Type 0} → Step A → (A → Step B) → Step B
◌>>=◌ first rest before = continue_with rest (first before)

abbrev pub ◌>>◌ : {B : Type 0} → Step (Unit {0}) → Step B → Step B
first >> second = first >>= λ _. second

abbrev pub give : {A : Type 0} → A → Step A
give value state = (ok value, state)

abbrev pub done : Step (Unit {0})
done = give tt

abbrev pub stop_with : {A : Type 0} → SyncError → Step A
stop_with failure state = (err failure, state)

-- A result of `replicant-core`, under `?`.
abbrev pub lift : {A : Type 0} → SyncResult A → Step A
lift result state = (result, state)

abbrev pub modify : (Client → Client) → Step (Unit {0})
modify f state = (ok tt, f state)

abbrev pub reading : {A : Type 0} → (Client → A) → Step A
reading f state = (ok (f state), state)

-- A result that the code looks at instead of passing a failure on.
abbrev pub outcome_of : {A : Type 0} → Step A → Step (SyncResult A)
outcome_of step state = (ok ((step state).0), (step state).1)

-- The fate of the next query, and what is left for the others.
abbrev pub first_fault : List (Option DbError) → SyncResult (Unit {0})
first_fault [] = ok tt
first_fault (none ∷ rest) = ok tt
first_fault (some e ∷ rest) = err (database_error e)

abbrev pub other_faults : List (Option DbError) → List (Option DbError)
other_faults [] = []
other_faults (f ∷ rest) = rest

-- A query is sent: it may fail before it does anything.
unfoldable pub query : Step (Unit {0})
query state = (first_fault state.faults, record state { faults = other_faults state.faults })

abbrev pub roll_back : {A : Type 0} → Tables → SyncResult A × Client → SyncResult A × Client
roll_back before (ok value, after) = (ok value, after)
roll_back before (err failure, after) = (err failure, record after { tables = before })

-- `begin`, the body, `commit`; dropped without a commit, the transaction is rolled back.
unfoldable pub transaction : {A : Type 0} → Step A → Step A
unfolding query
transaction body state =
    roll_back state.tables ((query >> (body >>= λ value. query >> give value)) state)

-- A call on the event dispatcher.
abbrev pub emit : (EventDispatcher → EventDispatcher) → Step (Unit {0})
emit f = modify (λ s. record s { event_dispatcher = f s.event_dispatcher })
