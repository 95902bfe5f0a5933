-- ===== src/Client/Events/Process.antt =====
-- replicant-client/src/events.rs: the delivery of the queued events. A callback that is called is an
-- entry of the log of calls; `current` is the thread that asks for the delivery.
use replicant.Prelude.{
  ℕ, suc, ◌%◌, ◌^◌, Bool, true, false, ◌||◌, not, Option, none, some, List, [], ◌∷◌, ◌++◌, Text,
  codes, if◌then◌else◌, ◌==◌,
}
use replicant.Errors.{client, thread_safety_violation, no_callbacks_registered, SyncResult, ok, err}
use replicant.Client.Events.{
  EventType, document_created, document_updated, document_deleted, sync_started, sync_completed,
  sync_error, conflict_detected, connection_lost, connection_attempted, connection_succeeded,
  same_type, EventLibrary, QueuedEvent, EventDispatcher, DocumentCallbackEntry, CallbackEntry,
  RustCallbackEntry, Call, rust, document, sync, error, connection, conflict, from_queued,
}

abbrev pub is_empty : {A : Type 0} → List A → Bool
is_empty [] = true
is_empty (x ∷ xs) = false

unfoldable pub has_callbacks : EventDispatcher → Bool
has_callbacks d =
    not (is_empty d.document_callbacks)
    || not (is_empty d.sync_callbacks)
    || not (is_empty d.error_callbacks)
    || not (is_empty d.connection_callbacks)
    || not (is_empty d.conflict_callbacks)
    || not (is_empty d.rust_callbacks)

abbrev pub has_nul : Text → Bool
has_nul [] = false
has_nul (c ∷ s) = (c == 0) || has_nul s

-- `CString::new(s).unwrap_or_else(|_| CString::new(default))`: it fails on a text with a NUL.
abbrev pub c_string : Text → Option Text → Option Text
c_string default none = none
c_string default (some s) = some (if has_nul s then default else s)

-- The test that skips an entry with another filter.
abbrev pub accepts : Option EventType → EventType → Bool
accepts none t = true
accepts (some filter) t = same_type filter t

unfoldable pub rust_calls : List RustCallbackEntry → EventType → (ℕ → Call) → List Call
rust_calls [] t call = []
rust_calls (entry ∷ entries) t call =
    let rest = rust_calls entries t call in
    if accepts entry.event_filter t then call entry.callback ∷ rest else rest

unfoldable pub document_calls : List DocumentCallbackEntry → EventType → (ℕ → ℕ → Call) → List Call
document_calls [] t call = []
document_calls (entry ∷ entries) t call =
    let rest = document_calls entries t call in
    if accepts entry.event_filter t then call entry.callback entry.context ∷ rest else rest

unfoldable pub plain_calls : List CallbackEntry → (ℕ → ℕ → Call) → List Call
plain_calls [] call = []
plain_calls (entry ∷ entries) call = call entry.callback entry.context ∷ plain_calls entries call

-- The branch of an event's type.
abbrev pub by_type : {A : Type 0} → EventType → A → A → A → A → A → A
by_type document_created documents syncs errors connections conflicts = documents
by_type document_updated documents syncs errors connections conflicts = documents
by_type document_deleted documents syncs errors connections conflicts = documents
by_type sync_started documents syncs errors connections conflicts = syncs
by_type sync_completed documents syncs errors connections conflicts = syncs
by_type sync_error documents syncs errors connections conflicts = errors
by_type connection_lost documents syncs errors connections conflicts = connections
by_type connection_attempted documents syncs errors connections conflicts = connections
by_type connection_succeeded documents syncs errors connections conflicts = connections
by_type conflict_detected documents syncs errors connections conflicts = conflicts

-- The calls of the C callbacks for one event.
unfoldable pub c_calls : EventDispatcher → QueuedEvent → List Call
unfolding document_calls plain_calls
c_calls d e =
    let t = e.event_type in
    let id = c_string [] e.document_id in
    let title = c_string [] e.title in
    let content = c_string (codes "{}") e.content in
    let message = c_string [] e.error in
    let documents =
      document_calls d.document_callbacks t (λ f c. document f t id title content c) in
    let syncs = plain_calls d.sync_callbacks (λ f c. sync f t e.numeric_data c) in
    let errors = plain_calls d.error_callbacks (λ f c. error f t message c) in
    let connections =
      plain_calls d.connection_callbacks
        (λ f c. connection f t e.boolean_data (e.numeric_data % 2 ^ 32) c) in
    let conflicts = plain_calls d.conflict_callbacks (λ f c. conflict f t id content message c) in
    by_type t documents syncs errors connections conflicts

-- The result, the dispatcher after it, and the calls that were made.
pub record Outcome (T : Type 0) : Type 0 where
  pub result : T
  pub dispatcher : EventDispatcher
  pub calls : List Call

-- A return before the loop.
abbrev pub stop : {T : Type 0} → T → EventDispatcher → Outcome T
stop r d = record { result = r; dispatcher = d; calls = [] }

abbrev pub unwrap_or_default : SyncResult ℕ → ℕ
unwrap_or_default (ok n) = n
unwrap_or_default (err failure) = 0

module _ (lib : EventLibrary) where
  -- One round of the loop: the Rust callbacks first.
  unfoldable pub dispatch_event : EventDispatcher → QueuedEvent → List Call
  unfolding rust_calls c_calls from_queued
  dispatch_event d e =
      rust_calls d.rust_callbacks e.event_type (λ f. rust f (from_queued lib e)) ++ c_calls d e

  -- The loop: the number of events and the calls.
  unfoldable pub dispatch_all : EventDispatcher → List QueuedEvent → ℕ × List Call
  unfolding dispatch_event
  dispatch_all d [] = (0, [])
  dispatch_all d (e ∷ es) =
      let rest = dispatch_all d es in (suc (rest.0), dispatch_event d e ++ rest.1)

  -- From the thread that is read first.
  unfoldable pub process_from : Option ℕ → ℕ → EventDispatcher → Outcome (SyncResult ℕ)
  unfolding has_callbacks dispatch_all
  process_from none current d = stop (err (client no_callbacks_registered)) d
  process_from (some expected) current d =
      if current == expected
      then (if has_callbacks d
          then (let out = dispatch_all d d.event_queue in
              record {
                result = ok (out.0);
                dispatcher = record d { event_queue = [] };
                calls = out.1;
              })
          else stop (ok 0) d)
      else stop (err (client thread_safety_violation)) d

  unfoldable pub process_events : ℕ → EventDispatcher → Outcome (SyncResult ℕ)
  unfolding process_from
  process_events current d = process_from d.callback_thread_id current d

  -- The count is that of the events which it delivers.
  unfoldable pub pending_event_count : ℕ → EventDispatcher → Outcome ℕ
  unfolding process_events
  pending_event_count current d =
      let out = process_events current d in
      record {
        result = unwrap_or_default out.result;
        dispatcher = out.dispatcher;
        calls = out.calls;
      }
