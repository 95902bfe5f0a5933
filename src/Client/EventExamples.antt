-- ===== src/Client/EventExamples.antt =====
-- The theorems on the events, on a dispatcher with two callbacks.
use native.Mathlib.Omega.{arith}
use replicant.Prelude.{◌≡◌, ◌≢◌, ◌⊎◌, refl, true, none, some, [], ◌∷◌, map, length, ℕ}
use replicant.Errors.{ok, err, client, thread_safety_violation, no_callbacks_registered}
use replicant.Json.{boolean}
use replicant.Sample.{sample_json}
use replicant.Client.Events.{EventDispatcher, RustCallbackEntry, from_queued, sync_started}
use replicant.Client.Events.Register.{new, register_rust_callback}
use replicant.Client.Events.Emit.{emit_sync_started, emit_sync_completed}
use replicant.Client.Events.Process.{process_events, stop}
use replicant.Client.Events.Received.{received, matching}
use replicant.Client.Events.Actions.{
  Emission, start, after, act, register_rust, emit_events, intended,
}
use replicant.Client.Events.Delivery.{process_events-received}
use replicant.Client.Events.Emitted.{passing, emit_events-received}
use replicant.Client.Events.Threads.{process_events-Reachable}
use replicant.Client.Examples.{json, events}

-- Two callbacks, the first one for starts of a synchronization only.
abbrev first_entry : RustCallbackEntry
first_entry = record { callback = 5; event_filter = some sync_started }

abbrev second_entry : RustCallbackEntry
second_entry = record { callback = 6; event_filter = none }

unfoldable pub listening : EventDispatcher
unfolding new
listening = record new {
  rust_callbacks = first_entry ∷ second_entry ∷ [];
  callback_thread_id = some 1;
}

unfoldable queued : EventDispatcher
unfolding listening emit_events
queued = emit_events events (Emission.sync_started ∷ Emission.sync_completed 3 ∷ []) listening

process_events-received_example :
    ((process_events events 1 queued).result ≡ ok 2)
    × ((process_events events 1 queued).dispatcher.event_queue ≡ [])
    × (received 5 (process_events events 1 queued).calls
        ≡ map (from_queued events) (matching (some sync_started) queued.event_queue))
unfolding queued listening new emit_sync_started emit_sync_completed
process_events-received_example =
    process_events-received events 1 queued [] (second_entry ∷ []) first_entry refl refl tt
      (λ e. ground (arith, e), tt)

emit_events-received_example :
    ((process_events events 1 (
        emit_events events
          (Emission.document_updated 2 (boolean true) ∷ Emission.sync_started ∷ [])
          listening)).result
      ≡ ok 2)
    × (received 6
          (process_events events 1 (
            emit_events events
              (Emission.document_updated 2 (boolean true) ∷ Emission.sync_started ∷ [])
              listening)).calls
        ≡ passing none (
            map
              (intended events)
              (Emission.document_updated 2 (boolean true) ∷ Emission.sync_started ∷ [])))
unfolding listening new events json sample_json
emit_events-received_example =
    emit_events-received events 1 listening (first_entry ∷ []) [] second_entry
      (Emission.document_updated 2 (boolean true) ∷ Emission.sync_started ∷ []) refl refl
      (λ e. ground (arith, e), tt) tt refl (refl, (tt, tt))

-- A dispatcher with a callback of the thread 1.
unfoldable registered : EventDispatcher
unfolding act new register_rust_callback
registered = act events 1 (register_rust 6) new

process_events-Reachable_example :
    ((registered.callback_thread_id ≡ none)
      × (process_events events 2 registered
          ≡ stop (err (client no_callbacks_registered)) registered))
    ⊎ ((t : ℕ) × (registered.callback_thread_id ≡ some t)
        × (t ≢ 2)
        × (process_events events 2 registered
            ≡ stop (err (client thread_safety_violation)) registered))
    ⊎ ((registered.callback_thread_id ≡ some 2)
        × ((process_events events 2 registered).result ≡ ok (length registered.event_queue))
        × ((process_events events 2 registered).dispatcher
            ≡ record registered { event_queue = [] }))
unfolding registered
process_events-Reachable_example =
    process_events-Reachable events 2 registered (after 1 (register_rust 6) start)
