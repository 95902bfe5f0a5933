-- ===== src/Client/Events/Threads.antt =====
-- replicant-client/src/events.rs: the thread of the callbacks, in every state that is reached.
use native.Mathlib.Decide.{ℕ_discrete}
use replicant.Prelude.{
  ℕ, ◌≡◌, ◌≢◌, refl, ap, ◌∙◌, Bool, true, false, ◌⊎◌, inl, inr, some, none, [], length, Option,
  ◌==◌, arith, if◌then◌else◌,
}
use replicant.Errors.{
  ClientError, ok, err, client, thread_safety_violation, no_callbacks_registered,
}
use replicant.Client.Events.{EventLibrary, EventDispatcher}
use replicant.Client.Events.Register.{
  new, ensure_callback_thread, register_document_callback, register_sync_callback,
  register_error_callback, register_connection_callback, register_conflict_callback,
  register_rust_callback, register_rust_callback_filtered,
}
use replicant.Client.Events.Emit.{
  emit_document_created, emit_document_updated, emit_document_deleted, emit_sync_started,
  emit_sync_completed, emit_sync_error, emit_conflict_detected, emit_connection_lost,
  emit_connection_attempted, emit_connection_succeeded, queue_event,
}
use replicant.Client.Events.Process.{
  Outcome, has_callbacks, stop, process_from, process_events, pending_event_count,
}
use replicant.Client.Events.Received.{dispatch_all-length}
use replicant.Client.Events.Actions.{
  Emission, document_created, document_updated, document_deleted, sync_started, sync_completed,
  sync_error, conflict_detected, connection_lost, connection_attempted, connection_succeeded,
  Action, register_document, register_sync, register_error, register_connection, register_conflict,
  register_rust, register_rust_filtered, emit, process, count, emit_event, act, Reachable, start,
  after,
}
use replicant.Client.Events.Delivery.{is_empty-append, process_events-delivery}

-- Either some callback is registered and the thread is set, or neither.
abbrev Settled : EventDispatcher → Type 0
Settled d =
    ((has_callbacks d ≡ true) × (t : ℕ) × (d.callback_thread_id ≡ some t))
    ⊎ ((has_callbacks d ≡ false) × (d.callback_thread_id ≡ none))

emit_event-Settled :
    (lib : EventLibrary) (m : Emission) (d : EventDispatcher)
    → Settled d
    → Settled (emit_event lib m d)
unfolding emit_event has_callbacks emit_document_created emit_document_updated emit_document_deleted
    emit_sync_started emit_sync_completed emit_sync_error emit_conflict_detected
    emit_connection_lost emit_connection_attempted emit_connection_succeeded queue_event
emit_event-Settled lib (document_created id content) d h = h
emit_event-Settled lib (document_updated id content) d h = h
emit_event-Settled lib (document_deleted id) d h = h
emit_event-Settled lib sync_started d h = h
emit_event-Settled lib (sync_completed n) d h = h
emit_event-Settled lib (sync_error message) d h = h
emit_event-Settled lib (conflict_detected id) d h = h
emit_event-Settled lib (connection_lost url) d h = h
emit_event-Settled lib (connection_attempted url) d h = h
emit_event-Settled lib (connection_succeeded url) d h = h

if-Settled :
    {T : Type 0} (b : Bool) (x y : Outcome T)
    → Settled x.dispatcher
    → Settled y.dispatcher
    → Settled (if b then x else y).dispatcher
if-Settled true x y hx hy = hx
if-Settled false x y hx hy = hy

process_from-Settled :
    (lib : EventLibrary) (o : Option ℕ) (current : ℕ) (d : EventDispatcher)
    → Settled d
    → Settled ((process_from lib o current d).dispatcher)
unfolding process_from has_callbacks
process_from-Settled lib none current d h = h
process_from-Settled lib (some t) current d h =
    if-Settled (current == t) _ _ (if-Settled (has_callbacks d) _ _ h h) h

act-Settled :
    (lib : EventLibrary) (current : ℕ) (a : Action) (d : EventDispatcher)
    → Settled d
    → Settled (act lib current a d)
unfolding act has_callbacks register_document_callback register_sync_callback
    register_error_callback register_connection_callback register_conflict_callback
    register_rust_callback register_rust_callback_filtered ensure_callback_thread process_events
    pending_event_count
act-Settled lib current (register_document f x filter) d h = inl (
  ground (
    arith,
    is_empty-append d.document_callbacks []
        (record { callback = f; context = x; event_filter = filter }),
  ),
  _,
  refl,
)
act-Settled lib current (register_sync f x) d h = inl (
  ground (arith, is_empty-append d.sync_callbacks [] (record { callback = f; context = x })),
  _,
  refl,
)
act-Settled lib current (register_error f x) d h = inl (
  ground (arith, is_empty-append d.error_callbacks [] (record { callback = f; context = x })),
  _,
  refl,
)
act-Settled lib current (register_connection f x) d h = inl (
  ground (arith, is_empty-append d.connection_callbacks [] (record { callback = f; context = x })),
  _,
  refl,
)
act-Settled lib current (register_conflict f x) d h = inl (
  ground (arith, is_empty-append d.conflict_callbacks [] (record { callback = f; context = x })),
  _,
  refl,
)
act-Settled lib current (register_rust f) d h = inl (
  ground
      (arith, is_empty-append d.rust_callbacks [] (record { callback = f; event_filter = none })),
  _,
  refl,
)
act-Settled lib current (register_rust_filtered f filter) d h = inl (
  ground (
    arith,
    is_empty-append d.rust_callbacks [] (record { callback = f; event_filter = some filter }),
  ),
  _,
  refl,
)
act-Settled lib current (emit m) d h = emit_event-Settled lib m d h
act-Settled lib current process d h = process_from-Settled lib d.callback_thread_id current d h
act-Settled lib current count d h = process_from-Settled lib d.callback_thread_id current d h

Reachable-Settled : (lib : EventLibrary) {d : EventDispatcher} → Reachable lib d → Settled d
unfolding new has_callbacks
Reachable-Settled lib start = inr (refl, refl)
Reachable-Settled lib (after current a {d} r) =
    act-Settled lib current a d (Reachable-Settled lib r)

-- A call that delivers nothing and changes nothing.
abbrev Refuses : EventLibrary → ℕ → EventDispatcher → ClientError → Type 0
Refuses lib current d reason = process_events lib current d ≡ stop (err (client reason)) d

-- In every state that registrations, emissions and deliveries by any threads lead to, a delivery
-- does one of three things: with no thread set it fails with NoCallbacksRegistered and changes
-- nothing; on another thread than the one set it fails with ThreadSafetyViolation, changes nothing
-- and calls nothing; on the thread set it returns the number of queued events and only empties the
-- queue.
pub process_events-Reachable :
    (lib : EventLibrary) (current : ℕ) (d : EventDispatcher)
    → Reachable lib d
    → ((d.callback_thread_id ≡ none) × Refuses lib current d no_callbacks_registered)
      ⊎ ((t : ℕ) × (d.callback_thread_id ≡ some t)
          × (t ≢ current)
          × Refuses lib current d thread_safety_violation)
      ⊎ ((d.callback_thread_id ≡ some current)
          × ((process_events lib current d).result ≡ ok (length d.event_queue))
          × ((process_events lib current d).dispatcher ≡ record d { event_queue = [] }))
unfolding process_events process_from
process_events-Reachable lib current d r = elim (Reachable-Settled lib r) [
  | inr (_, e) ↦ inl (e, ap (λ o. process_from lib o current d) e)
  | inl (c, t, e) ↦ elim (ℕ_discrete t current) [
    | no n ↦
        let apart : (current == t) ≡ false = ground arith in
        inr (inl (t, e, n, ap (λ o. process_from lib o current d) e ∙ simp apart))
    | yes p ↦
        let e2 : d.callback_thread_id ≡ some current = e ∙ ap some p in
        let run = process_events-delivery lib current d e2 c in
        inr (
          inr (
            e2,
            ap (λ o. o.result) run ∙ ap ok (dispatch_all-length lib d d.event_queue),
            ap (λ o. o.dispatcher) run,
          ))
  ]
]
