-- ===== src/Client/Events/Emitted.antt =====
-- replicant-client/src/events.rs: from the emission of events to a Rust callback.
use replicant.Prelude.{
  ℕ, suc, ◌≡◌, refl, ap, ◌∙◌, Option, some, List, [], ◌∷◌, ◌++◌, map, append-nil, append_assoc,
  length, All, Bool-cases, inl, inr, if◌then◌else◌,
}
use replicant.Errors.{ok}
use replicant.Client.Events.{
  EventType, EventLibrary, SyncEvent, QueuedEvent, EventDispatcher, RustCallbackEntry, from_queued,
  event_type,
}
use replicant.Client.Events.Emit.{
  queue_event, emit_document_created, emit_document_updated, emit_document_deleted,
  emit_sync_started, emit_sync_completed, emit_sync_error, emit_conflict_detected,
  emit_connection_lost, emit_connection_attempted, emit_connection_succeeded,
}
use replicant.Client.Events.Process.{accepts, process_events}
use replicant.Client.Events.Received.{received, matching, Absent}
use replicant.Client.Events.Actions.{
  Emission, document_created, document_updated, document_deleted, sync_started, sync_completed,
  sync_error, conflict_detected, connection_lost, connection_attempted, connection_succeeded,
  emit_event, emit_events, intended,
}
use replicant.Client.Events.Delivery.{process_events-received}

-- `serde_json` reads back the value of the emission, if it has one.
abbrev pub ReadsBack : EventLibrary → Emission → Type 0
ReadsBack lib (document_created id content) =
    lib.from_str ((lib.json).to_string content) ≡ some content
ReadsBack lib (document_updated id content) =
    lib.from_str ((lib.json).to_string content) ≡ some content
ReadsBack lib _ = Unit

-- The events that pass a filter.
unfoldable pub passing : Option EventType → List SyncEvent → List SyncEvent
unfolding event_type
passing filter [] = []
passing filter (e ∷ es) =
    let rest = passing filter es in if accepts filter (event_type e) then e ∷ rest else rest

-- The queued event of an emission, and of several.
abbrev Queues : EventLibrary → Emission → EventDispatcher → Type 0
Queues lib m d =
    (e : QueuedEvent) × (emit_event lib m d ≡ record d { event_queue = d.event_queue ++ e ∷ [] })
    × (from_queued lib e ≡ intended lib m)
    × (e.event_type ≡ event_type (intended lib m))

abbrev QueuesAll : EventLibrary → List Emission → EventDispatcher → Type 0
QueuesAll lib ms d =
    (es : List QueuedEvent) × (emit_events lib ms d
      ≡ record d { event_queue = d.event_queue ++ es })
    × (length es ≡ length ms)
    × ((filter : Option EventType)
        → map (from_queued lib) (matching filter es) ≡ passing filter (map (intended lib) ms))

module _ (lib : EventLibrary) where
  emit_event-Queues : (m : Emission) (d : EventDispatcher) → ReadsBack lib m → Queues lib m d
  unfolding emit_event from_queued intended event_type emit_document_created emit_document_updated
      emit_document_deleted emit_sync_started emit_sync_completed emit_sync_error
      emit_conflict_detected emit_connection_lost emit_connection_attempted
      emit_connection_succeeded queue_event
  emit_event-Queues (document_created id content) d reads = (_, refl, simp reads, refl)
  emit_event-Queues (document_updated id content) d reads = (_, refl, simp reads, refl)
  emit_event-Queues (document_deleted id) d reads = (_, refl, refl, refl)
  emit_event-Queues sync_started d reads = (_, refl, refl, refl)
  emit_event-Queues (sync_completed n) d reads = (_, refl, refl, refl)
  emit_event-Queues (sync_error message) d reads = (_, refl, refl, refl)
  emit_event-Queues (conflict_detected id) d reads = (_, refl, refl, refl)
  emit_event-Queues (connection_lost url) d reads = (_, refl, refl, refl)
  emit_event-Queues (connection_attempted url) d reads = (_, refl, refl, refl)
  emit_event-Queues (connection_succeeded url) d reads = (_, refl, refl, refl)

  emit_events-QueuesAll :
      (ms : List Emission) (d : EventDispatcher) → All (ReadsBack lib) ms → QueuesAll lib ms d
  unfolding emit_events matching passing
  emit_events-QueuesAll [] d h = ([], rw (append-nil d.event_queue) refl, refl, λ f. refl)
  emit_events-QueuesAll (m ∷ ms) d (h, hs) =
      let (e, step, read, kind) = emit_event-Queues m d h in
      let (es, steps, many, reads_all) = emit_events-QueuesAll ms (emit_event lib m d) hs in
      (
        e ∷ es,
        steps
            ∙ ap (λ (x : EventDispatcher). record x { event_queue = x.event_queue ++ es }) step
            ∙ ap (λ q. record d { event_queue = q }) (append_assoc d.event_queue (e ∷ []) es),
        ap suc many,
        λ filter. elim (Bool-cases (accepts filter (event_type (intended lib m)))) [
          | inl a ↦ rw (kind, a, read, reads_all filter) refl
          | inr a ↦ rw (kind, a, reads_all filter) refl
        ],
      )

  -- After any emissions on an empty queue whose JSON values are read back from their print, a
  -- delivery on the thread of the callbacks calls a Rust callback that is registered once with
  -- exactly the emitted events that pass its filter, in their order and with the data they were
  -- emitted with.
  pub emit_events-received :
      (current : ℕ) (d : EventDispatcher) (pre post : List RustCallbackEntry)
      (entry : RustCallbackEntry) (ms : List Emission)
      → d.callback_thread_id ≡ some current
      → d.rust_callbacks ≡ pre ++ entry ∷ post
      → Absent entry.callback pre
      → Absent entry.callback post
      → d.event_queue ≡ []
      → All (ReadsBack lib) ms
      → ((process_events lib current (emit_events lib ms d)).result ≡ ok (length ms))
        × (received entry.callback (process_events lib current (emit_events lib ms d)).calls
            ≡ passing entry.event_filter (map (intended lib) ms))
  emit_events-received current d pre post entry ms t held first last empty reads =
      let (es, steps, many, reads_all) = emit_events-QueuesAll ms d reads in
      let (count, _, calls) =
        process_events-received lib current (record d { event_queue = d.event_queue ++ es }) pre
          post entry t held first last in
      rw steps (
        count ∙ ap (λ q. ok (length (q ++ es))) empty ∙ ap ok many,
        calls
            ∙ ap (λ q. map (from_queued lib) (matching entry.event_filter (q ++ es))) empty
            ∙ reads_all entry.event_filter,
      )
