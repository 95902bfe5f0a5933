-- ===== src/Client/Events/Delivery.antt =====
-- replicant-client/src/events.rs: what a delivery does, on each thread and to each event.
use replicant.Prelude.{
  ℕ, ◌≡◌, refl, ap, ◌∙◌, true, false, some, List, [], ◌∷◌, ◌++◌, map, ==_refl, length, arith,
}
use replicant.Errors.{SyncResult, ok}
use replicant.Client.Events.{EventLibrary, EventDispatcher, RustCallbackEntry, from_queued}
use replicant.Client.Events.Process.{
  process_from, is_empty, Outcome, has_callbacks, dispatch_all, process_events,
}
use replicant.Client.Events.Received.{
  received, matching, Absent, received-dispatch_all, dispatch_all-length,
}

pub is_empty-append : {A : Type 0} (pre post : List A) (a : A) → is_empty (pre ++ a ∷ post) ≡ false
is_empty-append [] post a = refl
is_empty-append (x ∷ pre) post a = refl

pub has_callbacks-rust :
    (d : EventDispatcher) (pre post : List RustCallbackEntry) (entry : RustCallbackEntry)
    → d.rust_callbacks ≡ pre ++ entry ∷ post
    → has_callbacks d ≡ true
unfolding has_callbacks
has_callbacks-rust d pre post entry h =
    let full : is_empty d.rust_callbacks ≡ false = ap is_empty h ∙ is_empty-append pre post entry in
    ground (arith, full)

-- A delivery to all callbacks.
abbrev pub delivery : EventLibrary → EventDispatcher → Outcome (SyncResult ℕ)
delivery lib d = record {
  result = ok ((dispatch_all lib d d.event_queue).0);
  dispatcher = record d { event_queue = [] };
  calls = (dispatch_all lib d d.event_queue).1;
}

pub process_events-delivery :
    (lib : EventLibrary) (current : ℕ) (d : EventDispatcher)
    → d.callback_thread_id ≡ some current
    → has_callbacks d ≡ true
    → process_events lib current d ≡ delivery lib d
unfolding process_events process_from
process_events-delivery lib current d t h =
    ap (λ o. process_from lib o current d) t ∙ simp (h, ==_refl current)

-- On the thread of the callbacks, for a Rust callback that is registered once: a delivery returns
-- the number of queued events, empties the queue, and calls the callback with exactly the queued
-- events of its filter's type, each converted, in their order.
pub process_events-received :
    (lib : EventLibrary) (current : ℕ) (d : EventDispatcher) (pre post : List RustCallbackEntry)
    (entry : RustCallbackEntry)
    → d.callback_thread_id ≡ some current
    → d.rust_callbacks ≡ pre ++ entry ∷ post
    → Absent entry.callback pre
    → Absent entry.callback post
    → ((process_events lib current d).result ≡ ok (length d.event_queue))
      × ((process_events lib current d).dispatcher.event_queue ≡ [])
      × (received entry.callback (process_events lib current d).calls
          ≡ map (from_queued lib) (matching entry.event_filter d.event_queue))
process_events-received lib current d pre post entry t held first last =
    rw (process_events-delivery lib current d t (has_callbacks-rust d pre post entry held)) (
      ap ok (dispatch_all-length lib d d.event_queue),
      refl,
      received-dispatch_all lib d pre post entry held first last d.event_queue,
    )
