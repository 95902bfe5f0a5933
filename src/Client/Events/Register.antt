-- ===== src/Client/Events/Register.antt =====
-- replicant-client/src/events.rs: a new dispatcher, and the registration of callbacks. The argument
-- `current` is the thread that registers.
use replicant.Prelude.{ℕ, Option, none, some, [], ◌∷◌, ◌++◌}
use replicant.Client.Events.{EventType, EventDispatcher}

unfoldable pub new : EventDispatcher
new = record {
  document_callbacks = [];
  sync_callbacks = [];
  error_callbacks = [];
  connection_callbacks = [];
  conflict_callbacks = [];
  rust_callbacks = [];
  event_queue = [];
  callback_thread_id = none;
}

abbrev pub thread_or : ℕ → Option ℕ → ℕ
thread_or current none = current
thread_or current (some t) = t

-- The first registration sets the thread.
unfoldable pub ensure_callback_thread : ℕ → EventDispatcher → EventDispatcher
ensure_callback_thread current d = record d {
  callback_thread_id = some (thread_or current d.callback_thread_id);
}

module _ (current : ℕ) where
  unfoldable pub register_document_callback :
      ℕ → ℕ → Option EventType → EventDispatcher → EventDispatcher
  unfolding ensure_callback_thread
  register_document_callback callback context event_filter d =
      let e = ensure_callback_thread current d in
      record e {
        document_callbacks =
            e.document_callbacks
            ++ record { callback = callback; context = context; event_filter = event_filter } ∷ [];
      }

  unfoldable pub register_sync_callback : ℕ → ℕ → EventDispatcher → EventDispatcher
  unfolding ensure_callback_thread
  register_sync_callback callback context d =
      let e = ensure_callback_thread current d in
      record e {
        sync_callbacks = e.sync_callbacks ++ record { callback = callback; context = context } ∷ [];
      }

  unfoldable pub register_error_callback : ℕ → ℕ → EventDispatcher → EventDispatcher
  unfolding ensure_callback_thread
  register_error_callback callback context d =
      let e = ensure_callback_thread current d in
      record e {
        error_callbacks =
            e.error_callbacks ++ record { callback = callback; context = context } ∷ [];
      }

  unfoldable pub register_connection_callback : ℕ → ℕ → EventDispatcher → EventDispatcher
  unfolding ensure_callback_thread
  register_connection_callback callback context d =
      let e = ensure_callback_thread current d in
      record e {
        connection_callbacks =
            e.connection_callbacks ++ record { callback = callback; context = context } ∷ [];
      }

  unfoldable pub register_conflict_callback : ℕ → ℕ → EventDispatcher → EventDispatcher
  unfolding ensure_callback_thread
  register_conflict_callback callback context d =
      let e = ensure_callback_thread current d in
      record e {
        conflict_callbacks =
            e.conflict_callbacks ++ record { callback = callback; context = context } ∷ [];
      }

  unfoldable pub register_rust_callback : ℕ → EventDispatcher → EventDispatcher
  unfolding ensure_callback_thread
  register_rust_callback callback d =
      let e = ensure_callback_thread current d in
      record e {
        rust_callbacks =
            e.rust_callbacks ++ record { callback = callback; event_filter = none } ∷ [];
      }

  unfoldable pub register_rust_callback_filtered : ℕ → EventType → EventDispatcher → EventDispatcher
  unfolding ensure_callback_thread
  register_rust_callback_filtered callback event_filter d =
      let e = ensure_callback_thread current d in
      record e {
        rust_callbacks =
            e.rust_callbacks
            ++ record { callback = callback; event_filter = some event_filter } ∷ [];
      }
