-- ===== src/Ffi/Events.antt =====
-- replicant-client/src/ffi.rs: the callbacks of the handle's own dispatcher. `current` is the thread
-- that calls; a callback and its context are numbers.
use replicant.Prelude.{ℕ, zero, suc, ◌%◌, ◌^◌, Bool, true, false, Option, none, some, List, []}
use replicant.Prelude.Int.{ℤ, pos, negsuc}
use replicant.Errors.{SyncResult, ok, err}
use replicant.Client.Events.{EventType, document_created, document_updated, document_deleted, Call}
use replicant.Client.Events.Register.{
  register_document_callback, register_sync_callback, register_error_callback,
  register_connection_callback, register_conflict_callback,
}
use replicant.Client.Events.Process.{process_events}
use replicant.Ffi.{
  FfiLibrary, error_invalid_input, error_unknown, Replicant, Body, ◌>>=◌, pure, return, emit, Reply,
  with_engine,
}

-- The filter by its number: none below zero.
unfoldable pub filter_of : ℤ → Body (Option EventType)
filter_of (negsuc n) = pure none
filter_of (pos zero) = pure (some document_created)
filter_of (pos (suc zero)) = pure (some document_updated)
filter_of (pos (suc (suc zero))) = pure (some document_deleted)
filter_of (pos (suc (suc (suc n)))) = return error_invalid_input

module _ (current callback context : ℕ) where
  unfoldable pub replicant_register_document_callback : ℤ → Option Replicant → Reply (Unit {0})
  unfolding filter_of register_document_callback
  replicant_register_document_callback event_filter = with_engine (do
    filter ← filter_of event_filter
    emit (register_document_callback current callback context filter))

  unfoldable pub replicant_register_sync_callback : Option Replicant → Reply (Unit {0})
  unfolding register_sync_callback
  replicant_register_sync_callback =
      with_engine (emit (register_sync_callback current callback context))

  unfoldable pub replicant_register_error_callback : Option Replicant → Reply (Unit {0})
  unfolding register_error_callback
  replicant_register_error_callback =
      with_engine (emit (register_error_callback current callback context))

  unfoldable pub replicant_register_connection_callback : Option Replicant → Reply (Unit {0})
  unfolding register_connection_callback
  replicant_register_connection_callback =
      with_engine (emit (register_connection_callback current callback context))

  unfoldable pub replicant_register_conflict_callback : Option Replicant → Reply (Unit {0})
  unfolding register_conflict_callback
  replicant_register_conflict_callback =
      with_engine (emit (register_conflict_callback current callback context))

-- The count as `u32`, if there is a pointer for it.
abbrev pub counted : Bool → ℕ → Option ℕ
counted true count = none
counted false count = some (count % 2 ^ 32)

abbrev pub processed : Bool → SyncResult ℕ → Body (Option ℕ)
processed out_is_null (ok count) = pure (counted out_is_null count)
processed out_is_null (err e) = return error_unknown

module _ (lib : FfiLibrary) where
  -- The calls of callbacks stand beside the reply.
  unfoldable pub replicant_process_events :
      ℕ → Bool → Option Replicant → Reply (Option ℕ) × List Call
  unfolding process_events
  replicant_process_events current out_is_null none =
      (with_engine (processed out_is_null (ok 0)) none, [])
  replicant_process_events current out_is_null (some r) =
      let out = process_events (lib.client).events current r.event_dispatcher in
      (
        with_engine (processed out_is_null out.result)
            (some (record r { event_dispatcher = out.dispatcher })),
        out.calls,
      )
