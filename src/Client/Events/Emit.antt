-- ===== src/Client/Events/Emit.antt =====
-- replicant-client/src/events.rs: the events that the client emits.
use replicant.Prelude.{ℕ, Bool, false, Option, none, some, [], ◌∷◌, ◌++◌, Text, codes}
use replicant.Json.{Value}
use replicant.Models.{as_str, get_key}
use replicant.Client.Events.{
  EventType, document_created, document_updated, document_deleted, sync_started, sync_completed,
  sync_error, conflict_detected, connection_lost, connection_attempted, connection_succeeded,
  EventLibrary, EventDispatcher, get_or,
}

abbrev map_or_none : {A B : Type 0} → (A → B) → Option A → Option B
map_or_none f none = none
map_or_none f (some a) = some (f a)

module _ (lib : EventLibrary) where
  -- The receiver lives as long as the dispatcher, so that sending does not fail, and a value of
  -- JSON always prints.
  unfoldable pub queue_event :
      EventType
      → Option ℕ
      → Option Text
      → Option Value
      → Option Text
      → ℕ
      → Bool
      → EventDispatcher
      → EventDispatcher
  queue_event event_type document_id title content error numeric_data boolean_data d = record d {
    event_queue =
        d.event_queue
        ++ record {
          event_type = event_type;
          document_id = map_or_none lib.show_uuid document_id;
          title = title;
          content = map_or_none (lib.json).to_string content;
          error = error;
          numeric_data = numeric_data;
          boolean_data = boolean_data;
        }
          ∷ [];
  }

  -- `content.get("title").and_then(|v| v.as_str()).unwrap_or("Untitled")`
  abbrev pub title_of : Value → Text
  title_of content = get_or (codes "Untitled") (as_str (get_key lib.json (codes "title") content))

  unfoldable pub emit_document_created : ℕ → Value → EventDispatcher → EventDispatcher
  unfolding queue_event
  emit_document_created id content =
      queue_event document_created (some id) (some (title_of content)) (some content) none 0 false

  unfoldable pub emit_document_updated : ℕ → Value → EventDispatcher → EventDispatcher
  unfolding queue_event
  emit_document_updated id content =
      queue_event document_updated (some id) (some (title_of content)) (some content) none 0 false

  unfoldable pub emit_document_deleted : ℕ → EventDispatcher → EventDispatcher
  unfolding queue_event
  emit_document_deleted id = queue_event document_deleted (some id) none none none 0 false

  unfoldable pub emit_sync_started : EventDispatcher → EventDispatcher
  unfolding queue_event
  emit_sync_started = queue_event sync_started none none none none 0 false

  unfoldable pub emit_sync_completed : ℕ → EventDispatcher → EventDispatcher
  unfolding queue_event
  emit_sync_completed count = queue_event sync_completed none none none none count false

  unfoldable pub emit_sync_error : Text → EventDispatcher → EventDispatcher
  unfolding queue_event
  emit_sync_error message = queue_event sync_error none none none (some message) 0 false

  unfoldable pub emit_conflict_detected : ℕ → EventDispatcher → EventDispatcher
  unfolding queue_event
  emit_conflict_detected id = queue_event conflict_detected (some id) none none none 0 false

  unfoldable pub emit_connection_lost : Text → EventDispatcher → EventDispatcher
  unfolding queue_event
  emit_connection_lost url = queue_event connection_lost none (some url) none none 0 false

  unfoldable pub emit_connection_attempted : Text → EventDispatcher → EventDispatcher
  unfolding queue_event
  emit_connection_attempted url = queue_event connection_attempted none (some url) none none 0 false

  unfoldable pub emit_connection_succeeded : Text → EventDispatcher → EventDispatcher
  unfolding queue_event
  emit_connection_succeeded url = queue_event connection_succeeded none (some url) none none 0 false
