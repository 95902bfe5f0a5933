-- ===== src/Server/Changes/Latest.antt =====
-- `get_latest_sequence` and `get_changes_since` together: how a client knows that it is up to date.
use replicant.Prelude.{ℕ, zero, suc, ◌^◌, ◌<◌, ◌≤◌, ◌≡◌, refl, arith, Option, List, [], ◌∷◌, take}
use replicant.Prelude.Int.{pos, wrap_i64}
use replicant.Errors.{ok}
use replicant.Server.State.{EventRow, Server, query}
use replicant.Server.Changes.{
  page_limit, order_by, events_after, max_sequence, get_changes_since, get_latest_sequence,
}

events_after-max_sequence :
    (user n : ℕ) (rows : List EventRow)
    → max_sequence user rows ≤ n
    → events_after user (pos n) rows ≡ []
unfolding events_after max_sequence
events_after-max_sequence user n [] h = refl
events_after-max_sequence user n (r ∷ rows) h =
    ground (arith, events_after-max_sequence user n rows)

wrap_i64_pos : (n : ℕ) → n < 2 ^ 63 → wrap_i64 (pos n) ≡ pos n
unfolding wrap_i64
wrap_i64_pos n h = ground arith

take_nil : (n : ℕ) → take {A = EventRow} n [] ≡ []
take_nil zero = refl
take_nil (suc n) = refl

-- Where no query fails and the user's largest sequence number is an `i64`, `get_latest_sequence`
-- returns a number after which `get_changes_since` returns no change, whatever the limit, and
-- neither changes the server.
pub get_changes_since-get_latest_sequence :
    (user : ℕ) (limit : Option ℕ) (s : Server)
    → s.faults ≡ []
    → max_sequence user s.tables.change_events < 2 ^ 63
    → (latest : ℕ) × (get_latest_sequence user s ≡ (ok latest, s))
      × (get_changes_since user latest limit s ≡ (ok [], s))
unfolding get_changes_since get_latest_sequence query order_by
get_changes_since-get_latest_sequence user limit s calm small = (
  max_sequence user s.tables.change_events,
  rw calm refl,
  rw
      (
        calm,
        wrap_i64_pos (max_sequence user s.tables.change_events) small,
        events_after-max_sequence user (max_sequence user s.tables.change_events)
            s.tables.change_events (omega arith),
        take_nil (page_limit limit),
      )
      refl,
)
