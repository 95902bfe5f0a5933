-- ===== src/Client/Rounds.antt =====
-- The rounds of the task that watches the connection (replicant-client/src/client.rs and
-- websocket.rs): what one of them does to a lost connection.
pub mod Back
pub mod Resync
use replicant.Prelude.{
  ℕ, zero, suc, ◌+◌, ◌/◌, ◌≤◌, ◌<◌, ◌*◌, ◌≡◌, refl, sym, ap, ◌∙◌, subst, Bool, true, false, ◌⊎◌,
  inl, inr, Option, none, some, List, [], ◌∷◌, ◌++◌, map, Text, length, if◌then◌else◌, ◌||◌, arith,
  Option-cases,
}
use replicant.Errors.{SyncResult, ok, err}
use replicant.Protocol.{ClientMessage}
use replicant.Client.Events.{EventDispatcher}
use replicant.Client.State.{Client, ClientLibrary}
use replicant.Client.Socket.{
  Account, SocketLibrary, Online, outcome, later, connect_once, unless_connected,
  connect_with_retry, authentication, after_stream, connect_with_hmac, connect,
}
use replicant.Client.Reconnect.{
  Watch, client_of, trigger, reconnected, attempt_failed, after_connect, try_to_connect, heartbeat,
  reconnection_round,
}

abbrev pub is_none : {A : Type 0} → Option A → Bool
is_none none = true
is_none (some a) = false

-- One of the first attempts, one more than there are retries, succeeds.
unfoldable pub reaches : ℕ → List (Option Text) → Bool
reaches zero os = is_none (outcome os)
reaches (suc retries) os = is_none (outcome os) || reaches retries (later os)

-- What is to come behind the attempts.
unfoldable pub left : ℕ → List (Option Text) → List (Option Text)
left zero os = later os
left (suc retries) os =
    let rest = left retries (later os) in if is_none (outcome os) then later os else rest

-- Only events are new.
abbrev pub SameButEvents : Client → Client → Type 0
SameButEvents before after =
    (events : EventDispatcher) × (after ≡ record before { event_dispatcher = events })

-- The attempts succeed or fail as the network says, and leave the rest of it.
abbrev pub Attempts : ℕ → Online → Option Text × Online → Type 0
Attempts retries o r =
    (is_none (r.0) ≡ reaches retries o.network)
    × ((r.1).network ≡ left retries o.network)
    × SameButEvents o.client (r.1).client

module _ (lib : ClientLibrary) (socket : SocketLibrary) (account : Account) where
  Attempts-once : (o : Online) → Attempts 0 o (connect_once lib socket account o)
  unfolding connect_once reaches left
  Attempts-once o = elim (Option-cases (outcome o.network)) [
    | inl e ↦ rw (connect_once, e) (refl, refl, (_, refl))
    | inr (t, e) ↦ rw (connect_once, e) (refl, refl, (_, refl))
  ]

  again :
      (retries : ℕ) (o : Online) (r : Option Text × Online)
      → Attempts 0 o r
      → ((o' : Online) → Attempts retries o' (connect_with_retry lib socket account retries o'))
      → Attempts
          (suc retries)
          o
          (unless_connected lib socket account (connect_with_retry lib socket account retries) r)
  unfolding reaches left
  again retries o (none, after) (a, b, c) ih = (rw (← a) refl, rw (← a) b, c)
  again retries o (some e, after) (a, b, (x, c)) ih =
      let (p, q, (y, d)) = ih after in
      (
        rw (← a) (p ∙ ap (reaches retries) b),
        rw (← a) (q ∙ ap (left retries) b),
        (y, d ∙ ap (λ (k : Client). record k { event_dispatcher = y }) c),
      )

  Attempts-connect_with_retry :
      (retries : ℕ) (o : Online)
      → Attempts retries o (connect_with_retry lib socket account retries o)
  unfolding connect_with_retry
  Attempts-connect_with_retry zero o = Attempts-once o
  Attempts-connect_with_retry (suc retries) o =
      again retries o (connect_once lib socket account o) (Attempts-once o)
        (Attempts-connect_with_retry retries)

  -- A new connection: its channel holds the client's authentication alone, no upload waits for its
  -- confirmation, the time of the ping is set, and the sync is triggered.
  abbrev pub Connected : Watch → Watch → Type 0
  Connected w v =
      let c = client_of w in
      (events : EventDispatcher) × (client_of v ≡ record c {
        event_dispatcher = events;
        ws_client = some true;
        sent = authentication lib socket account c.now ∷ [];
        is_connected = true;
        pending_uploads = [];
      })
      × (v.last_ping_time ≡ some c.now)
      × (v.connection_attempts ≡ 0)
      × (v.sync_triggers ≡ trigger w.sync_triggers)

  -- A round without success: only the attempt is counted, and reported.
  abbrev pub Failed : Watch → Watch → Type 0
  Failed w v =
      SameButEvents (client_of w) (client_of v)
      × (v.last_ping_time ≡ w.last_ping_time)
      × (v.connection_attempts ≡ w.connection_attempts + 1)
      × (v.sync_triggers ≡ w.sync_triggers)

  -- One of the two, as the network says, and the rest of the network.
  abbrev pub Tried : Watch → Watch → Type 0
  Tried w v =
      (((reaches 3 (w.online).network ≡ true) × Connected w v)
        ⊎ ((reaches 3 (w.online).network ≡ false) × Failed w v))
      × ((v.online).network ≡ left 3 (w.online).network)

  after_connect-Tried :
      (ping_interval : ℕ) (w : Watch) (r : Option Text × Online)
      → Attempts 3 w.online r
      → Tried w (
          after_connect lib socket account ping_interval
            (record w { connection_attempts = w.connection_attempts + 1 })
            (after_stream lib socket account r))
  unfolding after_connect after_stream reconnected attempt_failed
  after_connect-Tried ping_interval w (none, o) (a, b, (x, c)) =
      rw c (inl (sym a, (_, refl, refl, refl, refl)), b)
  after_connect-Tried ping_interval w (some e, o) (a, b, (x, c)) =
      rw c (inr (sym a, ((_, refl), refl, refl, refl)), b)

  pub reconnection_round-Tried :
      (ping_interval : ℕ) (w : Watch)
      → (client_of w).is_connected ≡ false
      → Tried w (reconnection_round lib socket account ping_interval w)
  unfolding reconnection_round try_to_connect connect connect_with_hmac
  reconnection_round-Tried ping_interval w down =
      subst
        (λ b. Tried w (
          if b
          then heartbeat lib socket account ping_interval w
          else try_to_connect lib socket account ping_interval w))
        (sym down)
        (after_connect-Tried ping_interval w (connect_with_retry lib socket account 3 w.online)
          (Attempts-connect_with_retry 3 w.online))
