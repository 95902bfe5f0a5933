-- ===== src/Client/Reconnect.antt =====
-- replicant-client/src/client.rs: the task that watches the connection, one round at a time, and what
-- happens beside it.
use replicant.Prelude.{
  ℕ, zero, suc, ◌+◌, ◌-◌, Bool, true, false, Option, none, some, List, [], ◌∷◌, ◌++◌, if◌then◌else◌,
  leb, ltb,
}
use replicant.Errors.{SyncResult, ok, err}
use replicant.Protocol.{ClientMessage, ping}
use replicant.Client.Events.Emit.{
  emit_connection_attempted, emit_connection_succeeded, emit_connection_lost,
}
use replicant.Client.State.{Client, ClientLibrary}
use replicant.Client.Socket.{Account, SocketLibrary, Online, connect}
use replicant.Client.Sync.{reconnection_sync}

-- The state of the watch: the client and the network, the time of the last ping, the attempts since
-- the last connection, and the triggers that wait for the task of the reconnection sync.
pub record Watch : Type 0 where
  pub online : Online
  pub last_ping_time : Option ℕ
  pub connection_attempts : ℕ
  pub sync_triggers : ℕ

-- The capacity of the channel of triggers.
abbrev pub max_triggers : ℕ
max_triggers = 10

abbrev pub client_of : Watch → Client
client_of w = (w.online).client

abbrev pub put_client : Client → Watch → Watch
put_client c w = record w { online = record w.online { client = c } }

-- `reconnect_sync_tx.try_send(())`: a full channel takes no more.
unfoldable pub trigger : ℕ → ℕ
trigger waiting = if ltb waiting max_triggers then suc waiting else waiting

module _ (lib : ClientLibrary) (socket : SocketLibrary) (account : Account)
    (ping_interval : ℕ) where
  -- The connection is taken for lost.
  unfoldable pub lose : Watch → Watch
  unfolding emit_connection_lost
  lose w =
      let c = client_of w in
      put_client
        (record c {
          is_connected = false;
          event_dispatcher = emit_connection_lost lib.events c.server_url c.event_dispatcher;
        })
        w

  -- A new connection: its channel takes the place of the old one, uploads that were waiting for
  -- their confirmations are forgotten, and the sync is triggered.
  unfoldable pub reconnected : List ClientMessage → Watch → Watch
  unfolding emit_connection_succeeded trigger
  reconnected channel w =
      let c = client_of w in
      record (put_client
        (record c {
          ws_client = some true;
          sent = channel;
          is_connected = true;
          event_dispatcher = emit_connection_succeeded lib.events c.server_url c.event_dispatcher;
          pending_uploads = [];
        })
        w) {
          last_ping_time = some c.now;
          connection_attempts = 0;
          sync_triggers = trigger w.sync_triggers;
        }

  unfoldable pub attempt_failed : Watch → Watch
  unfolding emit_connection_attempted
  attempt_failed w =
      let c = client_of w in
      put_client
        (record c {
          event_dispatcher = emit_connection_attempted lib.events c.server_url c.event_dispatcher;
        })
        w

  unfoldable pub after_connect : Watch → SyncResult (List ClientMessage) × Online → Watch
  unfolding reconnected attempt_failed
  after_connect w (ok channel, o) = reconnected channel (record w { online = o })
  after_connect w (err e, o) = attempt_failed (record w { online = o })

  unfoldable pub try_to_connect : Watch → Watch
  unfolding connect after_connect
  try_to_connect w =
      after_connect (record w { connection_attempts = w.connection_attempts + 1 })
        (connect lib socket account w.online)

  -- It is time for a ping: none was sent, or the interval is over.
  unfoldable pub should_ping : Option ℕ → ℕ → Bool
  should_ping none now = true
  should_ping (some last) now = leb ping_interval (now - last)

  unfoldable pub send_ping : Option Bool → Watch → Watch
  unfolding lose
  send_ping (some true) w =
      let c = client_of w in
      record (put_client (record c { sent = c.sent ++ ping ∷ [] }) w) {
        last_ping_time = some c.now;
      }
  send_ping (some false) w = lose w
  send_ping none w = lose w

  unfoldable pub heartbeat : Watch → Watch
  unfolding should_ping send_ping
  heartbeat w =
      if should_ping w.last_ping_time (client_of w).now
      then send_ping (client_of w).ws_client w
      else w

  -- The body of the loop, up to the sleep.
  unfoldable pub reconnection_round : Watch → Watch
  unfolding heartbeat try_to_connect
  reconnection_round w = if (client_of w).is_connected then heartbeat w else try_to_connect w

  -- The task of the reconnection sync takes a trigger, if there is one.
  unfoldable pub sync_for : ℕ → Watch → Watch
  unfolding reconnection_sync
  sync_for zero w = w
  sync_for (suc n) w =
      put_client ((reconnection_sync lib (client_of w)).1) (record w { sync_triggers = n })

  unfoldable pub take_trigger : Watch → Watch
  unfolding sync_for
  take_trigger w = sync_for w.sync_triggers w
