-- ===== src/Client/Socket.antt =====
-- replicant-client/src/websocket.rs: a connection is made in up to four attempts, and its first message
-- asks for authentication. The writer and the reader task are the connection's channels.
use replicant.Prelude.{ℕ, zero, suc, Option, none, some, List, [], ◌∷◌, ◌++◌, Text, codes, true}
use replicant.Prelude.Int.{ℤ, show_int}
use replicant.Errors.{client, web_socket, SyncResult, ok, err}
use replicant.Protocol.{ClientMessage, authenticate}
use replicant.Client.Events.{EventDispatcher}
use replicant.Client.Events.Emit.{
  emit_connection_attempted, emit_connection_succeeded, emit_sync_error,
}
use replicant.Client.State.{Client, ClientLibrary}

-- Who the client is, for the server.
pub record Account : Type 0 where
  pub email : Text
  pub client_id : ℕ
  pub api_key : Text
  pub api_secret : Text

-- HMAC-SHA256 in hexadecimal digits, by its key and its message, and the Unix time of a time.
pub record SocketLibrary : Type 0 where
  pub hmac_hex : Text → Text → Text
  pub timestamp : ℕ → ℤ

-- `network` says how the coming attempts to reach the server fare, `some e` for a failure that prints
-- as `e`; past its end they succeed.
pub record Online : Type 0 where
  pub client : Client
  pub network : List (Option Text)

abbrev pub outcome : List (Option Text) → Option Text
outcome [] = none
outcome (o ∷ os) = o

abbrev pub later : List (Option Text) → List (Option Text)
later [] = []
later (o ∷ os) = os

abbrev pub emit : (EventDispatcher → EventDispatcher) → Online → Online
emit f o = record o {
  client = record o.client { event_dispatcher = f (o.client).event_dispatcher };
}

module _ (lib : ClientLibrary) (socket : SocketLibrary) (account : Account) where
  unfoldable pub create_hmac_signature : Text → ℤ → Text → Text → Text → Text
  create_hmac_signature secret timestamp email api_key body =
      socket.hmac_hex secret
        (show_int timestamp ++ (b'.' ∷ (email ++ (b'.' ∷ (api_key ++ (b'.' ∷ body))))))

  -- One attempt, with its events: no failure, or what it prints.
  unfoldable pub connect_once : Online → Option Text × Online
  unfolding emit_connection_attempted emit_connection_succeeded emit_sync_error
  connect_once o =
      let url = (o.client).server_url in
      let tried =
        emit (emit_connection_attempted lib.events url) (record o { network = later o.network }) in
      elim (outcome o.network) [
        | none ↦ (none, emit (emit_connection_succeeded lib.events url) tried)
        | some e ↦
            (some e, emit (emit_sync_error lib.events (codes "Connection failed: " ++ e)) tried)
      ]

  abbrev pub unless_connected :
      (Online → Option Text × Online) → Option Text × Online → Option Text × Online
  unless_connected again (none, after) = (none, after)
  unless_connected again (some e, after) = again after

  unfoldable pub connect_with_retry : ℕ → Online → Option Text × Online
  unfolding connect_once
  connect_with_retry zero o = connect_once o
  connect_with_retry (suc retries) o =
      unless_connected (connect_with_retry retries) (connect_once o)

  -- The message that asks for authentication.
  unfoldable pub authentication : ℕ → ClientMessage
  unfolding create_hmac_signature
  authentication now =
      let timestamp = socket.timestamp now in
      authenticate account.email account.client_id (some account.api_key)
        (some (create_hmac_signature account.api_secret timestamp account.email account.api_key []))
        (some timestamp)

  -- The content of the new connection's channel.
  unfoldable pub after_stream : Option Text × Online → SyncResult (List ClientMessage) × Online
  unfolding authentication
  after_stream (some e, o) = (err (client (web_socket e)), o)
  after_stream (none, o) = (
    ok (authentication (o.client).now ∷ []),
    record o { client = record o.client { is_connected = true } },
  )

  unfoldable pub connect_with_hmac : Online → SyncResult (List ClientMessage) × Online
  unfolding connect_with_retry after_stream
  connect_with_hmac o = after_stream (connect_with_retry 3 o)

  unfoldable pub connect : Online → SyncResult (List ClientMessage) × Online
  unfolding connect_with_hmac
  connect o = connect_with_hmac o
