-- ===== src/Server/Connection.antt =====
-- replicant-server/src/websocket.rs: the life of one connection, from its frames, one after the
-- other with nothing else on the server between them. What the socket's sender task forwards is what
-- stands in the connection's channel; the table of active connections, which nothing reads or fills,
-- is left out, and so is monitoring.
use replicant.Prelude.{
  ℕ, Bool, true, false, Option, none, some, List, [], ◌∷◌, ◌++◌, Text, codes, if◌then◌else◌, ◌==◌,
  ◌||◌,
}
use replicant.Prelude.Int.{ℤ}
use replicant.Errors.{SyncResult, ok, err}
use replicant.Protocol.{
  ClientMessage, authenticate, ServerMessage, auth_success, auth_error, error, server_error,
  invalid_message,
}
use replicant.Server.State.{Server, Library, query}
use replicant.Server.Broadcast.{send, remove_client, prune_user}
use replicant.Server.Handler.Create.{SyncHandler, set_user_id, set_client_id}
use replicant.Server.Handler.{handle_message}
use replicant.Server.Auth.{ApiCredentials, AuthLibrary, verify_hmac, get_user_by_email, create_user}

-- A frame: a message, a text that is none with the parser's error, or anything else.
pub data Frame : Type 0 where
  message : ClientMessage → Frame
  unparsable : Text → Frame
  other_frame : Frame

pub record Connection : Type 0 where
  pub handler : SyncHandler
  pub authenticated_user_id : Option ℕ
  pub authenticated_client_id : Option ℕ

-- The connection behind a frame, and whether the loop goes on.
pub data Next : Type 0 where
  goes_on ends : Connection → Next

-- `let _ = tx.send(…).await`
unfoldable pub notify : ℕ → ServerMessage → Server → Server
unfolding send
notify tx msg s = (send tx msg s).1

-- `clients.insert((user_id, client_id), tx)`
unfoldable pub register_client : ℕ × ℕ → ℕ → List ((ℕ × ℕ) × ℕ) → List ((ℕ × ℕ) × ℕ)
unfolding remove_client
register_client key tx clients = (key, tx) ∷ remove_client key clients

abbrev pub has_id : ℕ → List ℕ → Bool
has_id id [] = false
has_id id (i ∷ ids) = (i == id) || has_id id ids

-- `user_clients.entry(user_id)`
unfoldable pub add_user_client : ℕ → ℕ → List (ℕ × List ℕ) → List (ℕ × List ℕ)
add_user_client user client [] = (user, client ∷ []) ∷ []
add_user_client user client ((u, ids) ∷ us) =
    let rest = add_user_client user client us in
    if u == user then (u, if has_id client ids then ids else client ∷ ids) ∷ us else (u, ids) ∷ rest

abbrev pub tx : Connection → ℕ
tx conn = (conn.handler).tx

unfoldable pub refuse : Connection → Text → Server → Next × Server
unfolding notify
refuse conn reason s = (ends conn, notify (tx conn) (auth_error reason) s)

-- The connection is closed: its registration is removed, whether the query before succeeds or not.
unfoldable pub deregister : Option ℕ → Option ℕ → Server → Server
unfolding query remove_client prune_user
deregister (some user_id) (some client_id) s =
    let t = (query s).1 in
    record t {
      clients = remove_client (user_id, client_id) t.clients;
      user_clients = prune_user user_id (client_id ∷ []) t.user_clients;
    }
deregister _ _ s = s

unfoldable pub clean_up : Connection → Server → Server
unfolding deregister
clean_up conn s = deregister conn.authenticated_user_id conn.authenticated_client_id s

unfoldable pub after_frame : (Connection → Server → Server) → Next × Server → Server
unfolding clean_up
after_frame rest (goes_on conn, s) = rest conn s
after_frame rest (ends conn, s) = clean_up conn s

module _ (lib : Library) (auth : AuthLibrary) (credentials : List ApiCredentials) where
  unfoldable pub welcome : Connection → ℕ → ℕ → Server → Next × Server
  unfolding notify register_client add_user_client set_user_id set_client_id
  welcome conn user_id client_id s = (
    goes_on (record {
      handler = set_client_id (set_user_id conn.handler user_id) client_id;
      authenticated_user_id = some user_id;
      authenticated_client_id = some client_id;
    }),
    notify (tx conn) (auth_success (auth.session_uuid s.now) client_id) (record s {
      clients = register_client (user_id, client_id) (tx conn) s.clients;
      user_clients = add_user_client user_id client_id s.user_clients;
    }),
  )

  unfoldable pub after_create : Connection → ℕ → SyncResult ℕ × Server → Next × Server
  unfolding refuse welcome
  after_create conn client_id (ok user_id, s) = welcome conn user_id client_id s
  after_create conn client_id (err e, s) = refuse conn (codes "Failed to create user") s

  unfoldable pub after_find : Connection → Text → ℕ → SyncResult (Option ℕ) × Server → Next × Server
  unfolding refuse welcome after_create create_user
  after_find conn email client_id (ok (some user_id), s) = welcome conn user_id client_id s
  after_find conn email client_id (ok none, s) =
      after_create conn client_id (create_user auth email s)
  after_find conn email client_id (err e, s) = refuse conn (codes "Database error") s

  unfoldable pub after_verify : Connection → Text → ℕ → SyncResult Bool × Server → Next × Server
  unfolding refuse after_find get_user_by_email
  after_verify conn email client_id (ok true, s) =
      after_find conn email client_id (get_user_by_email email s)
  after_verify conn email client_id (ok false, s) = refuse conn (codes "Invalid credentials") s
  after_verify conn email client_id (err e, s) =
      refuse conn (codes "Authentication service temporarily unavailable") s

  unfoldable pub handle_authenticate :
      Connection → Text → ℕ → Option Text → Option Text → Option ℤ → Server → Next × Server
  unfolding refuse after_verify verify_hmac
  handle_authenticate conn email client_id (some api_key) (some signature) (some timestamp) s =
      after_verify conn email client_id
        (verify_hmac auth credentials api_key signature timestamp email [] s)
  handle_authenticate conn email client_id _ _ _ s =
      refuse conn (codes "Missing required authentication fields") s

  -- An error of the handler is reported to the client.
  unfoldable pub report : Connection → SyncResult (Unit {0}) × Server → Next × Server
  unfolding notify
  report conn (ok u, s) = (goes_on conn, s)
  report conn (err e, s) = (
    goes_on conn,
    notify (tx conn) (error server_error (codes "Failed to process message: " ++ lib.show_error e))
        s,
  )

  unfoldable pub handle_other : Connection → Option ℕ → ClientMessage → Server → Next × Server
  unfolding refuse report handle_message
  handle_other conn none msg s = refuse conn (codes "Not authenticated") s
  handle_other conn (some user_id) msg s = report conn (handle_message lib conn.handler msg s)

  unfoldable pub handle_client_message : Connection → ClientMessage → Server → Next × Server
  unfolding handle_authenticate handle_other
  handle_client_message conn (authenticate email client_id api_key signature timestamp) s =
      handle_authenticate conn email client_id api_key signature timestamp s
  handle_client_message conn msg s = handle_other conn conn.authenticated_user_id msg s

  unfoldable pub handle_frame : Connection → Frame → Server → Next × Server
  unfolding handle_client_message notify
  handle_frame conn (message msg) s = handle_client_message conn msg s
  handle_frame conn (unparsable reason) s =
      (goes_on conn, notify (tx conn) (error invalid_message (codes "Invalid JSON: " ++ reason)) s)
  handle_frame conn other_frame s = (goes_on conn, s)

  -- The loop over the frames, and what follows it.
  unfoldable pub handle_frames : List Frame → Connection → Server → Server
  unfolding handle_frame clean_up after_frame
  handle_frames [] conn s = clean_up conn s
  handle_frames (f ∷ fs) conn s = after_frame (handle_frames fs) (handle_frame conn f s)

unfoldable pub open_connection : ℕ → Connection
open_connection tx = record {
  handler = record { tx = tx; user_id = none; client_id = none };
  authenticated_user_id = none;
  authenticated_client_id = none;
}

unfoldable pub handle_websocket :
    Library → AuthLibrary → List ApiCredentials → ℕ → List Frame → Server → Server
unfolding handle_frames open_connection
handle_websocket lib auth credentials tx frames s =
    handle_frames lib auth credentials frames (open_connection tx) s
