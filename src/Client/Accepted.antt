-- ===== src/Client/Accepted.antt =====
-- The first message of a connection (replicant-client/src/websocket.rs) in the hands of the server
-- (replicant-server/src/auth.rs and websocket.rs).
use replicant.Prelude.{
  ℕ, ◌≡◌, refl, subst, sym, true, false, ◌⊎◌, inl, inr, none, some, List, [], Text, text_eq_refl,
}
use replicant.Prelude.Int.{ℤ}
use replicant.Errors.{ok}
use replicant.Server.State.{Server, Library, query}
use replicant.Server.Auth.{
  ApiCredentials, AuthLibrary, in_window, starts_with_rpa, find_secret, find_email, is_known,
  compare_signature, look_up, verify_hmac, get_user_by_email, create_user,
}
use replicant.Server.Auth
use replicant.Server.Connection.{
  message, Connection, Next, goes_on, tx, welcome, after_create, after_find, after_verify,
  handle_authenticate, handle_client_message, handle_frame, open_connection,
}
use replicant.Server.Handler.Create.{set_user_id, set_client_id}
use replicant.Server.Registry.{Registered, welcome-Registered}
use replicant.Client.State.{ClientLibrary}
use replicant.Client.Socket.{Account, SocketLibrary, authentication, create_hmac_signature}

-- No query is going to fail.
abbrev pub calm : Server → Server
calm s = record s { faults = [] }

-- The user that the address stands for: one of the table, or one that can be added.
abbrev pub Stands : AuthLibrary → Text → ℕ → List (ℕ × Text) → Type 0
Stands auth email user users =
    (find_email email users ≡ some user)
    ⊎ ((find_email email users ≡ none)
        × (user ≡ auth.user_uuid email)
        × (is_known user email users ≡ false))

-- The frame is taken, and the connection is the client's.
abbrev pub Accepted : Connection → ℕ → ℕ → Next × Server → Type 0
Accepted conn user client r =
    (r.0
      ≡ goes_on (record {
        handler = record { tx = tx conn; user_id = some user; client_id = some client };
        authenticated_user_id = some user;
        authenticated_client_id = some client;
      }))
    × Registered user client (some (tx conn)) (r.1)

module _ (lib : Library) (auth : AuthLibrary) (credentials : List ApiCredentials) where
  -- The crates are those of the server.
  abbrev pub same_crates : SocketLibrary
  same_crates = record { hmac_hex = auth.hmac_hex; timestamp = auth.timestamp }

  welcome-Accepted :
      (conn : Connection) (user client : ℕ) (s : Server)
      → Accepted conn user client (welcome lib auth credentials conn user client s)
  unfolding welcome set_user_id set_client_id
  welcome-Accepted conn user client s =
      (refl, welcome-Registered lib auth credentials conn user client s)

  after_find-Accepted :
      (conn : Connection) (email : Text) (user client : ℕ) (s : Server)
      → Stands auth email user s.tables.users
      → Accepted conn user client
          (after_find lib auth credentials conn email client (get_user_by_email email (calm s)))
  unfolding after_find after_create get_user_by_email create_user query
  after_find-Accepted conn email user client s (inl known) =
      rw known (welcome-Accepted conn user client (calm s))
  after_find-Accepted conn email user client s (inr (new, same, free)) =
      rw (new, ← same, free) (welcome-Accepted conn user client _)

  module _ (email : Text) (api_key secret : Text) (body : Text) (timestamp : ℤ) where
    verify_hmac-signed :
        (s : Server)
        → find_secret api_key credentials ≡ some secret
        → starts_with_rpa api_key ≡ true
        → in_window (auth.timestamp s.now) timestamp ≡ true
        → verify_hmac auth credentials api_key
            (Auth.create_hmac_signature auth secret timestamp email api_key body)
            timestamp
            email
            body
            (calm s)
          ≡ (ok true, calm s)
    unfolding verify_hmac look_up compare_signature query
    verify_hmac-signed s key prefix window = rw (window, prefix, key, text_eq_refl _) refl

  -- The message that a client sends first on a connection is taken by the server: if the key begins
  -- with `rpa_`, the active credential of the key has the client's secret, the clocks differ by no
  -- more than the window, no query fails, both sides use the same crates, and the address is that
  -- of a user or of one that can be added, then the connection becomes that user's and that
  -- client's, and the client is registered with its channel.
  pub handle_frame-authentication :
      (lib' : ClientLibrary) (account : Account) (now ch user : ℕ) (s : Server)
      → find_secret account.api_key credentials ≡ some account.api_secret
      → starts_with_rpa account.api_key ≡ true
      → in_window (auth.timestamp s.now) (auth.timestamp now) ≡ true
      → Stands auth account.email user s.tables.users
      → Accepted (open_connection ch) user account.client_id (
          handle_frame lib auth credentials
            (open_connection ch)
            (message (authentication lib' same_crates account now))
            (calm s))
  unfolding handle_frame handle_client_message handle_authenticate authentication
      create_hmac_signature after_verify Auth.create_hmac_signature
  handle_frame-authentication lib' account now ch user s key prefix window stands =
      subst
        (λ r. Accepted (open_connection ch) user account.client_id (
          after_verify lib auth credentials (open_connection ch) account.email account.client_id r))
        (sym (
          verify_hmac-signed account.email account.api_key account.api_secret []
            (auth.timestamp now) s key prefix window))
        (after_find-Accepted (open_connection ch) account.email user account.client_id s stands)
