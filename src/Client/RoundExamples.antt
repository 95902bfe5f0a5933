-- ===== src/Client/RoundExamples.antt =====
-- The theorems on lost connections and on authentication, on the client of the other examples.
use replicant.Prelude.{
  ◌≡◌, refl, true, false, Option, none, some, List, [], ◌∷◌, map, codes, Text, inr, text_eq,
}
use replicant.Server.Auth.{find_secret, starts_with_rpa, in_window, find_email}
use replicant.Server.Connection.{message, open_connection, handle_frame}
use replicant.Server.ConnectionExamples.{auth, credentials, key, server}
use replicant.Server.ConnectionExamples
use replicant.Client.Socket.{Account, SocketLibrary, authentication}
use replicant.Client.Reconnect.{Watch, client_of, reconnection_round, take_trigger}
use replicant.Client.Accepted.{Accepted, same_crates, calm, handle_frame-authentication}
use replicant.Client.Rounds.{reaches}
use replicant.Client.Rounds.Back.{rounds, IsBack, rounds-IsBack}
use replicant.Client.Rounds.Resync.{Resent, take_trigger-reconnection_round}
use replicant.Client.Examples.{lib, device}

abbrev account : Account
account = record { email = codes "a@b"; client_id = 5; api_key = key; api_secret = codes "s" }

known_key : find_secret account.api_key credentials ≡ some account.api_secret
unfolding find_secret text_eq
known_key = refl

prefix : starts_with_rpa account.api_key ≡ true
unfolding starts_with_rpa
prefix = refl

in_time : in_window (auth.timestamp server.now) (auth.timestamp 1_100) ≡ true
unfolding in_window
in_time = refl

no_user : find_email account.email server.tables.users ≡ none
unfolding find_email
no_user = refl

handle_frame-authentication_example : Accepted (open_connection 0) 7 5 (
    handle_frame ConnectionExamples.lib auth credentials
      (open_connection 0)
      (message
        (authentication lib (same_crates ConnectionExamples.lib auth credentials) account 1_100))
      (calm server))
handle_frame-authentication_example =
    handle_frame-authentication ConnectionExamples.lib auth credentials lib account 1_100 0 7 server
      known_key prefix in_time (inr (no_user, refl, refl))

abbrev socket : SocketLibrary
socket = record { hmac_hex = auth.hmac_hex; timestamp = auth.timestamp }

-- The connection is lost, and the first attempts fail.
abbrev failures : List Text
failures = codes "a" ∷ codes "b" ∷ codes "c" ∷ codes "d" ∷ codes "e" ∷ []

abbrev lost : List (Option Text) → Watch
unfolding device
lost network = record {
  online = record {
    client = record device { is_connected = false; ws_client = some false };
    network = network;
  };
  last_ping_time = some 20;
  connection_attempts = 2;
  sync_triggers = 0;
}

rounds-IsBack_example :
    IsBack lib socket account 10
      (lost (map some failures))
      (rounds lib socket account 10 2 (lost (map some failures)))
unfolding lost device
rounds-IsBack_example =
    rounds-IsBack lib socket account 10 failures (lost (map some failures)) refl refl

take_trigger-reconnection_round_example :
    Resent
      (client_of (lost (some (codes "a") ∷ [])))
      (authentication lib socket account (client_of (lost (some (codes "a") ∷ []))).now ∷ [])
      (client_of (
        take_trigger lib socket account 10
          (reconnection_round lib socket account 10 (lost (some (codes "a") ∷ []))))).sent
unfolding lost device reaches
take_trigger-reconnection_round_example =
    take_trigger-reconnection_round lib socket account 10 (lost (some (codes "a") ∷ [])) refl refl
      refl
