-- ===== src/Server/ConnectionExamples.antt =====
-- The checks of a connection, with a stand-in for the hash that puts its key and its message together.
use replicant.Prelude.{
  ◌≡◌, ◌≢◌, refl, true, Option, none, some, ap, sym, ◌∙◌, ℕ, List, [], ◌∷◌, ◌++◌, codes, Text,
  arith, text_eq,
}
use replicant.Prelude.Int.{pos, negsuc, show_int}
use replicant.Json.{null}
use replicant.Protocol.{authenticate, request_full_sync}
use replicant.Sample.{sample_json}
use replicant.Server.State.{Server, Library}
use replicant.Server.Auth.{
  ApiCredentials, AuthLibrary, sub_i64, abs_i64, in_window, find_secret, create_hmac_signature,
  verify_hmac,
}
use replicant.Server.Connection.{
  Frame, message, welcome, after_frame, handle_frames, open_connection, handle_websocket,
}
use replicant.Server.Registry.{Registered, SameOthers, handle_frames-welcome}
use replicant.Server.Forged.{Untouched, handle_websocket-Forged}
use replicant.Server.Verify.{Answers}
use replicant.Server.Accepts.{InTime, HasPrefix, SignedBy, verify_hmac_iff}

abbrev pub auth : AuthLibrary
auth = record {
  hmac_hex = λ key m. key ++ m;
  timestamp = pos;
  user_uuid = λ email. 7;
  session_uuid = λ t. t;
}

abbrev pub key : Text
key = codes "rpa_1"

abbrev pub credentials : List ApiCredentials
credentials = record { api_key = key; secret = codes "s"; is_active = true } ∷ []

abbrev pub lib : Library
lib = record {
  json = sample_json;
  document_to_value = λ d. d.content;
  patch_to_value = λ p. null;
  show_error = λ e. codes "error";
  format_time = λ t. codes "2024-01-01";
}

abbrev pub server : Server
server = record {
  tables = record { users = []; documents = []; change_events = [] };
  next_sequence = 1;
  faults = [];
  now = 1_000;
  channels = record { id = 0; is_open = true; sent = [] } ∷ [];
  clients = [];
  user_clients = [];
}

verify_hmac_iff_example :
    Answers
      ((verify_hmac auth credentials key
        (codes "s1000.a@b.rpa_1.")
        (pos 1_000)
        (codes "a@b")
        []
        (record server { faults = [] })).0)
      (InTime 1_000 1_000
        × HasPrefix key
        × SignedBy auth credentials key (codes "s1000.a@b.rpa_1.") 1_000 (codes "a@b") [])
verify_hmac_iff_example =
    verify_hmac_iff auth credentials key (codes "s1000.a@b.rpa_1.") (codes "a@b") []
      (λ d p. absurd p, tt) server 1_000 1_000 refl (omega arith) (omega arith)

-- A signature of one character, which the key's secret does not make.
abbrev pub forged : List Frame
forged =
    message (authenticate (codes "a@b") 5 (some key) (some (codes "x")) (some (pos 1_000)))
    ∷ message request_full_sync
    ∷ []

abbrev text_of : Option Text → Text
text_of none = []
text_of (some t) = t

abbrev first_code : Text → ℕ
first_code [] = 0
first_code (c ∷ t) = c

pub not_signed :
    (secret : Text)
    → find_secret key credentials ≡ some secret
    → codes "x" ≢ create_hmac_signature auth secret (pos 1_000) (codes "a@b") key []
unfolding find_secret text_eq create_hmac_signature
not_signed secret e q =
    let same : secret ≡ codes "s" = sym (ap text_of e) in
    let first : ◌≡◌ {A = ℕ} 120 115 =
      ap first_code
        (q ∙ ap (λ z. create_hmac_signature auth z (pos 1_000) (codes "a@b") key []) same) in
    omega arith

handle_websocket-Forged_example :
    Untouched server (handle_websocket lib auth credentials 0 forged server)
handle_websocket-Forged_example =
    handle_websocket-Forged lib auth credentials 0 forged server (not_signed, (tt, tt))

-- A difference of -2^63, whose absolute value wraps.
in_window_wraps : in_window (pos 0) (negsuc (9_223_372_036_854_775_807)) ≡ true
unfolding in_window sub_i64 abs_i64
in_window_wraps = refl

-- A connection that authenticates as two clients of one user: its end removes the second only.
first_client_stays :
    (handle_websocket lib auth credentials 0
      (message (
          authenticate
            (codes "a@b")
            5
            (some key)
            (some (codes "s1000.a@b.rpa_1."))
            (some (pos 1_000)))
        ∷ message (
            authenticate
              (codes "a@b")
              6
              (some key)
              (some (codes "s1000.a@b.rpa_1."))
              (some (pos 1_000)))
        ∷ [])
      server).clients
    ≡ ((7, 5), 0) ∷ []
unfolding handle_websocket text_eq show_int
first_client_stays = refl

handle_frames-welcome_example :
    Registered 7 5 (some 0) ((welcome lib auth credentials (open_connection 0) 7 5 server).1)
    × Registered 7 5 none (
        after_frame
          (handle_frames lib auth credentials [])
          (welcome lib auth credentials (open_connection 0) 7 5 server))
    × SameOthers 7 5 server (
        after_frame
          (handle_frames lib auth credentials [])
          (welcome lib auth credentials (open_connection 0) 7 5 server))
unfolding open_connection
handle_frames-welcome_example =
    handle_frames-welcome lib auth credentials (open_connection 0) 7 5 server
