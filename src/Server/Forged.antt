-- ===== src/Server/Forged.antt =====
-- Connections on which no credential is shown (replicant-server/src/websocket.rs and auth.rs).
use replicant.Prelude.{
  ℕ, ◌≡◌, ◌≢◌, refl, sym, ap, subst, ◌∙◌, Bool, true, false, ◌⊎◌, inl, inr, Option, none, some,
  List, [], ◌∷◌, Text, text_eq, text_eq-eq, if◌then◌else◌, Bool-cases, All, ◌&&◌, arith,
}
use replicant.Prelude.Int.{ℤ}
use replicant.Errors.{DbError, SyncError, SyncResult, ok, err}
use replicant.Protocol.{
  auth_error, authenticate, create_document, update_document, delete_document, request_sync,
  request_full_sync, get_changes_since, ack_changes, ping, ServerMessage,
}
use replicant.Server.State.{Server, Library, M, next, outcome, query, fault}
use replicant.Server.Broadcast.{is_open, send}
use replicant.Server.Auth.{
  ApiCredentials, AuthLibrary, in_window, starts_with_rpa, find_secret, create_hmac_signature,
  compare_signature, look_up, verify_hmac,
}
use replicant.Server.Connection.{
  tx, deregister, Frame, message, unparsable, other_frame, Connection, Next, goes_on, ends, notify,
  refuse, after_verify, handle_authenticate, handle_other, handle_client_message, handle_frame,
  clean_up, after_frame, handle_frames, open_connection, handle_websocket,
}

-- Tables and registry are the same.
abbrev pub Untouched : Server → Server → Type 0
Untouched s t = (t.tables ≡ s.tables) × (t.clients ≡ s.clients) × (t.user_clients ≡ s.user_clients)

Untouched-trans : (s t u : Server) → Untouched s t → Untouched t u → Untouched s u
Untouched-trans s t u (a, b, c) (d, e, f) = (d ∙ a, e ∙ b, f ∙ c)

module _ (auth : AuthLibrary) (credentials : List ApiCredentials) where
  -- If the frame is an attempt to authenticate, its signature is not that of the key's secret.
  abbrev pub Forged : Frame → Type 0
  Forged (message (authenticate email client_id (some api_key) (some signature) (some timestamp))) =
      (secret : Text)
      → find_secret api_key credentials ≡ some secret
      → signature ≢ create_hmac_signature auth secret timestamp email api_key []
  Forged _ = Unit

  -- A verification that has not accepted.
  abbrev Rejects : Server → SyncResult Bool × Server → Type 0
  Rejects s r = ((r.0 ≡ ok false) ⊎ ((e : SyncError) × (r.0 ≡ err e))) × Untouched s (r.1)

  next-Rejects :
      (s : Server) (o : Option DbError) (t : Server) (m : M Bool)
      → Untouched s t
      → Rejects s (m t)
      → Rejects s (next (outcome o t) (λ _. m))
  next-Rejects s none t m u h = h
  next-Rejects s (some e) t m u h = (inr (_, refl), u)

  module _ (api_key signature : Text) (timestamp : ℤ) (email : Text)
      (forged : (secret : Text)
        → find_secret api_key credentials ≡ some secret
        → signature ≢ create_hmac_signature auth secret timestamp email api_key []) where
    compare-Rejects :
        (o : Option Text) (s t : Server)
        → Untouched s t
        → find_secret api_key credentials ≡ o
        → Rejects s (compare_signature auth credentials api_key signature timestamp email [] o t)
    unfolding compare_signature
    compare-Rejects none s t u e = (inl refl, u)
    compare-Rejects (some secret) s t u e =
        elim (Bool-cases
          (text_eq signature (create_hmac_signature auth secret timestamp email api_key []))) [
            | inl y ↦ absurd (forged secret e (text_eq-eq _ _ y))
            | inr n ↦ rw n (inl refl, u)
          ]

    look_up-Rejects :
        (b : Bool) (s : Server)
        → Rejects s (look_up auth credentials api_key signature timestamp email [] b s)
    unfolding look_up query
    look_up-Rejects false s = (inl refl, (refl, refl, refl))
    look_up-Rejects true s =
        next-Rejects s (fault s.faults) _ _ (refl, refl, refl)
          (compare-Rejects (find_secret api_key credentials) s _ (refl, refl, refl) refl)

    verify_hmac-Rejects :
        (s : Server)
        → Rejects s (verify_hmac auth credentials api_key signature timestamp email [] s)
    unfolding verify_hmac
    verify_hmac-Rejects s =
        look_up-Rejects (in_window (auth.timestamp s.now) timestamp && starts_with_rpa api_key) s

if-Untouched :
    (s : Server) (b : Bool) (x y : SyncResult (Unit {0}) × Server)
    → Untouched s (x.1)
    → Untouched s (y.1)
    → Untouched s ((if b then x else y).1)
if-Untouched s true x y hx hy = hx
if-Untouched s false x y hx hy = hy

pub notify-Untouched : (ch : ℕ) (msg : ServerMessage) (s : Server) → Untouched s (notify ch msg s)
unfolding notify send
notify-Untouched ch msg s =
    if-Untouched s (is_open ch s.channels) _ _ (refl, refl, refl) (refl, refl, refl)

-- The connection stays as it is, open or closed, and so do tables and registry.
abbrev pub Idle : Connection → Server → Next × Server → Type 0
Idle conn s r = ((r.0 ≡ goes_on conn) ⊎ (r.0 ≡ ends conn)) × Untouched s (r.1)

refuse-Idle :
    (conn : Connection) (reason : Text) (s t : Server)
    → Untouched s t
    → Idle conn s (refuse conn reason t)
unfolding refuse
refuse-Idle conn reason s t u = (
  inr refl,
  Untouched-trans s t (notify (tx conn) (auth_error reason) t) u
      (notify-Untouched (tx conn) (auth_error reason) t),
)

module _ (lib : Library) (auth : AuthLibrary) (credentials : List ApiCredentials) where
  after_verify-Idle :
      (conn : Connection) (email : Text) (client_id : ℕ) (s : Server) (r : SyncResult Bool × Server)
      → Rejects auth credentials s r
      → Idle conn s (after_verify lib auth credentials conn email client_id r)
  unfolding after_verify
  after_verify-Idle conn email client_id s (ok false, t) (_, u) = refuse-Idle conn _ s t u
  after_verify-Idle conn email client_id s (err e, t) (_, u) = refuse-Idle conn _ s t u
  after_verify-Idle conn email client_id s (ok true, t) (inl p, u) = ground (arith, p)
  after_verify-Idle conn email client_id s (ok true, t) (inr (e, p), u) = ground (arith, p)

  pub authenticate-Idle :
      (conn : Connection) (email : Text) (client_id : ℕ) (k g : Option Text) (t : Option ℤ)
      (s : Server)
      → Forged auth credentials (message (authenticate email client_id k g t))
      → Idle conn s (handle_authenticate lib auth credentials conn email client_id k g t s)
  unfolding handle_authenticate
  authenticate-Idle conn email client_id (some k) (some g) (some t) s forged =
      after_verify-Idle conn email client_id s _
        (verify_hmac-Rejects auth credentials k g t email forged s)
  authenticate-Idle conn email client_id none g t s forged =
      refuse-Idle conn _ s s (refl, refl, refl)
  authenticate-Idle conn email client_id (some k) none t s forged =
      refuse-Idle conn _ s s (refl, refl, refl)
  authenticate-Idle conn email client_id (some k) (some g) none s forged =
      refuse-Idle conn _ s s (refl, refl, refl)

  frame-Idle :
      (ch : ℕ) (f : Frame) (s : Server)
      → Forged auth credentials f
      → Idle (open_connection ch) s (handle_frame lib auth credentials (open_connection ch) f s)
  unfolding handle_frame handle_client_message handle_other open_connection
  frame-Idle ch (message (authenticate email client_id k g t)) s forged =
      authenticate-Idle _ email client_id k g t s forged
  frame-Idle ch (message (create_document d)) s forged = refuse-Idle _ _ s s (refl, refl, refl)
  frame-Idle ch (message (update_document p)) s forged = refuse-Idle _ _ s s (refl, refl, refl)
  frame-Idle ch (message (delete_document d)) s forged = refuse-Idle _ _ s s (refl, refl, refl)
  frame-Idle ch (message (request_sync d)) s forged = refuse-Idle _ _ s s (refl, refl, refl)
  frame-Idle ch (message request_full_sync) s forged = refuse-Idle _ _ s s (refl, refl, refl)
  frame-Idle ch (message (get_changes_since a b)) s forged = refuse-Idle _ _ s s (refl, refl, refl)
  frame-Idle ch (message (ack_changes a)) s forged = refuse-Idle _ _ s s (refl, refl, refl)
  frame-Idle ch (message ping) s forged = refuse-Idle _ _ s s (refl, refl, refl)
  frame-Idle ch (unparsable reason) s forged = (inl refl, notify-Untouched _ _ s)
  frame-Idle ch other_frame s forged = (inl refl, (refl, refl, refl))

  frames-Untouched :
      (ch : ℕ) (fs : List Frame) (s : Server)
      → All (Forged auth credentials) fs
      → Untouched s (handle_frames lib auth credentials fs (open_connection ch) s)
  unfolding handle_frames after_frame clean_up deregister open_connection
  frames-Untouched ch [] s h = (refl, refl, refl)
  frames-Untouched ch (f ∷ fs) s (h, hs) =
      let conn = open_connection ch in
      let step = handle_frame lib auth credentials conn f s in
      let rest = handle_frames lib auth credentials fs in
      let idle = frame-Idle ch f s h in
      elim idle.0 [
        | inl go ↦
            subst (Untouched s) (sym (ap (λ (n : Next). after_frame rest (n, step.1)) go)) (
              Untouched-trans s step.1 (rest conn step.1) idle.1 (frames-Untouched ch fs step.1 hs))
        | inr stop ↦
            subst (Untouched s) (sym (ap (λ (n : Next). after_frame rest (n, step.1)) stop)) idle.1
      ]

  -- Whatever frames a connection sends, and whichever queries fail: if each attempt to authenticate
  -- among them that gives a key, a signature and a time has a signature other than the one that the
  -- secret of the key's active credential makes, then the tables and the registry of connections
  -- are at the end as they were.
  pub handle_websocket-Forged :
      (ch : ℕ) (frames : List Frame) (s : Server)
      → All (Forged auth credentials) frames
      → Untouched s (handle_websocket lib auth credentials ch frames s)
  unfolding handle_websocket
  handle_websocket-Forged ch frames s h = frames-Untouched ch frames s h
