-- ===== src/Server/Registry.antt =====
-- The registry of connections, from a connection's acceptance to its end
-- (replicant-server/src/websocket.rs).
use replicant.Prelude.{
  ℕ, ◌≡◌, ◌≢◌, refl, ap, ◌∙◌, Bool, true, false, ◌⊎◌, Option, none, some, List, [], ◌∷◌, ◌==◌,
  ==_refl, ◌&&◌, ◌||◌, arith,
}
use replicant.Server.State.{Server, Library, query, outcome, fault, later}
use replicant.Errors.{DbError}
use replicant.Server.Broadcast.{
  find_client, remove_client, remove_id, is_empty, remove_ids, prune_user,
}
use replicant.Server.Auth.{ApiCredentials, AuthLibrary}
use replicant.Protocol.{auth_success}
use replicant.Server.Forged.{notify-Untouched}
use replicant.Server.Connection.{
  Connection, register_client, add_user_client, has_id, tx, notify, welcome, deregister, clean_up,
  after_frame, handle_frames,
}

-- The user's set has the client.
unfoldable pub is_listed : ℕ → ℕ → List (ℕ × List ℕ) → Bool
is_listed user client [] = false
is_listed user client ((u, ids) ∷ us) =
    ((u == user) && has_id client ids) || is_listed user client us

-- Two users or two clients.
abbrev pub Differ : ℕ × ℕ → ℕ × ℕ → Type 0
Differ (u, c) (v, d) = (u ≢ v) ⊎ (c ≢ d)

find_client-remove_client :
    (u c : ℕ) (cs : List ((ℕ × ℕ) × ℕ)) → find_client (u, c) (remove_client (u, c) cs) ≡ none
unfolding find_client remove_client
find_client-remove_client u c [] = refl
find_client-remove_client u c (((v, d), ch) ∷ cs) = ground (arith, find_client-remove_client u c cs)

find_client-remove_other :
    (u c v d : ℕ) (cs : List ((ℕ × ℕ) × ℕ))
    → Differ (v, d) (u, c)
    → find_client (v, d) (remove_client (u, c) cs) ≡ find_client (v, d) cs
unfolding find_client remove_client
find_client-remove_other u c v d [] h = refl
find_client-remove_other u c v d (((w, e), ch) ∷ cs) h =
    ground (arith, h, find_client-remove_other u c v d cs h)

find_client-register_other :
    (u c v d ch : ℕ) (cs : List ((ℕ × ℕ) × ℕ))
    → Differ (v, d) (u, c)
    → find_client (v, d) (register_client (u, c) ch cs) ≡ find_client (v, d) cs
unfolding find_client register_client
find_client-register_other u c v d ch cs h =
    ground (arith, h, find_client-remove_other u c v d cs h)

has_id-remove_id : (c : ℕ) (ids : List ℕ) → has_id c (remove_id c ids) ≡ false
unfolding remove_id
has_id-remove_id c [] = refl
has_id-remove_id c (i ∷ ids) = ground (arith, has_id-remove_id c ids)

has_id-remove_other : (c d : ℕ) (ids : List ℕ) → d ≢ c → has_id d (remove_id c ids) ≡ has_id d ids
unfolding remove_id
has_id-remove_other c d [] h = refl
has_id-remove_other c d (i ∷ ids) h = ground (arith, has_id-remove_other c d ids h)

empty-has_id : (d : ℕ) (ids : List ℕ) → is_empty ids ≡ true → has_id d ids ≡ false
empty-has_id d [] h = refl
empty-has_id d (i ∷ ids) h = ground (arith, h)

is_listed-prune_user :
    (u c : ℕ) (us : List (ℕ × List ℕ)) → is_listed u c (prune_user u (c ∷ []) us) ≡ false
unfolding is_listed prune_user remove_ids
is_listed-prune_user u c [] = refl
is_listed-prune_user u c ((v, ids) ∷ us) =
    ground (arith, is_listed-prune_user u c us, has_id-remove_id c ids)

is_listed-prune_other :
    (u c v d : ℕ) (us : List (ℕ × List ℕ))
    → Differ (v, d) (u, c)
    → is_listed v d (prune_user u (c ∷ []) us) ≡ is_listed v d us
unfolding is_listed prune_user remove_ids
is_listed-prune_other u c v d [] h = refl
is_listed-prune_other u c v d ((w, ids) ∷ us) h = ground (
  arith,
  h,
  is_listed-prune_other u c v d us h,
  has_id-remove_other c d ids,
  empty-has_id d (remove_id c ids),
)

is_listed-add_other :
    (u c v d : ℕ) (us : List (ℕ × List ℕ))
    → Differ (v, d) (u, c)
    → is_listed v d (add_user_client u c us) ≡ is_listed v d us
unfolding is_listed add_user_client
is_listed-add_other u c v d [] h = ground (arith, h)
is_listed-add_other u c v d ((w, ids) ∷ us) h = ground (arith, h, is_listed-add_other u c v d us h)

is_listed-add_user_client :
    (u c : ℕ) (us : List (ℕ × List ℕ)) → is_listed u c (add_user_client u c us) ≡ true
unfolding is_listed add_user_client
is_listed-add_user_client u c [] = ground arith
is_listed-add_user_client u c ((w, ids) ∷ us) = ground (arith, is_listed-add_user_client u c us)

-- The client has its channel and stands in its user's set, or it is in neither.
abbrev pub Registered : ℕ → ℕ → Option ℕ → Server → Type 0
Registered user client (some ch) s =
    (find_client (user, client) s.clients ≡ some ch) × (is_listed user client s.user_clients ≡ true)
Registered user client none s =
    (find_client (user, client) s.clients ≡ none) × (is_listed user client s.user_clients ≡ false)

-- The registrations of all other clients are the same.
abbrev pub SameOthers : ℕ → ℕ → Server → Server → Type 0
SameOthers user client s t =
    (v d : ℕ)
    → Differ (v, d) (user, client)
    → (find_client (v, d) t.clients ≡ find_client (v, d) s.clients)
      × (is_listed v d t.user_clients ≡ is_listed v d s.user_clients)

outcome_keeps :
    (o : Option DbError) (t : Server)
    → (((outcome o t).1).clients ≡ t.clients) × (((outcome o t).1).user_clients ≡ t.user_clients)
outcome_keeps none t = (refl, refl)
outcome_keeps (some e) t = (refl, refl)

deregister_removes :
    (u c : ℕ) (t : Server)
    → ((deregister (some u) (some c) t).clients ≡ remove_client (u, c) t.clients)
      × ((deregister (some u) (some c) t).user_clients ≡ prune_user u (c ∷ []) t.user_clients)
unfolding deregister query
deregister_removes u c t =
    let (clients, users) = outcome_keeps (fault t.faults) (record t { faults = later t.faults }) in
    (ap (remove_client (u, c)) clients, ap (prune_user u (c ∷ [])) users)

module _ (lib : Library) (auth : AuthLibrary) (credentials : List ApiCredentials)
    (conn : Connection) (user_id client_id : ℕ) (s : Server) where
  abbrev registered : Server
  registered = record s {
    clients = register_client (user_id, client_id) (tx conn) s.clients;
    user_clients = add_user_client user_id client_id s.user_clients;
  }

  abbrev accepted : Server
  accepted = notify (tx conn) (auth_success (auth.session_uuid s.now) client_id) registered

  accepted-Untouched :
      (accepted.tables ≡ s.tables)
      × (accepted.clients ≡ register_client (user_id, client_id) (tx conn) s.clients)
      × (accepted.user_clients ≡ add_user_client user_id client_id s.user_clients)
  accepted-Untouched = notify-Untouched (tx conn) _ registered

  pub welcome-Registered :
      Registered user_id client_id
        (some (tx conn))
        ((welcome lib auth credentials conn user_id client_id s).1)
  unfolding welcome register_client find_client
  welcome-Registered =
      let (_, clients, users) = accepted-Untouched in
      rw (clients, users, ==_refl user_id, ==_refl client_id)
        (refl, is_listed-add_user_client user_id client_id s.user_clients)

  abbrev closed : Server
  closed =
      after_frame (handle_frames lib auth credentials [])
        (welcome lib auth credentials conn user_id client_id s)

  closed-Removed :
      (closed.clients ≡ remove_client (user_id, client_id) accepted.clients)
      × (closed.user_clients ≡ prune_user user_id (client_id ∷ []) accepted.user_clients)
  unfolding welcome handle_frames after_frame clean_up
  closed-Removed = deregister_removes user_id client_id accepted

  closed-Registered : Registered user_id client_id none closed
  closed-Registered =
      let (clients, users) = closed-Removed in
      (
        ap (find_client (user_id, client_id)) clients
            ∙ find_client-remove_client user_id client_id accepted.clients,
        ap (is_listed user_id client_id) users
            ∙ is_listed-prune_user user_id client_id accepted.user_clients,
      )

  closed-SameOthers : SameOthers user_id client_id s closed
  closed-SameOthers v d h =
      let (_, clients, users) = accepted-Untouched in
      let (fewer, listed) = closed-Removed in
      (
        ap (find_client (v, d)) fewer
            ∙ find_client-remove_other user_id client_id v d accepted.clients h
            ∙ ap (find_client (v, d)) clients
            ∙ find_client-register_other user_id client_id v d (tx conn) s.clients h,
        ap (is_listed v d) listed
            ∙ is_listed-prune_other user_id client_id v d accepted.user_clients h
            ∙ ap (is_listed v d) users
            ∙ is_listed-add_other user_id client_id v d s.user_clients h,
      )

  -- When a client is accepted on a connection, the connection's channel is registered for it and
  -- its user's set has it; if the frames then end, it is in neither, whether or not the query in
  -- between fails, and the registrations of all other clients are as they were before it was
  -- accepted.
  pub handle_frames-welcome :
      Registered user_id client_id
        (some (tx conn))
        ((welcome lib auth credentials conn user_id client_id s).1)
      × Registered user_id client_id none (
          after_frame
            (handle_frames lib auth credentials [])
            (welcome lib auth credentials conn user_id client_id s))
      × SameOthers user_id client_id s (
          after_frame
            (handle_frames lib auth credentials [])
            (welcome lib auth credentials conn user_id client_id s))
  handle_frames-welcome = (welcome-Registered, closed-Registered, closed-SameOthers)
