-- ===== src/Server/Race/Lost.antt =====
-- What the end of a client can do to another client of its user (replicant-server/src/websocket.rs).
use replicant.Prelude.{ℕ, ◌≡◌, refl, ap, ◌∙◌, Option, none, some, List, [], ◌∷◌, ==_refl, arith}
use replicant.Errors.{ok}
use replicant.Protocol.{ServerMessage}
use replicant.Server.State.{Server}
use replicant.Server.Broadcast.{find_client, find_user, remove_id, broadcast_to_user_except}
use replicant.Server.Connection.{register_client, add_user_client}
use replicant.Server.Race.{
  Registry, Task, inserts, enters, leaves, drops, finished, leave_set, drop_user, advance, Tasks,
  Step, operates, Reach, here, later,
}

find_user-drop_user :
    (user : ℕ) (us : List (ℕ × List ℕ)) → find_user user (drop_user user us) ≡ none
unfolding find_user drop_user
find_user-drop_user user [] = refl
find_user-drop_user user ((u, ids) ∷ us) = ground (arith, find_user-drop_user user us)

-- The maps behind the five operations: the set is left, the channel and the client are entered, and
-- the user is dropped.
abbrev crossed : ℕ → ℕ → ℕ → ℕ → Registry → Registry
crossed user leaver client tx r = record {
  clients = register_client (user, client) tx r.clients;
  user_clients =
      drop_user user (add_user_client user client (leave_set user leaver r.user_clients));
}

-- A broadcast to the user reaches nobody.
abbrev pub Unreached : ℕ → List (ℕ × List ℕ) → Type 0
Unreached user user_clients =
    (exclude : Option ℕ) (msg : ServerMessage) (s : Server)
    → s.user_clients ≡ user_clients
    → broadcast_to_user_except user exclude msg s ≡ (ok tt, s)

unlisted-Unreached :
    (user : ℕ) (us : List (ℕ × List ℕ)) → find_user user us ≡ none → Unreached user us
unfolding broadcast_to_user_except
unlisted-Unreached user us e exclude msg s same =
    let none_there : find_user user s.user_clients ≡ none = ap (find_user user) same ∙ e in
    rw (broadcast_to_user_except, none_there) refl

module _ (user leaver client tx : ℕ) (r : Registry) (others : List Task)
    (only : find_user user r.user_clients ≡ some (leaver ∷ [])) where
  abbrev start : Tasks
  start = record { registry = r; tasks = leaves user leaver ∷ inserts user client tx ∷ others }

  abbrev end : Tasks
  end = record { registry = crossed user leaver client tx r; tasks = finished ∷ finished ∷ others }

  abbrev left : Registry
  left = record r { user_clients = leave_set user leaver r.user_clients }

  abbrev entered : Registry
  entered = record left { clients = register_client (user, client) tx r.clients }

  abbrev listed : Registry
  listed = record entered {
    user_clients = add_user_client user client (leave_set user leaver r.user_clients);
  }

  crosses : Reach start end
  unfolding advance remove_id
  crosses =
      let tried : Tasks = record {
        registry = left;
        tasks = drops user ∷ inserts user client tx ∷ others;
      } in
      let first : Step start tried =
        operates [] (inserts user client tx ∷ others) (leaves user leaver) refl
          (rw (only, ==_refl leaver) refl) in
      let half : Tasks = record {
        registry = entered;
        tasks = drops user ∷ enters user client ∷ others;
      } in
      let second : Step tried half =
        operates (drops user ∷ []) others (inserts user client tx) refl refl in
      let full : Tasks = record { registry = listed; tasks = drops user ∷ finished ∷ others } in
      let third : Step half full =
        operates (drops user ∷ []) others (enters user client) refl refl in
      let last : Step full end = operates [] (finished ∷ others) (drops user) refl refl in
      later (later (later (later here first) second) third) last

  -- The set of a user has one client, whose connection has ended and which is about to be taken
  -- from that set, and another client of the user is about to be registered, whatever other tasks
  -- there are. The operations on the two maps can be executed in an order after which both tasks
  -- have ended, the channel of the new client is in `clients`, but the user has no set in
  -- `user_clients`, and every broadcast to the user changes nothing and sends nothing.
  pub leaves-Unreached :
      (t : Tasks) × Reach start t
      × (find_client (user, client) (t.registry).clients ≡ some tx)
      × (find_user user (t.registry).user_clients ≡ none)
      × Unreached user (t.registry).user_clients
      × (t.tasks ≡ finished ∷ finished ∷ others)
  unfolding find_client register_client
  leaves-Unreached =
      let gone =
        find_user-drop_user user
          (add_user_client user client (leave_set user leaver r.user_clients)) in
      (
        end,
        crosses,
        rw (==_refl user, ==_refl client) refl,
        gone,
        unlisted-Unreached user _ gone,
        refl,
      )
