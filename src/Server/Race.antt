-- ===== src/Server/Race.antt =====
-- The registry of connections under several tasks at once: the ends of handle_websocket in
-- replicant-server/src/websocket.rs and `reset_server_state` of main.rs, one operation on a map after
-- the other. An operation on one of the two maps is atomic; what a task holds between two of them is
-- its state. The clients that a broadcast takes for dead are left out.
pub mod Lost
use replicant.Prelude.{
  ℕ, Bool, true, false, Option, none, some, List, [], ◌∷◌, ◌++◌, ◌≡◌, if◌then◌else◌, ◌==◌,
}
use replicant.Server.Broadcast.{find_user, remove_client, remove_id, is_empty}
use replicant.Server.Connection.{register_client, add_user_client}

pub record Registry : Type 0 where
  pub clients : List ((ℕ × ℕ) × ℕ)
  pub user_clients : List (ℕ × List ℕ)

-- The next operation of a task: `clients.insert` and `user_clients.entry` of an acceptance;
-- `clients.remove`, `user_clients.get_mut` and, where the set was left empty and its lock is released,
-- `user_clients.remove` of an end; the two `clear` of a reset.
pub data Task : Type 0 where
  inserts : ℕ → ℕ → ℕ → Task
  enters removes leaves : ℕ → ℕ → Task
  drops : ℕ → Task
  clears clears_users finished : Task

-- `clients.remove(&client_id)` on the set of the user.
unfoldable pub leave_set : ℕ → ℕ → List (ℕ × List ℕ) → List (ℕ × List ℕ)
unfolding remove_id
leave_set user client [] = []
leave_set user client ((u, ids) ∷ us) =
    let rest = leave_set user client us in
    if u == user then (u, remove_id client ids) ∷ us else (u, ids) ∷ rest

-- `clients.is_empty()` behind it: a user without a set has nothing to be dropped.
abbrev pub left_empty : ℕ → Option (List ℕ) → Bool
unfolding remove_id
left_empty client none = false
left_empty client (some ids) = is_empty (remove_id client ids)

-- `user_clients.remove(&user_id)`
unfoldable pub drop_user : ℕ → List (ℕ × List ℕ) → List (ℕ × List ℕ)
drop_user user [] = []
drop_user user ((u, ids) ∷ us) =
    let rest = drop_user user us in if u == user then rest else (u, ids) ∷ rest

-- One operation of a task, and what is left of the task.
unfoldable pub advance : Task → Registry → Task × Registry
unfolding register_client add_user_client remove_client find_user leave_set drop_user
advance (inserts user client tx) r =
    (enters user client, record r { clients = register_client (user, client) tx r.clients })
advance (enters user client) r =
    (finished, record r { user_clients = add_user_client user client r.user_clients })
advance (removes user client) r =
    (leaves user client, record r { clients = remove_client (user, client) r.clients })
advance (leaves user client) r = (
  if left_empty client (find_user user r.user_clients) then drops user else finished,
  record r { user_clients = leave_set user client r.user_clients },
)
advance (drops user) r = (finished, record r { user_clients = drop_user user r.user_clients })
advance clears r = (clears_users, record r { clients = [] })
advance clears_users r = (finished, record r { user_clients = [] })
advance finished r = (finished, r)

-- The tasks of the server, which begin and advance in any order.
pub record Tasks : Type 0 where
  pub registry : Registry
  pub tasks : List Task

-- A task begins with the first operation on the maps.
abbrev pub begins : Task → Bool
begins (inserts user client tx) = true
begins (removes user client) = true
begins clears = true
begins (enters user client) = false
begins (leaves user client) = false
begins (drops user) = false
begins clears_users = false
begins finished = false

pub data Step (s t : Tasks) : Type 0 where
  starts : (task : Task) → begins task ≡ true → t ≡ record s { tasks = task ∷ s.tasks } → Step s t
  operates :
      (before after : List Task) (task : Task)
      → s.tasks ≡ before ++ task ∷ after
      → t ≡ record {
        registry = (advance task s.registry).1;
        tasks = before ++ (advance task s.registry).0 ∷ after;
      }
      → Step s t

pub data Reach (start : Tasks) : Tasks → Type 0 where
  here : Reach start start
  later : {s t : Tasks} → Reach start s → Step s t → Reach start t
