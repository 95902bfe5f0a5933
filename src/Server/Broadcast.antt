-- ===== src/Server/Broadcast.antt =====
-- The registry of connections (replicant-server/src/lib.rs), and the sending of messages by the
-- handler. A set of client ids is a list; a channel's capacity is not modelled.
use replicant.Prelude.{
  ℕ, Bool, true, false, ◌&&◌, Option, none, some, List, [], ◌∷◌, Text, if◌then◌else◌, ◌==◌,
}
use replicant.Errors.{server, send_error, ok, err}
use replicant.Protocol.{ErrorCode, ServerMessage, error}
use replicant.Server.State.{Channel, Server, M}

unfoldable pub is_open : ℕ → List Channel → Bool
is_open ch [] = false
is_open ch (c ∷ cs) = if c.id == ch then c.is_open else is_open ch cs

unfoldable pub push_message : ℕ → ServerMessage → List Channel → List Channel
push_message ch msg [] = []
push_message ch msg (c ∷ cs) =
    (if c.id == ch then record c { sent = msg ∷ c.sent } else c) ∷ push_message ch msg cs

-- `tx.send(msg).await`: an error if the receiving half is gone.
unfoldable pub send : ℕ → ServerMessage → M (Unit {0})
unfolding is_open push_message
send ch msg s =
    if is_open ch s.channels
    then (ok tt, record s { channels = push_message ch msg s.channels })
    else (err (server send_error), s)

unfoldable pub send_error_message : ℕ → ErrorCode → Text → M (Unit {0})
unfolding send
send_error_message tx code message = send tx (error code message)

abbrev pub pair_eq : ℕ × ℕ → ℕ × ℕ → Bool
pair_eq (a, b) (c, d) = a == c && b == d

-- `clients.get(&(user_id, client_id))`
unfoldable pub find_client : ℕ × ℕ → List ((ℕ × ℕ) × ℕ) → Option ℕ
find_client key [] = none
find_client key ((k, ch) ∷ cs) = if pair_eq k key then some ch else find_client key cs

unfoldable pub remove_client : ℕ × ℕ → List ((ℕ × ℕ) × ℕ) → List ((ℕ × ℕ) × ℕ)
remove_client key [] = []
remove_client key ((k, ch) ∷ cs) =
    if pair_eq k key then remove_client key cs else (k, ch) ∷ remove_client key cs

-- `user_clients.get(&user_id)`
unfoldable pub find_user : ℕ → List (ℕ × List ℕ) → Option (List ℕ)
find_user user [] = none
find_user user ((u, ids) ∷ us) = if u == user then some ids else find_user user us

unfoldable pub remove_id : ℕ → List ℕ → List ℕ
remove_id id [] = []
remove_id id (i ∷ ids) = if i == id then remove_id id ids else i ∷ remove_id id ids

abbrev pub is_empty : List ℕ → Bool
is_empty [] = true
is_empty (i ∷ ids) = false

-- The user's entry with the dead clients taken out, or no entry if none is left.
unfoldable pub remove_ids : List ℕ → List ℕ → List ℕ
unfolding remove_id
remove_ids [] ids = ids
remove_ids (dead ∷ more) ids = remove_ids more (remove_id dead ids)

unfoldable pub prune_user : ℕ → List ℕ → List (ℕ × List ℕ) → List (ℕ × List ℕ)
unfolding remove_ids
prune_user user dead [] = []
prune_user user dead ((u, ids) ∷ us) =
    if u == user
    then if is_empty (remove_ids dead ids)
      then prune_user user dead us
      else (u, remove_ids dead ids) ∷ prune_user user dead us
    else (u, ids) ∷ prune_user user dead us

unfoldable pub remove_clients : ℕ → List ℕ → List ((ℕ × ℕ) × ℕ) → List ((ℕ × ℕ) × ℕ)
unfolding remove_client
remove_clients user [] cs = cs
remove_clients user (dead ∷ more) cs = remove_clients user more (remove_client (user, dead) cs)

abbrev pub is_excluded : Option ℕ → ℕ → Bool
is_excluded none client = false
is_excluded (some e) client = client == e

-- The channels after a send that is inspected: unchanged where it failed.
abbrev pub deliver : Option ℕ → ServerMessage → List Channel → List Channel
unfolding push_message is_open
deliver none msg cs = cs
deliver (some ch) msg cs = if is_open ch cs then push_message ch msg cs else cs

-- The send failed, or the client is not in the registry.
abbrev pub is_dead : Option ℕ → List Channel → Bool
unfolding is_open
is_dead none cs = true
is_dead (some ch) cs = if is_open ch cs then false else true

-- The loop over a user's clients: the channels behind it, and the dead clients.
unfoldable pub broadcast_loop :
    ℕ
    → Option ℕ
    → ServerMessage
    → List ((ℕ × ℕ) × ℕ)
    → List ℕ
    → List Channel
    → List Channel × List ℕ
unfolding find_client push_message is_open
broadcast_loop user exclude msg clients [] cs = (cs, [])
broadcast_loop user exclude msg clients (c ∷ ids) cs =
    let ch = find_client (user, c) clients in
    let cs' = if is_excluded exclude c then cs else deliver ch msg cs in
    let (out, dead) = broadcast_loop user exclude msg clients ids cs' in
    if is_excluded exclude c then (out, dead) else (out, if is_dead ch cs then c ∷ dead else dead)

-- The removal of the dead clients.
unfoldable pub drop_dead : ℕ → List ℕ → Server → Server
unfolding prune_user remove_clients
drop_dead user [] s = s
drop_dead user (d ∷ dead) s = record s {
  clients = remove_clients user (d ∷ dead) s.clients;
  user_clients = prune_user user (d ∷ dead) s.user_clients;
}

unfoldable pub broadcast_to_user_except : ℕ → Option ℕ → ServerMessage → M (Unit {0})
unfolding find_user broadcast_loop drop_dead
broadcast_to_user_except user exclude msg s = elim (find_user user s.user_clients) [
  | none ↦ (ok tt, s)
  | some ids ↦
      let (channels', dead) = broadcast_loop user exclude msg s.clients ids s.channels in
      (ok tt, drop_dead user dead (record s { channels = channels' }))
]

unfoldable pub broadcast_to_user : ℕ → ServerMessage → M (Unit {0})
unfolding broadcast_to_user_except
broadcast_to_user user msg = broadcast_to_user_except user none msg
