-- ===== src/Server/Session.antt =====
-- What a connection does after its acceptance, up to its end (replicant-server/src/websocket.rs).
use replicant.Prelude.{ℕ, ◌≡◌, ◌≢◌, refl, sym, subst, ◌⊎◌, inl, inr, some, List, [], ◌∷◌, All}
use replicant.Errors.{SyncResult, ok, err}
use replicant.Models.{Document}
use replicant.Protocol.{
  ClientMessage, ServerMessage, authenticate, create_document, update_document, delete_document,
  request_sync, request_full_sync, get_changes_since, ack_changes, ping,
}
use replicant.Server.State.{Server, Library}
use replicant.Server.Keeps.{Keeps-query}
use replicant.Server.Queries.{find_document}
use replicant.Server.Handler.Create.{SyncHandler, set_user_id, set_client_id}
use replicant.Server.Handler.{handle_message}
use replicant.Server.Handler.Preserve.{Shows}
use replicant.Server.Handler.Ownership.{Creates, handle_message_others}
use replicant.Server.Auth.{ApiCredentials, AuthLibrary}
use replicant.Server.Connection.{
  Frame, message, unparsable, other_frame, Connection, Next, goes_on, ends, tx, notify, welcome,
  report, handle_other, handle_client_message, handle_frame, deregister, clean_up, after_frame,
  handle_frames,
}
use replicant.Server.Forged.{notify-Untouched, Forged, authenticate-Idle}

-- The frame is no creation of a document of the id, and no attempt to authenticate with the
-- signature of the key's secret.
abbrev pub Harmless : AuthLibrary → List ApiCredentials → ℕ → Frame → Type 0
Harmless auth credentials id (message (authenticate email client_id k g t)) =
    Forged auth credentials (message (authenticate email client_id k g t))
Harmless auth credentials id (message msg) = ¬ Creates id msg
Harmless auth credentials id _ = Unit

notify-Shows :
    (id : ℕ) (d : Document) (ch : ℕ) (msg : ServerMessage) (s : Server)
    → Shows id d s.tables
    → Shows id d (notify ch msg s).tables
notify-Shows id d ch msg s k =
    let (same, _, _) = notify-Untouched ch msg s in subst (Shows id d) (sym same) k

module _ (lib : Library) (auth : AuthLibrary) (credentials : List ApiCredentials) (id : ℕ)
    (d : Document) (h : SyncHandler) (user client : ℕ) (ne : d.user_id ≢ user)
    (own : h.user_id ≡ some user) where
  abbrev conn : Connection
  conn = record {
    handler = h;
    authenticated_user_id = some user;
    authenticated_client_id = some client;
  }

  -- The connection stays as it is, open or closed, and so does the document.
  abbrev Steady : Next × Server → Type 0
  Steady r = ((r.0 ≡ goes_on conn) ⊎ (r.0 ≡ ends conn)) × Shows id d (r.1).tables

  report-Steady :
      (r : SyncResult (Unit {0}) × Server)
      → Shows id d (r.1).tables
      → Steady (report lib auth credentials conn r)
  unfolding report
  report-Steady (ok u, s) k = (inl refl, k)
  report-Steady (err e, s) k = (inl refl, notify-Shows id d _ _ s k)

  other-Steady :
      (msg : ClientMessage) (s : Server)
      → ¬ Creates id msg
      → Shows id d s.tables
      → Steady (handle_other lib auth credentials conn (some user) msg s)
  unfolding handle_other
  other-Steady msg s c k =
      report-Steady (handle_message lib h msg s)
        (handle_message_others lib h user msg s id d own c k ne)

  frame-Steady :
      (f : Frame) (s : Server)
      → Harmless auth credentials id f
      → Shows id d s.tables
      → Steady (handle_frame lib auth credentials conn f s)
  unfolding handle_frame handle_client_message
  frame-Steady (message (authenticate email client_id k g t)) s c shows =
      let (stays, (same, _, _)) =
        authenticate-Idle lib auth credentials conn email client_id k g t s c in
      (stays, subst (Shows id d) (sym same) shows)
  frame-Steady (message (create_document x)) s c shows = other-Steady _ s c shows
  frame-Steady (message (update_document x)) s c shows = other-Steady _ s c shows
  frame-Steady (message (delete_document x)) s c shows = other-Steady _ s c shows
  frame-Steady (message (request_sync x)) s c shows = other-Steady _ s c shows
  frame-Steady (message request_full_sync) s c shows = other-Steady _ s c shows
  frame-Steady (message (get_changes_since x y)) s c shows = other-Steady _ s c shows
  frame-Steady (message (ack_changes x)) s c shows = other-Steady _ s c shows
  frame-Steady (message ping) s c shows = other-Steady _ s c shows
  frame-Steady (unparsable reason) s c shows = (inl refl, notify-Shows id d _ _ s shows)
  frame-Steady other_frame s c shows = (inl refl, shows)

  clean_up-Shows : (s : Server) → Shows id d s.tables → Shows id d (clean_up conn s).tables
  unfolding clean_up deregister
  clean_up-Shows s k = (Keeps-query {P = Shows id d}).kept s k

  after_frame-Shows :
      (rest : Connection → Server → Server) (r : Next × Server)
      → Steady r
      → Shows id d (rest conn (r.1)).tables
      → Shows id d (after_frame rest r).tables
  unfolding after_frame
  after_frame-Shows rest (n, s) (inl go, k) then_ =
      subst (λ (m : Next). Shows id d (after_frame rest (m, s)).tables) (sym go) then_
  after_frame-Shows rest (n, s) (inr stop, k) then_ =
      subst (λ (m : Next). Shows id d (after_frame rest (m, s)).tables) (sym stop)
        (clean_up-Shows s k)

  frames-Shows :
      (fs : List Frame) (s : Server)
      → All (Harmless auth credentials id) fs
      → Shows id d s.tables
      → Shows id d (handle_frames lib auth credentials fs conn s).tables
  unfolding handle_frames
  frames-Shows [] s hs k = clean_up-Shows s k
  frames-Shows (f ∷ fs) s (g, hs) k =
      let step = frame-Steady f s g k in
      after_frame-Shows (handle_frames lib auth credentials fs)
        (handle_frame lib auth credentials conn f s) step
        (frames-Shows fs (handle_frame lib auth credentials conn f s).1 hs step.1)

-- After a user is accepted on a connection, another user's document stays as it is up to the
-- connection's end, whatever frames follow and whichever queries fail, if none of the frames
-- creates a document of that id and no attempt to authenticate among them carries the signature
-- that the secret of its key's active credential makes.
pub handle_frames_others :
    (lib : Library) (auth : AuthLibrary) (credentials : List ApiCredentials) (conn : Connection)
    (user_id client_id : ℕ) (frames : List Frame) (s : Server) (id : ℕ) (d : Document)
    → d.user_id ≢ user_id
    → All (Harmless auth credentials id) frames
    → find_document id s.tables.documents ≡ some d
    → find_document id
        (after_frame
          (handle_frames lib auth credentials frames)
          (welcome lib auth credentials conn user_id client_id s)).tables.documents
      ≡ some d
unfolding after_frame welcome set_user_id set_client_id
handle_frames_others lib auth credentials conn user_id client_id frames s id d ne harmless k =
    let h = set_client_id (set_user_id conn.handler user_id) client_id in
    frames-Shows lib auth credentials id d h user_id client_id ne refl frames _ harmless
      (notify-Shows id d (tx conn) _ _ k)
