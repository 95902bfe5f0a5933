-- ===== src/Server/State.antt =====
-- The state that the server's handlers share, and computations on it that may fail. A handler runs
-- on the whole state from one `await` of the database to the next; `Server.Database` has the steps.
use replicant.Prelude.{ℕ, Bool, Option, none, some, List, [], ◌∷◌, Text}
use replicant.Prelude.Int.{ℤ}
use replicant.Errors.{DbError, SyncError, database_error, SyncResult, ok, err}
use replicant.Json.{Value, Patch, JsonLibrary}
use replicant.Models.{Document}
use replicant.Protocol.{ChangeEventType, ServerMessage}

-- A row of `documents`.
pub record Row : Type 0 where
  pub document : Document
  pub size_bytes : ℤ

-- A row of `change_events`.
pub record EventRow : Type 0 where
  pub sequence : ℕ
  pub document_id : ℕ
  pub user_id : ℕ
  pub event_type : ChangeEventType
  pub forward_patch : Option Value
  pub reverse_patch : Option Value
  pub applied : Bool
  pub created_at : ℕ

-- What a transaction can undo.
pub record Tables : Type 0 where
  pub users : List (ℕ × Text)
  pub documents : List Row
  pub change_events : List EventRow

-- The sending half of a connection: open or not, and what was sent, the last message first.
pub record Channel : Type 0 where
  pub id : ℕ
  pub is_open : Bool
  pub sent : List ServerMessage

-- `faults` says how the coming queries fare, `some e` for a failure; past its end they succeed.
-- `now` is the database's clock, `clients` and `user_clients` the registry of `AppState`.
pub record Server : Type 0 where
  pub tables : Tables
  pub next_sequence : ℕ
  pub faults : List (Option DbError)
  pub now : ℕ
  pub channels : List Channel
  pub clients : List ((ℕ × ℕ) × ℕ)
  pub user_clients : List (ℕ × List ℕ)

-- What the code takes from other crates beside those of `JsonLibrary`: the derived serializers, the
-- print of an error, and `chrono`'s format of a time.
pub record Library : Type 0 where
  pub json : JsonLibrary
  pub document_to_value : Document → Value
  pub patch_to_value : Patch → Value
  pub show_error : SyncError → Text
  pub format_time : ℕ → Text

-- A computation on the server.
abbrev pub M : Type 0 → Type 0
M A = Server → SyncResult A × Server

abbrev pub next : {A B : Type 0} → SyncResult A × Server → (A → M B) → SyncResult B × Server
next (ok a, s) f = f a s
next (err e, s) f = (err e, s)

infixl 5 ◌>>=◌ ◌>>◌
abbrev pub ◌>>=◌ : {A B : Type 0} → M A → (A → M B) → M B
◌>>=◌ m f s = next (m s) f

abbrev pub ◌>>◌ : {B : Type 0} → M (Unit {0}) → M B → M B
m >> k = m >>= λ _. k

abbrev pub pure : {A : Type 0} → A → M A
pure a s = (ok a, s)

abbrev pub fail : {A : Type 0} → SyncError → M A
fail e s = (err e, s)

-- One query's luck.
abbrev pub fault : List (Option DbError) → Option DbError
fault [] = none
fault (f ∷ fs) = f

abbrev pub later : List (Option DbError) → List (Option DbError)
later [] = []
later (f ∷ fs) = fs

abbrev pub outcome : Option DbError → Server → SyncResult (Unit {0}) × Server
outcome none s = (ok tt, s)
outcome (some e) s = (err (database_error e), s)

-- A query is sent: it may fail before it does anything.
unfoldable pub query : M (Unit {0})
query s = outcome (fault s.faults) (record s { faults = later s.faults })

abbrev pub put_tables : Tables → Server → Server
put_tables t s = record s { tables = t }

-- What a transaction leaves: a failure undoes the tables.
abbrev pub settle : {A : Type 0} → Tables → SyncResult A × Server → SyncResult A × Server
settle before (ok a, s) = (ok a, s)
settle before (err e, s) = (err e, put_tables before s)

-- `begin`, the body, `commit`; dropped without a commit, the transaction is rolled back.
unfoldable pub transaction : {A : Type 0} → M A → M A
unfolding query
transaction body s = settle s.tables ((do query; a ← body; query; pure a) s)

-- `.await` of a result that the code inspects instead of passing it on.
abbrev pub attempt : {A : Type 0} → M A → M (SyncResult A)
attempt m s = (ok (m s).0, (m s).1)
