-- ===== src/Ffi.antt =====
-- replicant-client/src/ffi.rs: the C interface. An argument that is a C string may be null or no UTF-8,
-- a null pointer to a result is a Boolean, and what is written to a result is returned with the code.
-- Memory that is handed over and freed is left out.
pub mod Documents
pub mod Arguments
pub mod Engine
pub mod Offline
mod Examples
pub mod Events
pub mod Reads
use replicant.Prelude.{
  ℕ, Bool, true, false, Option, none, some, List, [], ◌∷◌, Text, ◌==◌, ◌||◌, if◌then◌else◌,
}
use replicant.Prelude.Int.{ℤ, pos, negsuc}
use replicant.Errors.{SyncResult, ok, err}
use replicant.Json.{Value}
use replicant.Models.{Document}
use replicant.Client.Events.{EventDispatcher}
use replicant.Client.Config.{UserConfig}
use replicant.Client.Events.Process.{has_nul}
use replicant.Client.State.{Client, ClientLibrary, Step}

-- The result codes, `SyncResult` of the file.
pub data Code : Type 0 where
  success error_invalid_input error_connection error_database : Code
  error_serialization error_unknown : Code

unfoldable pub code_number : Code → ℤ
code_number success = pos 0
code_number error_invalid_input = negsuc 0
code_number error_connection = negsuc 1
code_number error_database = negsuc 2
code_number error_serialization = negsuc 3
code_number error_unknown = negsuc 98

pub data CStr : Type 0 where
  null invalid : CStr
  text : Text → CStr

-- `client` is the state behind the engine, if there is one, and its tables are those of the database
-- file, which the handle opens a second time, with the configuration beside them. The handle's dispatcher is not the engine's.
pub record Replicant : Type 0 where
  pub has_engine : Bool
  pub client : Client
  pub user_config : Option UserConfig
  pub event_dispatcher : EventDispatcher

-- What the code takes from other crates: with that of a client, `Uuid::parse_str` and the JSON of
-- documents, of a list of them, and of a list of texts.
pub record FfiLibrary : Type 0 where
  pub client : ClientLibrary
  pub parse_uuid : Text → Option ℕ
  pub document_json : Document → Option Text
  pub documents_json : List Document → Option Text

pub data Got (A : Type 0) : Type 0 where
  got : A → Got A
  gives_up : Code → Got A

-- The body of a function, behind the check of the handle.
abbrev pub Body : Type 0 → Type 0
Body A = Replicant → Got A × Replicant

abbrev pub proceed : {A B : Type 0} → Got A × Replicant → (A → Body B) → Got B × Replicant
proceed (got a, r) f = f a r
proceed (gives_up code, r) f = (gives_up code, r)

infixl 5 ◌>>=◌ ◌>>◌
abbrev pub ◌>>=◌ : {A B : Type 0} → Body A → (A → Body B) → Body B
◌>>=◌ m f r = proceed (m r) f

abbrev pub ◌>>◌ : {B : Type 0} → Body (Unit {0}) → Body B → Body B
m >> k = m >>= λ _. k

abbrev pub pure : {A : Type 0} → A → Body A
pure a r = (got a, r)

abbrev pub return : {A : Type 0} → Code → Body A
return code r = (gives_up code, r)

-- `return code` where there is nothing.
abbrev pub or_return : {A : Type 0} → Code → Option A → Body A
or_return code none = return code
or_return code (some a) = pure a

abbrev pub not_null : CStr → Body (Unit {0})
not_null null = return error_invalid_input
not_null invalid = pure tt
not_null (text t) = pure tt

-- The pointer to a result.
abbrev pub out_not_null : Bool → Body (Unit {0})
out_not_null true = return error_invalid_input
out_not_null false = pure tt

abbrev pub to_str : CStr → Body Text
to_str null = return error_invalid_input
to_str invalid = return error_invalid_input
to_str (text t) = pure t

-- A call on the client or on the database, and its result.
abbrev pub block_on : {A : Type 0} → Step A → Body (SyncResult A)
block_on step r = (got (step r.client).0, record r { client = (step r.client).1 })

abbrev pub ok_or : {A : Type 0} → Code → SyncResult A → Body A
ok_or code (ok a) = pure a
ok_or code (err e) = return code

abbrev pub emit : (EventDispatcher → EventDispatcher) → Body (Unit {0})
emit f r = (got tt, record r { event_dispatcher = f r.event_dispatcher })

-- `CString::new`
abbrev pub new_c_string : Text → Option Text
new_c_string t = if has_nul t then none else some t

-- What a function returns: its code, what it wrote, and the handle.
pub record Reply (A : Type 0) : Type 0 where
  pub code : Code
  pub out : Option A
  pub replicant : Option Replicant

abbrev pub finish : {A : Type 0} → Got A × Replicant → Reply A
finish (got a, r) = record { code = success; out = some a; replicant = some r }
finish (gives_up code, r) = record { code = code; out = none; replicant = some r }

-- The check of the handle, which may be null.
abbrev pub with_engine : {A : Type 0} → Body A → Option Replicant → Reply A
with_engine body none = record { code = error_invalid_input; out = none; replicant = none }
with_engine body (some r) = finish (body r)
