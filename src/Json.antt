-- ===== src/Json.antt =====
-- `serde_json::Value` and the operations of the `json_patch` crate, as the code matches on them.
-- A number is known by a name for it only: the code compares numbers and never computes with them.
use replicant.Prelude.{ℕ, ◌⊎◌, Bool, Option, List, Text}

mutual
  pub data Value : Type 0 where
    null : Value
    boolean : Bool → Value
    number : ℕ → Value
    string : Text → Value
    array : Items → Value
    object : Fields → Value

  pub data Items : Type 0 where
    nil : Items
    cons : Value → Items → Items

  -- The entries of a `serde_json::Map`, in the order of its iterator.
  pub data Fields : Type 0 where
    end : Fields
    field : Text → Value → Fields → Fields

pub record AddOperation : Type 0 where
  pub path : Text
  pub value : Value

pub record RemoveOperation : Type 0 where
  pub path : Text

pub record ReplaceOperation : Type 0 where
  pub path : Text
  pub value : Value

pub record MoveOperation : Type 0 where
  pub from : Text
  pub path : Text

pub record CopyOperation : Type 0 where
  pub from : Text
  pub path : Text

pub record TestOperation : Type 0 where
  pub path : Text
  pub value : Value

pub data PatchOperation : Type 0 where
  add : AddOperation → PatchOperation
  remove : RemoveOperation → PatchOperation
  replace : ReplaceOperation → PatchOperation
  move : MoveOperation → PatchOperation
  copy : CopyOperation → PatchOperation
  test : TestOperation → PatchOperation

abbrev pub Patch : Type 0
Patch = List PatchOperation

-- The functions of `json_patch`, `serde_json` and `sha2` that the code calls. `patch` gives the new
-- value, or the print of its error; `value_eq` and `operation_eq` are the derived `==`; `get` and
-- `insert` are those of `serde_json::Map`.
pub record JsonLibrary : Type 0 where
  pub diff : Value → Value → Patch
  pub patch : Value → Patch → Value ⊎ Text
  pub value_eq : Value → Value → Bool
  pub operation_eq : PatchOperation → PatchOperation → Bool
  pub to_string : Value → Text
  pub sha256_hex : Text → Text
  pub get : Text → Fields → Option Value
  pub insert : Text → Value → Fields → Fields
