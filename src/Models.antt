-- ===== src/Models.antt =====
-- replicant-core/src/models.rs. A `Uuid` is a number; a `DateTime<Utc>` is the number of its place in
-- time, of which only the order is used; a revision is an `i64`.
use replicant.Prelude.{ℕ, Option, none, some, Text, codes}
use replicant.Prelude.Int.{ℤ}
use replicant.Json.{Value, string, object, Patch, JsonLibrary}

pub record Document : Type 0 where
  pub id : ℕ
  pub user_id : ℕ
  pub content : Value
  pub sync_revision : ℤ
  pub content_hash : Option Text
  pub title : Option Text
  pub created_at : ℕ
  pub updated_at : ℕ
  pub deleted_at : Option ℕ

pub record DocumentPatch : Type 0 where
  pub document_id : ℕ
  pub patch : Patch
  pub content_hash : Text

pub data SyncStatus : Type 0 where
  synced pending conflict : SyncStatus

-- `Value::as_str` behind `and_then`.
abbrev pub as_str : Option Value → Option Text
as_str (some (string s)) = some s
as_str _ = none

-- `Value::get` with a key: nothing but an object has one.
abbrev pub get_key : JsonLibrary → Text → Value → Option Value
get_key json key (object fields) = json.get key fields
get_key json key _ = none

unfoldable pub title : JsonLibrary → Document → Option Text
title json d = as_str (get_key json (codes "title") d.content)

unfoldable pub title_or_default : JsonLibrary → Document → Text
unfolding title
title_or_default json d = elim (title json d) [ some t ↦ t | none ↦ codes "Untitled" ]
