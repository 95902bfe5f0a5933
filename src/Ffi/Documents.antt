-- ===== src/Ffi/Documents.antt =====
-- replicant-client/src/ffi.rs: the functions that change documents.
use replicant.Prelude.{ℕ, Bool, true, false, Option, none, Text}
use replicant.Prelude.Int.{pos, ◌+ℤ◌, wrap_i64}
use replicant.Json.{Value}
use replicant.Models.{Document}
use replicant.Client.Events.Emit.{
  emit_document_created, emit_document_updated, emit_document_deleted,
}
use replicant.Client.Config.{get_user_id}
use replicant.Client.Database
use replicant.Client.Uploads
use replicant.Ffi.{
  FfiLibrary, CStr, error_invalid_input, error_connection, error_database, error_serialization,
  Replicant, Body, ◌>>=◌, ◌>>◌, pure, or_return, not_null, out_not_null, to_str, block_on, ok_or,
  emit, Reply, with_engine,
}

-- The document that a creation without an engine stores.
abbrev pub new_document : ℕ → ℕ → Value → ℕ → Document
new_document id user_id content now = record {
  id = id;
  user_id = user_id;
  content = content;
  sync_revision = pos 1;
  content_hash = none;
  title = none;
  created_at = now;
  updated_at = now;
  deleted_at = none;
}

-- What an update without an engine stores.
abbrev pub revised : Document → Value → ℕ → Document
revised doc content now = record doc {
  content = content;
  sync_revision = wrap_i64 (doc.sync_revision +ℤ pos 1);
  content_hash = none;
  updated_at = now;
}

module _ (lib : FfiLibrary) where
  abbrev pub parse_content : Text → Body Value
  parse_content t = or_return error_serialization ((lib.client).events.from_str t)

  abbrev pub parse_id : Text → Body ℕ
  parse_id t = or_return error_invalid_input (lib.parse_uuid t)

  unfoldable pub create_online : ℕ → Value → Body ℕ
  create_online id content = do
    created ← block_on (Uploads.create_document_with_id lib.client id content)
    doc ← ok_or error_connection created
    emit (emit_document_created (lib.client).events doc.id content)
    pure doc.id

  unfoldable pub create_offline : ℕ → Value → Body ℕ
  unfolding get_user_id
  create_offline id content = do
    config ← λ r. pure r.user_config r
    known ← block_on (get_user_id config)
    user_id ← ok_or error_database known
    now ← λ r. pure (r.client).now r
    saved ← block_on (Database.save_document (lib.client) (new_document id user_id content now))
    ok_or error_database saved
    emit (emit_document_created (lib.client).events id content)
    pure id

  abbrev pub create_in : Bool → ℕ → Value → Body ℕ
  create_in true id content = create_online id content
  create_in false id content = create_offline id content

  -- `fresh` is the identifier that is made up; what is written is its print.
  unfoldable pub replicant_create_document : ℕ → CStr → Bool → Option Replicant → Reply Text
  unfolding create_online create_offline
  replicant_create_document fresh content_json out_is_null = with_engine (do
    not_null content_json
    out_not_null out_is_null
    json ← to_str content_json
    content ← parse_content json
    has_engine ← λ r. pure r.has_engine r
    id ← create_in has_engine fresh content
    pure ((lib.client).events.show_uuid id))

  unfoldable pub replicant_create_document_with_id :
      CStr → CStr → Option Replicant → Reply (Unit {0})
  unfolding create_online create_offline
  replicant_create_document_with_id document_id content_json = with_engine (do
    not_null document_id
    not_null content_json
    id_text ← to_str document_id
    id ← parse_id id_text
    json ← to_str content_json
    content ← parse_content json
    has_engine ← λ r. pure r.has_engine r
    created ← create_in has_engine id content
    pure tt)

  unfoldable pub update_online : ℕ → Value → Body (Unit {0})
  update_online id content = do
    updated ← block_on (Uploads.update_document lib.client id content)
    ok_or error_connection updated

  unfoldable pub update_offline : ℕ → Value → Body (Unit {0})
  update_offline id content = do
    found ← block_on (Database.get_document id)
    doc ← ok_or error_database found
    now ← λ r. pure (r.client).now r
    saved ← block_on (Database.save_document lib.client (revised doc content now))
    ok_or error_database saved
    emit (emit_document_updated (lib.client).events id content)

  abbrev pub update_in : Bool → ℕ → Value → Body (Unit {0})
  update_in true id content = update_online id content
  update_in false id content = update_offline id content

  unfoldable pub replicant_update_document : CStr → CStr → Option Replicant → Reply (Unit {0})
  unfolding update_online update_offline
  replicant_update_document document_id content_json = with_engine (do
    not_null document_id
    not_null content_json
    id_text ← to_str document_id
    id ← parse_id id_text
    json ← to_str content_json
    content ← parse_content json
    has_engine ← λ r. pure r.has_engine r
    update_in has_engine id content)

  unfoldable pub delete_online : ℕ → Body (Unit {0})
  delete_online id = do
    deleted ← block_on (Uploads.delete_document lib.client id)
    ok_or error_connection deleted

  unfoldable pub delete_offline : ℕ → Body (Unit {0})
  delete_offline id = do
    deleted ← block_on (Database.delete_document id)
    ok_or error_database deleted
    emit (emit_document_deleted (lib.client).events id)

  abbrev pub delete_in : Bool → ℕ → Body (Unit {0})
  delete_in true id = delete_online id
  delete_in false id = delete_offline id

  unfoldable pub replicant_delete_document : CStr → Option Replicant → Reply (Unit {0})
  unfolding delete_online delete_offline
  replicant_delete_document document_id = with_engine (do
    not_null document_id
    id_text ← to_str document_id
    id ← parse_id id_text
    has_engine ← λ r. pure r.has_engine r
    delete_in has_engine id)
