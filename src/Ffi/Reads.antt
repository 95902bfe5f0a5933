-- ===== src/Ffi/Reads.antt =====
-- replicant-client/src/ffi.rs: the functions that read. The handle's own database answers them, but for
-- the pending documents of an engine.
use replicant.Prelude.{ℕ, Bool, true, false, Option, none, some, Text, length}
use replicant.Client.Database.{get_document}
use replicant.Client.Queue.{get_all_documents, get_pending_documents, count_documents}
use replicant.Client.Sync.{count_pending_sync}
use replicant.Ffi.{
  FfiLibrary, CStr, error_invalid_input, error_database, error_serialization, Replicant, Body,
  ◌>>=◌, ◌>>◌, pure, or_return, not_null, out_not_null, to_str, block_on, ok_or, new_c_string,
  Reply, with_engine,
}

-- The text for the caller.
abbrev pub hand_over : Option Text → Body Text
hand_over json =
    or_return error_serialization json >>= λ t. or_return error_serialization (new_c_string t)

module _ (lib : FfiLibrary) where
  unfoldable pub replicant_get_document : CStr → Bool → Option Replicant → Reply Text
  unfolding get_document
  replicant_get_document document_id out_is_null = with_engine (do
    not_null document_id
    out_not_null out_is_null
    id_text ← to_str document_id
    id ← or_return error_invalid_input (lib.parse_uuid id_text)
    found ← block_on (get_document id)
    doc ← ok_or error_invalid_input found
    hand_over (lib.document_json doc))

  unfoldable pub replicant_get_all_documents : Bool → Option Replicant → Reply Text
  unfolding get_all_documents
  replicant_get_all_documents out_is_null = with_engine (do
    out_not_null out_is_null
    found ← block_on get_all_documents
    docs ← ok_or error_database found
    hand_over (lib.documents_json docs))

unfoldable pub replicant_count_documents : Bool → Option Replicant → Reply ℕ
unfolding count_documents
replicant_count_documents out_is_null =
    with_engine (do
      out_not_null out_is_null
      counted ← block_on count_documents
      ok_or error_database counted)

unfoldable pub replicant_is_connected : Option Replicant → Bool
replicant_is_connected none = false
replicant_is_connected (some r) = elim r.has_engine [
  | true ↦ (r.client).is_connected
  | false ↦ false
]

unfoldable pub count_offline : Body ℕ
unfolding get_pending_documents
count_offline = do
  found ← block_on get_pending_documents
  docs ← ok_or error_database found
  pure (length docs)

abbrev pub count_pending_in : Bool → Body ℕ
count_pending_in true = block_on count_pending_sync >>= ok_or error_database
count_pending_in false = count_offline

unfoldable pub replicant_count_pending_sync : Bool → Option Replicant → Reply ℕ
unfolding count_offline count_pending_sync
replicant_count_pending_sync out_is_null = with_engine (do
  out_not_null out_is_null
  has_engine ← λ r. pure r.has_engine r
  count_pending_in has_engine)
