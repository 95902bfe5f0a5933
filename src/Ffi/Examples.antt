-- ===== src/Ffi/Examples.antt =====
-- The theorems on the C interface, on the client of the other examples.
use replicant.Prelude.{refl, true, Option, none, some, List, [], ◌∷◌, codes, Text, ℕ}
use replicant.Errors.{DbError, unavailable}
use replicant.Json.{boolean}
use replicant.Client.Config.{UserConfig}
use replicant.Client.Events.Register.{new}
use replicant.Client.Examples.{lib, events, device}
use replicant.Ffi.{FfiLibrary, CStr, text, Replicant}
use replicant.Ffi.Documents.{
  replicant_create_document_with_id, replicant_update_document, replicant_delete_document,
}
use replicant.Ffi.Engine.{
  Silent, ToldAsConnection, replicant_update_document-Silent,
  replicant_create_document_with_id-Told,
}
use replicant.Ffi.Offline.{offline, ReadsBack, replicant_get_document-create}

abbrev parse : Text → Option ℕ
parse [] = none
parse (c ∷ t) = some c

unfoldable ffi : FfiLibrary
unfolding lib
ffi = record {
  client = lib;
  parse_uuid = parse;
  document_json = λ d. some (codes "document");
  documents_json = λ ds. some (codes "documents");
}

abbrev config : UserConfig
config = record { user_id = 7; client_id = 5; server_url = codes "ws://host" }

unfoldable handle : List (Option DbError) → Replicant
unfolding device new
handle faults = record {
  has_engine = true;
  client = record device { faults = faults };
  user_config = some config;
  event_dispatcher = new;
}

-- An identifier of one character.
abbrev id_text : CStr
id_text = text (codes "A")

abbrev json_text : CStr
json_text = text (codes "true")

replicant_update_document-Silent_example :
    Silent (handle []) (replicant_update_document ffi id_text json_text (some (handle [])))
    × Silent (handle []) (replicant_delete_document ffi id_text (some (handle [])))
unfolding handle
replicant_update_document-Silent_example =
    replicant_update_document-Silent ffi id_text json_text (handle []) refl

abbrev busy : List (Option DbError)
busy = some (unavailable (codes "busy")) ∷ []

replicant_create_document_with_id-Told_example :
    ToldAsConnection ffi
      (handle busy)
      (replicant_create_document_with_id ffi id_text json_text (some (handle busy)))
unfolding handle ffi lib events
replicant_create_document_with_id-Told_example =
    replicant_create_document_with_id-Told ffi id_text json_text 65 (boolean true) (handle busy)
      refl refl refl

replicant_get_document-create_example :
    ReadsBack ffi 65
      (boolean true)
      (handle [])
      config
      id_text
      (replicant_create_document_with_id ffi id_text json_text (some (offline (handle []))))
unfolding handle ffi lib events
replicant_get_document-create_example =
    replicant_get_document-create ffi 65 (boolean true) (handle []) config id_text json_text refl
      refl refl
