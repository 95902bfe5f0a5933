-- ===== src/Ffi/Offline.antt =====
-- The functions of replicant-client/src/ffi.rs on a handle without an engine: what is created can be
-- read again.
use replicant.Prelude.{
  ℕ, ◌≡◌, refl, sym, ap, ◌∙◌, subst, false, inl, inr, none, some, arith, Option-cases,
}
use replicant.Errors.{SyncResult}
use replicant.Json.{Value}
use replicant.Models.{Document, pending}
use replicant.Client.Config.{UserConfig, get_user_id}
use replicant.Client.Events.Emit.{emit_document_created}
use replicant.Client.State.{Row, Client, query, reliable}
use replicant.Client.Database.{
  find_row, save_document, save_document_with_status, upsert_document, upsert, document_to_params,
  overwrite,
}
use replicant.Client.Rows.{find_row-upsert-old, find_row-upsert-new}
use replicant.Client.Receive.{get_document-found}
use replicant.Ffi.{
  ok_or, error_invalid_input, FfiLibrary, CStr, success, Replicant, Body, got, Reply, finish,
  proceed, pure,
}
use replicant.Ffi.Documents.{new_document, create_offline, replicant_create_document_with_id}
use replicant.Ffi.Reads.{hand_over, replicant_get_document}
use replicant.Ffi.Arguments.{id_of, content_of, replicant_create_document_with_id-good}

-- A handle without an engine, whose queries do not fail.
abbrev pub offline : Replicant → Replicant
offline r = record r { has_engine = false; client = reliable r.client }

module _ (lib : FfiLibrary) (i : ℕ) (c : Value) (r : Replicant) (config : UserConfig) where
  abbrev row : Row
  row = document_to_params lib.client (new_document i config.user_id c (r.client).now) none

  -- The handle behind the creation.
  abbrev created : Replicant
  created = record (offline r) {
    client = record (reliable r.client) {
      tables = record (r.client).tables { documents = upsert row (r.client).tables.documents };
    };
    event_dispatcher = emit_document_created (lib.client).events i c r.event_dispatcher;
  }

  create_offline-created :
      r.user_config ≡ some config → create_offline lib i c (offline r) ≡ (got i, created)
  unfolding create_offline get_user_id query save_document save_document_with_status upsert_document
  create_offline-created known = rw (create_offline, get_user_id, known) refl

  -- The row that is there behind it.
  abbrev Stored : Row → Type 0
  Stored s =
      (find_row i (created.client).tables.documents ≡ some s)
      × (s.document.content ≡ c)
      × (s.document.id ≡ i)
      × (s.sync_status ≡ pending)

  stored : (s : Row) × Stored s
  unfolding document_to_params overwrite
  stored = elim (Option-cases (find_row i (r.client).tables.documents)) [
    | inl e ↦ (row, (find_row-upsert-new row (r.client).tables.documents e, refl, refl, refl))
    | inr (old, e) ↦ (
      overwrite row old,
      (find_row-upsert-old row old (r.client).tables.documents e, refl, refl, refl),
    )
  ]

  read_back :
      (a : CStr) (s : Row)
      → id_of lib a ≡ some i
      → Stored s
      → replicant_get_document lib a false (some created)
        ≡ finish (hand_over (lib.document_json s.document) created)
  unfolding replicant_get_document
  read_back CStr.null s e st = absurd (ground (arith, e))
  read_back CStr.invalid s e st = absurd (ground (arith, e))
  read_back (CStr.text t) s e (found, _, _, _) =
      let same = get_document-found created.client i s found in
      rw (replicant_get_document, e)
        (ap
          (λ (q : SyncResult Document × Client). finish (
            proceed (or_invalid q.0 (record created { client = q.1 }))
              (λ doc. hand_over (lib.document_json doc))))
          same)
    where
      or_invalid : SyncResult Document → Body Document
      or_invalid = ok_or error_invalid_input

  -- The creation succeeds, the document is pending, and reading it hands over its JSON.
  abbrev pub ReadsBack : CStr → Reply (Unit {0}) → Type 0
  ReadsBack a reply =
      (after : Replicant) × (reply
        ≡ record { code = success; out = some tt; replicant = some after })
      × ((s : Row) × (find_row i (after.client).tables.documents ≡ some s)
          × (s.document.content ≡ c)
          × (s.document.id ≡ i)
          × (s.sync_status ≡ pending)
          × (replicant_get_document lib a false (some after)
              ≡ finish (hand_over (lib.document_json s.document) after)))

  -- On a handle without an engine, with a stored configuration and no query failing, a creation
  -- with good arguments succeeds, the document is there with the content and the identifier given
  -- and is pending, and reading it by the same identifier hands over the JSON of that document.
  pub replicant_get_document-create :
      (a b : CStr)
      → r.user_config ≡ some config
      → id_of lib a ≡ some i
      → content_of lib b ≡ some c
      → ReadsBack a (replicant_create_document_with_id lib a b (some (offline r)))
  replicant_get_document-create a b known is_id is_content =
      subst (ReadsBack a)
        (sym (
          replicant_create_document_with_id-good lib a b i c (offline r) is_id is_content
          ∙ ap (λ p. finish (proceed p (λ id. pure tt))) (create_offline-created known)))
        (
          created,
          refl,
          (
            stored.0,
            stored.1.0,
            stored.1.1,
            stored.1.2,
            stored.1.3,
            read_back a stored.0 is_id stored.1,
          ),
        )
