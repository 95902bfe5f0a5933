-- ===== src/Client/Search/Changes.antt =====
-- replicant-client/src/database.rs: sequences of changes of the documents, with the index.
use replicant.Prelude.{
  ℕ, ◌≡◌, ◌≢◌, refl, ◌⊎◌, inl, inr, Option, List, [], ◌∷◌, Bool-cases, Text, codes,
}
use replicant.Prelude.Int.{ℤ}
use replicant.Errors.{SyncError, database, database_error, SyncResult, ok, err}
use replicant.Json.{Patch}
use replicant.Models.{Document, SyncStatus, pending}
use replicant.Protocol.{ChangeEventType}
use replicant.Client.State.{Client, ClientLibrary, reliable, query, transaction}
use replicant.Client.Database.{
  has_row, upsert, document_to_params, upsert_document, save_document_with_status, mark_synced,
  update_sync_revision, delete_document,
}
use replicant.Client.Queue.{insert_queue, save_document_and_queue_patch}
use replicant.Client.Search.{SearchLibrary, Search, SearchStep, on_client, rows_of}
use replicant.Client.Search.Index.{save_and_index, save_queue_and_index, delete_and_index}
use replicant.Client.Search.Entries.{rows_of-update_rows-other, rows_of-upsert-other}

-- What changes the table of documents.
pub data Change : Type 0 where
  saves : Document → Option SyncStatus → Change
  queues : Document → Patch → ChangeEventType → Option Text → Change
  deletes marks : ℕ → Change
  revises : ℕ → ℤ → Change

module _ (lib : ClientLibrary) (sqlite : SearchLibrary) where
  unfoldable pub apply : Change → SearchStep (Unit {0})
  unfolding save_and_index save_queue_and_index delete_and_index mark_synced update_sync_revision
  apply (saves doc status) = save_and_index sqlite lib doc status
  apply (queues doc patch operation_type hash) =
      save_queue_and_index sqlite lib doc patch operation_type hash
  apply (deletes id) = delete_and_index sqlite id
  apply (marks id) = on_client (mark_synced id)
  apply (revises id revision) = on_client (update_sync_revision id revision)

  -- One change behind another, whatever their results.
  unfoldable pub apply_all : List Change → Search → Search
  unfolding apply
  apply_all [] s = s
  apply_all (change ∷ changes) s = apply_all changes (apply change s).1

-- A write of one document, no query failing: it has failed and left the documents, or it has left the
-- rows of the others.
abbrev pub Written : ℕ → Client → SyncResult (Unit {0}) × Client → Type 0
Written id c r =
    (after : Client) × (((e : SyncError) × (r ≡ (err e, reliable after))
        × (after.tables.documents ≡ c.tables.documents))
      ⊎ ((r ≡ (ok tt, reliable after))
          × ((j : ℕ) → j ≢ id → rows_of j after.tables.documents ≡ rows_of j c.tables.documents)))

module _ (lib : ClientLibrary) where
  pub save-Written :
      (doc : Document) (status : Option SyncStatus) (c : Client)
      → Written doc.id c (save_document_with_status lib doc status (reliable c))
  unfolding save_document_with_status upsert_document query document_to_params
  save-Written doc status c =
      let new = document_to_params lib doc status in
      (
        record c { tables = record c.tables { documents = upsert new c.tables.documents } },
        inr (refl, λ j n. rows_of-upsert-other j new c.tables.documents n),
      )

  pub queue-Written :
      (doc : Document) (patch : Patch) (operation_type : ChangeEventType) (hash : Option Text)
      (c : Client)
      → Written doc.id c
          (save_document_and_queue_patch lib doc patch operation_type hash (reliable c))
  unfolding save_document_and_queue_patch transaction upsert_document query document_to_params
      insert_queue
  queue-Written doc patch operation_type hash c =
      let new = document_to_params lib doc (Option.some pending) in
      elim (Bool-cases (has_row doc.id (upsert new c.tables.documents))) [
        | inl h ↦ (
          (save_document_and_queue_patch lib doc patch operation_type hash (reliable c)).1,
          inr (rw h refl, λ j n. rw h (rows_of-upsert-other j new c.tables.documents n)),
        )
        | inr h ↦ (c, inl (database_error (database (codes "787")), rw h refl, refl))
      ]

pub delete-Written : (id : ℕ) (c : Client) → Written id c (delete_document id (reliable c))
unfolding delete_document query
delete-Written id c = (
  (delete_document id (reliable c)).1,
  inr (refl, λ j n. rows_of-update_rows-other j id _ c.tables.documents (λ r e. e) n),
)
