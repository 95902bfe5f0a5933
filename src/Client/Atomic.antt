-- ===== src/Client/Atomic.antt =====
-- replicant-client/src/database.rs: the document and the patch of an edit, whatever queries fail.
use replicant.Prelude.{
  Text, ◌≡◌, refl, ap, ◌∙◌, true, ◌⊎◌, inl, inr, Option, some, List, [], ◌∷◌, ◌++◌, Option-cases,
  arith,
}
use replicant.Errors.{SyncError, SyncResult, ok, err}
use replicant.Json.{Patch}
use replicant.Models.{Document, pending}
use replicant.Protocol.{ChangeEventType}
use replicant.Client.State.{
  Row, QueueRow, Tables, Client, ClientLibrary, Step, ◌>>◌, continue_with, first_fault, query,
  roll_back, transaction,
}
use replicant.Client.Database.{find_row, has_row, document_to_params, upsert, upsert_document}
use replicant.Client.Queue.{insert_queue, save_document_and_queue_patch}
use replicant.Client.Rows.{has_row-some, find_row-upsert-old, find_row-upsert-new}
use replicant.Client.Database.{overwrite}

-- A step has failed, or it has succeeded and left tables with the property.
abbrev Fate : (Tables → Type 0) → SyncResult (Unit {0}) × Client → Type 0
Fate P r = ((e : SyncError) × (r.0 ≡ err e)) ⊎ ((r.0 ≡ ok tt) × P ((r.1).tables))

continue-Fate :
    (P Q : Tables → Type 0) (rest : Unit {0} → Step (Unit {0})) (r : SyncResult (Unit {0}) × Client)
    → Fate P r
    → ((s : Client) → P s.tables → Fate Q (rest tt s))
    → Fate Q (continue_with rest r)
continue-Fate P Q rest (ok tt, s) (inl (e, p)) h = ground (arith, p)
continue-Fate P Q rest (ok tt, s) (inr (p, t)) h = h s t
continue-Fate P Q rest (err x, s) f h = inl (x, refl)

result-cases : (r : SyncResult (Unit {0})) → ((e : SyncError) × (r ≡ err e)) ⊎ (r ≡ ok tt)
result-cases (ok tt) = inr refl
result-cases (err e) = inl (e, refl)

query-Fate : (P : Tables → Type 0) (s : Client) → P s.tables → Fate P (query s)
unfolding query
query-Fate P s h = elim (result-cases (first_fault s.faults)) [ inl f ↦ inl f | inr o ↦ inr (o, h) ]

roll_back-Fate :
    (P : Tables → Type 0) (before : Tables) (r : SyncResult (Unit {0}) × Client)
    → Fate P r
    → ((e : SyncError) × ((roll_back before r).0 ≡ err e)
        × (((roll_back before r).1).tables ≡ before))
      ⊎ (((roll_back before r).0 ≡ ok tt) × P (((roll_back before r).1).tables))
roll_back-Fate P before (ok tt, s) (inl (e, p)) = ground (arith, p)
roll_back-Fate P before (ok tt, s) (inr f) = inr f
roll_back-Fate P before (err e, s) f = inl (e, refl, refl)

has_row-upsert : (new : Row) (rows : List Row) → has_row new.document.id (upsert new rows) ≡ true
has_row-upsert new rows = elim (Option-cases (find_row new.document.id rows)) [
  | inl e ↦ has_row-some _ _ new (find_row-upsert-new new rows e)
  | inr (old, e) ↦ has_row-some _ _ (overwrite new old) (find_row-upsert-old new old rows e)
]

module _ (lib : ClientLibrary) (doc : Document) (patch : Patch) (operation_type : ChangeEventType)
    (old_content_hash : Option Text) (before : Tables) where
  -- The document's row is written.
  abbrev Upserted : Tables → Type 0
  Upserted t =
      (t.documents ≡ upsert (document_to_params lib doc (some pending)) before.documents)
      × (t.sync_queue ≡ before.sync_queue)

  -- Both are written.
  abbrev pub Both : Tables → Type 0
  Both t =
      (t.documents ≡ upsert (document_to_params lib doc (some pending)) before.documents)
      × ((q : QueueRow) × (t.sync_queue ≡ before.sync_queue ++ q ∷ [])
          × (q.document_id ≡ doc.id)
          × (q.operation_type ≡ operation_type)
          × (q.patch ≡ some patch)
          × (q.old_content_hash ≡ old_content_hash))

  insert_queue-Fate :
      (s : Client)
      → Upserted s.tables
      → Fate Both (insert_queue lib doc.id operation_type (some patch) old_content_hash s)
  unfolding insert_queue document_to_params
  insert_queue-Fate s (d, q) =
      let known : has_row doc.id s.tables.documents ≡ true =
        ap (has_row doc.id) d
        ∙ has_row-upsert (document_to_params lib doc (some pending)) before.documents in
      let row : QueueRow = record {
        id = s.next_queue_id;
        document_id = doc.id;
        operation_type = operation_type;
        patch = some patch;
        old_content_hash = old_content_hash;
        created_at = lib.seconds s.now;
      } in
      rw known (inr (refl, (d, (row, ap (λ z. z ++ row ∷ []) q, refl, refl, refl, refl))))

  -- The body of the transaction, from the tables as they were.
  abbrev body : Step (Unit {0})
  body = do
    query
    upsert_document (document_to_params lib doc (some pending))
    query
    insert_queue lib doc.id operation_type (some patch) old_content_hash

  body-Fate : (s : Client) → s.tables ≡ before → Fate Both (body s)
  unfolding upsert_document
  body-Fate s e =
      continue-Fate (λ t. t ≡ before) Both _ (query s) (query-Fate (λ t. t ≡ before) s e)
        (λ s1 e1.
          let s2 : Client = (upsert_document (document_to_params lib doc (some pending)) s1).1 in
          let written : Upserted s2.tables = (
            ap (λ (t : Tables). upsert (document_to_params lib doc (some pending)) t.documents) e1,
            ap (λ (t : Tables). t.sync_queue) e1,
          ) in
          continue-Fate Upserted Both _ (query s2) (query-Fate Upserted s2 written)
            insert_queue-Fate)

module _ (lib : ClientLibrary) where
  -- Whichever queries fail, the call either returns an error and leaves the client's tables as they
  -- were, or it succeeds, with the document's row written as pending and the patch, its hash and
  -- its operation queued behind the other patches.
  pub save_document_and_queue_patch-atomic :
      (doc : Document) (patch : Patch) (operation_type : ChangeEventType)
      (old_content_hash : Option Text) (s : Client)
      → ((e : SyncError) × ((save_document_and_queue_patch lib doc patch operation_type
              old_content_hash s).0
            ≡ err e)
          × (((save_document_and_queue_patch lib doc patch operation_type old_content_hash s).1
                ).tables
              ≡ s.tables))
        ⊎ (((save_document_and_queue_patch lib doc patch operation_type old_content_hash s).0
              ≡ ok tt)
            × Both lib doc patch operation_type old_content_hash s.tables (
                ((save_document_and_queue_patch lib doc patch operation_type old_content_hash s).1
                ).tables))
  unfolding save_document_and_queue_patch transaction
  save_document_and_queue_patch-atomic doc patch operation_type hash s =
      roll_back-Fate (Both lib doc patch operation_type hash s.tables) s.tables _ (
        continue-Fate (λ t. t ≡ s.tables) (Both lib doc patch operation_type hash s.tables) _
          (query s) (query-Fate (λ t. t ≡ s.tables) s refl)
          (λ s1 e1.
            continue-Fate (Both lib doc patch operation_type hash s.tables)
              (Both lib doc patch operation_type hash s.tables) _ _
              (body-Fate lib doc patch operation_type hash s.tables s1 e1)
              (λ s2 e2.
                continue-Fate (Both lib doc patch operation_type hash s.tables)
                  (Both lib doc patch operation_type hash s.tables) _ (query s2)
                  (query-Fate (Both lib doc patch operation_type hash s.tables) s2 e2)
                  (λ s3 e3. inr (refl, e3)))))
