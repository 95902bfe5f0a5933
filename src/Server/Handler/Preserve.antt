-- ===== src/Server/Handler/Preserve.antt =====
-- What the operations of the database leave of a document that they are not about.
use replicant.Prelude.{ℕ, Text, ◌++◌, ◌≡◌, ◌≢◌, arith, true, Option, none, some, List, [], ◌∷◌}
use replicant.Prelude.Int.{ℤ}
use replicant.Json.{Patch}
use replicant.Models.{Document}
use replicant.Protocol.{create, update, delete}
use replicant.Server.State.{Row, Tables, Library, M}
use replicant.Server.Keeps.{Keeps, Keeps->>=, Keeps-query, Keeps-transaction}
use replicant.Server.Queries.{find_document, document_to_params}
use replicant.Server.Database.{
  insert_document, to_json, reverse_json, ChangeEventParams, insert_event, log_change_event,
  get_document, update_where, check_affected, update_document_in_tx, update_document, fetch_one,
}
use replicant.Server.Database.Updates.{find-update_rows_other}
use replicant.Server.Changes.{mark_deleted, soft_delete, delete_document}
use replicant.Server.Database
use replicant.Server.Handler.Create.{labelled}

-- The document of the id is `d`.
abbrev pub Shows : ℕ → Document → Tables → Type 0
Shows id d t = find_document id t.documents ≡ some d

module _ (id : ℕ) (d : Document) where
  pub Keeps-fetch_one : (o : Option Document) → Keeps (Shows id d) (fetch_one o)
  Keeps-fetch_one none = record { kept = λ s k. k }
  Keeps-fetch_one (some a) = record { kept = λ s k. k }

  pub Keeps-read :
      (i : ℕ) → Keeps (Shows id d) (λ s. fetch_one (find_document i s.tables.documents) s)
  Keeps-read i = record {
    kept = λ s k. (Keeps-fetch_one (find_document i s.tables.documents)).kept s k;
  }

  pub Keeps-get_document : (i : ℕ) → Keeps (Shows id d) (get_document i)
  unfolding get_document
  Keeps-get_document i = Keeps->>= Keeps-query (λ u. Keeps-read i)

  pub Keeps-log : (params : ChangeEventParams) → Keeps (Shows id d) (log_change_event params)
  unfolding log_change_event insert_event
  Keeps-log params = Keeps->>= Keeps-query (λ u. record { kept = λ s k. ground arith })

  pub Keeps-update_where :
      (lib : Library) (doc : Document) (revision : ℤ)
      → id ≢ doc.id
      → Keeps (Shows id d) (update_where (document_to_params lib doc) revision)
  unfolding update_where document_to_params
  Keeps-update_where lib doc revision ne = record {
    kept = λ s k.
        ground (arith, find-update_rows_other lib s.now doc s.tables.documents revision id ne);
  }

  find-mark_deleted :
      (now i user : ℕ) (rows : List Row)
      → d.user_id ≢ user
      → find_document id rows ≡ some d
      → find_document id (mark_deleted now i user rows) ≡ some d
  unfolding mark_deleted find_document
  find-mark_deleted now i user [] ne h = h
  find-mark_deleted now i user (r ∷ rows) ne h =
      ground (arith, find-mark_deleted now i user rows ne)

  pub Keeps-soft_delete : (i user : ℕ) → d.user_id ≢ user → Keeps (Shows id d) (soft_delete i user)
  unfolding soft_delete
  Keeps-soft_delete i user ne = record {
    kept = λ s k. find-mark_deleted s.now i user s.tables.documents ne k;
  }

  pub Keeps-check_affected : (n : ℕ) (a b : ℤ) → Keeps (Shows id d) (check_affected n a b)
  Keeps-check_affected n a b = record { kept = λ s k. ground arith }

  pub Keeps-update_document_in_tx :
      (lib : Library) (doc : Document) (patch : Option Patch)
      → id ≢ doc.id
      → Keeps (Shows id d) (update_document_in_tx lib doc patch)
  unfolding update_document_in_tx
  Keeps-update_document_in_tx lib doc patch ne = Keeps->>= Keeps-query (λ u.
      Keeps->>= (Keeps-read doc.id) (λ (original : Document). Keeps->>= Keeps-query (λ v.
        Keeps->>= (Keeps-update_where lib doc original.sync_revision ne) (λ n.
          Keeps->>= (Keeps-check_affected n original.sync_revision doc.sync_revision) (λ w.
            Keeps-log (record {
              document_id = doc.id;
              user_id = doc.user_id;
              event_type = update;
              forward_patch = to_json lib patch;
              reverse_patch = reverse_json lib original.content patch;
              applied = true;
            }))))))

  pub Keeps-update_document :
      (lib : Library) (doc : Document) (patch : Option Patch)
      → id ≢ doc.id
      → Keeps (Shows id d) (update_document lib doc patch)
  unfolding update_document
  Keeps-update_document lib doc patch ne =
      Keeps-transaction (Keeps-update_document_in_tx lib doc patch ne)

  pub Keeps-delete_document :
      (lib : Library) (i user : ℕ)
      → d.user_id ≢ user
      → Keeps (Shows id d) (delete_document lib i user)
  unfolding delete_document
  Keeps-delete_document lib i user ne = Keeps-transaction (
      Keeps->>= (Keeps-get_document i) (λ (doc : Document). Keeps->>= Keeps-query (λ v.
        Keeps->>= (Keeps-soft_delete i user ne) (λ w. Keeps-log (record {
          document_id = i;
          user_id = user;
          event_type = delete;
          forward_patch = none;
          reverse_patch = some (lib.document_to_value doc);
          applied = true;
        })))))

  pub Keeps-labelled :
      (lib : Library) (label : Text) {A : Type 0} {m : M A}
      → Keeps (Shows id d) m
      → Keeps (Shows id d) (labelled lib label m)
  Keeps-labelled lib label h = record { kept = λ s k. h.kept s k }

  find-append :
      (rows extra : List Row)
      → find_document id rows ≡ some d
      → find_document id (rows ++ extra) ≡ some d
  unfolding find_document
  find-append [] extra h = ground arith
  find-append (r ∷ rows) extra h = ground (arith, find-append rows extra)

  Keeps-insert_document : (row : Row) → Keeps (Shows id d) (insert_document row)
  unfolding insert_document
  Keeps-insert_document row = record {
    kept = λ s k. ground (arith, find-append s.tables.documents (row ∷ []));
  }

  pub Keeps-create_document :
      (lib : Library) (doc : Document) → Keeps (Shows id d) (Database.create_document lib doc)
  unfolding Database.create_document
  Keeps-create_document lib doc = Keeps-transaction (
      Keeps->>= Keeps-query (λ u.
        Keeps->>= (Keeps-insert_document (document_to_params lib doc)) (λ v. Keeps-log (record {
          document_id = doc.id;
          user_id = doc.user_id;
          event_type = create;
          forward_patch = some (lib.document_to_value doc);
          reverse_patch = none;
          applied = true;
        }))))
