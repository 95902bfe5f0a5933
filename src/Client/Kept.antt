-- ===== src/Client/Kept.antt =====
-- What the handling of a server message does to the queue of deferred messages.
use replicant.Prelude.{
  ℕ, codes, Text, ◌≡◌, refl, ◌∙◌, Bool, true, false, Option, none, some, List, [], ◌∷◌, Bool-cases,
  inl, inr,
}
use replicant.Prelude.Int.{ℤ, ltb_ℤ}
use replicant.Errors.{SyncResult, ok, err}
use replicant.Json.{Value}
use replicant.Models.{Document, DocumentPatch, SyncStatus}
use replicant.Patches.{apply_patch}
use replicant.Protocol.{
  ServerMessage, auth_success, auth_error, document_created, document_updated, document_deleted,
  document_created_response, document_updated_response, document_deleted_response, sync_document,
  sync_complete, conflict_detected, changes, changes_acknowledged, error, pong,
}
use replicant.Client.State.{
  Row, Client, ClientLibrary, Step, continue_with, ◌>>=◌, ◌>>◌, done, lift, reading, outcome_of,
  query,
}
use replicant.Client.Database.{
  change_rows, find_row, fetch_one, get_document, upsert_document, save_document_with_status,
  save_document, mark_synced, update_sync_revision, delete_document,
}
use replicant.Client.Queue.{remove_from_sync_queue}
use replicant.Client.Messages.{
  store_patched, same_revision, store_updated, store_created, apply_update, receive_created,
  receive_deleted, receive_sync, confirm, receive_response, handle_server_message,
}
use replicant.Client.Tracking.{handle_all}

-- The step leaves the queue as it is.
pub record Keeps {A : Type 0} (m : Step A) : Type 0 where
  pub kept : (s : Client) → ((m s).1).deferred_messages ≡ s.deferred_messages

continue-Keeps :
    {A B : Type 0} (rest : A → Step B) (r : SyncResult A × Client) (q : List ServerMessage)
    → ((a : A) → Keeps (rest a))
    → (r.1).deferred_messages ≡ q
    → ((continue_with rest r).1).deferred_messages ≡ q
continue-Keeps rest (ok a, s) q h e = (h a).kept s ∙ e
continue-Keeps rest (err x, s) q h e = e

Keeps->>= :
    {A B : Type 0} {m : Step A} {rest : A → Step B}
    → Keeps m
    → ((a : A) → Keeps (rest a))
    → Keeps (m >>= rest)
Keeps->>= {A} {B} {m} {rest} h k = record {
  kept = λ s. continue-Keeps rest (m s) s.deferred_messages k (h.kept s);
}

Keeps->> :
    {B : Type 0} {m : Step (Unit {0})} {rest : Step B} → Keeps m → Keeps rest → Keeps (m >> rest)
Keeps->> h k = Keeps->>= h (λ _. k)

Keeps-outcome : {A : Type 0} {m : Step A} → Keeps m → Keeps (outcome_of m)
Keeps-outcome h = record { kept = h.kept }

Keeps-done : Keeps done
Keeps-done = record { kept = λ s. refl }

Keeps-query : Keeps query
unfolding query
Keeps-query = record { kept = λ s. refl }

Keeps-fetch_one : (o : Option Row) → Keeps (fetch_one o)
Keeps-fetch_one none = record { kept = λ s. refl }
Keeps-fetch_one (some r) = record { kept = λ s. refl }

Keeps-reading :
    {A B : Type 0} (f : Client → A) {rest : A → Step B}
    → ((a : A) → Keeps (rest a))
    → Keeps (reading f >>= rest)
Keeps-reading {A} {B} f {rest} h = record { kept = λ s. (h (f s)).kept s }

Keeps-lift :
    {A B : Type 0} (r : SyncResult A) {rest : A → Step B}
    → ((a : A) → Keeps (rest a))
    → Keeps (lift r >>= rest)
Keeps-lift {A} {B} r {rest} h = record {
  kept = λ s. continue-Keeps rest (r, s) s.deferred_messages h refl;
}

Keeps-change_rows : (id : ℕ) (f : Row → Row) → Keeps (change_rows id f)
Keeps-change_rows id f = record { kept = λ s. refl }

pub Keeps-get_document : (id : ℕ) → Keeps (get_document id)
unfolding get_document
Keeps-get_document id =
    Keeps->> Keeps-query (Keeps-reading (λ s. find_row id s.tables.documents) Keeps-fetch_one)

Keeps-mark_synced : (id : ℕ) → Keeps (mark_synced id)
unfolding mark_synced
Keeps-mark_synced id = Keeps->> Keeps-query (record { kept = λ s. refl })

Keeps-delete_document : (id : ℕ) → Keeps (delete_document id)
unfolding delete_document
Keeps-delete_document id =
    Keeps->> Keeps-query (Keeps-reading (λ s. s.now) (λ now. Keeps-change_rows id _))

Keeps-unqueue : (id : ℕ) → Keeps (mark_synced id >> remove_from_sync_queue id)
unfolding remove_from_sync_queue
Keeps-unqueue id =
    Keeps->> (Keeps-mark_synced id) (Keeps->> Keeps-query (record { kept = λ s. refl }))

Keeps-update_sync_revision : (id : ℕ) (r : ℤ) → Keeps (update_sync_revision id r)
unfolding update_sync_revision
Keeps-update_sync_revision id r = Keeps->> Keeps-query (record { kept = λ s. refl })

Keeps-confirm : (id : ℕ) (o : Option ℤ) → Keeps (confirm id o)
unfolding confirm
Keeps-confirm id none = Keeps-unqueue id
Keeps-confirm id (some r) = Keeps->> (Keeps-update_sync_revision id r) (Keeps-unqueue id)

module _ (lib : ClientLibrary) where
  Keeps-save_document_with_status :
      (d : Document) (o : Option SyncStatus) → Keeps (save_document_with_status lib d o)
  unfolding save_document_with_status upsert_document
  Keeps-save_document_with_status d o = Keeps->> Keeps-query (record { kept = λ s. refl })

  Keeps-store_updated : (d : Document) → Keeps (store_updated lib d)
  unfolding store_updated
  Keeps-store_updated d =
      Keeps->> (Keeps-save_document_with_status d _) (record { kept = λ s. refl })

  Keeps-store_created : (d : Document) → Keeps (store_created lib d)
  unfolding store_created
  Keeps-store_created d =
      Keeps->> (Keeps-save_document_with_status d _) (record { kept = λ s. refl })

  Keeps-receive_created : (d : Document) (r : SyncResult Document) → Keeps (receive_created lib d r)
  unfolding receive_created
  Keeps-receive_created d (ok e) =
      elim (Bool-cases (same_revision e.sync_revision d.sync_revision)) [
        | inl h ↦ rw h (Keeps-mark_synced d.id)
        | inr h ↦ rw h (Keeps-store_updated d)
      ]
  Keeps-receive_created d (err e) = Keeps-store_created d

  Keeps-receive_sync : (d : Document) (r : SyncResult Document) → Keeps (receive_sync lib d r)
  unfolding receive_sync
  Keeps-receive_sync d (ok e) = elim (Bool-cases (ltb_ℤ d.sync_revision e.sync_revision)) [
    | inl h ↦ rw h Keeps-done
    | inr h ↦ rw h (Keeps-store_updated d)
  ]
  Keeps-receive_sync d (err e) = Keeps-store_created d

  Keeps-store_patched :
      (doc : Document) (content : Value) (now : ℕ) → Keeps (store_patched lib doc content now)
  unfolding store_patched save_document
  Keeps-store_patched doc content now =
      Keeps->>
        (Keeps-save_document_with_status
          (record doc { content = content; content_hash = none; updated_at = now }) none)
        (Keeps->> (Keeps-mark_synced doc.id) (record { kept = λ s. refl }))

  Keeps-apply_update : (p : DocumentPatch) → Keeps (apply_update lib p)
  unfolding apply_update
  Keeps-apply_update p = Keeps->>= (Keeps-get_document p.document_id) (λ doc.
      Keeps-lift (apply_patch (lib.events).json doc.content p.patch)
        (λ content. Keeps-reading (λ s. s.now) (Keeps-store_patched doc content)))

  Keeps-receive_deleted : (id : ℕ) → Keeps (receive_deleted lib id)
  unfolding receive_deleted
  Keeps-receive_deleted id =
      Keeps->> (Keeps-delete_document id)
        (Keeps->> (Keeps-mark_synced id) (record { kept = λ s. refl }))

  Keeps-receive_response :
      (what : Text) (id : ℕ) (b : Bool) (e : Option Text) (o : Option ℤ)
      → Keeps (receive_response lib what id b e o)
  unfolding receive_response
  Keeps-receive_response what id true e o = Keeps-confirm id o
  Keeps-receive_response what id false e o = record { kept = λ s. refl }

  pub Keeps-handle_server_message : (msg : ServerMessage) → Keeps (handle_server_message lib msg)
  unfolding handle_server_message
  Keeps-handle_server_message (document_updated patch) = Keeps-apply_update patch
  Keeps-handle_server_message (document_created d) =
      Keeps->>= (Keeps-outcome (Keeps-get_document d.id)) (Keeps-receive_created d)
  Keeps-handle_server_message (document_deleted id) = Keeps-receive_deleted id
  Keeps-handle_server_message (conflict_detected id r) = record { kept = λ s. refl }
  Keeps-handle_server_message (sync_document d) =
      Keeps->>= (Keeps-outcome (Keeps-get_document d.id)) (Keeps-receive_sync d)
  Keeps-handle_server_message (sync_complete n) = record { kept = λ s. refl }
  Keeps-handle_server_message (document_created_response id b e) =
      Keeps-receive_response (codes "Create") id b e none
  Keeps-handle_server_message (document_updated_response id b e o) =
      Keeps-receive_response (codes "Update") id b e o
  Keeps-handle_server_message (document_deleted_response id b e) =
      Keeps-receive_response (codes "Delete") id b e none
  Keeps-handle_server_message (auth_success a b) = Keeps-done
  Keeps-handle_server_message (auth_error a) = Keeps-done
  Keeps-handle_server_message (changes a b c) = Keeps-done
  Keeps-handle_server_message (changes_acknowledged a) = Keeps-done
  Keeps-handle_server_message (error a b) = Keeps-done
  Keeps-handle_server_message pong = Keeps-done

  pub Keeps-handle_all : (msgs : List ServerMessage) → Keeps (handle_all lib msgs)
  unfolding handle_all
  Keeps-handle_all [] = Keeps-done
  Keeps-handle_all (m ∷ ms) =
      Keeps->>= (Keeps-outcome (Keeps-handle_server_message m)) (λ r. Keeps-handle_all ms)
