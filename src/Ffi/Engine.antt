-- ===== src/Ffi/Engine.antt =====
-- The functions of replicant-client/src/ffi.rs on a handle with an engine.
use replicant.Prelude.{ℕ, ◌≡◌, refl, sym, ap, ◌∙◌, subst, true, ◌⊎◌, inl, inr, Option, some}
use replicant.Errors.{SyncError, SyncResult, ok, err}
use replicant.Json.{Value}
use replicant.Client.State.{query, first_fault}
use replicant.Client.Database.{save_document_with_status, upsert_document}
use replicant.Client.Uploads
use replicant.Ffi.{
  FfiLibrary, CStr, Code, success, error_connection, Replicant, Got, got, gives_up, ok_or, Reply,
  finish, pure, ◌>>=◌,
}
use replicant.Ffi.Documents.{
  create_online, create_in, update_online, update_in, delete_online, delete_in,
  replicant_create_document_with_id, replicant_update_document, replicant_delete_document,
}
use replicant.Ffi.Arguments.{
  Guards, id_of, content_of, replicant_update_document-args, replicant_delete_document-args,
  replicant_create_document_with_id-good,
}

-- The handle is still there, and its dispatcher is the same.
abbrev pub Silent : {A : Type 0} → Replicant → Reply A → Type 0
Silent r reply =
    (after : Replicant) × (reply.replicant ≡ some after)
    × (after.event_dispatcher ≡ r.event_dispatcher)

module _ (lib : FfiLibrary) where
  finish-Silent :
      {A : Type 0} (r : Replicant) (p : Got A × Replicant)
      → (p.1).event_dispatcher ≡ r.event_dispatcher
      → Silent r (finish p)
  finish-Silent r (got a, s) e = (s, refl, e)
  finish-Silent r (gives_up code, s) e = (s, refl, e)

  Guards-Silent :
      {A B : Type 0} {o : Option A} (r : Replicant) (work : A → Got B × Replicant) (reply : Reply B)
      → ((a : A) → ((work a).1).event_dispatcher ≡ r.event_dispatcher)
      → Guards lib o work r reply
      → Silent r reply
  Guards-Silent r work reply same (inl (_, (_, e))) = (r, e, refl)
  Guards-Silent r work reply same (inr (a, _, e)) =
      subst (Silent r) (sym e) (finish-Silent r (work a) (same a))

  ok_or-same :
      {A : Type 0} (code : Code) (result : SyncResult A) (r : Replicant)
      → (ok_or code result r).1 ≡ r
  ok_or-same code (ok a) r = refl
  ok_or-same code (err e) r = refl

  -- On a handle with an engine, an update and a deletion, whatever their arguments and whatever
  -- their outcome, leave the handle's dispatcher as it was: no event is queued for the callbacks
  -- that are registered there.
  pub replicant_update_document-Silent :
      (a b : CStr) (r : Replicant)
      → r.has_engine ≡ true
      → Silent r (replicant_update_document lib a b (some r))
        × Silent r (replicant_delete_document lib a (some r))
  unfolding update_online delete_online
  replicant_update_document-Silent a b r engine = (
    Guards-Silent r (λ p. update_in lib r.has_engine (p.0) (p.1) r) _
        (λ p.
          ap (λ e. ((update_in lib e p.0 p.1 r).1).event_dispatcher) engine
          ∙ ap (λ (s : Replicant). s.event_dispatcher) (ok_or-same error_connection _ _))
        (replicant_update_document-args lib a b r),
    Guards-Silent r (λ i. delete_in lib r.has_engine i r) _
        (λ i.
          ap (λ e. ((delete_in lib e i r).1).event_dispatcher) engine
          ∙ ap (λ (s : Replicant). s.event_dispatcher) (ok_or-same error_connection _ _))
        (replicant_delete_document-args lib a r),
  )

  -- The creation is done, or the failure of its store is told as one of the connection.
  abbrev pub ToldAsConnection : Replicant → Reply (Unit {0}) → Type 0
  ToldAsConnection r reply =
      ((first_fault (r.client).faults ≡ ok tt) × (reply.code ≡ success))
      ⊎ ((reply.code ≡ error_connection)
          × ((e : SyncError) × (first_fault (r.client).faults ≡ err e))
          × ((after : Replicant) × (reply.replicant ≡ some after)
              × ((after.client).tables ≡ (r.client).tables)))

  create_online-Told :
      (i : ℕ) (c : Value) (r : Replicant) (q : SyncResult (Unit {0}))
      → first_fault (r.client).faults ≡ q
      → ToldAsConnection r (finish ((create_online lib i c >>= λ id. pure tt) r))
  unfolding create_online Uploads.create_document_with_id save_document_with_status query
      upsert_document
  create_online-Told i c r (ok u) e = inl (
    e,
    rw (create_online, Uploads.create_document_with_id, save_document_with_status, query, e) refl,
  )
  create_online-Told i c r (err x) e = inr (rw e refl, (x, e), rw e (_, refl, refl))

  -- On a handle with an engine, a creation with good arguments succeeds if its first query, the
  -- store, does, whether or not the document reaches the server; if that query fails, the code is
  -- that of a connection error and the tables are as they were.
  pub replicant_create_document_with_id-Told :
      (a b : CStr) (i : ℕ) (c : Value) (r : Replicant)
      → r.has_engine ≡ true
      → id_of lib a ≡ some i
      → content_of lib b ≡ some c
      → ToldAsConnection r (replicant_create_document_with_id lib a b (some r))
  replicant_create_document_with_id-Told a b i c r engine is_id is_content =
      subst (ToldAsConnection r)
        (sym (
          replicant_create_document_with_id-good lib a b i c r is_id is_content
          ∙ ap (λ h. finish ((create_in lib h i c >>= λ id. pure tt) r)) engine))
        (create_online-Told i c r (first_fault (r.client).faults) refl)
