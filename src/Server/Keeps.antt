-- ===== src/Server/Keeps.antt =====
-- What a computation on the server leaves of the tables, whichever of its queries fail.
use replicant.Prelude.{
  ℕ, inl, inr, Bool-cases, Option-cases, ◌≡◌, refl, Bool, true, false, Option, none, some, List, [],
  ◌∷◌, if◌then◌else◌,
}
use replicant.Errors.{DbError, SyncError, SyncResult, ok, err}
use replicant.Protocol.{ServerMessage, ErrorCode, error}
use replicant.Server.State.{
  Tables, Server, M, ◌>>=◌, ◌>>◌, pure, next, outcome, query, settle, transaction, attempt,
}
use replicant.Server.Broadcast.{
  is_open, send, send_error_message, find_user, broadcast_loop, drop_dead, broadcast_to_user_except,
}
use replicant.Prelude.{Text}

-- The computation takes tables of the kind to tables of the kind.
pub record Keeps {A : Type 0} (P : Tables → Type 0) (m : M A) : Type 0 where
  pub kept : (s : Server) → P s.tables → P (m s).1.tables

module _ (P : Tables → Type 0) where
  outcome_keeps : (o : Option DbError) (s : Server) → P s.tables → P (outcome o s).1.tables
  outcome_keeps none s k = k
  outcome_keeps (some e) s k = k

  pub settle_keeps :
      {A : Type 0} (before : Tables) (p : SyncResult A × Server)
      → P before
      → P p.1.tables
      → P (settle before p).1.tables
  settle_keeps before (ok a, s) b k = k
  settle_keeps before (err e, s) b k = b

  drop_dead-keeps :
      (user : ℕ) (dead : List ℕ) (s : Server) → P s.tables → P (drop_dead user dead s).tables
  unfolding drop_dead
  drop_dead-keeps user [] s k = k
  drop_dead-keeps user (d ∷ dead) s k = k

module _ {P : Tables → Type 0} where
  pub Keeps-next :
      {A B : Type 0} (p : SyncResult A × Server) (f : A → M B)
      → P p.1.tables
      → ((a : A) → p.0 ≡ ok a → Keeps P (f a))
      → P (next p f).1.tables
  Keeps-next (ok a, s) f k h = (h a refl).kept s k
  Keeps-next (err e, s) f k h = k

  pub Keeps->>= :
      {A B : Type 0} {m : M A} {f : A → M B}
      → Keeps P m
      → ((a : A) → Keeps P (f a))
      → Keeps P (m >>= f)
  Keeps->>= {m = m} {f} hm hf = record {
    kept = λ s k. Keeps-next (m s) f (hm.kept s k) (λ a e. hf a);
  }

  pub Keeps-attempt : {A : Type 0} {m : M A} → Keeps P m → Keeps P (attempt m)
  Keeps-attempt h = record { kept = λ s k. h.kept s k }

  pub Keeps-pure : {A : Type 0} (a : A) → Keeps P (pure a)
  Keeps-pure a = record { kept = λ s k. k }

  pub Keeps-query : Keeps P query
  unfolding query
  Keeps-query = record { kept = λ s k. outcome_keeps P _ _ k }

  committed :
      {A : Type 0} (body : M A) → Keeps P body → Keeps P (query >> (body >>= λ a. query >> pure a))
  committed body h =
      Keeps->>= Keeps-query (λ u. Keeps->>= h (λ a. Keeps->>= Keeps-query (λ v. Keeps-pure a)))

  -- A transaction that fails leaves the tables alone.
  pub Keeps-transaction : {A : Type 0} {body : M A} → Keeps P body → Keeps P (transaction body)
  unfolding transaction
  Keeps-transaction {body = body} h = record {
    kept = λ s k. settle_keeps P s.tables _ k ((committed body h).kept s k);
  }

  pub Keeps-if :
      {A : Type 0} (b : Bool) {m k : M A} → Keeps P m → Keeps P k → Keeps P (if b then m else k)
  Keeps-if true hm hk = hm
  Keeps-if false hm hk = hk

  -- A match on a result.
  pub Keeps-result :
      {A B : Type 0} (r : SyncResult A) {f : A → M B} {g : SyncError → M B}
      → ((a : A) → Keeps P (f a))
      → ((e : SyncError) → Keeps P (g e))
      → Keeps P (elim r [ ok a ↦ f a | err e ↦ g e ])
  Keeps-result (ok a) hf hg = hf a
  Keeps-result (err e) hf hg = hg e

  pub Keeps-send : (ch : ℕ) (msg : ServerMessage) → Keeps P (send ch msg)
  unfolding send
  Keeps-send ch msg = record {
    kept = λ s k. elim (Bool-cases (is_open ch s.channels)) [ inl e ↦ rw e k | inr e ↦ rw e k ];
  }

  pub Keeps-send_error_message :
      (ch : ℕ) (code : ErrorCode) (t : Text) → Keeps P (send_error_message ch code t)
  unfolding send_error_message
  Keeps-send_error_message ch code t = Keeps-send ch (error code t)

  pub Keeps-broadcast :
      (user : ℕ) (exclude : Option ℕ) (msg : ServerMessage)
      → Keeps P (broadcast_to_user_except user exclude msg)
  unfolding broadcast_to_user_except find_user broadcast_loop drop_dead
  Keeps-broadcast user exclude msg = record {
    kept = λ s k. elim (Option-cases (find_user user s.user_clients)) [
      | inl e ↦ rw (broadcast_to_user_except, e) k
      | inr (ids, e) ↦
          rw (broadcast_to_user_except, e)
            (drop_dead-keeps P user (broadcast_loop user exclude msg s.clients ids s.channels).1
              (record s { channels = (broadcast_loop user exclude msg s.clients ids s.channels).0 })
              k)
    ];
  }
