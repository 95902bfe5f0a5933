-- ===== src/Client/Events/Received.antt =====
-- replicant-client/src/events.rs: what one Rust callback is called with by a delivery.
use replicant.Prelude.{
  ℕ, suc, ◌≡◌, ◌≢◌, refl, ap, ◌∙◌, Bool, true, false, inl, inr, Option, List, [], ◌∷◌, ◌++◌, map,
  append-nil, if◌then◌else◌, ◌==◌, ==_refl, ==_ne, Bool-cases, length, All,
}
use replicant.Client.Events.{
  EventType, document_created, document_updated, document_deleted, sync_started, sync_completed,
  sync_error, conflict_detected, connection_lost, connection_attempted, connection_succeeded,
  EventLibrary, SyncEvent, QueuedEvent, EventDispatcher, DocumentCallbackEntry, CallbackEntry,
  RustCallbackEntry, Call, rust, document, sync, error, connection, conflict, from_queued,
}
use replicant.Client.Events.Process.{
  by_type, accepts, rust_calls, document_calls, plain_calls, c_calls, dispatch_event, dispatch_all,
}

-- The events with which the callback `c` is called.
unfoldable pub received : ℕ → List Call → List SyncEvent
received c [] = []
received c (rust f e ∷ cs) = let rest = received c cs in if f == c then e ∷ rest else rest
received c (_ ∷ cs) = received c cs

-- The events whose type passes the filter.
unfoldable pub matching : Option EventType → List QueuedEvent → List QueuedEvent
matching filter [] = []
matching filter (e ∷ es) =
    let rest = matching filter es in if accepts filter e.event_type then e ∷ rest else rest

abbrev only_if : {A : Type 0} → Bool → A → List A
only_if true a = a ∷ []
only_if false a = []

-- No entry has the callback `c`.
abbrev pub Absent : ℕ → List RustCallbackEntry → Type 0
Absent c entries = All (λ (entry : RustCallbackEntry). entry.callback ≢ c) entries

pub received-append :
    (c : ℕ) (xs ys : List Call) → received c (xs ++ ys) ≡ received c xs ++ received c ys
unfolding received
received-append c [] ys = refl
received-append c (rust f e ∷ xs) ys = elim (Bool-cases (f == c)) [
  | inl h ↦ rw h (ap (λ t. e ∷ t) (received-append c xs ys))
  | inr h ↦ rw h (received-append c xs ys)
]
received-append c (document f t i u v x ∷ xs) ys = received-append c xs ys
received-append c (sync f t n x ∷ xs) ys = received-append c xs ys
received-append c (error f t m x ∷ xs) ys = received-append c xs ys
received-append c (connection f t b n x ∷ xs) ys = received-append c xs ys
received-append c (conflict f t i u v x ∷ xs) ys = received-append c xs ys

module _ (c : ℕ) (call : ℕ → ℕ → Call)
    (passes : (f x : ℕ) (rest : List Call) → received c (call f x ∷ rest) ≡ received c rest) where
  received-plain_calls : (es : List CallbackEntry) → received c (plain_calls es call) ≡ []
  unfolding plain_calls received
  received-plain_calls [] = refl
  received-plain_calls (e ∷ es) =
      passes e.callback e.context (plain_calls es call) ∙ received-plain_calls es

  received-document_calls :
      (t : EventType) (es : List DocumentCallbackEntry) → received c (document_calls es t call) ≡ []
  unfolding document_calls received
  received-document_calls t [] = refl
  received-document_calls t (e ∷ es) = elim (Bool-cases (accepts e.event_filter t)) [
    | inl h ↦
        rw h (passes e.callback e.context (document_calls es t call) ∙ received-document_calls t es)
    | inr h ↦ rw h (received-document_calls t es)
  ]

received-by_type :
    (c : ℕ) (t : EventType) (xs ys zs us vs : List Call)
    → received c xs ≡ []
    → received c ys ≡ []
    → received c zs ≡ []
    → received c us ≡ []
    → received c vs ≡ []
    → received c (by_type t xs ys zs us vs) ≡ []
received-by_type c document_created xs ys zs us vs p q r s t = p
received-by_type c document_updated xs ys zs us vs p q r s t = p
received-by_type c document_deleted xs ys zs us vs p q r s t = p
received-by_type c sync_started xs ys zs us vs p q r s t = q
received-by_type c sync_completed xs ys zs us vs p q r s t = q
received-by_type c sync_error xs ys zs us vs p q r s t = r
received-by_type c connection_lost xs ys zs us vs p q r s t = s
received-by_type c connection_attempted xs ys zs us vs p q r s t = s
received-by_type c connection_succeeded xs ys zs us vs p q r s t = s
received-by_type c conflict_detected xs ys zs us vs p q r s t = t

received-c_calls : (c : ℕ) (d : EventDispatcher) (e : QueuedEvent) → received c (c_calls d e) ≡ []
unfolding c_calls received
received-c_calls c d e =
    received-by_type c e.event_type _ _ _ _ _
      (received-document_calls c _ (λ f x rest. refl) e.event_type d.document_callbacks)
      (received-plain_calls c _ (λ f x rest. refl) d.sync_callbacks)
      (received-plain_calls c _ (λ f x rest. refl) d.error_callbacks)
      (received-plain_calls c _ (λ f x rest. refl) d.connection_callbacks)
      (received-plain_calls c _ (λ f x rest. refl) d.conflict_callbacks)

module _ (c : ℕ) (t : EventType) (ev : SyncEvent) where
  received-rust_calls-Absent :
      (es : List RustCallbackEntry)
      → Absent c es
      → received c (rust_calls es t (λ f. rust f ev)) ≡ []
  unfolding rust_calls received
  received-rust_calls-Absent [] h = refl
  received-rust_calls-Absent (e ∷ es) (n, h) = elim (Bool-cases (accepts e.event_filter t)) [
    | inl a ↦ rw (a, ==_ne n) (received-rust_calls-Absent es h)
    | inr a ↦ rw a (received-rust_calls-Absent es h)
  ]

  received-rust_calls :
      (pre : List RustCallbackEntry) (entry : RustCallbackEntry) (post : List RustCallbackEntry)
      → entry.callback ≡ c
      → Absent c pre
      → Absent c post
      → received c (rust_calls (pre ++ entry ∷ post) t (λ f. rust f ev))
        ≡ only_if (accepts entry.event_filter t) ev
  unfolding rust_calls received
  received-rust_calls [] entry post e _ h = elim (Bool-cases (accepts entry.event_filter t)) [
    | inl a ↦ simp (a, e, ==_refl c, received-rust_calls-Absent post h)
    | inr a ↦ simp (a, received-rust_calls-Absent post h)
  ]
  received-rust_calls (x ∷ pre) entry post e (n, g) h =
      elim (Bool-cases (accepts x.event_filter t)) [
        | inl a ↦ rw (a, ==_ne n) (received-rust_calls pre entry post e g h)
        | inr a ↦ rw a (received-rust_calls pre entry post e g h)
      ]

module _ (lib : EventLibrary) (d : EventDispatcher) (pre post : List RustCallbackEntry)
    (entry : RustCallbackEntry) (held : d.rust_callbacks ≡ pre ++ entry ∷ post)
    (first : Absent entry.callback pre) (last : Absent entry.callback post) where
  received-dispatch_event :
      (e : QueuedEvent)
      → received entry.callback (dispatch_event lib d e)
        ≡ only_if (accepts entry.event_filter e.event_type) (from_queued lib e)
  unfolding dispatch_event
  received-dispatch_event e =
      let calls = λ (rs : List RustCallbackEntry).
        rust_calls rs e.event_type (λ f. rust f (from_queued lib e)) in
      received-append entry.callback (calls d.rust_callbacks) (c_calls d e)
      ∙ rw (received-c_calls entry.callback d e, append-nil)
          (ap (λ rs. received entry.callback (calls rs)) held
            ∙ received-rust_calls entry.callback e.event_type (from_queued lib e) pre entry post
                refl first last)

  pub received-dispatch_all :
      (es : List QueuedEvent)
      → received entry.callback ((dispatch_all lib d es).1)
        ≡ map (from_queued lib) (matching entry.event_filter es)
  unfolding dispatch_all matching received
  received-dispatch_all [] = refl
  received-dispatch_all (e ∷ es) =
      received-append entry.callback (dispatch_event lib d e) ((dispatch_all lib d es).1)
      ∙ rw (received-dispatch_event e, received-dispatch_all es)
          elim (Bool-cases (accepts entry.event_filter e.event_type)) [
            | inl a ↦ rw a refl
            | inr a ↦ rw a refl
          ]

pub dispatch_all-length :
    (lib : EventLibrary) (d : EventDispatcher) (es : List QueuedEvent)
    → (dispatch_all lib d es).0 ≡ length es
unfolding dispatch_all
dispatch_all-length lib d [] = refl
dispatch_all-length lib d (e ∷ es) = ap suc (dispatch_all-length lib d es)
