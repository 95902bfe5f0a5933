-- ===== src/Client/Rounds/Resync.antt =====
-- What a client sends after its connection was lost (replicant-client/src/client.rs): the round of the
-- watch that connects, and the sync that it triggers.
use replicant.Prelude.{
  ℕ, zero, suc, ◌≡◌, refl, ap, ◌∙◌, true, false, inl, inr, List, [], ◌∷◌, ◌++◌, map, Bool-cases,
  ltb, arith, append_assoc, some,
}
use replicant.Errors.{SyncResult, ok}
use replicant.Protocol.{ClientMessage, request_full_sync}
use replicant.Client.State.{Client, ClientLibrary, query, continue_with, ◌>>=◌, done, outcome_of}
use replicant.Client.Queue.{
  PendingDocumentInfo, pending_rows, order_by_time, pending_infos, get_pending_documents,
}
use replicant.Client.Offline.{extract_document_id}
use replicant.Client.Uploads.{send}
use replicant.Client.Sync.{
  not_connected_again, read_or_none, upload_each, perform_pending_sync_after_reconnection, sync_all,
  reconnection_sync,
}
use replicant.Client.Pending.{online, SendsAll, upload_pending-SendsAll, read_or_none-Reads}
use replicant.Client.Socket.{Account, SocketLibrary, authentication}
use replicant.Client.Reconnect.{
  Watch, client_of, trigger, reconnection_round, sync_for, take_trigger,
}
use replicant.Client.Rounds.{reaches, Connected, Tried, reconnection_round-Tried}

-- The documents that wait for an upload.
abbrev pub pending_of : Client → List PendingDocumentInfo
pending_of c = pending_infos (order_by_time (pending_rows c.tables.documents))

-- Some messages of the connection: one for each pending document, and the request for all.
abbrev pub Resent : Client → List ClientMessage → List ClientMessage → Type 0
Resent c before after =
    (ms : List ClientMessage) × (map extract_document_id ms
      ≡ map (λ (i : PendingDocumentInfo). some i.id) (pending_of c))
    × (after ≡ before ++ (ms ++ request_full_sync ∷ []))

trigger-suc : (n : ℕ) → (m : ℕ) × (trigger n ≡ suc m)
unfolding trigger
trigger-suc zero = (0, refl)
trigger-suc (suc n) = elim (Bool-cases (ltb (suc n) 10)) [
  | inl e ↦ (suc n, rw e refl)
  | inr e ↦ (n, rw e refl)
]

module _ (lib : ClientLibrary) where
  full_sync : SyncResult (Unit {0}) × Client → SyncResult (Unit {0}) × Client
  full_sync r = continue_with (λ _. outcome_of (sync_all lib) >>= λ result. done) r

  full_sync-sent :
      (c : Client) (r : SyncResult (Unit {0}) × Client)
      → SendsAll (pending_of c) c r
      → Resent c c.sent (full_sync r).1.sent
  unfolding full_sync sync_all send
  full_sync-sent c r (ms, fine, sent, ids, still) = (
    ms,
    ids,
    ap (λ q. (full_sync (q, r.1)).1.sent) fine
        ∙ ap (λ (k : Client). (full_sync (ok tt, k)).1.sent) still
        ∙ ap (λ z. z ++ request_full_sync ∷ []) sent
        ∙ append_assoc c.sent ms (request_full_sync ∷ []),
  )

  reconnection_sync-Resent :
      (c : Client) → Resent c c.sent (reconnection_sync lib (online c)).1.sent
  unfolding reconnection_sync perform_pending_sync_after_reconnection get_pending_documents query
      full_sync
  reconnection_sync-Resent c =
      full_sync-sent c (upload_each lib not_connected_again read_or_none (pending_of c) (online c))
        (upload_pending-SendsAll lib not_connected_again read_or_none (read_or_none-Reads lib) c)

  module _ (socket : SocketLibrary) (account : Account) (ping_interval : ℕ) where
    synced :
        (w v : Watch)
        → (client_of w).faults ≡ []
        → Connected lib socket account w v
        → Resent
            (client_of w)
            (authentication lib socket account (client_of w).now ∷ [])
            (client_of (take_trigger lib socket account ping_interval v)).sent
    unfolding take_trigger sync_for
    synced w v calm (events, same, _, _, waiting) =
        let (m, some_trigger) = trigger-suc w.sync_triggers in
        let c : Client = record (client_of w) {
          faults = [];
          event_dispatcher = events;
          ws_client = some true;
          sent = authentication lib socket account (client_of w).now ∷ [];
          is_connected = true;
          pending_uploads = [];
        } in
        let connected : client_of v ≡ c =
          same
          ∙ ap
              (λ faults. record (client_of w) {
                faults = faults;
                event_dispatcher = events;
                ws_client = some true;
                sent = authentication lib socket account (client_of w).now ∷ [];
                is_connected = true;
                pending_uploads = [];
              })
              calm in
        let (ms, ids, sent) = reconnection_sync-Resent c in
        (
          ms,
          ids,
          ap (λ n. (client_of (sync_for lib socket account ping_interval n v)).sent)
                (waiting ∙ some_trigger)
              ∙ ap (λ k. (reconnection_sync lib k).1.sent) connected
              ∙ sent,
        )

    -- If the connection is lost, no query fails, and one of the next four attempts succeeds, then a
    -- round of the watch and the sync that it triggers put on the new channel: the authentication,
    -- then exactly one message for each pending document, in the order of their last changes, then
    -- the request for all documents.
    pub take_trigger-reconnection_round :
        (w : Watch)
        → (client_of w).is_connected ≡ false
        → (client_of w).faults ≡ []
        → reaches 3 (w.online).network ≡ true
        → Resent
            (client_of w)
            (authentication lib socket account (client_of w).now ∷ [])
            (client_of (
              take_trigger lib socket account ping_interval
                (reconnection_round lib socket account ping_interval w))).sent
    take_trigger-reconnection_round w down calm reached =
        connects (reconnection_round-Tried lib socket account ping_interval w down)
      where
        connects :
            Tried lib socket account w (reconnection_round lib socket account ping_interval w)
            → Resent
                (client_of w)
                (authentication lib socket account (client_of w).now ∷ [])
                (client_of (
                  take_trigger lib socket account ping_interval
                    (reconnection_round lib socket account ping_interval w))).sent
        connects (inl (_, connected), _) = synced w _ calm connected
        connects (inr (missed, _), _) = absurd (ground (arith, reached, missed))
