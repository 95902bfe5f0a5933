-- ===== src/Client/Rounds/Back.antt =====
-- How many rounds of the watch (replicant-client/src/client.rs) bring a lost connection back.
use replicant.Prelude.{
  ℕ, zero, suc, ◌+◌, ◌/◌, ◌≤◌, ◌<◌, ◌*◌, ◌≡◌, refl, ap, ◌∙◌, subst, true, false, inl, inr, some,
  List, [], ◌∷◌, map, Text, length, arith,
}
use replicant.Client.State.{Client, ClientLibrary}
use replicant.Client.Socket.{Account, SocketLibrary, authentication}
use replicant.Client.Reconnect.{Watch, client_of, reconnection_round}
use replicant.Client.Rounds.{reaches, left, SameButEvents, Tried, reconnection_round-Tried}

few-reaches : (es : List Text) → length es < 4 → reaches 3 (map some es) ≡ true
unfolding reaches
few-reaches [] h = refl
few-reaches (a ∷ []) h = refl
few-reaches (a ∷ b ∷ []) h = refl
few-reaches (a ∷ b ∷ c ∷ []) h = refl
few-reaches (a ∷ b ∷ c ∷ d ∷ es) h = absurd (omega arith)

-- The texts behind the first four.
abbrev fewer : List Text → List Text
fewer (a ∷ b ∷ c ∷ d ∷ es) = es
fewer es = []

many-reaches :
    (es : List Text)
    → 4 ≤ length es
    → (reaches 3 (map some es) ≡ false)
      × (left 3 (map some es) ≡ map some (fewer es))
      × (length es ≡ 4 + length (fewer es))
unfolding reaches left
many-reaches [] h = absurd (omega arith)
many-reaches (a ∷ []) h = absurd (omega arith)
many-reaches (a ∷ b ∷ []) h = absurd (omega arith)
many-reaches (a ∷ b ∷ c ∷ []) h = absurd (omega arith)
many-reaches (a ∷ b ∷ c ∷ d ∷ es) h = (refl, refl, omega arith)

module _ (lib : ClientLibrary) (socket : SocketLibrary) (account : Account)
    (ping_interval : ℕ) where
  unfoldable pub rounds : ℕ → Watch → Watch
  unfolding reconnection_round
  rounds zero w = w
  rounds (suc n) w = rounds n (reconnection_round lib socket account ping_interval w)

  -- The client is connected, and what it has to say first is who it is.
  abbrev pub IsBack : Watch → Watch → Type 0
  IsBack w v =
      let c = client_of v in
      (c.is_connected ≡ true)
      × (c.ws_client ≡ some true)
      × (c.sent ≡ authentication lib socket account (client_of w).now ∷ [])
      × (c.pending_uploads ≡ [])

  Tried-IsBack :
      (w v : Watch)
      → reaches 3 (w.online).network ≡ true
      → Tried lib socket account w v
      → IsBack w v
  Tried-IsBack w v reached (inl (_, (x, c, _, _, _)), _) = rw c (refl, refl, refl, refl)
  Tried-IsBack w v reached (inr (missed, _), _) = absurd (ground (arith, reached, missed))

  Tried-down :
      (w v : Watch)
      → reaches 3 (w.online).network ≡ false
      → Tried lib socket account w v
      → SameButEvents (client_of w) (client_of v)
  Tried-down w v missed (inl (reached, _), _) = absurd (ground (arith, reached, missed))
  Tried-down w v missed (inr (_, (same, _, _, _)), _) = same

  bounded_rounds-IsBack :
      (k : ℕ) (es : List Text) (w : Watch)
      → 4 * k ≤ length es
      → length es < 4 * k + 4
      → (w.online).network ≡ map some es
      → (client_of w).is_connected ≡ false
      → IsBack w (rounds (suc k) w)
  unfolding rounds
  bounded_rounds-IsBack zero es w low high net down =
      Tried-IsBack w (reconnection_round lib socket account ping_interval w)
        (ap (reaches 3) net ∙ few-reaches es (omega arith))
        (reconnection_round-Tried lib socket account ping_interval w down)
  bounded_rounds-IsBack (suc k) es w low high net down =
      let v = reconnection_round lib socket account ping_interval w in
      let tried = reconnection_round-Tried lib socket account ping_interval w down in
      let (missed, rest, long) = many-reaches es (omega arith) in
      let (x, same) = Tried-down w v (ap (reaches 3) net ∙ missed) tried in
      let back =
        bounded_rounds-IsBack k (fewer es) v (omega (arith, long)) (omega (arith, long))
          (tried.1 ∙ ap (left 3) net ∙ rest) (ap (λ (c : Client). c.is_connected) same ∙ down) in
      (
        back.0,
        back.1,
        back.2 ∙ ap (λ (c : Client). authentication lib socket account c.now ∷ []) same,
        back.3,
      )

  -- If the connection is lost and the network fails for the next n attempts, then n / 4 + 1 rounds
  -- of the watch, with nothing else happening between them, bring it back: the client is connected
  -- over an open channel that holds its authentication alone, and no upload waits for a
  -- confirmation.
  pub rounds-IsBack :
      (es : List Text) (w : Watch)
      → (w.online).network ≡ map some es
      → (client_of w).is_connected ≡ false
      → IsBack w (rounds (length es / 4 + 1) w)
  rounds-IsBack es w net down =
      subst (λ n. IsBack w (rounds n w)) (omega arith)
        (bounded_rounds-IsBack (length es / 4) es w (omega arith) (omega arith) net down)
