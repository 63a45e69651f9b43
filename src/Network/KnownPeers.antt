-- ===== src/Network/KnownPeers.antt =====
-- The thread of src/main.rs that connects to the known peers of the command line. The parser of
-- socket addresses is an argument, and so is the answer to each attempt to connect, by its number:
-- the address of the peer, or an error. What the thread sends to the server is kept.
use bitcoin_client.Prelude.{
  ℕ, zero, suc, ◌+◌, ◌≤◌, ◌≡◌, refl, sym, ap, ◌∙◌, inl, inr, List, [], ◌∷◌, ◌++◌, Option, none,
  some, ◌>>=◌, Option-cases, In, arith,
}
use mathlib.Core.List.{append-nil, append_assoc}
use bitcoin_client.Network.Server.{
  ControlSignal, connect_new_peer, broadcast_message, get_new_peer, dropped_peer, send_to_peer,
}

-- The number of the next attempt, and the signals sent so far.
pub record Attempts (Addr : Type 0) : Type 0 where
  pub next : ℕ
  pub sent : List (ControlSignal Addr)

module _ {Addr : Type 0} where
  -- `server.connect(addr)`
  unfoldable pub attempt : Attempts Addr → Addr → Option Addr → Attempts Addr
  attempt s addr answer = record {
    next = suc s.next;
    sent = s.sent ++ connect_new_peer addr answer ∷ [];
  }

  -- The addresses whose connection succeeded, in order.
  unfoldable pub connections : List (ControlSignal Addr) → List Addr
  connections [] = []
  connections (connect_new_peer addr (some a) ∷ signals) = addr ∷ connections signals
  connections (connect_new_peer addr none ∷ signals) = connections signals
  connections (broadcast_message m ∷ signals) = connections signals
  connections (get_new_peer a ∷ signals) = connections signals
  connections (dropped_peer a ∷ signals) = connections signals
  connections (send_to_peer a m ∷ signals) = connections signals

  connections-append :
      (xs ys : List (ControlSignal Addr))
      → connections (xs ++ ys) ≡ connections xs ++ connections ys
  unfolding connections
  connections-append [] ys = refl
  connections-append (connect_new_peer addr (some a) ∷ xs) ys =
      ap (λ l. addr ∷ l) (connections-append xs ys)
  connections-append (connect_new_peer addr none ∷ xs) ys = connections-append xs ys
  connections-append (broadcast_message m ∷ xs) ys = connections-append xs ys
  connections-append (get_new_peer a ∷ xs) ys = connections-append xs ys
  connections-append (dropped_peer a ∷ xs) ys = connections-append xs ys
  connections-append (send_to_peer a m ∷ xs) ys = connections-append xs ys

module _ {Addr Text : Type 0} where
  -- The addresses of the texts.
  unfoldable pub addresses : (Text → Option Addr) → List Text → List Addr
  addresses parse [] = []
  addresses parse (peer ∷ known_peers) = elim (parse peer) [
    | some addr ↦ addr ∷ addresses parse known_peers
    | none ↦ addresses parse known_peers
  ]

module _ {Addr : Type 0} where
  -- From any attempt on, some attempt to reach the address succeeds.
  abbrev pub IsReachable : (ℕ → Addr → Option Addr) → Addr → Type 0
  IsReachable answer addr = (t : ℕ) → (d : ℕ) × (a : Addr) × (answer (t + d) addr ≡ some a)

module _ {Addr Text : Type 0} (parse : Text → Option Addr) (answer : ℕ → Addr → Option Addr) where
  -- The inner `loop`, on fuel for the attempts: `none` is no end within it.
  unfoldable pub try_address : ℕ → Attempts Addr → Addr → Option (Attempts Addr)
  unfolding attempt
  try_address zero s addr = none
  try_address (suc fuel) s addr = elim (answer s.next addr) [
    | some a ↦ some (attempt s addr (some a))
    | none ↦ try_address fuel (attempt s addr none) addr
  ]

  -- A text that is no address is passed over.
  unfoldable pub try_peer : ℕ → Attempts Addr → Option Addr → Option (Attempts Addr)
  unfolding try_address
  try_peer fuel s none = some s
  try_peer fuel s (some addr) = try_address fuel s addr

  -- The loop over the known peers.
  unfoldable pub connect_known : ℕ → Attempts Addr → List Text → Option (Attempts Addr)
  unfolding try_peer
  connect_known fuel s [] = some s
  connect_known fuel s (peer ∷ known_peers) =
      try_peer fuel s (parse peer) >>= λ t. connect_known fuel t known_peers

  -- With any fuel from a bound on the loop ends.
  record IsTried (s : Attempts Addr) (addr : Addr) : Type 0 where
    bound : ℕ
    last : Attempts Addr
    returns : (fuel : ℕ) → bound ≤ fuel → try_address fuel s addr ≡ some last
    connects : connections last.sent ≡ connections s.sent ++ addr ∷ []

  try_address-now :
      (fuel : ℕ) (s : Attempts Addr) (addr b : Addr)
      → 1 ≤ fuel
      → answer s.next addr ≡ some b
      → try_address fuel s addr ≡ some (attempt s addr (some b))
  unfolding try_address
  try_address-now zero s addr b le now = absurd (omega arith)
  try_address-now (suc fuel) s addr b le now = rw (now, try_address) refl

  try_address-later :
      (fuel bound : ℕ) (s last : Attempts Addr) (addr : Addr)
      → suc bound ≤ fuel
      → answer s.next addr ≡ none
      → ((fuel : ℕ) → bound ≤ fuel → try_address fuel (attempt s addr none) addr ≡ some last)
      → try_address fuel s addr ≡ some last
  unfolding try_address
  try_address-later zero bound s last addr le later h = absurd (omega arith)
  try_address-later (suc fuel) bound s last addr le later h =
      rw (later, try_address) (h fuel (omega arith))

  succeeds : (s : Attempts Addr) (addr b : Addr) → answer s.next addr ≡ some b → IsTried s addr
  unfolding attempt connections
  succeeds s addr b now = record {
    bound = 1;
    last = attempt s addr (some b);
    returns = λ fuel le. try_address-now fuel s addr b le now;
    connects = connections-append s.sent (connect_new_peer addr (some b) ∷ []);
  }

  retries :
      (s : Attempts Addr) (addr : Addr)
      → answer s.next addr ≡ none
      → IsTried (attempt s addr none) addr
      → IsTried s addr
  unfolding attempt connections
  retries s addr later t = record {
    bound = suc t.bound;
    last = t.last;
    returns = λ fuel le. try_address-later fuel t.bound s t.last addr le later t.returns;
    connects =
        t.connects
        ∙ ap (λ l. l ++ addr ∷ [])
            (connections-append s.sent (connect_new_peer addr none ∷ [])
              ∙ append-nil (connections s.sent));
  }

  try_address-IsTried :
      (d : ℕ) (s : Attempts Addr) (addr a : Addr)
      → answer (s.next + d) addr ≡ some a
      → IsTried s addr
  unfolding attempt
  try_address-IsTried zero s addr a h =
      let here : s.next + 0 ≡ s.next = omega arith in
      succeeds s addr a (ap (λ n. answer n addr) (sym here) ∙ h)
  try_address-IsTried (suc d) s addr a h = elim (Option-cases (answer s.next addr)) [
    | inr (b, now) ↦ succeeds s addr b now
    | inl later ↦
        let there : suc s.next + d ≡ s.next + suc d = omega arith in
        retries s addr later
          (try_address-IsTried d (attempt s addr none) addr a (ap (λ n. answer n addr) there ∙ h))
  ]

  -- The loop over the known peers, whatever was sent before.
  connect_known_ends :
      (known_peers : List Text) (s : Attempts Addr)
      → ((peer : Text) (addr : Addr)
          → In peer known_peers
          → parse peer ≡ some addr
          → IsReachable answer addr)
      → (bound : ℕ) × (last : Attempts Addr) × ((fuel : ℕ)
          → bound ≤ fuel
          → connect_known fuel s known_peers ≡ some last)
        × (connections last.sent ≡ connections s.sent ++ addresses parse known_peers)
  unfolding connect_known try_peer addresses
  connect_known_ends [] s h = (0, s, λ fuel le. refl, sym (append-nil (connections s.sent)))
  connect_known_ends (peer ∷ known_peers) s h = elim (Option-cases (parse peer)) [
    | inl wrong ↦
        let (bound, last, returns, made) =
          connect_known_ends known_peers s (λ p addr i e. h p addr (inr i) e) in
        (
          bound,
          last,
          λ fuel le. rw (wrong, try_peer, ◌>>=◌) (returns fuel le),
          rw (wrong, addresses) made,
        )
    | inr (addr, right) ↦
        let (d, a, e) = h peer addr (inl refl) right s.next in
        let t = try_address-IsTried d s addr a e in
        let (bound, last, returns, made) =
          connect_known_ends known_peers t.last (λ p addr i e. h p addr (inr i) e) in
        (
          t.bound + bound,
          last,
          λ fuel le.
              rw (right, try_peer, t.returns fuel (omega arith), ◌>>=◌)
                (returns fuel (omega arith)),
          rw (right, addresses)
              (made
                ∙ ap (λ l. l ++ addresses parse known_peers) t.connects
                ∙ append_assoc (connections s.sent) (addr ∷ []) (addresses parse known_peers)),
        )
  ]

  -- If every known peer that has an address can be reached from any attempt on, by some later
  -- attempt, then the thread ends: a bound on the fuel is enough, and with it each of these
  -- addresses, in the order of the command line and no more often than it stands there, was
  -- connected to. A text that is no address is passed over.
  pub connect_known_finishes :
      (known_peers : List Text)
      → ((peer : Text) (addr : Addr)
          → In peer known_peers
          → parse peer ≡ some addr
          → IsReachable answer addr)
      → (bound : ℕ) × (last : Attempts Addr) × ((fuel : ℕ)
          → bound ≤ fuel
          → connect_known fuel (record { next = 0; sent = [] }) known_peers ≡ some last)
        × (connections last.sent ≡ addresses parse known_peers)
  unfolding connections
  connect_known_finishes known_peers h =
      connect_known_ends known_peers (record { next = 0; sent = [] }) h
