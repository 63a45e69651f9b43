-- ===== src/Generator/Chain.antt =====
-- The transactions of a generator over many rounds, while the tip of the blockchain stays.
use mathlib.Core.Path.{subst}
use mathlib.Core.List.{map-append}
use bitcoin_client.Prelude.{
  map, ℕ, ◌≡◌, ◌≢◌, refl, sym, ap, ◌∙◌, inl, inr, true, List, [], ◌∷◌, ◌++◌, Option, none, some,
  ◌>>=◌, >>=-eq-some, ◌==◌, ◌=?◌, Bool-cases,
}
use bitcoin_client.Prelude.HashMap.{get, insert}
use bitcoin_client.Types.Address.{Address}
use bitcoin_client.Types.Hash.{H256, h256_eq}
use bitcoin_client.Types.Transaction.{SignedTransaction, State}
use bitcoin_client.Types.Crypto.{Crypto, IsCrypto, hash_signed}
use bitcoin_client.Ledger.{check_tx, check_txs, check_tx_state, conclude}
use bitcoin_client.Node.{Node}
use bitcoin_client.Network.Message.{Message, new_transaction_hashes}
use bitcoin_client.Control.{Received, Turn, wait, finish, work, disconnected, control_total}
use bitcoin_client.Generator.{
  GeneLoop, Round, get_tx_balance, refresh, generate, announce, take_turn, round,
}
use bitcoin_client.Generator.Safe.{IsGenerator, IsOrder, generate-Generated}

abbrev pub Order : Type 0
Order = State → List ((H256 × ℕ) × (ℕ × Address))

abbrev pub message_of : Option Message → List Message
message_of none = []
message_of (some m) = m ∷ []

-- The announcements of transactions.
abbrev pub announced_as : Crypto → List SignedTransaction → List Message
announced_as c made = map (λ t. new_transaction_hashes (hash_signed c t ∷ [])) made

-- The rounds of `generator_loop`, one after the other, and what they broadcast.
unfoldable pub rounds :
    Crypto → Node → List (Received × Order) → GeneLoop → Option (Node × GeneLoop × List Message)
rounds c node [] g = some (node, g, [])
rounds c node ((received, order) ∷ rest) g = round c node received order g >>= λ r.
    rounds c r.node rest r.gene >>= λ end. some (end.0, end.1, message_of r.sent ++ end.2)

-- The control channel has its sender, and each iteration sees the entries of the generator's state.
abbrev pub AreOrders : Crypto → Node → List (Received × Order) → GeneLoop → Type 0
AreOrders c node [] g = Unit
AreOrders c node ((received, order) ∷ rest) g =
    (received ≢ disconnected)
    × IsOrder g.state.states (order g.state)
    × ((r : Round) → round c node received order g ≡ some r → AreOrders c r.node rest r.gene)

-- What a round of a generator that has seen the tip does: it adds the transactions `made`.
record Made (c : Crypto) (node : Node) (g : GeneLoop) (r : Round) : Type 0 where
  made : List SignedTransaction
  checked : check_txs c g.state made ≡ some r.gene.state
  own : IsGenerator c r.gene
  seen_tip : r.gene.prev_tip ≡ r.node.blockchain.tip
  chain : r.node.blockchain ≡ node.blockchain
  sent : message_of r.sent ≡ announced_as c made

check_txs-append :
    (c : Crypto) (state mid : State) (xs ys : List SignedTransaction)
    → check_txs c state xs ≡ some mid
    → check_txs c state (xs ++ ys) ≡ check_txs c mid ys
unfolding check_txs
check_txs-append c state mid [] ys h =
    let same : state ≡ mid = cc in ap (λ (s : State). check_txs c s ys) same
check_txs-append c state mid (x ∷ xs) ys h =
    let (next, passed, rest) = >>=-eq-some (check_tx c state x) _ h in
    rw (passed, ◌>>=◌) (check_txs-append c next mid xs ys rest)

module _ {c : Crypto} (w : IsCrypto c) where
  -- A round changes nothing of the generator but its state.
  generate_same :
      (node : Node) (entries : List ((H256 × ℕ) × (ℕ × Address))) (g : GeneLoop)
      → let r = generate c node entries g in
        (r.gene ≡ record g { state = r.gene.state }) × (r.node.blockchain ≡ node.blockchain)
  unfolding generate announce
  generate_same node entries g = elim (Bool-cases ((get_tx_balance g.addr entries).1 =? 0)) [
    | inl poor ↦ rw poor (refl, refl)
    | inr rich ↦ rw rich (refl, refl)
  ]

  generate-Made :
      (node : Node) (entries : List ((H256 × ℕ) × (ℕ × Address))) (g : GeneLoop)
      → IsGenerator c g
      → g.prev_tip ≡ node.blockchain.tip
      → IsOrder g.state.states entries
      → Made c node g (generate c node entries g)
  unfolding check_txs
  generate-Made node entries g own tip o =
      let (same, chain) = generate_same node entries g in
      let own' =
        subst (IsGenerator c) (sym same) (record { matches = own.matches; owns = own.owns }) in
      let tip' = ap (λ (x : GeneLoop). x.prev_tip) same ∙ tip ∙ ap (λ b. b.tip) (sym chain) in
      elim (generate-Generated w g own node entries o) [
        | inl (poor, nothing) ↦ record {
          made = [];
          checked = ap (λ (r : Round). some r.gene.state) (sym nothing);
          own = own';
          seen_tip = tip';
          chain = chain;
          sent = ap (λ (r : Round). message_of r.sent) nothing;
        }
        | inr m ↦ record {
          made = m.st ∷ [];
          checked = rw (m.checked, ◌>>=◌) refl;
          own = own';
          seen_tip = tip';
          chain = chain;
          sent = ap message_of m.announced;
        }
      ]

  turn-Made :
      (t : Turn) (node : Node) (order : Order) (g : GeneLoop)
      → IsGenerator c g
      → g.prev_tip ≡ node.blockchain.tip
      → IsOrder g.state.states (order g.state)
      → (r : Round) × (take_turn c t node order g ≡ some r) × Made c node g r
  unfolding take_turn refresh check_txs
  turn-Made wait node order g own tip o = (
    _,
    refl,
    record { made = []; checked = refl; own = own; seen_tip = tip; chain = refl; sent = refl },
  )
  turn-Made finish node order g own tip o = (
    _,
    refl,
    record { made = []; checked = refl; own = own; seen_tip = tip; chain = refl; sent = refl },
  )
  turn-Made work node order g own tip o =
      let same : (g.prev_tip == node.blockchain.tip) ≡ true = (h256_eq.same_iff _ _).1 tip in
      (_, rw (same, ◌>>=◌) refl, generate-Made node (order g.state) g own tip o)

  rounds-Made :
      (node : Node) (rs : List (Received × Order)) (g : GeneLoop)
      → IsGenerator c g
      → g.prev_tip ≡ node.blockchain.tip
      → AreOrders c node rs g
      → (node' : Node) × (g' : GeneLoop) × (made : List SignedTransaction) × (rounds c node rs g
          ≡ some (node', g', announced_as c made))
        × (check_txs c g.state made ≡ some g'.state)
        × (node'.blockchain ≡ node.blockchain)
  unfolding rounds round check_txs
  rounds-Made node [] g own tip a = (node, g, [], refl, refl, refl)
  rounds-Made node ((received, order) ∷ rs) g own tip a =
      let (next, controlled) = control_total g.operating_state received a.0 in
      let (r, ran, m) =
        turn-Made next.1 node order (record g { operating_state = next.0 })
          (record { matches = own.matches; owns = own.owns }) tip a.1 in
      let ran' : round c node received order g ≡ some r = rw (controlled, ◌>>=◌) ran in
      let (node', g', made, rest, passed, chain) =
        rounds-Made r.node rs r.gene m.own m.seen_tip (a.2 r ran') in
      (
        node',
        g',
        m.made ++ made,
        rw (ran', ◌>>=◌, rest)
            (ap (λ (l : List Message). some (node', g', l))
              (ap (λ (l : List Message). l ++ announced_as c made) m.sent
                ∙ sym (map-append _ m.made made))),
        check_txs-append c g.state r.gene.state m.made made m.checked ∙ passed,
        chain ∙ m.chain,
      )

  -- While the tip stays, the rounds of a generator that starts from the state after the tip return,
  -- and the transactions that they announce, in their order, pass the check of a block on the tip:
  -- the state after that block is the generator's. The key pair's halves belong together, the control
  -- channel has its sender, and each iteration sees the entries of the generator's state.
  pub rounds-check_tx_state :
      (node : Node) (rs : List (Received × Order)) (g : GeneLoop) (h : H256)
      → IsGenerator c g
      → g.prev_tip ≡ node.blockchain.tip
      → get node.block_state node.blockchain.tip ≡ some g.state
      → AreOrders c node rs g
      → (node' : Node) × (g' : GeneLoop) × (made : List SignedTransaction) × (rounds c node rs g
          ≡ some (node', g', announced_as c made))
        × (node'.blockchain ≡ node.blockchain)
        × (check_tx_state c node.block_state node.blockchain.tip made h
            ≡ some (true, insert node.block_state h g'.state))
  unfolding check_tx_state conclude
  rounds-check_tx_state node rs g h own tip here a =
      let (node', g', made, ran, passed, chain) = rounds-Made node rs g own tip a in
      (node', g', made, ran, chain, rw (here, passed, ◌>>=◌) refl)
