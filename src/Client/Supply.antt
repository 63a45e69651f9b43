-- ===== src/Client/Supply.antt =====
-- The coins on a node, over the rounds of all threads.
use bitcoin_client.Prelude.{
  ℕ, ◌+◌, ◌<◌, ◌≡◌, refl, sym, ap, ◌∙◌, inl, inr, List, [], ◌∷◌, ◌++◌, some, >>=-eq-some,
  some-injective, ◌=?◌, leb, length, get_elem?, All, All-append, Bool-cases, u32_mod,
}
use mathlib.Core.Path.{subst}
use bitcoin_client.Types.Hash.{H256, le}
use bitcoin_client.Types.Address.{Address}
use bitcoin_client.Types.Block.{Header, Block}
use bitcoin_client.Types.Transaction.{SignedTransaction, State}
use bitcoin_client.Types.Crypto.{Crypto, hash, hash_signed}
use bitcoin_client.Types.Merkle
use bitcoin_client.Blockchain
use bitcoin_client.Blockchain.{genesis_difficulty}
use bitcoin_client.Ledger
use bitcoin_client.Ledger.Conserve.{IsSound}
use bitcoin_client.Node.{Node}
use bitcoin_client.Network.Worker.{handle}
use bitcoin_client.Network.Worker.Safe.{IsCollisionFree}
use bitcoin_client.Network.Worker.Run.{carried}
use bitcoin_client.Network.Worker.Supply.{
  IsBounded, IsSoundBlock, check_tx_state-IsBounded, handle-IsBounded,
}
use bitcoin_client.Control.{Received, Turn, wait, finish, work, control}
use bitcoin_client.Miner
use bitcoin_client.Miner.{Miner, fill, select, candidate, conclude, mine}
use bitcoin_client.Miner.Worker.{on_finished}
use bitcoin_client.Generator
use bitcoin_client.Generator.{GeneLoop, get_tx_balance, refresh, generate, announce}
use bitcoin_client.Client.{
  Client, Event, message, mining, finished, generating, sent, take_finished, step, steps,
}
use bitcoin_client.Client.Invariant.{IsClient, AreAdmitted, All-set, All-get, held, all_brought}
use bitcoin_client.Client.Run.{steps-IsClient}

-- No state of the node has more coins, and all transactions of the blocks and the batch that the
-- client holds are sound.
pub record IsFundedClient (coins : ℕ) (client : Client) : Type 0 where
  pub bounded : IsBounded coins client.node.block_state
  pub buffers : All (All IsSoundBlock) client.buffers
  pub batch : All IsSound client.miner.transaction
  pub queue : All IsSoundBlock client.finished_blocks

-- The transactions that an event brings are sound.
abbrev pub IsSoundEvent : Event → Type 0
IsSoundEvent (message i m) = All IsSoundBlock (carried m)
IsSoundEvent (mining received entries nonce time) = All (λ e. IsSound e.1) entries
IsSoundEvent finished = Unit
IsSoundEvent (generating received order) = Unit

on_finished-IsBounded :
    (c : Crypto) (coins : ℕ) (node : Node) (block : Block) {r : _}
    → IsBounded coins node.block_state
    → IsSoundBlock block
    → on_finished c node block ≡ some r
    → IsBounded coins r.0.block_state
unfolding on_finished
on_finished-IsBounded c coins node block b sound e =
    let (checked, ran, e1) = >>=-eq-some (Ledger.check_tx_state c _ _ _ _) _ e in
    let b' = check_tx_state-IsBounded c coins _ _ _ _ b sound ran in
    elim (Bool-cases checked.0) [
      | inl passed ↦
          let (chain, grown, e2) =
            >>=-eq-some (Blockchain.insert c node.blockchain block) _ (rw passed at e1) in
          rw (← some-injective e2) b'
      | inr refused ↦ rw (← some-injective (rw refused at e1)) b
    ]

fill-sound :
    (entries : List (H256 × SignedTransaction)) (to_remove : List H256)
    (transaction : List SignedTransaction)
    → All (λ e. IsSound e.1) entries
    → All IsSound transaction
    → All IsSound (fill entries to_remove transaction).1
unfolding fill
fill-sound [] to_remove transaction s a = a
fill-sound ((h, t) ∷ entries) to_remove transaction s a =
    elim (Bool-cases (leb Miner.block_size (length to_remove))) [
      | inl full ↦ rw full a
      | inr more ↦ rw more (
          fill-sound entries (to_remove ++ h ∷ []) (transaction ++ t ∷ []) s.1
            (All-append _ transaction (t ∷ []) a (s.0, tt)))
    ]

select-sound :
    (entries : List (H256 × SignedTransaction)) (m : Miner)
    → All (λ e. IsSound e.1) entries
    → All IsSound m.transaction
    → All IsSound (select entries m).transaction
unfolding select
select-sound entries m s a = elim (Bool-cases (length m.to_remove =? 0)) [
  | inl fresh ↦ rw fresh (fill-sound entries m.to_remove m.transaction s a)
  | inr busy ↦ rw busy a
]

-- A round of the miner leaves the states, and its batch and its block are sound.
record IsSoundRound (node : Node) (r : Miner.Round) : Type 0 where
  states : r.node.block_state ≡ node.block_state
  batch : All IsSound r.miner.transaction
  block : All IsSoundBlock (sent r.finished)

module _ (c : Crypto) (node : Node) where
  conclude-IsSoundRound :
      (m : Miner) (block : Block)
      → All IsSound m.transaction
      → IsSoundBlock block
      → IsSoundRound node (conclude c m node block)
  unfolding conclude
  conclude-IsSoundRound m block a b = elim (Bool-cases (le (hash c block) genesis_difficulty)) [
    | inl worked ↦ rw worked (record { states = refl; batch = tt; block = (b, tt) })
    | inr weak ↦ rw weak (record { states = refl; batch = a; block = tt })
  ]

  round-IsSoundRound :
      (received : Received) (entries : List (H256 × SignedTransaction)) (nonce time : ℕ) (m : Miner)
      {r : Miner.Round}
      → All (λ e. IsSound e.1) entries
      → All IsSound m.transaction
      → Miner.round c node received entries nonce time m ≡ some r
      → IsSoundRound node r
  unfolding Miner.round
  round-IsSoundRound received entries nonce time m {r} s a e =
      let (next, turned, e1) = >>=-eq-some (control m.operating_state received) _ e in
      turn next.1 (record m { operating_state = next.0 }) a e1
    where
      turn :
          (t : Turn) (m : Miner)
          → All IsSound m.transaction
          → Miner.take_turn c t node entries nonce time m ≡ some r
          → IsSoundRound node r
      turn wait m a e =
          subst (IsSoundRound node) (some-injective e)
            (record { states = refl; batch = a; block = tt })
      turn finish m a e =
          subst (IsSoundRound node) (some-injective e)
            (record { states = refl; batch = a; block = tt })
      turn work m a e =
          let (tree, _, e1) = >>=-eq-some (Merkle.new c (hash_signed c) _) _ e in
          let (root, _, e2) = >>=-eq-some (Merkle.root tree) _ e1 in
          let sound = select-sound entries m s a in
          subst (IsSoundRound node) (some-injective e2)
            (conclude-IsSoundRound (select entries m) _ sound sound)

-- A round of the generator leaves the states.
module _ (c : Crypto) (node : Node) where
  generate_states :
      (entries : List ((H256 × ℕ) × (ℕ × Address))) (g : GeneLoop)
      → (generate c node entries g).node.block_state ≡ node.block_state
  unfolding generate announce
  generate_states entries g = elim (Bool-cases ((get_tx_balance g.addr entries).1 =? 0)) [
    | inl poor ↦ rw poor refl
    | inr rich ↦ rw rich refl
  ]

  generator_states :
      (received : Received) (order : State → List ((H256 × ℕ) × (ℕ × Address))) (g : GeneLoop)
      {r : Generator.Round}
      → Generator.round c node received order g ≡ some r
      → r.node.block_state ≡ node.block_state
  unfolding Generator.round
  generator_states received order g {r} e =
      let (next, turned, e1) = >>=-eq-some (control g.operating_state received) _ e in
      turn next.1 (record g { operating_state = next.0 }) e1
    where
      turn :
          (t : Turn) (g : GeneLoop)
          → Generator.take_turn c t node order g ≡ some r
          → r.node.block_state ≡ node.block_state
      turn wait g e = ap (λ (x : Generator.Round). x.node.block_state) (sym (some-injective e))
      turn finish g e = ap (λ (x : Generator.Round). x.node.block_state) (sym (some-injective e))
      turn work g e =
          let (next, _, e1) = >>=-eq-some (refresh node g) _ e in
          ap (λ (x : Generator.Round). x.node.block_state) (sym (some-injective e1))
          ∙ generate_states (order next.state) next

module _ (c : Crypto) (coins : ℕ) where
  take_finished-IsFundedClient :
      (client : Client) (queue : List Block) {next : Client}
      → IsFundedClient coins client
      → All IsSoundBlock queue
      → take_finished c client queue ≡ some next
      → IsFundedClient coins next
  unfolding take_finished
  take_finished-IsFundedClient client [] f a e = subst (IsFundedClient coins) (some-injective e) f
  take_finished-IsFundedClient client (block ∷ rest) f a e =
      let (r, ran, e1) = >>=-eq-some (on_finished c client.node block) _ e in
      subst (IsFundedClient coins) (some-injective e1) (record {
        bounded = on_finished-IsBounded c coins client.node block f.bounded a.0 ran;
        buffers = f.buffers;
        batch = f.batch;
        queue = a.1;
      })

  step-IsFundedClient :
      (client : Client) (event : Event) {next : Client}
      → IsFundedClient coins client
      → IsSoundEvent event
      → step c client event ≡ some next
      → IsFundedClient coins next
  unfolding step
  step-IsFundedClient client (message i m) f s e =
      let (orphan_blocks, found, e1) = >>=-eq-some (get_elem? client.buffers i) _ e in
      let (o, ran, e2) = >>=-eq-some (handle c client.node orphan_blocks m) _ e1 in
      let (b, a) =
        handle-IsBounded c coins client.node orphan_blocks m f.bounded
          (All-get (All IsSoundBlock) client.buffers i f.buffers found) s ran in
      subst (IsFundedClient coins) (some-injective e2) (record {
        bounded = b;
        buffers = All-set (All IsSoundBlock) client.buffers i o.orphan_blocks f.buffers a;
        batch = f.batch;
        queue = f.queue;
      })
  step-IsFundedClient client (mining received entries nonce time) f s e =
      let (r, ran, e1) =
        >>=-eq-some (Miner.round c client.node received entries nonce time client.miner) _ e in
      let w =
        round-IsSoundRound c client.node received entries nonce time client.miner s f.batch ran in
      subst (IsFundedClient coins) (some-injective e1) (record {
        bounded = subst (IsBounded coins) (sym w.states) f.bounded;
        buffers = f.buffers;
        batch = w.batch;
        queue = All-append _ client.finished_blocks (sent r.finished) f.queue w.block;
      })
  step-IsFundedClient client finished f s e =
      take_finished-IsFundedClient client client.finished_blocks f f.queue e
  step-IsFundedClient client (generating received order) f s e =
      let (r, ran, e1) =
        >>=-eq-some (Generator.round c client.node received order client.gene) _ e in
      subst (IsFundedClient coins) (some-injective e1) (record {
        bounded =
            subst (IsBounded coins)
              (sym (generator_states c client.node received order client.gene ran)) f.bounded;
        buffers = f.buffers;
        batch = f.batch;
        queue = f.queue;
      })

  steps-funded :
      (events : List Event) (client : Client) {next : Client}
      → IsFundedClient coins client
      → All IsSoundEvent events
      → steps c client events ≡ some next
      → IsFundedClient coins next
  unfolding steps
  steps-funded [] client f s e = subst (IsFundedClient coins) (some-injective e) f
  steps-funded (event ∷ events) client f s e =
      let (mid, ran, e1) = >>=-eq-some (step c client event) _ e in
      steps-funded events mid (step-IsFundedClient client event f s.0 ran) s.1 e1

-- Whatever the order of the rounds of the threads: the rounds return, and no state that the node
-- then has holds more coins than a bound that held before, as long as every transaction that a
-- block, the batch or the mempool brings names no input twice and has outputs of a sum below 2 ^ 32.
-- The client is in order, and the rounds are admitted, as for a run that does not panic.
pub steps-IsFundedClient :
    {c : Crypto} {Seen : Header → Type 0}
    → IsCollisionFree c Seen
    → (coins : ℕ) (events : List Event) (client : Client) (w : IsClient c Seen client)
    → AreAdmitted c Seen client events
    → w.safe.chain.top + held client + all_brought events < u32_mod
    → IsFundedClient coins client
    → All IsSoundEvent events
    → (next : Client) × (steps c client events ≡ some next) × IsFundedClient coins next
steps-IsFundedClient {c} free coins events client w a room f s =
    let (next, ran, valid, _) = steps-IsClient free events client w a room in
    (next, ran, steps-funded c coins events client f s ran)
