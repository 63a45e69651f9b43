-- ===== src/Network/Sync.antt =====
-- Two nodes: what the worker of one writes to its peer is handled by the worker of the other, as
-- the loops of src/network/worker.rs do.
use bitcoin_client.Prelude.{
  ℕ, ◌+◌, ◌<◌, ◌≡◌, ◌≢◌, refl, sym, ap, ◌∙◌, inl, inr, true, List, [], ◌∷◌, ◌++◌, Option, none,
  some, ◌>>=◌, ◌==◌, length, All, All-imp, u32_mod, arith,
}
use mathlib.Core.Path.{subst}
use bitcoin_client.Prelude.HashMap.{get, is_some}
use bitcoin_client.Types.Hash.{H256, h256_eq}
use bitcoin_client.Types.Block.{Header, Block}
use bitcoin_client.Types.Transaction.{State}
use bitcoin_client.Types.Crypto.{Crypto, hash}
use bitcoin_client.Blockchain.{genesis_hash}
use bitcoin_client.Ledger.{check_txs, check_tx_state, conclude}
use bitcoin_client.Node.{Node}
use bitcoin_client.Network.Message.{Message, new_block_hashes}
use bitcoin_client.Network.Worker.{
  Loop, Outcome, add_checked, connect_block, unorphan_fuel, process_block, process_blocks,
  on_blocks, handle, missing, collect, when_any,
}
use bitcoin_client.Network.Worker.Safe.{IsCollisionFree, IsStored, IsSafe, IsWorked}
use bitcoin_client.Network.Worker.Connect.{Connected, checked_cases}
use bitcoin_client.Network.Worker.Orphans.{Waits, IsLoop, Waits-connected, unorphan_total}
use bitcoin_client.Network.Worker.Blocks.{IsReady}

-- A worker's node, its orphans and what it has written to the peer.
pub record Worked : Type 0 where
  pub node : Node
  pub orphan_blocks : List Block
  pub replies : List Message

-- The loop of a worker over messages of one peer.
unfoldable pub replies_to : Crypto → Node → List Block → List Message → Option Worked
replies_to c node orphan_blocks [] =
    some (record { node = node; orphan_blocks = orphan_blocks; replies = [] })
replies_to c node orphan_blocks (m ∷ messages) = handle c node orphan_blocks m >>= λ o.
    replies_to c o.node o.orphan_blocks messages >>= λ r.
    some (record r { replies = o.replies ++ r.replies })

-- One node announces hashes; the other asks for blocks, the first answers, and the other handles
-- the answers.
unfoldable pub sync : Crypto → Node → List Block → Node → List Block → List H256 → Option Worked
unfolding replies_to
sync c a orphans_a b orphans_b hashes =
    replies_to c b orphans_b (new_block_hashes hashes ∷ []) >>= λ asking.
    replies_to c a orphans_a asking.replies >>= λ answering.
    replies_to c asking.node asking.orphan_blocks answering.replies

-- A block that a worker can add: its parent is stored, and its transactions pass after it.
pub record IsAddable (c : Crypto) (node : Node) (block : Block) : Type 0 where
  pub fresh : get node.blockchain.blocks (hash c block) ≡ none
  pub p : Block
  pub ph : ℕ
  pub parent : get node.blockchain.blocks block.head.parent ≡ some (p, ph)
  pub state : State
  pub after : State
  pub found : get node.block_state block.head.parent ≡ some state
  pub passed : check_txs c state block.cont.st ≡ some after

module _ {c : Crypto} {Seen : Header → Type 0} (free : IsCollisionFree c Seen) (node : Node)
    (orphan_blocks : List Block) (w : IsReady c Seen (λ _. ⊥) node orphan_blocks) (block : Block)
    (a : IsWorked c Seen block) (d : IsAddable c node block)
    (same : block.head.difficulty ≡ d.p.head.difficulty)
    (room : w.safe.chain.top + length orphan_blocks + 1 < u32_mod) where
  abbrev start : Loop
  start = record {
    node = node;
    orphan_blocks = orphan_blocks;
    new_blocks = [];
    n = 0;
    replies = [];
  }

  -- The block is connected.
  connects :
      (t : Loop) × (connect_block c start block.head.parent block ≡ some t)
      × Connected c Seen start w.safe.chain.top block t
      × (t.new_blocks ≡ hash c block ∷ [])
  unfolding connect_block add_checked check_tx_state conclude
  connects =
      let equal : (block.head.difficulty == d.p.head.difficulty) ≡ true =
        (h256_eq.same_iff _ _).1 same in
      let (state, found, cases) =
        checked_cases free start w.safe block a d.p d.ph d.parent (omega (arith, room)) same in
      let both : ◌≡◌ {A = Option State} (some state) (some d.state) = sym found ∙ d.found in
      let one : state ≡ d.state = cc both in
      let passed : check_txs c state block.cont.st ≡ some d.after =
        ap (λ (s : State). check_txs c s block.cont.st) one ∙ d.passed in
      elim cases [
        | inl refused ↦ absurd (cc (sym refused ∙ passed))
        | inr (after, chain', ran, returns, g) ↦
            (_, rw (d.parent, equal, found, ran, returns, ◌>>=◌), g, refl)
      ]

  -- The handler of `Blocks` stores it.
  stores :
      (o : Outcome) × (on_blocks c node orphan_blocks (block ∷ []) ≡ some o)
      × IsStored o.node.blockchain.blocks (hash c block)
  unfolding on_blocks process_blocks process_block
  stores =
      let (t, ran, g, news) = connects in
      let bound = w.safe.chain.top + length orphan_blocks + 1 in
      let Own : H256 → Type 0 = λ k. hash c block ≡ k in
      let own : IsStored t.node.blockchain.blocks (hash c block) =
        (subst (λ (l : List H256). All (IsStored t.node.blockchain.blocks) l) news
          (g.news_stored tt)).0 in
      let waits : All (Waits Own 0 start) orphan_blocks =
        All-imp (λ o h. elim h [ inl away ↦ inl away | inr never ↦ absurd never ]) orphan_blocks
          w.parentless in
      let inv : IsLoop c Seen Own bound t.n 0 t =
        subst (λ (k : ℕ). IsLoop c Seen Own bound k 0 t) (sym g.counter)
          (record {
            safe = g.safe;
            worked = rw g.orphans w.worked;
            stored = g.news_stored tt;
            waits =
                rw g.orphans (All-imp (Waits-connected g Own 0 (omega arith)) orphan_blocks waits);
            elsewhere = λ k e. subst (IsStored t.node.blockchain.blocks) e own;
            within = omega arith;
            room = rw g.orphans (omega (arith, g.top_le));
          }) in
      let (u, ran', inv', over) =
        unorphan_total free Own bound room 0 (unorphan_fuel t) t inv (omega arith) in
      let o : Outcome = record {
        node = u.node;
        orphan_blocks = u.orphan_blocks;
        replies = u.replies;
        broadcasts = when_any u.new_blocks (new_block_hashes u.new_blocks);
      } in
      (
        o,
        rw (a.worked, d.fresh, is_some, d.parent, is_some, ran, ◌>>=◌, ran', ◌>>=◌) refl,
        inv'.elsewhere (hash c block) refl,
      )

-- A node announces a block that it stores to a node that can add it: in the exchange that follows,
-- of a request and an answer, no handler panics, and the other node then stores the block. Both
-- nodes are safe, no orphan of the other's worker has a stored parent, and its height and orphans
-- leave room in a `u32`; the headers at hand are of a set without collisions.
pub sync_stores :
    {c : Crypto} {Seen : Header → Type 0}
    → IsCollisionFree c Seen
    → (a b : Node) (orphans_a orphans_b : List Block) → IsSafe c Seen a
    → (w : IsReady c Seen (λ _. ⊥) b orphans_b) (block : Block) (h : ℕ)
    → get a.blockchain.blocks (hash c block) ≡ some (block, h)
    → IsAddable c b block
    → w.safe.chain.top + length orphans_b + 1 < u32_mod
    → (r : Worked) × (sync c a orphans_a b orphans_b (hash c block ∷ []) ≡ some r)
      × IsStored r.node.blockchain.blocks (hash c block)
unfolding sync replies_to handle missing collect
sync_stores {c} {Seen} free a b orphans_a orphans_b v w block h there d room =
    let other : hash c block ≢ genesis_hash c =
      λ q. cc (w.safe.chain.genesis_stored, ap (get b.blockchain.blocks) q, d.fresh) in
    let worked : IsWorked c Seen block = record {
      seen = v.seen (hash c block) (block, h) there;
      worked = v.worked (hash c block) (block, h) there other;
      other = other;
    } in
    let same : block.head.difficulty ≡ d.p.head.difficulty =
      v.fixed_difficulty (hash c block) (block, h) there
      ∙ sym (w.safe.fixed_difficulty block.head.parent (d.p, d.ph) d.parent) in
    let (o, ran, stored) = stores free b orphans_b w block worked d same room in
    let r : Worked = record {
      node = o.node;
      orphan_blocks = o.orphan_blocks;
      replies = o.replies ++ [];
    } in
    (r, rw (d.fresh, is_some, there, ◌>>=◌, ran) refl, stored)
