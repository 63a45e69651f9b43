-- ===== src/Client/Rounds.antt =====
-- A round of the miner and one of the generator on a safe node: each returns and leaves the
-- blockchain and the states alone.
use mathlib.Core.Path.{subst}
use bitcoin_client.Prelude.{
  ℕ, ◌≡◌, ◌≢◌, inl, inr, refl, ap, List, Option, none, some, ◌>>=◌, ◌==◌, ◌=?◌, Bool-cases,
}
use bitcoin_client.Types.Hash.{H256, h256_eq}
use bitcoin_client.Types.Address.{Address}
use bitcoin_client.Types.Block.{Header, Block}
use bitcoin_client.Types.Transaction.{SignedTransaction, State}
use bitcoin_client.Types.Crypto.{Crypto}
use bitcoin_client.Node.{Node}
use bitcoin_client.Network.Worker.Safe.{IsSafe}
use bitcoin_client.Control.{control_total, Received, Turn, wait, finish, work, disconnected}
use bitcoin_client.Miner
use bitcoin_client.Miner.{Miner, select}
use bitcoin_client.Miner.Mining.{IsBatch, AreKeyed, IsMined, IsOutcome, mine-IsMined}
use bitcoin_client.Generator
use bitcoin_client.Generator.{GeneLoop, get_tx_balance, refresh, generate}

-- A round of the miner.
pub record Mined (c : Crypto) (node : Node) (m : Miner) (r : Miner.Round) : Type 0 where
  pub batch : IsBatch c r.miner
  pub chain : r.node.blockchain ≡ node.blockchain
  pub states : r.node.block_state ≡ node.block_state
  pub mined : (block : Block) → r.finished ≡ some block → (used : Miner) × IsMined c node used block

module _ (c : Crypto) (node : Node) (entries : List (H256 × SignedTransaction))
    (nonce time : ℕ) where
  idle-Mined :
      (m : Miner)
      → IsBatch c m
      → Mined c node m (record { miner = m; node = node; finished = none })
  idle-Mined m b = record { batch = b; chain = refl; states = refl; mined = λ block h. absurd (cc) }

  outcome-Mined :
      (m : Miner) (r : Miner.Round) (f : Option Block)
      → r.finished ≡ f
      → IsBatch c r.miner
      → IsOutcome c node (select entries m) r f
      → Mined c node m r
  outcome-Mined m r none e b o = record {
    batch = b;
    chain = ap (λ (n : Node). n.blockchain) o.0;
    states = ap (λ (n : Node). n.block_state) o.0;
    mined = λ block h. absurd (cc);
  }
  outcome-Mined m r (some made) e b o = record {
    batch = b;
    chain = o.3;
    states = o.4;
    mined = λ block h. (
      select entries m,
      subst (IsMined c node (select entries m)) (let q : made ≡ block = cc in q) o.0,
    );
  }

  turn-Mined :
      (t : Turn) (m : Miner)
      → AreKeyed c entries
      → IsBatch c m
      → (r : Miner.Round) × (Miner.take_turn c t node entries nonce time m ≡ some r)
        × Mined c node m r
  unfolding Miner.take_turn
  turn-Mined wait m k b = (_, refl, idle-Mined m b)
  turn-Mined finish m k b = (_, refl, idle-Mined m b)
  turn-Mined work m k b =
      let v = mine-IsMined c node entries nonce time m k b in
      (v.result, v.returns, outcome-Mined m v.result v.result.finished refl v.batch v.outcome)

  -- A round returns unless the channel has lost its sender.
  pub mining_total :
      (received : Received) (m : Miner)
      → received ≢ disconnected
      → AreKeyed c entries
      → IsBatch c m
      → (r : Miner.Round) × (Miner.round c node received entries nonce time m ≡ some r)
        × Mined c node m r
  unfolding Miner.round
  mining_total received m n k b =
      let (next, controlled) = control_total m.operating_state received n in
      let (r, done, w) =
        turn-Mined next.1 (record m { operating_state = next.0 }) k
          (record { hashes = b.hashes; bounded = b.bounded }) in
      (
        r,
        rw (controlled, ◌>>=◌) done,
        record { batch = w.batch; chain = w.chain; states = w.states; mined = w.mined },
      )

-- A round of the generator.
pub record Kept (node : Node) (r : Generator.Round) : Type 0 where
  pub chain : r.node.blockchain ≡ node.blockchain
  pub states : r.node.block_state ≡ node.block_state

module _ {c : Crypto} {Seen : Header → Type 0} (node : Node) (w : IsSafe c Seen node)
    (order : State → List ((H256 × ℕ) × (ℕ × Address))) where
  refresh_total : (g : GeneLoop) → (g' : GeneLoop) × (refresh node g ≡ some g')
  unfolding refresh
  refresh_total g = elim (Bool-cases (g.prev_tip == node.blockchain.tip)) [
    | inl same ↦ (g, rw same)
    | inr moved ↦
        let (s, stored) = w.stated node.blockchain.tip _ w.chain.tip_stored in
        (record g { prev_tip = node.blockchain.tip; state = s }, rw (moved, stored, ◌>>=◌))
  ]

  generate-Kept :
      (entries : List ((H256 × ℕ) × (ℕ × Address))) (g : GeneLoop)
      → Kept node (generate c node entries g)
  unfolding generate Generator.announce
  generate-Kept entries g = elim (Bool-cases ((get_tx_balance g.addr entries).1 =? 0)) [
    | inl empty_balance ↦ rw empty_balance (record { chain = refl; states = refl })
    | inr full ↦ rw full (record { chain = refl; states = refl })
  ]

  turn-Kept :
      (t : Turn) (g : GeneLoop)
      → (r : Generator.Round) × (Generator.take_turn c t node order g ≡ some r) × Kept node r
  unfolding Generator.take_turn
  turn-Kept wait g = (_, refl, record { chain = refl; states = refl })
  turn-Kept finish g = (_, refl, record { chain = refl; states = refl })
  turn-Kept work g =
      let (g', fresh) = refresh_total g in
      (generate c node (order g'.state) g', rw (fresh, ◌>>=◌), generate-Kept (order g'.state) g')

  -- A round returns unless the channel has lost its sender.
  pub generating_total :
      (received : Received) (g : GeneLoop)
      → received ≢ disconnected
      → (r : Generator.Round) × (Generator.round c node received order g ≡ some r) × Kept node r
  unfolding Generator.round
  generating_total received g n =
      let (next, controlled) = control_total g.operating_state received n in
      let (r, done, kept) = turn-Kept next.1 (record g { operating_state = next.0 }) in
      (r, rw (controlled, ◌>>=◌) done, kept)
