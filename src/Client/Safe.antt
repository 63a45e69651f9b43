-- ===== src/Client/Safe.antt =====
-- What holds of a client in every run of its threads.
use bitcoin_client.Prelude.{
  ℕ, ◌+◌, ◌≤◌, ◌<◌, ◌≡◌, ◌≢◌, ◌⊎◌, inl, inr, refl, sym, List, some, length, All, All-imp,
  Option-cases, u32_mod,
}
use mathlib.Core.Path.{subst}
use bitcoin_client.Prelude.HashMap.{HashMap, get}
use bitcoin_client.Types.Hash.{H256, h256_eq}
use bitcoin_client.Types.Block.{Header, Block}
use bitcoin_client.Types.Transaction.{State}
use bitcoin_client.Types.Crypto.{Crypto, hash}
use bitcoin_client.Blockchain.{Blockchain, genesis_hash}
use bitcoin_client.Node.{Node}
use bitcoin_client.Network.Message.{Message}
use bitcoin_client.Network.Worker.{Outcome, handle}
use bitcoin_client.Network.Worker.Safe.{IsCollisionFree, IsStored, IsSafe, IsWorked}
use bitcoin_client.Network.Worker.Run.{carried, handle_total}
use bitcoin_client.Miner.{Miner}
use bitcoin_client.Miner.Mining.{IsMined}

-- A node with the blockchain and the states of a safe node is safe.
pub same_chain-IsSafe :
    {c : Crypto} {Seen : Header → Type 0} {node node' : Node}
    → node'.blockchain ≡ node.blockchain
    → node'.block_state ≡ node.block_state
    → (w : IsSafe c Seen node) → (w' : IsSafe c Seen node') × (w'.chain.top ≡ w.chain.top)
same_chain-IsSafe {c} {Seen} {node} {node'} p q w =
    subst
      (λ (x : Blockchain × HashMap H256 State).
        (w' : IsSafe c Seen (record node' { blockchain = x.0; block_state = x.1 })) × (w'.chain.top
          ≡ w.chain.top))
      (sym (λ i. (p i, q i)))
      (
        record {
          chain = w.chain;
          stated = w.stated;
          seen = w.seen;
          fixed_difficulty = w.fixed_difficulty;
          worked = w.worked;
        },
        refl,
      )

-- A block of the miner's channel: it was mined on some node, and its parent is stored.
pub record IsQueued (c : Crypto) (Seen : Header → Type 0) (node : Node) (block : Block)
    : Type 0 where
  pub mined_on : Node
  pub used : Miner
  pub mined : IsMined c mined_on used block
  pub seen : Seen block.head
  pub other : hash c block ≢ genesis_hash c
  pub parent : IsStored node.blockchain.blocks block.head.parent

-- The handler of a message on a safe node, whatever other threads have stored: it returns, the node
-- stays safe, its orphans have their proofs of work, and no block is lost.
pub record Received (c : Crypto) (Seen : Header → Type 0) (node : Node) (orphan_blocks : List Block)
    (m : Message) (bound : ℕ) : Type 0 where
  pub outcome : Outcome
  pub returns : handle c node orphan_blocks m ≡ some outcome
  pub safe : IsSafe c Seen outcome.node
  pub worked : All (IsWorked c Seen) outcome.orphan_blocks
  pub kept :
      (k : H256) → IsStored node.blockchain.blocks k → IsStored outcome.node.blockchain.blocks k
  -- no orphan is left whose parent this message has brought
  pub caught_up :
      All
        (λ o.
          IsStored outcome.node.blockchain.blocks o.head.parent
          → IsStored node.blockchain.blocks o.head.parent)
        outcome.orphan_blocks
  pub height_le : safe.chain.top + length outcome.orphan_blocks ≤ bound

pub handle-Received :
    {c : Crypto} {Seen : Header → Type 0}
    → IsCollisionFree c Seen
    → (node : Node) (orphan_blocks : List Block) (m : Message) (w : IsSafe c Seen node)
    → All (IsWorked c Seen) orphan_blocks
    → All (λ b. Seen b.head) (carried m)
    → w.chain.top + length orphan_blocks + length (carried m) < u32_mod
    → Received c Seen node orphan_blocks m (w.chain.top + length orphan_blocks + length (carried m))
handle-Received {c} {Seen} free node orphan_blocks m w a seen room =
    let (o, run, e) =
      handle_total free (IsStored node.blockchain.blocks) node orphan_blocks m
        (record {
          safe = w;
          worked = a;
          elsewhere = λ k h. h;
          parentless = All-imp (λ b _. stored_or_not b) orphan_blocks a;
        })
        seen room in
    record {
      outcome = o;
      returns = run;
      safe = e.ready.safe;
      worked = e.ready.worked;
      kept = e.ready.elsewhere;
      caught_up = All-imp (λ b p. before b p) o.orphan_blocks e.ready.parentless;
      height_le = e.height_le;
    }
  where
    before : {P Q : Type 0} → Block → (¬ P) ⊎ Q → P → Q
    before b (inl not_there) h = absurd (not_there h)
    before b (inr there) h = there

    stored_or_not :
        (b : Block)
        → (¬ IsStored node.blockchain.blocks b.head.parent)
          ⊎ IsStored node.blockchain.blocks b.head.parent
    stored_or_not b = elim (Option-cases (get node.blockchain.blocks b.head.parent)) [
      | inl missing ↦ inl (λ (e, h). cc)
      | inr found ↦ inr found
    ]
