-- ===== src/Miner/Worker.antt =====
-- `Worker` of src/miner/worker.rs: it takes the finished blocks of the miner. Its `check_tx_state`
-- is the one of the network's worker, text for text.
use bitcoin_client.Prelude.{
  ℕ, ◌+◌, ◌≤◌, ◌<◌, ◌≡◌, ◌≢◌, ◌⊎◌, inl, inr, Bool, refl, sym, ◌∙◌, List, [], ◌∷◌, Option, none,
  some, ◌>>=◌, if◌then◌else◌, u32_mod, arith,
}
use bitcoin_client.Prelude.HashMap.{HashMap, get, insert}
use bitcoin_client.Types.Hash.{H256, h256_eq}
use bitcoin_client.Types.Block.{Header, Block}
use bitcoin_client.Types.Transaction.{SignedTransaction, State}
use bitcoin_client.Types.Crypto.{Crypto, hash}
use bitcoin_client.Blockchain
use bitcoin_client.Blockchain.{genesis_hash, genesis_difficulty}
use bitcoin_client.Ledger
use bitcoin_client.Ledger.{check_txs, conclude}
use bitcoin_client.Node.{Node}
use bitcoin_client.Network.Message.{Message, new_block_hashes}
use bitcoin_client.Network.Worker.{Loop}
use bitcoin_client.Network.Worker.Safe.{IsCollisionFree, IsStored, IsSafe, IsWorked}
use bitcoin_client.Network.Worker.Connect.{checked_cases}
use bitcoin_client.Miner.{Miner}
use bitcoin_client.Miner.Mining.{IsMined}

-- `check_tx_state`
abbrev pub check_tx_state :
    Crypto
    → HashMap H256 State
    → H256
    → List SignedTransaction
    → H256
    → Option (Bool × HashMap H256 State)
check_tx_state c block_state parent_hash signed_txs block_hash =
    Ledger.check_tx_state c block_state parent_hash signed_txs block_hash

-- A round of `worker_loop`, with what it broadcasts. A missing state or parent is a panic.
unfoldable pub on_finished : Crypto → Node → Block → Option (Node × List Message)
on_finished c node block =
    check_tx_state c node.block_state block.head.parent block.cont.st (hash c block) >>= λ checked.
    if checked.0
    then (Blockchain.insert c node.blockchain block >>= λ chain. some (
      record node { blockchain = chain; block_state = checked.1 },
      new_block_hashes (hash c block ∷ []) ∷ [],
    ))
    else some (node, [])

-- The variables of the network's handler, over a node.
abbrev loop_on : Node → Loop
loop_on node = record { node = node; orphan_blocks = []; new_blocks = []; n = 0; replies = [] }

-- What the worker makes of a block. The check by `check_txs` on the state after the parent decides:
-- the block and the state after it are stored and announced, or the node is left alone.
pub record Taken (c : Crypto) (Seen : Header → Type 0) (node : Node) (top : ℕ) (block : Block)
    : Type 0 where
  pub node' : Node
  pub sent : List Message
  pub returns : on_finished c node block ≡ some (node', sent)
  pub safe : IsSafe c Seen node'
  pub top_le : safe.chain.top ≤ top + 1
  pub kept : (k : H256) → IsStored node.blockchain.blocks k → IsStored node'.blockchain.blocks k
  pub state : State
  pub state_found : get node.block_state block.head.parent ≡ some state
  pub cases :
      ((check_txs c state block.cont.st ≡ none) × (node' ≡ node) × (sent ≡ []))
      ⊎ ((after : State) × (check_txs c state block.cont.st ≡ some after)
          × (sent ≡ new_block_hashes (hash c block ∷ []) ∷ [])
          × IsStored node'.blockchain.blocks (hash c block)
          × (Blockchain.insert c node.blockchain block ≡ some node'.blockchain)
          × (node'.block_state ≡ insert node.block_state (hash c block) after)
          × (node'.mempool ≡ node.mempool))

-- On a safe node whose height leaves room in a `u32`, the worker handles a block that the miner
-- made on a stored parent without a panic, and the node stays safe. If the block's transactions
-- pass `check_txs` on the state after the parent, it is inserted, the state after it is kept under
-- its hash, and it is announced; if they do not, the node is left alone and nothing is sent. The
-- block is not the genesis block, and no header at hand has its hash.
pub on_finished-IsSafe :
    {c : Crypto} {Seen : Header → Type 0}
    → IsCollisionFree c Seen
    → (node : Node) (w : IsSafe c Seen node) (m : Miner) (mined_on : Node) (block : Block)
    → IsMined c mined_on m block
    → Seen block.head
    → hash c block ≢ genesis_hash c
    → IsStored node.blockchain.blocks block.head.parent
    → w.chain.top + 1 < u32_mod
    → Taken c Seen node w.chain.top block
unfolding on_finished Ledger.check_tx_state conclude
on_finished-IsSafe {c} {Seen} free node w m mined_on block mined seen other (e, parent) room =
    let a : IsWorked c Seen block = record { seen = seen; worked = mined.worked; other = other } in
    let same = mined.difficulty ∙ sym (w.fixed_difficulty block.head.parent e parent) in
    let (state, found, cases) =
      checked_cases free (loop_on node) w block a e.0 e.1 parent room same in
    elim cases [
      | inl refused ↦ record {
        node' = node;
        sent = [];
        returns = rw (found, refused, ◌>>=◌);
        safe = w;
        top_le = omega arith;
        kept = λ k h. h;
        state = state;
        state_found = found;
        cases = inl (refused, refl, refl);
      }
      | inr (after, chain', passed, returns, d) ↦ record {
        node' = record node {
          blockchain = chain';
          block_state = insert node.block_state (hash c block) after;
        };
        sent = new_block_hashes (hash c block ∷ []) ∷ [];
        returns = rw (found, passed, returns, ◌>>=◌);
        safe = d.safe;
        top_le = d.top_le;
        kept = d.kept;
        state = state;
        state_found = found;
        cases = inr (after, passed, refl, (d.news_stored tt).0, returns, refl, refl);
      }
    ]
