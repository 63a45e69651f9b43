-- ===== src/Miner.antt =====
-- The miner of src/miner/mod.rs. The nonce, the time, what the control channel gives and the order
-- in which the map of the mempool is iterated are arguments of a round.
pub mod Mining
pub mod Exist
pub mod Worker
pub mod Lost
use bitcoin_client.Prelude.{
  ℕ, zero, suc, ◌+◌, Bool, true, false, List, [], ◌∷◌, ◌++◌, Option, none, some, ◌>>=◌, ◌==◌, ◌=?◌,
  leb, if◌then◌else◌, length,
}
use bitcoin_client.Prelude.HashMap
use bitcoin_client.Prelude.HashMap.{HashMap, get}
use bitcoin_client.Types.Hash.{H256, h256_eq, le}
use bitcoin_client.Types.Block.{Header, Block}
use bitcoin_client.Types.Transaction.{SignedTransaction, Mempool}
use bitcoin_client.Types.Crypto.{Crypto, hash, hash_signed}
use bitcoin_client.Types.Merkle
use bitcoin_client.Blockchain.{Blockchain, genesis_difficulty}
use bitcoin_client.Node.{Node}
use bitcoin_client.Control.{OperatingState, Received, Turn, wait, finish, work, control, paused}

-- The variables of `miner_loop`, with `operating_state` of the context.
pub record Miner : Type 0 where
  pub operating_state : OperatingState
  pub to_remove : List H256
  pub transaction : List SignedTransaction

-- What `new` and the first lines of `miner_loop` set up.
unfoldable pub new_miner : Miner
new_miner = record { operating_state = paused; to_remove = []; transaction = [] }

-- What a round changes and sends.
pub record Round : Type 0 where
  pub miner : Miner
  pub node : Node
  pub finished : Option Block

abbrev pub block_size : ℕ
block_size = 50

-- The loop over the mempool.
unfoldable pub fill :
    List (H256 × SignedTransaction)
    → List H256
    → List SignedTransaction
    → List H256 × List SignedTransaction
fill [] to_remove transaction = (to_remove, transaction)
fill ((h, t) ∷ entries) to_remove transaction =
    let rest = fill entries (to_remove ++ h ∷ []) (transaction ++ t ∷ []) in
    if leb block_size (length to_remove) then (to_remove, transaction) else rest

-- `if to_remove.len() == 0 { .. }`
unfoldable pub select : List (H256 × SignedTransaction) → Miner → Miner
unfolding fill
select entries m =
    if length m.to_remove =? 0
    then (let (to_remove, transaction) = fill entries m.to_remove m.transaction in
        record m { to_remove = to_remove; transaction = transaction })
    else m

-- `for item in to_remove.iter() { mempool.trans.remove(item) }`
unfoldable pub remove_all :
    HashMap H256 SignedTransaction → List H256 → HashMap H256 SignedTransaction
remove_all trans [] = trans
remove_all trans (h ∷ hashes) = remove_all (HashMap.remove trans h) hashes

-- The block of a round, on the tip.
unfoldable pub candidate : H256 → List SignedTransaction → H256 → ℕ → ℕ → Block
candidate tip transaction root nonce time = record {
  head = record {
    parent = tip;
    nonce = nonce;
    difficulty = genesis_difficulty;
    timestamp = time;
    merkle_root = root;
  };
  cont = record { st = transaction };
}

module _ (c : Crypto) where
  -- The test of the proof of work. A block that has it is sent, and its transactions leave the
  -- mempool.
  unfoldable pub conclude : Miner → Node → Block → Round
  unfolding remove_all
  conclude m node block =
      if le (hash c block) genesis_difficulty
      then record {
        miner = record m { to_remove = []; transaction = [] };
        node = record node {
          mempool = record { trans = remove_all node.mempool.trans m.to_remove };
        };
        finished = some block;
      }
      else record { miner = m; node = node; finished = none }

  -- The mining part of a round.
  unfoldable pub mine : Node → List (H256 × SignedTransaction) → ℕ → ℕ → Miner → Option Round
  mine node entries nonce time m =
      let selected = select entries m in
      Merkle.new c (hash_signed c) selected.transaction >>= λ tree. Merkle.root tree >>= λ root.
      some (
        conclude selected node (candidate node.blockchain.tip selected.transaction root nonce time))

  unfoldable pub take_turn :
      Turn → Node → List (H256 × SignedTransaction) → ℕ → ℕ → Miner → Option Round
  take_turn wait node entries nonce time m =
      some (record { miner = m; node = node; finished = none })
  take_turn finish node entries nonce time m =
      some (record { miner = m; node = node; finished = none })
  take_turn work node entries nonce time m = mine node entries nonce time m

  -- A round of `miner_loop`.
  unfoldable pub round :
      Node → Received → List (H256 × SignedTransaction) → ℕ → ℕ → Miner → Option Round
  unfolding mine take_turn select conclude candidate
  round node received entries nonce time m = control m.operating_state received >>= λ next.
      take_turn next.1 node entries nonce time (record m { operating_state = next.0 })

  -- Whether none of the transactions has the hash.
  unfoldable pub absent : H256 → List SignedTransaction → Bool
  absent tx [] = true
  absent tx (t ∷ st) = let rest = absent tx st in if tx == hash_signed c t then false else rest

  -- The `while` loop of `tx_exist_check`.
  unfoldable pub exist_loop : HashMap H256 (Block × ℕ) → H256 → ℕ → H256 → Option Bool
  unfolding absent
  exist_loop blocks tx zero next_hash = some true
  exist_loop blocks tx (suc height) next_hash = get blocks next_hash >>= λ entry.
      if absent tx entry.0.cont.st
      then exist_loop blocks tx height entry.0.head.parent
      else some false

  -- `tx_exist_check`
  unfoldable pub tx_exist_check : Blockchain → H256 → Option Bool
  unfolding exist_loop
  tx_exist_check chain tx = get chain.blocks chain.tip >>= λ entry.
      if absent tx entry.0.cont.st
      then exist_loop chain.blocks tx entry.1 entry.0.head.parent
      else some false
