-- ===== src/Threads/Serial/Finish.antt =====
-- The round of the miner's worker on a block of the channel, with no other thread between its locks.
use bitcoin_client.Prelude.{
  ◌≡◌, refl, Bool, List, [], ◌∷◌, Option, none, some, ◌>>=◌, if◌then◌else◌,
}
use bitcoin_client.Prelude.HashMap.{HashMap, get, insert}
use bitcoin_client.Types.Hash.{H256, h256_eq}
use bitcoin_client.Types.Block.{Block}
use bitcoin_client.Types.Transaction.{State}
use bitcoin_client.Types.Crypto.{Crypto, hash}
use bitcoin_client.Blockchain
use bitcoin_client.Blockchain.{Blockchain}
use bitcoin_client.Ledger.{check_txs, check_tx_state, conclude}
use bitcoin_client.Node.{Node}
use bitcoin_client.Network.Message.{Message, new_block_hashes}
use bitcoin_client.Miner.Worker.{on_finished}
use bitcoin_client.Threads.{
  Shared, Program, done, alone, bind, unwrap, write, chain_lock, state_lock,
}
use bitcoin_client.Threads.Worker.{conclude_program, check_program, insert_program, or_else}
use bitcoin_client.Threads.Others.{finished_program}

module _ (c : Crypto) where
  finish_insert :
      (block : Block) (s : Shared) (states : HashMap H256 State) (o : Option Blockchain)
      → let s' = write state_lock s states in
        alone (unwrap o (λ _. done tt)) (write chain_lock s' (or_else s.node.blockchain o)) ≡ (
          (o >>= λ chain. some (
            record (s.node) { blockchain = chain; block_state = states },
            new_block_hashes (hash c block ∷ []) ∷ [],
          ))
          >>= λ (r : Node × List Message). some (record s { node = r.0 }, tt))
  unfolding alone
  finish_insert block s states none = refl
  finish_insert block s states (some chain) = refl

  module _ (block : Block) (s : Shared) where
    abbrev inserted : Bool × HashMap H256 State → Option (Node × List Message)
    inserted checked =
        if checked.0
        then (Blockchain.insert c s.node.blockchain block >>= λ chain. some (
          record (s.node) { blockchain = chain; block_state = checked.1 },
          new_block_hashes (hash c block ∷ []) ∷ [],
        ))
        else some (s.node, [])

    abbrev pub taken : Option (Node × List Message) → Option (Shared × Unit {0})
    taken o = o >>= λ r. some (record s { node = r.0 }, tt)

    abbrev insert_passed : Bool → Program (Unit {0})
    insert_passed passed = if passed then insert_program c block else done tt

    finish_conclude :
        (after : Option State)
        → alone (bind (conclude_program (hash c block) after) insert_passed) s
          ≡ taken (inserted (conclude c s.node.block_state (hash c block) after))
    unfolding alone conclude_program conclude insert_program
    finish_conclude none = refl
    finish_conclude (some st) =
        finish_insert block s (insert s.node.block_state (hash c block) st)
          (Blockchain.insert c s.node.blockchain block)

    finish_check :
        (parent : Option State)
        → alone
            (bind
              (unwrap parent
                (λ state. conclude_program (hash c block) (check_txs c state block.cont.st)))
              insert_passed)
            s
          ≡ taken (
              (parent >>= λ state.
              some (conclude c s.node.block_state (hash c block) (check_txs c state block.cont.st)))
              >>= inserted)
    unfolding alone
    finish_check none = refl
    finish_check (some st) = finish_conclude (check_txs c st block.cont.st)

    pub finished_program-alone :
        (queue : List Block)
        → alone (finished_program c (block ∷ queue)) s ≡ taken (on_finished c s.node block)
    unfolding alone finished_program check_program on_finished check_tx_state
    finished_program-alone queue = finish_check (get s.node.block_state block.head.parent)
