-- ===== src/Threads/Alone.antt =====
-- A handler that no other thread comes between does what the handlers of Network.Worker say.
pub mod Bind
pub mod Blocks
pub mod Pool
use mathlib.Core.List.{append-nil, append_assoc}
use bitcoin_client.Prelude.{
  ℕ, zero, suc, ◌≡◌, refl, sym, ap, ◌∙◌, inl, inr, Bool, List, [], ◌∷◌, ◌++◌, Option, none, some,
  ◌>>=◌, ◌==◌, if◌then◌else◌, Bool-cases, Option-cases, get_elem?,
}
use bitcoin_client.Prelude.HashMap.{HashMap, get, is_some, insert, contains_key}
use bitcoin_client.Types.Hash.{H256, h256_eq, le}
use bitcoin_client.Types.Block.{Block}
use bitcoin_client.Types.Transaction.{SignedTransaction, Mempool, State}
use bitcoin_client.Types.Crypto.{Crypto, hash, hash_signed, verify}
use bitcoin_client.Blockchain
use bitcoin_client.Blockchain.{Blockchain}
use bitcoin_client.Ledger.{check_txs, check_tx_state, conclude}
use bitcoin_client.Network.Message.{
  Message, ping, pong, new_block_hashes, get_blocks, blocks, new_transaction_hashes,
  get_transactions, transactions,
}
use bitcoin_client.Network.Worker.{
  Loop, Outcome, add_checked, connect_block, scan, unorphan, process_block, process_blocks,
  on_blocks, collect, unorphan_fuel, receive_transactions, receive_transaction, on_transactions,
  handle, when_any, reply_with,
}
use bitcoin_client.Threads.{
  Shared, Program, done, panic, acquire, alone, bind, look, unwrap, read, write, chain_lock,
  mempool_lock, state_lock,
}
use bitcoin_client.Threads.Worker.{
  Vars, Handled, silent, or_else, conclude_program, check_program, insert_program, add_program,
  connect_program, scan_program, unorphan_program, process_program, process_all, blocks_program,
  collect_program, receive_program, handle_program, push, catch_up,
}
use bitcoin_client.Threads.Alone.Bind.{alone-bind_eq}
use bitcoin_client.Threads.Alone.Blocks.{loop_of, backs, process_all-alone}
use bitcoin_client.Threads.Alone.Pool.{same_collected, collect_program-alone, receive_program-alone}

-- The messages of the atomic handler, and the shared values.
abbrev pub sent_of : Shared → Outcome → Shared × Handled
sent_of s o = (
  record s { node = o.node },
  record { orphan_blocks = o.orphan_blocks; replies = o.replies; broadcasts = o.broadcasts },
)

module _ (c : Crypto) where
  blocks_done :
      (s : Shared) (o : Option Loop)
      → (backs s o >>= λ r. some (
        r.0,
        record {
          orphan_blocks = r.1.orphan_blocks;
          replies = r.1.replies;
          broadcasts = when_any r.1.new_blocks (new_block_hashes r.1.new_blocks);
        },
      ))
        ≡ ((o >>= λ t. some (record {
          node = t.node;
          orphan_blocks = t.orphan_blocks;
          replies = t.replies;
          broadcasts = when_any t.new_blocks (new_block_hashes t.new_blocks);
        }))
            >>= λ q. some (sent_of s q))
  blocks_done s none = refl
  blocks_done s (some t) = refl

  -- The handler of a message that takes its locks one by one, with no other thread in between,
  -- does what the handler does that is one step: it panics for the same messages, leaves the same
  -- node and the same orphans, and sends the same replies and broadcasts.
  pub handle_program-alone :
      (s : Shared) (orphan_blocks : List Block) (m : Message)
      → alone (handle_program c orphan_blocks m) s
        ≡ (handle c s.node orphan_blocks m >>= λ o. some (sent_of s o))
  unfolding handle_program handle alone blocks_program on_blocks on_transactions
  handle_program-alone s orphan_blocks (ping nonce) = refl
  handle_program-alone s orphan_blocks (pong nonce) = refl
  handle_program-alone s orphan_blocks (new_block_hashes hashes) = refl
  handle_program-alone s orphan_blocks (get_blocks hashes) = refl
  handle_program-alone s orphan_blocks (blocks received_blocks) =
      alone-bind_eq (process_all c _ received_blocks) _ s _
        (process_all-alone c s _ received_blocks)
      ∙ blocks_done s (process_blocks c (loop_of s _) received_blocks)
  handle_program-alone s orphan_blocks (new_transaction_hashes hashes) = refl
  handle_program-alone s orphan_blocks (get_transactions hashes) =
      alone-bind_eq (collect_program hashes []) _ s _ (collect_program-alone hashes [] s)
      ∙ ap
          (λ (o : Option (List SignedTransaction)).
            some (s, silent orphan_blocks (reply_with transactions o)))
          (same_collected (collect s.node.mempool.trans hashes))
  handle_program-alone s orphan_blocks (transactions ts) =
      alone-bind_eq (receive_program c [] ts) _ s _ (receive_program-alone c ts s [])
