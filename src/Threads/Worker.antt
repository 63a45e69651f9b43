-- ===== src/Threads/Worker.antt =====
-- The programs of the workers of src/network/worker.rs, lock by lock.
use bitcoin_client.Prelude.{
  ℕ, zero, suc, ◌+◌, Bool, true, false, List, [], ◌∷◌, ◌++◌, Option, none, some, ◌==◌,
  if◌then◌else◌, length, get_elem?, map,
}
use bitcoin_client.Prelude.HashMap
use bitcoin_client.Prelude.HashMap.{get, contains_key}
use bitcoin_client.Types.Hash.{H256, h256_eq, le}
use bitcoin_client.Types.Block.{Block}
use bitcoin_client.Types.Transaction.{SignedTransaction, State}
use bitcoin_client.Types.Crypto.{Crypto, hash, hash_signed, verify}
use bitcoin_client.Blockchain
use bitcoin_client.Blockchain.{Blockchain}
use bitcoin_client.Ledger.{check_txs}
use bitcoin_client.Network.Message.{
  Message, ping, pong, new_block_hashes, get_blocks, blocks, new_transaction_hashes,
  get_transactions, transactions,
}
use bitcoin_client.Network.Worker.{missing, collect, when_any, reply_with}
use bitcoin_client.Threads.{
  Program, done, acquire, chain_lock, mempool_lock, state_lock, look, unwrap, bind,
}

-- The variables of the handler of `Blocks`.
pub record Vars : Type 0 where
  pub orphan_blocks : List Block
  pub new_blocks : List H256
  pub n : ℕ
  pub replies : List Message

-- What a handler leaves to the worker and sends.
pub record Handled : Type 0 where
  pub orphan_blocks : List Block
  pub replies : List Message
  pub broadcasts : List Message

abbrev pub silent : List Block → List Message → Handled
silent orphan_blocks replies = record {
  orphan_blocks = orphan_blocks;
  replies = replies;
  broadcasts = [];
}

abbrev pub or_else : {A : Type 0} → A → Option A → A
or_else a none = a
or_else a (some b) = b

-- The loop of `GetTransactions`: the mempool is locked to look for a transaction, and again to
-- take it.
unfoldable pub collect_program :
    List H256 → List SignedTransaction → Program (Option (List SignedTransaction))
collect_program [] trans = done (some trans)
collect_program (h ∷ hashes) trans = look mempool_lock (λ m.
    if contains_key m.trans h
    then look mempool_lock
        (λ m'. unwrap (get m'.trans h) (λ t. collect_program hashes (trans ++ t ∷ [])))
    else done none)

unfoldable pub conclude_program : H256 → Option State → Program Bool
conclude_program block_hash none = done false
conclude_program block_hash (some state) =
    acquire state_lock (λ m. HashMap.insert m block_hash state) (λ _. done true)

-- A block whose parent is not stored is kept, and its parent asked for.
abbrev pub push : Vars → Block → Vars
push v block = record v {
  orphan_blocks = v.orphan_blocks ++ block ∷ [];
  replies = v.replies ++ get_blocks (block.head.parent ∷ []) ∷ [];
}

module _ (c : Crypto) where
  -- `check_tx_state`
  unfoldable pub check_program : H256 → List SignedTransaction → H256 → Program Bool
  unfolding conclude_program
  check_program parent_hash signed_txs block_hash = look state_lock (λ m.
      unwrap (get m parent_hash)
        (λ state. conclude_program block_hash (check_txs c state signed_txs)))

  -- `self.blockchain.lock().unwrap().insert(..)`
  unfoldable pub insert_program : Block → Program Unit
  insert_program block =
      acquire chain_lock (λ chain. or_else chain (Blockchain.insert c chain block))
        (λ chain. unwrap (Blockchain.insert c chain block) (λ _. done tt))

  unfoldable pub add_program : Vars → Block → Program Vars
  unfolding check_program insert_program
  add_program v block =
      bind (check_program block.head.parent block.cont.st (hash c block)) (λ passed.
        if passed
        then bind (insert_program block)
            (λ _. done (record v { new_blocks = v.new_blocks ++ hash c block ∷ [] }))
        else done v)

  unfoldable pub connect_program : Vars → H256 → Block → Program Vars
  unfolding add_program
  connect_program v parent_hash block = look chain_lock (λ chain.
      unwrap (get chain.blocks parent_hash) (λ parent.
        if block.head.difficulty == parent.0.head.difficulty then add_program v block else done v))

  -- The inner loop over the orphan buffer.
  unfoldable pub scan_program : H256 → List Block → Vars → Program Vars
  unfolding connect_program
  scan_program parent [] v = done v
  scan_program parent (orphan ∷ rest) v = elim (orphan.head.parent == parent) [
    | true ↦ bind (connect_program v parent orphan) (scan_program parent rest)
    | false ↦ scan_program parent rest (record v { orphan_blocks = v.orphan_blocks ++ orphan ∷ [] })
  ]

  -- The outer loop, on fuel.
  unfoldable pub unorphan_program : ℕ → Vars → Program Vars
  unfolding scan_program
  unorphan_program zero v = done v
  unorphan_program (suc fuel) v = elim (get_elem? v.new_blocks v.n) [
    | none ↦ done v
    | some parent ↦
        bind (scan_program parent v.orphan_blocks (record v { orphan_blocks = [] }))
          (λ t. unorphan_program fuel (record t { n = suc t.n }))
  ]

  abbrev pub catch_up : Vars → Program Vars
  catch_up v = unorphan_program (length v.new_blocks + length v.orphan_blocks) v

  -- One round of the loop over the blocks of the message.
  unfoldable pub process_program : Vars → Block → Program Vars
  process_program v block =
      if le (hash c block) block.head.difficulty
      then look chain_lock (λ chain.
        if contains_key chain.blocks (hash c block)
        then done v
        else look chain_lock (λ chain'.
          if contains_key chain'.blocks block.head.parent
          then bind (connect_program v block.head.parent block) catch_up
          else done (push v block)))
      else done v

  unfoldable pub process_all : Vars → List Block → Program Vars
  process_all v [] = done v
  process_all v (block ∷ rest) = bind (process_program v block) (λ t. process_all t rest)

  -- The handler of `Blocks`.
  unfoldable pub blocks_program : List Block → List Block → Program Handled
  blocks_program orphan_blocks received =
      bind
        (process_all
          (record { orphan_blocks = orphan_blocks; new_blocks = []; n = 0; replies = [] }) received)
        (λ v. done (record {
          orphan_blocks = v.orphan_blocks;
          replies = v.replies;
          broadcasts = when_any v.new_blocks (new_block_hashes v.new_blocks);
        }))

  -- The loop of `Transactions`: the mempool is locked for the test and for the insertion.
  unfoldable pub receive_program : List H256 → List SignedTransaction → Program (List H256)
  receive_program new_trans [] = done new_trans
  receive_program new_trans (t ∷ ts) =
      if verify c t.transaction t.public_key_vector t.signature_vector
      then look mempool_lock (λ m.
        if contains_key m.trans (hash_signed c t)
        then receive_program new_trans ts
        else acquire mempool_lock
            (λ m'. record { trans = HashMap.insert m'.trans (hash_signed c t) t })
            (λ _. receive_program (new_trans ++ hash_signed c t ∷ []) ts))
      else receive_program new_trans ts

  -- The `match` of `worker_loop`.
  unfoldable pub handle_program : List Block → Message → Program Handled
  handle_program orphan_blocks (ping nonce) = done (silent orphan_blocks (pong nonce ∷ []))
  handle_program orphan_blocks (pong nonce) = done (silent orphan_blocks [])
  handle_program orphan_blocks (new_block_hashes hashes) = look chain_lock (λ chain.
      let unknown = missing chain.blocks hashes in
      done (silent orphan_blocks (when_any unknown (get_blocks unknown))))
  handle_program orphan_blocks (get_blocks hashes) = look chain_lock (λ chain. done (
      silent orphan_blocks (
        reply_with (λ found. blocks (map (λ (e : Block × ℕ). e.0) found))
          (collect chain.blocks hashes))))
  handle_program orphan_blocks (blocks received) = blocks_program orphan_blocks received
  handle_program orphan_blocks (new_transaction_hashes hashes) = done (silent orphan_blocks [])
  handle_program orphan_blocks (get_transactions hashes) =
      bind (collect_program hashes [])
        (λ trans. done (silent orphan_blocks (reply_with transactions trans)))
  handle_program orphan_blocks (transactions ts) = bind (receive_program [] ts) (λ new_trans.
      done (record {
        orphan_blocks = orphan_blocks;
        replies = [];
        broadcasts = when_any new_trans (new_transaction_hashes new_trans);
      }))

  -- `worker_loop`, for the messages that arrive.
  unfoldable pub worker_program : List Block → List Message → Program Unit
  worker_program orphan_blocks [] = done tt
  worker_program orphan_blocks (m ∷ messages) =
      bind (handle_program orphan_blocks m) (λ r. worker_program r.orphan_blocks messages)
