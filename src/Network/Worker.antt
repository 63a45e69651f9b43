-- ===== src/Network/Worker.antt =====
-- The message handlers of src/network/worker.rs. A handler gives the node after it, the worker's
-- orphan buffer, the messages written to the peer and those that are broadcast. `none` is a panic.
-- Each handler is one step: a lock is held for a part of it in the code.
pub mod Safe
pub mod Connect
pub mod Orphans
pub mod Blocks
pub mod Gossip
pub mod Supply
pub mod Forged
pub mod Run
use bitcoin_client.Prelude.{
  ℕ, zero, suc, ◌+◌, Bool, true, false, List, [], ◌∷◌, ◌++◌, Option, none, some, ◌>>=◌, ◌==◌,
  if◌then◌else◌, length, get_elem?, map,
}
use bitcoin_client.Prelude.HashMap
use bitcoin_client.Prelude.HashMap.{HashMap, get, contains_key}
use bitcoin_client.Types.Hash.{H256, h256_eq, le}
use bitcoin_client.Types.Block.{Block}
use bitcoin_client.Types.Transaction.{SignedTransaction, Mempool}
use bitcoin_client.Types.Crypto.{Crypto, hash, hash_signed, verify}
use bitcoin_client.Blockchain
use bitcoin_client.Ledger.{check_tx_state}
use bitcoin_client.Node.{Node}
use bitcoin_client.Network.Message.{
  Message, ping, pong, new_block_hashes, get_blocks, blocks, new_transaction_hashes,
  get_transactions, transactions,
}

-- What a handler changes and sends.
pub record Outcome : Type 0 where
  pub node : Node
  pub orphan_blocks : List Block
  pub replies : List Message
  pub broadcasts : List Message

-- The variables of the handler of `Blocks`.
pub record Loop : Type 0 where
  pub node : Node
  pub orphan_blocks : List Block
  pub new_blocks : List H256
  pub n : ℕ
  pub replies : List Message

-- The hashes that name no stored block.
unfoldable pub missing : HashMap H256 (Block × ℕ) → List H256 → List H256
missing stored [] = []
missing stored (h ∷ hashes) =
    if contains_key stored h then missing stored hashes else h ∷ missing stored hashes

-- The values of the keys, `none` if one is not there. `GetBlocks` and `GetTransactions` leave
-- their loop there, and send nothing.
unfoldable pub collect {ℓ} : {V : Type ℓ} → HashMap H256 V → List H256 → Option (List V)
collect stored [] = some []
collect stored (h ∷ hashes) = get stored h >>= λ v. collect stored hashes >>= λ vs. some (v ∷ vs)

-- One message, or none.
abbrev pub when_any {ℓ} : {A : Type ℓ} → List A → Message → List Message
when_any [] m = []
when_any (x ∷ xs) m = m ∷ []

abbrev pub unorphan_fuel : Loop → ℕ
unorphan_fuel s = length s.new_blocks + length s.orphan_blocks

abbrev pub quiet : Node → List Block → List Message → Outcome
quiet node orphan_blocks replies = record {
  node = node;
  orphan_blocks = orphan_blocks;
  replies = replies;
  broadcasts = [];
}

abbrev pub reply_with {ℓ} : {A : Type ℓ} → (A → Message) → Option A → List Message
reply_with f none = []
reply_with f (some a) = f a ∷ []

module _ (c : Crypto) where
  -- A block that has its parent, and passes the check of its transactions, is inserted.
  unfoldable pub add_checked : Loop → Block → Option Loop
  add_checked s block =
      check_tx_state c s.node.block_state block.head.parent block.cont.st (hash c block)
      >>= λ checked.
          if checked.0
          then (Blockchain.insert c s.node.blockchain block >>= λ chain. some (record s {
            node = record (s.node) { blockchain = chain; block_state = checked.1 };
            new_blocks = s.new_blocks ++ hash c block ∷ [];
          }))
          else some s

  -- The check of the difficulty against that of the stored block of the given hash.
  unfoldable pub connect_block : Loop → H256 → Block → Option Loop
  unfolding add_checked
  connect_block s parent_hash block = get s.node.blockchain.blocks parent_hash >>= λ parent.
      if block.head.difficulty == parent.0.head.difficulty then add_checked s block else some s

  -- The inner loop over the orphan buffer: the orphans of the parent are taken out and connected,
  -- the others stay. `s.orphan_blocks` holds those before place `i`, the list the rest.
  unfoldable pub scan : H256 → List Block → Loop → Option Loop
  unfolding connect_block
  scan parent [] s = some s
  scan parent (orphan ∷ rest) s = elim (orphan.head.parent == parent) [
    | true ↦ connect_block s parent orphan >>= scan parent rest
    | false ↦ scan parent rest (record s { orphan_blocks = s.orphan_blocks ++ orphan ∷ [] })
  ]

  -- The outer loop, `n` over the growing list of new blocks. A round takes a hash off the pending
  -- ones, and each new one took a block off the buffer, so their number together is fuel enough.
  unfoldable pub unorphan : ℕ → Loop → Option Loop
  unfolding scan
  unorphan zero s = some s
  unorphan (suc fuel) s = elim (get_elem? s.new_blocks s.n) [
    | none ↦ some s
    | some parent ↦ scan parent s.orphan_blocks (record s { orphan_blocks = [] }) >>= λ t.
        unorphan fuel (record t { n = suc t.n })
  ]

  -- One round of the loop over the blocks of the message.
  unfoldable pub process_block : Loop → Block → Option Loop
  process_block s block =
      let block_hash = hash c block in
      let parent_hash = block.head.parent in
      if le block_hash block.head.difficulty
      then if contains_key s.node.blockchain.blocks block_hash
        then some s
        else if contains_key s.node.blockchain.blocks parent_hash
        then (connect_block s parent_hash block >>= λ t. unorphan (unorphan_fuel t) t)
        else some (record s {
          orphan_blocks = s.orphan_blocks ++ block ∷ [];
          replies = s.replies ++ get_blocks (parent_hash ∷ []) ∷ [];
        })
      else some s

  unfoldable pub process_blocks : Loop → List Block → Option Loop
  process_blocks s [] = some s
  process_blocks s (block ∷ rest) = process_block s block >>= λ t. process_blocks t rest

  -- The handler of `Blocks`.
  unfoldable pub on_blocks : Node → List Block → List Block → Option Outcome
  on_blocks node orphan_blocks received =
      process_blocks
        (record {
          node = node;
          orphan_blocks = orphan_blocks;
          new_blocks = [];
          n = 0;
          replies = [];
        })
        received
      >>= λ t. some (record {
        node = t.node;
        orphan_blocks = t.orphan_blocks;
        replies = t.replies;
        broadcasts = when_any t.new_blocks (new_block_hashes t.new_blocks);
      })

  -- One round of the loop over the transactions of a message, with the hashes that are new.
  unfoldable pub receive_transaction : Mempool → List H256 → SignedTransaction → Mempool × List H256
  receive_transaction mempool new_trans t =
      if verify c t.transaction t.public_key_vector t.signature_vector
      then if contains_key mempool.trans (hash_signed c t) then (mempool, new_trans) else (
        record { trans = HashMap.insert mempool.trans (hash_signed c t) t },
        new_trans ++ hash_signed c t ∷ [],
      )
      else (mempool, new_trans)

  unfoldable pub receive_transactions :
      Mempool → List H256 → List SignedTransaction → Mempool × List H256
  unfolding receive_transaction
  receive_transactions mempool new_trans [] = (mempool, new_trans)
  receive_transactions mempool new_trans (t ∷ ts) =
      let (mempool', new_trans') = receive_transaction mempool new_trans t in
      receive_transactions mempool' new_trans' ts

  -- The handler of `Transactions`.
  unfoldable pub on_transactions : Node → List Block → List SignedTransaction → Outcome
  unfolding receive_transactions
  on_transactions node orphan_blocks ts =
      let (mempool, new_trans) = receive_transactions node.mempool [] ts in
      record {
        node = record node { mempool = mempool };
        orphan_blocks = orphan_blocks;
        replies = [];
        broadcasts = when_any new_trans (new_transaction_hashes new_trans);
      }

  -- The `match` of `worker_loop`.
  unfoldable pub handle : Node → List Block → Message → Option Outcome
  unfolding missing collect
  handle node orphan_blocks (ping nonce) = some (quiet node orphan_blocks (pong nonce ∷ []))
  handle node orphan_blocks (pong nonce) = some (quiet node orphan_blocks [])
  handle node orphan_blocks (new_block_hashes hashes) =
      let unknown = missing node.blockchain.blocks hashes in
      some (quiet node orphan_blocks (when_any unknown (get_blocks unknown)))
  handle node orphan_blocks (get_blocks hashes) = some (
      quiet node orphan_blocks (
        reply_with (λ found. blocks (map (λ (e : Block × ℕ). e.0) found))
          (collect node.blockchain.blocks hashes)))
  handle node orphan_blocks (blocks received) = on_blocks node orphan_blocks received
  -- The hashes are copied to a list that nothing reads.
  handle node orphan_blocks (new_transaction_hashes hashes) = some (quiet node orphan_blocks [])
  handle node orphan_blocks (get_transactions hashes) =
      some (quiet node orphan_blocks (reply_with transactions (collect node.mempool.trans hashes)))
  handle node orphan_blocks (transactions ts) = some (on_transactions node orphan_blocks ts)
