-- ===== src/Threads/Others.antt =====
-- The programs of the other threads, lock by lock: the generator of
-- src/generator/tx_generator.rs, the miner of src/miner/mod.rs and its worker of
-- src/miner/worker.rs, whose `check_tx_state` is the network worker's, and the routes of
-- src/api/mod.rs that read the blockchain.
use bitcoin_client.Prelude.{
  ℕ, zero, suc, List, [], ◌∷◌, ◌++◌, ◌==◌, ◌=?◌, if◌then◌else◌, length, ltb, reverse,
}
use bitcoin_client.Prelude.HashMap
use bitcoin_client.Prelude.HashMap.{get, contains_key}
use bitcoin_client.Types.Hash.{H256, h256_eq, le}
use bitcoin_client.Types.Address.{Address}
use bitcoin_client.Types.Block.{Block}
use bitcoin_client.Types.Transaction.{SignedTransaction, Mempool, State}
use bitcoin_client.Types.Crypto.{Crypto, hash, hash_signed}
use bitcoin_client.Types.Merkle
use bitcoin_client.Blockchain.{genesis_difficulty, all_blocks_in_longest_chain}
use bitcoin_client.Ledger.{spend}
use bitcoin_client.Control.{Received, Turn, wait, finish, work, control}
use bitcoin_client.Miner.{Miner, fill, candidate}
use bitcoin_client.Generator
use bitcoin_client.Generator.{GeneLoop, get_tx_balance}
use bitcoin_client.Api.{listing}
use bitcoin_client.Threads.{
  Program, done, acquire, chain_lock, mempool_lock, state_lock, channel_lock, look, unwrap, bind,
}
use bitcoin_client.Threads.Worker.{check_program, insert_program}

-- The routes "/blockchain/state", "/blockchain/longest-chain-tx" and "/blockchain/longest-chain".
-- The others lock nothing.
pub data Request : Type 0 where
  state_request : ℕ → Request
  txs_request : Request
  chain_request : Request

-- The order in which the map of the unspent outputs is iterated.
abbrev pub OutputOrder : Type 0
OutputOrder = State → List ((H256 × ℕ) × (ℕ × Address))

-- The order in which the map of the mempool is iterated.
abbrev pub PoolOrder : Type 0
PoolOrder = Mempool → List (H256 × SignedTransaction)

-- The generator's state after the tip, taken anew where the tip has changed.
unfoldable pub refresh_program : GeneLoop → Program GeneLoop
refresh_program g = look chain_lock (λ chain.
    if g.prev_tip == chain.tip
    then done g
    else look state_lock (λ m.
      unwrap (get m chain.tip) (λ state. done (record g { prev_tip = chain.tip; state = state }))))

-- `if !mempool.trans.contains_key(..) { mempool.trans.insert(..) }`, in two locks.
unfoldable pub offer_program : H256 → SignedTransaction → Program Unit
offer_program tx_hash t = look mempool_lock (λ m.
    if contains_key m.trans tx_hash
    then done tt
    else acquire mempool_lock (λ m'. record { trans = HashMap.insert m'.trans tx_hash t })
        (λ _. done tt))

-- `if to_remove.len() == 0 { .. }`
unfoldable pub select_program : PoolOrder → Miner → Program Miner
select_program order m =
    if length m.to_remove =? 0
    then look mempool_lock (λ pool.
      let (to_remove, transaction) = fill (order pool) m.to_remove m.transaction in
      done (record m { to_remove = to_remove; transaction = transaction }))
    else done m

-- The mempool is locked for each transaction to remove.
unfoldable pub remove_program : List H256 → Program Unit
remove_program [] = done tt
remove_program (h ∷ hashes) =
    acquire mempool_lock (λ m. record { trans = HashMap.remove m.trans h })
      (λ _. remove_program hashes)

-- The `while` loop of "/blockchain/state".
unfoldable pub state_loop_program : ℕ → ℕ → H256 → Block → Program H256
state_loop_program block_index zero next_hash block = done next_hash
state_loop_program block_index (suc height) next_hash block =
    if ltb block_index (suc height)
    then look chain_lock (λ chain.
      unwrap (get chain.blocks block.head.parent)
        (λ entry. state_loop_program block_index height block.head.parent entry.0))
    else done next_hash

-- The reading of "/blockchain/state".
unfoldable pub state_program : ℕ → Program State
unfolding state_loop_program
state_program block_index = look chain_lock (λ chain. look chain_lock (λ chain'.
    unwrap (get chain'.blocks chain.tip) (λ entry.
      bind (state_loop_program block_index entry.1 chain.tip entry.0)
        (λ next_hash. look state_lock (λ m. unwrap (get m next_hash) (λ state. done state))))))

-- `recv`
abbrev pub rest_of : List Block → List Block
rest_of [] = []
rest_of (block ∷ queue) = queue

module _ (c : Crypto) where
  unfoldable pub generate_program : List ((H256 × ℕ) × (ℕ × Address)) → GeneLoop → Program GeneLoop
  unfolding offer_program
  generate_program entries g =
      let (inputs, balance) = get_tx_balance g.addr entries in
      let t = Generator.signed c g inputs balance in
      if balance =? 0
      then done g
      else bind (offer_program (hash_signed c t) t)
          (λ _. done (record g { state = spend c g.state t }))

  unfoldable pub generator_turn : Turn → OutputOrder → GeneLoop → Program GeneLoop
  unfolding refresh_program generate_program
  generator_turn wait order g = done g
  generator_turn finish order g = done g
  generator_turn work order g =
      bind (refresh_program g) (λ next. generate_program (order next.state) next)

  -- `generator_loop`: after the shutdown its rounds do nothing.
  unfoldable pub generator_program : GeneLoop → List (Received × OutputOrder) → Program Unit
  unfolding generator_turn
  generator_program g [] = done tt
  generator_program g ((received, order) ∷ rounds) =
      unwrap (control g.operating_state received) (λ next.
        bind (generator_turn next.1 order (record g { operating_state = next.0 }))
          (λ g'. generator_program g' rounds))

  -- The test of the proof of work: the block is sent, then its transactions leave the mempool.
  unfoldable pub send_program : Miner → Block → Program Miner
  unfolding remove_program
  send_program m block =
      if le (hash c block) genesis_difficulty
      then acquire channel_lock (λ queue. queue ++ block ∷ [])
          (λ _.
            bind (remove_program m.to_remove)
              (λ _. done (record m { to_remove = []; transaction = [] })))
      else done m

  unfoldable pub mine_program : PoolOrder → ℕ → ℕ → Miner → Program Miner
  unfolding select_program send_program
  mine_program order nonce time m = bind (select_program order m) (λ selected.
      unwrap (Merkle.new c (hash_signed c) selected.transaction) (λ tree.
        unwrap (Merkle.root tree) (λ root. look chain_lock (λ chain.
          send_program selected (candidate chain.tip selected.transaction root nonce time)))))

  unfoldable pub miner_turn : Turn → PoolOrder → ℕ → ℕ → Miner → Program Miner
  unfolding mine_program
  miner_turn wait order nonce time m = done m
  miner_turn finish order nonce time m = done m
  miner_turn work order nonce time m = mine_program order nonce time m

  -- `miner_loop`, with the nonce and the time of each round.
  unfoldable pub miner_program : Miner → List (Received × PoolOrder × ℕ × ℕ) → Program Unit
  unfolding miner_turn
  miner_program m [] = done tt
  miner_program m ((received, order, nonce, time) ∷ rounds) =
      unwrap (control m.operating_state received) (λ next.
        bind (miner_turn next.1 order nonce time (record m { operating_state = next.0 }))
          (λ m'. miner_program m' rounds))

  -- The miner's worker adds a block.
  unfoldable pub finished_program : List Block → Program Unit
  finished_program [] = done tt
  finished_program (block ∷ queue) =
      bind (check_program c block.head.parent block.cont.st (hash c block))
        (λ passed. if passed then insert_program c block else done tt)

  -- `worker_loop` of the miner's worker, for a number of rounds; a round that finds the channel empty
  -- waits.
  unfoldable pub taker_program : ℕ → Program Unit
  unfolding finished_program
  taker_program zero = done tt
  taker_program (suc rounds) =
      acquire channel_lock rest_of
        (λ queue. bind (finished_program queue) (λ _. taker_program rounds))

  -- The `while` loop of "/blockchain/longest-chain-tx".
  unfoldable pub tx_loop_program : ℕ → H256 → List (List (List ℕ)) → Program (List (List (List ℕ)))
  tx_loop_program zero next_hash hashes_string = done hashes_string
  tx_loop_program (suc height) next_hash hashes_string = look chain_lock (λ chain.
      unwrap (get chain.blocks next_hash) (λ entry.
        tx_loop_program height entry.0.head.parent (hashes_string ++ listing c entry.0 ∷ [])))

  -- The reading of "/blockchain/longest-chain-tx".
  unfoldable pub chain_txs_program : Program (List (List (List ℕ)))
  unfolding tx_loop_program
  chain_txs_program = look chain_lock (λ chain. look chain_lock (λ chain'.
      unwrap (get chain'.blocks chain.tip) (λ entry.
        bind (tx_loop_program entry.1 entry.0.head.parent (listing c entry.0 ∷ []))
          (λ hashes_string. done (reverse hashes_string)))))

  -- A request to one of these routes. The answer goes to the peer.
  unfoldable pub request_program : Request → Program Unit
  unfolding state_program chain_txs_program
  request_program (state_request block_index) = bind (state_program block_index) (λ _. done tt)
  request_program chain_request =
      look chain_lock (λ chain. unwrap (all_blocks_in_longest_chain chain) (λ _. done tt))
  request_program txs_request = bind chain_txs_program (λ _. done tt)
