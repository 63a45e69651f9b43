-- ===== src/Tests/Threads.antt =====
-- Interleavings: the miner mines a block and its worker stores it, while a worker of the network
-- has its child and the generator and the API read; and the race on the mempool.
use bitcoin_client.Prelude.{
  ℕ, ◌≡◌, refl, ◌∙◌, List, [], ◌∷◌, none, some, inl, inr, ◌>>=◌, arith, eq_refl,
}
use bitcoin_client.Prelude.HashMap.{get, insert}
use bitcoin_client.Prelude.Equality.{list_eq, list_beq, nat_eq}
use bitcoin_client.Types.Hash.{h256_eq, cmp, zeros}
use bitcoin_client.Prelude.Bytes.{from_be_bytes}
use bitcoin_client.Types.Merkle
use bitcoin_client.Types.Transaction.{Mempool}
use bitcoin_client.Types.Crypto.{hash, hash_signed, sign}
use bitcoin_client.Types.Address.{from_public_key_bytes}
use bitcoin_client.Blockchain
use bitcoin_client.Blockchain.{genesis_hash}
use bitcoin_client.Node.{Node, initial}
use bitcoin_client.Network.Worker.Safe.{IsSafe}
use bitcoin_client.Network.Message.{blocks, ping, get_transactions}
use bitcoin_client.Control.{Received, run, empty, signal, start, control}
use bitcoin_client.Miner.{Miner, select, fill, candidate}
use bitcoin_client.Client.{Client}
use bitcoin_client.Client.Safe.{same_chain-IsSafe}
use bitcoin_client.Client.Invariant.{IsClient}
use bitcoin_client.Threads
use bitcoin_client.Threads.{Shared, Pool, Program, tick, turn, alone, bind, done}
use bitcoin_client.Threads.Worker.{
  worker_program, handle_program, blocks_program, process_program, process_all, check_program,
}
use bitcoin_client.Threads.Others.{
  state_request, OutputOrder, PoolOrder, generator_program, miner_program, miner_turn, mine_program,
  select_program, send_program, taker_program,
}
use bitcoin_client.Threads.Calm.{IsCalm, Later}
use bitcoin_client.Threads.Turns.{AreAllNew}
use bitcoin_client.Threads.System.{Jobs, AreJobs, shared, threads, workers, run-IsCalm}
use bitcoin_client.Threads.Alone.{handle_program-alone, sent_of}
use bitcoin_client.Threads.Serial.Loops.{mine_rounds, generate_rounds, take_rounds, loops-alone}
use bitcoin_client.Threads.Race.{get_transactions_panics}
use bitcoin_client.Network.Worker.{handle}
use bitcoin_client.Tests.Toy.{toy, toy_digest, header_bytes, transaction_bytes}
use bitcoin_client.Tests.Chain.{block_1, block_2, IsSeen, seen_free, block_1_other, signed_payment}
use bitcoin_client.Tests.Traffic.{first_gene, block_1-IsMined}
use bitcoin_client.Tests.Client.{start_node, start_client, start_safe}

-- The mempool has the payment that the first block pays.
abbrev full_pool : Mempool
full_pool = record { trans = (hash_signed toy signed_payment, signed_payment) ∷ [] }

abbrev full_node : Node
full_node = record start_node { mempool = full_pool }

abbrev idle_miner : Miner
idle_miner = record { operating_state = run 0; to_remove = []; transaction = [] }

abbrev full_client : Client
full_client = record start_client { node = full_node; miner = idle_miner; finished_blocks = [] }

full_safe : (w : IsSafe toy IsSeen full_node) × (w.chain.top ≡ 0)
full_safe =
    let r = same_chain-IsSafe {node = start_node} {node' = full_node} refl refl start_safe.0 in
    (r.0, r.1 ∙ start_safe.1)

abbrev full_valid : IsClient toy IsSeen full_client
full_valid = record {
  safe = full_safe.0;
  buffers_worked = (tt, (tt, tt));
  batch = record { hashes = refl; bounded = omega arith };
  queued = tt;
}

abbrev jobs : Jobs
jobs = record {
  messages = (blocks (block_2 ∷ []) ∷ []) ∷ (ping "7" ∷ []) ∷ [];
  mining = (empty, (λ m. m.trans), 1, 1) ∷ [];
  taking = 1;
  generating = (signal (start 3), λ s. []) ∷ [];
  requests = state_request 0 ∷ [];
}

abbrev schedule : List ℕ
schedule = 0 ∷ 0 ∷ 3 ∷ 0 ∷ 1 ∷ []

all_new : AreAllNew toy IsSeen schedule (shared full_client) (threads toy full_client jobs)
unfolding threads workers turn tick miner_program miner_turn mine_program select_program select fill
    send_program control candidate Merkle.new Merkle.root cmp from_be_bytes hash toy_digest
    taker_program worker_program handle_program blocks_program process_program process_all initial
    Blockchain.new genesis_hash get insert h256_eq list_eq list_beq nat_eq header_bytes
    Blockchain.genesis hash_signed transaction_bytes from_public_key_bytes sign check_program
all_new = (tt, (tt, (tt, (((inr (inl refl), block_1_other), tt), (tt, tt)))))

in_order : AreJobs IsSeen jobs
in_order = record {
  mining = (λ q. cc q, tt);
  generating = (λ q. cc q, tt);
  no_requests = ((tt, tt), ((tt, tt), tt));
  seen = (((inr (inr (inl refl)), tt), tt), ((tt, tt), tt));
}

run-IsCalm_example :
    (s' : Shared) × (pool' : Pool) × (Threads.run schedule
        (shared full_client)
        (threads toy full_client jobs)
      ≡ some (s', pool'))
    × IsCalm toy IsSeen s'
    × Later (shared full_client) s'
run-IsCalm_example =
    run-IsCalm seen_free full_client full_valid jobs schedule in_order (omega (arith, full_safe.1))
      all_new

handle_program-alone_example :
    alone
      (handle_program toy [] (get_transactions (hash_signed toy signed_payment ∷ [])))
      (shared full_client)
    ≡ (handle toy full_node [] (get_transactions (hash_signed toy signed_payment ∷ [])) >>= λ o.
        some (sent_of (shared full_client) o))
handle_program-alone_example =
    handle_program-alone toy (shared full_client) []
      (get_transactions (hash_signed toy signed_payment ∷ []))

abbrev miner_orders : List (Received × PoolOrder × ℕ × ℕ)
miner_orders = (empty, (λ pool. pool.trans), 5, 6) ∷ []

abbrev generator_orders : List (Received × OutputOrder)
generator_orders = (signal (start 1), (λ st. st.states)) ∷ (empty, (λ st. st.states)) ∷ []

-- A block waits in the channel.
abbrev busy : Shared
busy = record { node = full_node; finished_blocks = block_1 ∷ [] }

loops-alone_example :
    (alone (miner_program toy idle_miner miner_orders) busy
      ≡ mine_rounds toy miner_orders busy idle_miner)
    × (alone (generator_program toy first_gene generator_orders) busy
        ≡ generate_rounds toy generator_orders busy first_gene)
    × (alone (taker_program toy 2) busy ≡ take_rounds toy 2 full_node (block_1 ∷ []))
loops-alone_example = loops-alone toy miner_orders generator_orders 2 idle_miner first_gene busy

-- The miner that has found the first block, with another hash before the payment in its batch.
abbrev full_miner : Miner
full_miner = record idle_miner {
  to_remove = zeros ∷ hash_signed toy signed_payment ∷ [];
  transaction = signed_payment ∷ [];
}

get_transactions_panics_example :
    Threads.run (0 ∷ 1 ∷ 1 ∷ 1 ∷ 0 ∷ []) (shared full_client) (
      worker_program toy [] (get_transactions (hash_signed toy signed_payment ∷ []) ∷ [])
      ∷ bind (send_program toy full_miner block_1) (λ m'. miner_program toy m' [])
      ∷ [])
    ≡ none
unfolding get
get_transactions_panics_example =
    get_transactions_panics toy (shared full_client) [] (hash_signed toy signed_payment) [] []
      signed_payment full_miner block_1 (zeros ∷ []) [] (rw eq_refl) block_1-IsMined.worked refl
