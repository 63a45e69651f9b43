-- ===== src/Threads/System.antt =====
-- All threads of a client, which `main` of src/main.rs starts, from a state between two of their
-- rounds.
use bitcoin_client.Prelude.{
  ℕ, ◌+◌, ◌<◌, ◌≡◌, ◌≢◌, List, [], ◌∷◌, ◌++◌, map, some, All, All-imp, All-append, length, u32_mod,
}
use bitcoin_client.Types.Block.{Header, Block}
use bitcoin_client.Types.Hash.{h256_eq}
use bitcoin_client.Types.Crypto.{Crypto}
use bitcoin_client.Control.{Received, disconnected}
use bitcoin_client.Network.Message.{Message}
use bitcoin_client.Network.Worker.Safe.{IsCollisionFree, IsWorked}
use bitcoin_client.Network.Worker.Run.{carried}
use bitcoin_client.Client.{Client}
use bitcoin_client.Client.Safe.{IsQueued}
use bitcoin_client.Client.Invariant.{IsClient}
use bitcoin_client.Threads.{Shared, Pool, run}
use bitcoin_client.Threads.Worker.{worker_program}
use bitcoin_client.Threads.Others.{
  OutputOrder, PoolOrder, Request, generator_program, miner_program, taker_program, request_program,
}
use bitcoin_client.Threads.Calm.{IsSent, IsCalm, Later}
use bitcoin_client.Threads.Turns.{IsCalmThread, AreAllNew, run_total}
use bitcoin_client.Threads.Handlers.{IsNoRequest, worker_program-Calm}
use bitcoin_client.Threads.Rounds.{generator_program-Calm, miner_program-Calm, taker_program-Calm}
use bitcoin_client.Threads.Routes.{request_program-Calm}

-- What the outside gives the threads: messages for each worker of the network, the rounds of the
-- miner, of its worker and of the generator, and requests.
pub record Jobs : Type 0 where
  pub messages : List (List Message)
  pub mining : List (Received × PoolOrder × ℕ × ℕ)
  pub taking : ℕ
  pub generating : List (Received × OutputOrder)
  pub requests : List Request

abbrev pub shared : Client → Shared
shared client = record { node = client.node; finished_blocks = client.finished_blocks }

module _ (c : Crypto) where
  unfoldable pub workers : List (List Block) → List (List Message) → Pool
  workers [] messages = []
  workers (b ∷ buffers) [] = []
  workers (b ∷ buffers) (ms ∷ messages) = worker_program c b ms ∷ workers buffers messages

  -- A thread for each request, and the threads of `main`.
  unfoldable pub threads : Client → Jobs → Pool
  unfolding workers
  threads client jobs =
      miner_program c client.miner jobs.mining
      ∷ taker_program c jobs.taking
      ∷ generator_program c client.gene jobs.generating
      ∷ (workers client.buffers jobs.messages ++ map (request_program c) jobs.requests)

-- The control channels have their senders, and no message asks for transactions; the headers of the
-- blocks that arrive are of the set.
pub record AreJobs (Seen : Header → Type 0) (jobs : Jobs) : Type 0 where
  pub mining : All (λ r. r.0 ≢ disconnected) jobs.mining
  pub generating : All (λ r. r.0 ≢ disconnected) jobs.generating
  pub no_requests : All (All IsNoRequest) jobs.messages
  pub seen : All (All (λ m. All (λ b. Seen b.head) (carried m))) jobs.messages

module _ (c : Crypto) (Seen : Header → Type 0) where
  queued-IsSent :
      (client : Client) (block : Block)
      → IsQueued c Seen client.node block
      → IsSent c Seen client.node block
  queued-IsSent client block q = record {
    worked = record { seen = q.seen; worked = q.mined.worked; other = q.other };
    difficulty = q.mined.difficulty;
    parent = q.parent;
  }

  abbrev shared-IsCalm : (client : Client) → IsClient c Seen client → IsCalm c Seen (shared client)
  shared-IsCalm client w = record {
    safe = w.safe;
    sent = All-imp (queued-IsSent client) client.finished_blocks w.queued;
  }

  requests-IsCalmThread :
      (s : Shared) (requests : List Request)
      → All (IsCalmThread c Seen s) (map (request_program c) requests)
  requests-IsCalmThread s [] = tt
  requests-IsCalmThread s (r ∷ requests) =
      (request_program-Calm c Seen s r, requests-IsCalmThread s requests)

module _ (c : Crypto) (Seen : Header → Type 0) (free : IsCollisionFree c Seen) where
  workers-IsCalmThread :
      (s : Shared) (buffers : List (List Block)) (messages : List (List Message))
      → All (All (IsWorked c Seen)) buffers
      → All (All IsNoRequest) messages
      → All (All (λ m. All (λ b. Seen b.head) (carried m))) messages
      → All (IsCalmThread c Seen s) (workers c buffers messages)
  unfolding workers
  workers-IsCalmThread s [] messages a q n = tt
  workers-IsCalmThread s (b ∷ buffers) [] a q n = tt
  workers-IsCalmThread s (b ∷ buffers) (ms ∷ messages) a q n = (
    worker_program-Calm c Seen free s b ms q.0 a.0 n.0,
    workers-IsCalmThread s buffers messages a.1 q.1 n.1,
  )

module _ {c : Crypto} {Seen : Header → Type 0} (free : IsCollisionFree c Seen) where
  -- The threads of a client in order may interleave at every lock: whatever thread takes the next
  -- lock, none panics, the node stays safe, and no stored block and no state is lost. The schedule
  -- has fewer turns than the height has room for in a `u32`; no worker is asked for transactions,
  -- the control channels keep their senders, and no two headers at hand have one hash, where the
  -- headers at hand are those that arrive and those that the miner sends.
  pub run-IsCalm :
      (client : Client) (w : IsClient c Seen client) (jobs : Jobs) (schedule : List ℕ)
      → AreJobs Seen jobs
      → w.safe.chain.top + length schedule < u32_mod
      → AreAllNew c Seen schedule (shared client) (threads c client jobs)
      → (s' : Shared) × (pool' : Pool) × (run schedule (shared client) (threads c client jobs)
          ≡ some (s', pool'))
        × IsCalm c Seen s'
        × Later (shared client) s'
  unfolding threads
  run-IsCalm client w jobs schedule j room ok =
      let s = shared client in
      let (s', pool', e, l, w', h) =
        run_total c Seen schedule s (shared-IsCalm c Seen client w) (threads c client jobs)
          (
            miner_program-Calm c Seen s client.miner jobs.mining j.mining,
            (
              taker_program-Calm c Seen free s jobs.taking,
              (
                generator_program-Calm c Seen s client.gene jobs.generating j.generating,
                All-append _ (workers c client.buffers jobs.messages) _
                    (workers-IsCalmThread c Seen free s client.buffers jobs.messages
                      w.buffers_worked j.no_requests j.seen)
                    (requests-IsCalmThread c Seen s jobs.requests),
              ),
            ),
          )
          room ok in
      (s', pool', e, w', l)
