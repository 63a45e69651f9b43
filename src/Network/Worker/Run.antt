-- ===== src/Network/Worker/Run.antt =====
-- A worker over a sequence of messages: `worker_loop`, until its channel is closed.
use bitcoin_client.Prelude.{
  ℕ, ◌+◌, ◌≤◌, ◌<◌, ◌≡◌, refl, List, [], ◌∷◌, Option, some, ◌>>=◌, length, All, u32_mod, arith,
}
use bitcoin_client.Types.Hash.{H256}
use bitcoin_client.Types.Block.{Header, Block}
use bitcoin_client.Types.Crypto.{Crypto, KeyPair}
use bitcoin_client.Blockchain.{genesis}
use bitcoin_client.Node.{Node, initial}
use bitcoin_client.Network.Message.{
  Message, ping, pong, new_block_hashes, get_blocks, blocks, new_transaction_hashes,
  get_transactions, transactions,
}
use bitcoin_client.Network.Worker.{Outcome, on_transactions, handle}
use bitcoin_client.Network.Worker.Safe.{IsCollisionFree, initial-IsSafe}
use bitcoin_client.Network.Worker.Blocks.{IsReady, on_blocks-IsReady}

-- The loop over the messages that arrive, with the orphan buffer of the worker.
unfoldable pub run : Crypto → Node → List Block → List Message → Option (Node × List Block)
run c node orphan_blocks [] = some (node, orphan_blocks)
run c node orphan_blocks (m ∷ messages) =
    handle c node orphan_blocks m >>= λ o. run c o.node o.orphan_blocks messages

-- The blocks that a message carries.
abbrev pub carried : Message → List Block
carried (blocks received) = received
carried _ = []

abbrev pub count_carried : List Message → ℕ
count_carried [] = 0
count_carried (m ∷ messages) = length (carried m) + count_carried messages

-- A run's end: the worker is ready, and the chain has not grown past a bound.
pub record Ended (c : Crypto) (Seen : Header → Type 0) (Elsewhere : H256 → Type 0) (bound : ℕ)
    (node : Node) (orphan_blocks : List Block) : Type 0 where
  pub ready : IsReady c Seen Elsewhere node orphan_blocks
  pub height_le : ready.safe.chain.top + length orphan_blocks ≤ bound

module _ {c : Crypto} {Seen : Header → Type 0} (free : IsCollisionFree c Seen)
    (Elsewhere : H256 → Type 0) where
  pub handle_total :
      (node : Node) (orphan_blocks : List Block) (m : Message)
      (w : IsReady c Seen Elsewhere node orphan_blocks)
      → All (λ b. Seen b.head) (carried m)
      → w.safe.chain.top + length orphan_blocks + length (carried m) < u32_mod
      → (o : Outcome) × (handle c node orphan_blocks m ≡ some o)
        × Ended c Seen Elsewhere
            (w.safe.chain.top + length orphan_blocks + length (carried m))
            o.node
            o.orphan_blocks
  unfolding handle on_transactions
  handle_total node orphan_blocks (ping x) w seen room =
      (_, refl, record { ready = w; height_le = omega arith })
  handle_total node orphan_blocks (pong x) w seen room =
      (_, refl, record { ready = w; height_le = omega arith })
  handle_total node orphan_blocks (new_block_hashes x) w seen room =
      (_, refl, record { ready = w; height_le = omega arith })
  handle_total node orphan_blocks (get_blocks x) w seen room =
      (_, refl, record { ready = w; height_le = omega arith })
  handle_total node orphan_blocks (blocks received) w seen room =
      let h = on_blocks-IsReady free Elsewhere node orphan_blocks received w seen room in
      (h.outcome, h.returns, record { ready = h.ready; height_le = h.height_le })
  handle_total node orphan_blocks (new_transaction_hashes x) w seen room =
      (_, refl, record { ready = w; height_le = omega arith })
  handle_total node orphan_blocks (get_transactions x) w seen room =
      (_, refl, record { ready = w; height_le = omega arith })
  handle_total node orphan_blocks (transactions ts) w seen room = (
    _,
    refl,
    record {
      ready = record {
        safe = record {
          chain = w.safe.chain;
          stated = w.safe.stated;
          seen = w.safe.seen;
          fixed_difficulty = w.safe.fixed_difficulty;
          worked = w.safe.worked;
        };
        worked = w.worked;
        elsewhere = w.elsewhere;
        parentless = w.parentless;
      };
      height_le = omega arith;
    },
  )

  run_total :
      (messages : List Message) (node : Node) (orphan_blocks : List Block)
      (w : IsReady c Seen Elsewhere node orphan_blocks)
      → All (λ m. All (λ b. Seen b.head) (carried m)) messages
      → w.safe.chain.top + length orphan_blocks + count_carried messages < u32_mod
      → (e : Node × List Block) × (run c node orphan_blocks messages ≡ some e)
        × Ended c Seen Elsewhere
            (w.safe.chain.top + length orphan_blocks + count_carried messages)
            e.0
            e.1
  unfolding run
  run_total [] node orphan_blocks w seen room =
      ((node, orphan_blocks), refl, record { ready = w; height_le = omega arith })
  run_total (m ∷ messages) node orphan_blocks w seen room =
      let (o, step, e) = handle_total node orphan_blocks m w seen.0 (omega arith) in
      let (end, rest, e') =
        run_total messages o.node o.orphan_blocks e.ready seen.1 (omega (arith, e.height_le)) in
      (
        end,
        rw (step, ◌>>=◌) rest,
        record { ready = e'.ready; height_le = omega (arith, e'.height_le, e.height_le) },
      )

-- A worker that starts on the node of `main`, with an empty orphan buffer, returns from every
-- sequence of messages: no handler panics, each loop ends, and at the end the node is safe and no
-- orphan has a stored parent. The messages carry fewer than 2 ^ 32 blocks, and no two headers of
-- theirs and the genesis block's have one hash.
pub run-IsReady :
    {c : Crypto} {Seen : Header → Type 0}
    → IsCollisionFree c Seen
    → (k : KeyPair) (messages : List Message) → Seen genesis.head
    → All (λ m. All (λ b. Seen b.head) (carried m)) messages
    → count_carried messages < u32_mod
    → (e : Node × List Block) × (run c (initial c k) [] messages ≡ some e)
      × IsReady c Seen (λ _. ⊥) e.0 e.1
run-IsReady {c} {Seen} free k messages g seen room =
    let (safe, height) = initial-IsSafe c Seen k g in
    let (e, returns, ended) =
      run_total free (λ _. ⊥) messages (initial c k) []
        (record { safe = safe; worked = tt; elsewhere = λ k h. absurd h; parentless = tt }) seen
        (omega (arith, height)) in
    (e, returns, ended.ready)
