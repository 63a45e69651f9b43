-- ===== src/Threads.antt =====
-- The threads of src/main.rs at the grain of their locks. Each use of a mutex in the source locks
-- it for one expression, or for a block that locks no other; a thread is a program that takes one
-- lock after the other, and other threads may run between two of them. The channel of the miner is
-- a shared value too.
pub mod Worker
pub mod Calm
pub mod Owed
pub mod Turns
pub mod Adding
pub mod Handlers
pub mod Others
pub mod Rounds
pub mod Routes
pub mod System
pub mod Alone
pub mod Serial
pub mod Race
use bitcoin_client.Prelude.{ℕ, zero, suc, List, [], ◌∷◌, Option, none, some, ◌>>=◌}
use bitcoin_client.Prelude.HashMap.{HashMap}
use bitcoin_client.Types.Hash.{H256}
use bitcoin_client.Types.Block.{Block}
use bitcoin_client.Types.Transaction.{Mempool, State}
use bitcoin_client.Blockchain.{Blockchain}
use bitcoin_client.Node.{Node}

pub record Shared : Type 0 where
  pub node : Node
  pub finished_blocks : List Block

-- What a thread can lock.
pub data Lock : Type 0 where
  chain_lock : Lock
  mempool_lock : Lock
  state_lock : Lock
  channel_lock : Lock

abbrev pub Held : Lock → Type 0
Held chain_lock = Blockchain
Held mempool_lock = Mempool
Held state_lock = HashMap H256 State
Held channel_lock = List Block

abbrev pub read : (l : Lock) → Shared → Held l
read chain_lock s = s.node.blockchain
read mempool_lock s = s.node.mempool
read state_lock s = s.node.block_state
read channel_lock s = s.finished_blocks

abbrev pub write : (l : Lock) → Shared → Held l → Shared
write chain_lock s h = record s { node = record (s.node) { blockchain = h } }
write mempool_lock s h = record s { node = record (s.node) { mempool = h } }
write state_lock s h = record s { node = record (s.node) { block_state = h } }
write channel_lock s h = record s { finished_blocks = h }

-- A program that ends with a value of `A`. Where it takes a lock, it changes what the lock guards,
-- and goes on by what it found there.
pub data Program (A : Type 0) : Type 0 where
  done : A → Program A
  panic : Program A
  acquire : (l : Lock) → (Held l → Held l) → (Held l → Program A) → Program A

module _ {A : Type 0} where
  -- A lock that is taken to read.
  abbrev pub look : (l : Lock) → (Held l → Program A) → Program A
  look l k = acquire l (λ h. h) k

  -- `unwrap`
  abbrev pub unwrap : {X : Type 0} → Option X → (X → Program A) → Program A
  unwrap none k = panic
  unwrap (some x) k = k x

  abbrev pub settle : Shared → Program A → Option (Shared × Program A)
  settle s (done a) = some (s, done a)
  settle s panic = none
  settle s (acquire l f k) = some (s, acquire l f k)

  -- A thread's turn, until it is about to take its next lock. `none` is a panic; what it does
  -- to the lock that the thread holds is not modelled.
  unfoldable pub tick : Program A → Shared → Option (Shared × Program A)
  tick (done a) s = some (s, done a)
  tick panic s = none
  tick (acquire l f k) s = settle (write l s (f (read l s))) (k (read l s))

  -- The program with no other thread between its locks.
  unfoldable pub alone : Program A → Shared → Option (Shared × A)
  alone (done a) s = some (s, a)
  alone panic s = none
  alone (acquire l f k) s = alone (k (read l s)) (write l s (f (read l s)))

  abbrev pub bind : {B : Type 0} → Program A → (A → Program B) → Program B
  bind (done a) g = g a
  bind panic g = panic
  bind (acquire l f k) g = acquire l f (λ h. bind (k h) g)

-- The threads of a client. A turn of a thread that does not exist changes nothing.
abbrev pub Pool : Type 0
Pool = List (Program (Unit {0}))

unfoldable pub turn : ℕ → Shared → Pool → Option (Shared × Pool)
unfolding tick
turn i s [] = some (s, [])
turn zero s (p ∷ pool) = tick p s >>= λ r. some (r.0, r.1 ∷ pool)
turn (suc i) s (p ∷ pool) = turn i s pool >>= λ r. some (r.0, p ∷ r.1)

-- The threads take turns in the order of a schedule.
unfoldable pub run : List ℕ → Shared → Pool → Option (Shared × Pool)
unfolding turn
run [] s pool = some (s, pool)
run (i ∷ schedule) s pool = turn i s pool >>= λ r. run schedule r.0 r.1
