-- ===== src/Client.antt =====
-- The threads that src/main.rs starts on one node: the workers of the network, each with its own
-- orphan buffer, the miner, the worker that takes the miner's blocks off a channel, and the
-- generator of transactions. A run is a sequence of their rounds in any order.
pub mod Safe
pub mod Rounds
pub mod Invariant
pub mod Run
pub mod Start
pub mod Index
pub mod Supply
use bitcoin_client.Prelude.{ℕ, zero, suc, List, [], ◌∷◌, ◌++◌, Option, none, some, ◌>>=◌, get_elem?}
use bitcoin_client.Types.Hash.{H256}
use bitcoin_client.Types.Address.{Address}
use bitcoin_client.Types.Block.{Block}
use bitcoin_client.Types.Transaction.{SignedTransaction, State}
use bitcoin_client.Types.Crypto.{Crypto}
use bitcoin_client.Node.{Node}
use bitcoin_client.Network.Message.{Message}
use bitcoin_client.Network.Worker.{handle}
use bitcoin_client.Control.{Received}
use bitcoin_client.Miner
use bitcoin_client.Miner.{Miner}
use bitcoin_client.Miner.Worker.{on_finished}
use bitcoin_client.Generator
use bitcoin_client.Generator.{GeneLoop}

pub record Client : Type 0 where
  pub node : Node
  pub buffers : List (List Block)  -- one for each worker of the network
  pub miner : Miner
  pub finished_blocks : List Block  -- the channel of the miner
  pub gene : GeneLoop

-- The thread that has a round, with what the outside gives it.
pub data Event : Type 0 where
  message : ℕ → Message → Event
  mining : Received → List (H256 × SignedTransaction) → ℕ → ℕ → Event
  finished : Event
  generating : Received → (State → List ((H256 × ℕ) × (ℕ × Address))) → Event

unfoldable pub set : List (List Block) → ℕ → List Block → List (List Block)
set [] i buffer = []
set (b ∷ buffers) zero buffer = buffer ∷ buffers
set (b ∷ buffers) (suc i) buffer = b ∷ set buffers i buffer

abbrev pub sent : Option Block → List Block
sent none = []
sent (some block) = block ∷ []

module _ (c : Crypto) where
  unfoldable pub take_finished : Client → List Block → Option Client
  take_finished client [] = some client
  take_finished client (block ∷ rest) = on_finished c client.node block >>= λ r.
      some (record client { node = r.0; finished_blocks = rest })

  -- A worker that does not exist is a `none` of the lookup.
  unfoldable pub step : Client → Event → Option Client
  unfolding set take_finished
  step client (message i m) = get_elem? client.buffers i >>= λ orphan_blocks.
      handle c client.node orphan_blocks m >>= λ o.
      some (record client { node = o.node; buffers = set client.buffers i o.orphan_blocks })
  step client (mining received entries nonce time) =
      Miner.round c client.node received entries nonce time client.miner >>= λ r.
      some (record client {
        node = r.node;
        miner = r.miner;
        finished_blocks = client.finished_blocks ++ sent r.finished;
      })
  step client finished = take_finished client client.finished_blocks
  step client (generating received order) =
      Generator.round c client.node received order client.gene >>= λ r.
      some (record client { node = r.node; gene = r.gene })

  unfoldable pub steps : Client → List Event → Option Client
  unfolding step
  steps client [] = some client
  steps client (e ∷ events) = step client e >>= λ next. steps next events
