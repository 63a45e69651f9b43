-- ===== src/Client/Invariant.antt =====
-- What a client keeps in order, and what the outside owes a round of it.
use bitcoin_client.Prelude.{
  ℕ, zero, suc, ◌+◌, ◌≤◌, ◌≡◌, ◌≢◌, ap, List, [], ◌∷◌, some, length, get_elem?, All, arith,
}
use mathlib.Core.Path.{subst}
use bitcoin_client.Types.Hash.{h256_eq}
use bitcoin_client.Types.Block.{Header, Block}
use bitcoin_client.Types.Crypto.{Crypto, hash}
use bitcoin_client.Blockchain.{genesis_hash}
use bitcoin_client.Network.Worker.Safe.{IsSafe, IsStored, IsWorked}
use bitcoin_client.Network.Worker.Run.{carried}
use bitcoin_client.Control.{disconnected}
use bitcoin_client.Miner
use bitcoin_client.Miner.Mining.{IsBatch, AreKeyed}
use bitcoin_client.Client.{Client, Event, message, mining, finished, generating, set, step}
use bitcoin_client.Client.Safe.{IsQueued}

abbrev pub count : List (List Block) → ℕ
count [] = 0
count (b ∷ buffers) = length b + count buffers

-- The node is safe, the orphans of all workers have their proofs of work, the miner's batch is in
-- order, and so are the blocks in its channel.
pub record IsClient (c : Crypto) (Seen : Header → Type 0) (client : Client) : Type 0 where
  pub safe : IsSafe c Seen client.node
  pub buffers_worked : All (All (IsWorked c Seen)) client.buffers
  pub batch : IsBatch c client.miner
  pub queued : All (IsQueued c Seen client.node) client.finished_blocks

-- The blocks that are not stored yet.
abbrev pub held : Client → ℕ
held client = count client.buffers + length client.finished_blocks

-- The blocks that an event may bring.
abbrev pub brought : Event → ℕ
brought (message i m) = length (carried m)
brought (mining received entries nonce time) = 1
brought finished = 0
brought (generating received order) = 0

-- What the outside owes a round: the worker exists, a control channel has its sender, the map is
-- iterated with each transaction under its hash, and the headers that arrive or are mined are of
-- the set `Seen`.
abbrev pub IsAdmitted : Crypto → (Header → Type 0) → Client → Event → Type 0
IsAdmitted c Seen client (message i m) =
    ((b : List Block) × (get_elem? client.buffers i ≡ some b)) × All (λ b. Seen b.head) (carried m)
IsAdmitted c Seen client (mining received entries nonce time) =
    (received ≢ disconnected)
    × AreKeyed c entries
    × ((r : Miner.Round) (block : Block)
        → Miner.round c client.node received entries nonce time client.miner ≡ some r
        → r.finished ≡ some block
        → Seen block.head × (hash c block ≢ genesis_hash c))
IsAdmitted c Seen client finished = Unit
IsAdmitted c Seen client (generating received order) = received ≢ disconnected

-- No orphan is left in a worker's buffer whose parent the worker's round has brought: the loop over
-- the new blocks went on until none was left.
abbrev pub IsCaughtUp : Client → Event → Client → Type 0
IsCaughtUp client (message i m) next =
    (b : List Block)
    → get_elem? next.buffers i ≡ some b
    → All
        (λ o.
          IsStored next.node.blockchain.blocks o.head.parent
          → IsStored client.node.blockchain.blocks o.head.parent)
        b
IsCaughtUp client (mining received entries nonce time) next = Unit
IsCaughtUp client finished next = Unit
IsCaughtUp client (generating received order) next = Unit

-- Each round of a run has caught up.
abbrev pub AreCaughtUp : Crypto → Client → List Event → Type 0
AreCaughtUp c client [] = Unit
AreCaughtUp c client (e ∷ events) =
    (next : Client) × (step c client e ≡ some next)
    × IsCaughtUp client e next
    × AreCaughtUp c next events

-- A round that returns and keeps the client in order.
pub record Stepped (c : Crypto) (Seen : Header → Type 0) (client : Client) (e : Event) (bound : ℕ)
    : Type 0 where
  pub next : Client
  pub returns : step c client e ≡ some next
  pub valid : IsClient c Seen next
  pub caught_up : IsCaughtUp client e next
  pub height_le : valid.safe.chain.top + held next ≤ bound

pub All-set :
    (P : List Block → Type 0) (buffers : List (List Block)) (i : ℕ) (b : List Block)
    → All P buffers
    → P b
    → All P (set buffers i b)
unfolding set
All-set P [] i b a p = tt
All-set P (x ∷ buffers) zero b a p = (p, a.1)
All-set P (x ∷ buffers) (suc i) b a p = (a.0, All-set P buffers i b a.1 p)

pub All-get :
    (P : List Block → Type 0) (buffers : List (List Block)) (i : ℕ) {b : List Block}
    → All P buffers
    → get_elem? buffers i ≡ some b
    → P b
All-get P [] i a h = cc
All-get P (x ∷ buffers) zero {b} a h = let e : x ≡ b = cc in subst P e a.0
All-get P (x ∷ buffers) (suc i) a h = All-get P buffers i a.1 h

pub get-set :
    (buffers : List (List Block)) (i : ℕ) (b : List Block) {b' : List Block}
    → get_elem? (set buffers i b) i ≡ some b'
    → b ≡ b'
unfolding set
get-set [] i b h = cc
get-set (x ∷ buffers) zero b h = cc
get-set (x ∷ buffers) (suc i) b h = get-set buffers i b h

pub count-set :
    (buffers : List (List Block)) (i : ℕ) (b : List Block) {old : List Block}
    → get_elem? buffers i ≡ some old
    → count (set buffers i b) + length old ≡ count buffers + length b
unfolding set
count-set [] i b h = cc
count-set (x ∷ buffers) zero b {old} h =
    let e : x ≡ old = cc in omega (arith, ap (length {A = Block}) e)
count-set (x ∷ buffers) (suc i) b h = omega (arith, count-set buffers i b h)

-- The rounds of a run are each admitted.
abbrev pub AreAdmitted : Crypto → (Header → Type 0) → Client → List Event → Type 0
AreAdmitted c Seen client [] = Unit
AreAdmitted c Seen client (e ∷ events) =
    IsAdmitted c Seen client e
    × ((next : Client) → step c client e ≡ some next → AreAdmitted c Seen next events)

abbrev pub all_brought : List Event → ℕ
all_brought [] = 0
all_brought (e ∷ events) = brought e + all_brought events
