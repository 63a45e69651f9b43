-- ===== src/Threads/Calm.antt =====
-- What a thread relies on the other threads for, and what it owes them, at each lock of its
-- program.
use bitcoin_client.Prelude.{ℕ, ◌+◌, ◌≤◌, ◌<◌, ◌≡◌, ◌≢◌, refl, ◌∙◌, some, All, u32_mod, arith}
use bitcoin_client.Prelude.HashMap.{get}
use bitcoin_client.Types.Hash.{H256, h256_eq}
use bitcoin_client.Types.Block.{Header, Block}
use bitcoin_client.Types.Transaction.{State}
use bitcoin_client.Types.Crypto.{Crypto, hash}
use bitcoin_client.Blockchain.{genesis_hash, genesis_difficulty}
use bitcoin_client.Node.{Node}
use bitcoin_client.Network.Worker.Safe.{IsStored, IsSafe, IsWorked}
use bitcoin_client.Threads.{Shared, read, write, Program, done, panic, acquire, bind}

-- A block of the miner's channel.
pub record IsSent (c : Crypto) (Seen : Header → Type 0) (node : Node) (block : Block) : Type 0 where
  pub worked : IsWorked c Seen block
  pub difficulty : block.head.difficulty ≡ genesis_difficulty
  pub parent : IsStored node.blockchain.blocks block.head.parent

-- What holds whenever no thread holds a lock.
pub record IsCalm (c : Crypto) (Seen : Header → Type 0) (s : Shared) : Type 0 where
  pub safe : IsSafe c Seen s.node
  pub sent : All (IsSent c Seen s.node) s.finished_blocks

-- No thread takes a block or a state back, and a block that is stored again has the header and the
-- height that it had.
pub record Later (s s' : Shared) : Type 0 where
  pub blocks :
      (k : H256) (e : Block × ℕ)
      → get s.node.blockchain.blocks k ≡ some e
      → (e' : Block × ℕ) × (get s'.node.blockchain.blocks k ≡ some e')
        × (e'.0.head ≡ e.0.head)
        × (e'.1 ≡ e.1)
  pub states :
      (k : H256) (st : State)
      → get s.node.block_state k ≡ some st
      → (st' : State) × (get s'.node.block_state k ≡ some st')

pub Later-refl : (s : Shared) → Later s s
Later-refl s = record { blocks = λ k e h. (e, h, refl, refl); states = λ k st h. (st, h) }

pub Later-trans : {s s' s'' : Shared} → Later s s' → Later s' s'' → Later s s''
Later-trans l l' = record {
  blocks = λ k e h.
      let (e', h', head, height) = l.blocks k e h in
      let (e'', h'', head', height') = l'.blocks k e' h' in
      (e'', h'', head' ∙ head, height' ∙ height);
  states = λ k st h. let (st', h') = l.states k st h in l'.states k st' h';
}

pub IsStored-Later :
    {s s' : Shared} (k : H256)
    → Later s s'
    → IsStored s.node.blockchain.blocks k
    → IsStored s'.node.blockchain.blocks k
IsStored-Later k l (e, h) = let (e', h', _, _) = l.blocks k e h in (e', h')

-- The headers of the blocks of the channel are of the set, and none is that of the genesis block.
abbrev pub AreNew : Crypto → (Header → Type 0) → Shared → Type 0
AreNew c Seen s = All (λ b. Seen b.head × (hash c b ≢ genesis_hash c)) s.finished_blocks

-- What a thread owes the others for one lock.
pub record Guaranteed (c : Crypto) (Seen : Header → Type 0) (s : Shared) (top : ℕ) (s' : Shared)
    : Type 0 where
  pub later : Later s s'
  pub calm : IsCalm c Seen s'
  pub top_le : calm.safe.chain.top ≤ top + 1

module _ (c : Crypto) (Seen : Header → Type 0) {A : Type 0} where
  -- From `s`, whatever the other threads do that they may, the program does not panic, gives what it
  -- owes at each of its locks as long as the height has room in a `u32` and the blocks of the channel
  -- are new, and ends with a value for which `Q` holds.
  abbrev pub Calm : (Shared → A → Type 0) → Shared → Program A → Type 0
  Calm Q s (done a) = (s' : Shared) → Later s s' → Q s' a
  Calm Q s panic = ⊥
  Calm Q s (acquire l f k) =
      (s' : Shared)
      → Later s s'
      → (w : IsCalm c Seen s') → w.safe.chain.top + 1 < u32_mod
      → AreNew c Seen (write l s' (f (read l s')))
      → Guaranteed c Seen s' w.safe.chain.top (write l s' (f (read l s')))
        × Calm Q (write l s' (f (read l s'))) (k (read l s'))

pub unchanged :
    {c : Crypto} {Seen : Header → Type 0} (s : Shared) (w : IsCalm c Seen s)
    → Guaranteed c Seen s w.safe.chain.top s
unchanged s w = record { later = Later-refl s; calm = w; top_le = omega arith }

module _ (c : Crypto) (Seen : Header → Type 0) {A : Type 0} where
  pub Calm-Later :
      (Q : Shared → A → Type 0) {s s' : Shared} (p : Program A)
      → Later s s'
      → Calm c Seen Q s p
      → Calm c Seen Q s' p
  Calm-Later Q (done a) l q = λ s'' l'. q s'' (Later-trans l l')
  Calm-Later Q panic l q = q
  Calm-Later Q (acquire lock f k) l q = λ s'' l'. q s'' (Later-trans l l')

  pub Calm-imp :
      (Q R : Shared → A → Type 0) (h : (s : Shared) (a : A) → Q s a → R s a) (s : Shared)
      (p : Program A)
      → Calm c Seen Q s p
      → Calm c Seen R s p
  Calm-imp Q R h s (done a) q = λ s' l. h s' a (q s' l)
  Calm-imp Q R h s panic q = q
  Calm-imp Q R h s (acquire lock f k) q = λ s' l w room ok.
      let (owed, rest) = q s' l w room ok in (owed, Calm-imp Q R h _ (k (read lock s')) rest)

  pub Calm-bind :
      {B : Type 0} (Q : Shared → A → Type 0) (R : Shared → B → Type 0) (s : Shared) (p : Program A)
      (g : A → Program B)
      → Calm c Seen Q s p
      → ((s' : Shared) (a : A) → Later s s' → Q s' a → Calm c Seen R s' (g a))
      → Calm c Seen R s (bind p g)
  Calm-bind Q R s (done a) g q h = h s a (Later-refl s) (q s (Later-refl s))
  Calm-bind Q R s panic g q h = q
  Calm-bind Q R s (acquire l f k) g q h = λ s' l' w room ok.
      let (owed, rest) = q s' l' w room ok in
      (
        owed,
        Calm-bind Q R _ (k (read l s')) g rest
            (λ s'' a l''. h s'' a (Later-trans l' (Later-trans owed.later l''))),
      )
