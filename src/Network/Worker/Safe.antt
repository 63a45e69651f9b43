-- ===== src/Network/Worker/Safe.antt =====
-- What holds of a node while its worker accepts blocks.
use mathlib.Core.Path.{subst}
use bitcoin_client.Prelude.{ℕ, ◌≡◌, ◌≢◌, sym, ap, true, [], some}
use bitcoin_client.Prelude.HashMap.{HashMap, get, get-insert_nil, get-insert_self}
use bitcoin_client.Types.Hash.{H256, h256_eq, le}
use bitcoin_client.Types.Block.{Header, Block}
use bitcoin_client.Types.Transaction.{State}
use bitcoin_client.Types.Crypto.{Crypto, KeyPair, hash, hash_header}
use bitcoin_client.Blockchain.{genesis, genesis_hash, genesis_difficulty, new}
use bitcoin_client.Blockchain.Invariant.{IsValid, new-IsValid}
use bitcoin_client.Ledger.{new_state}
use bitcoin_client.Node.{Node, initial}

-- Headers among which no two have one hash. The blocks of a run of the client are taken from
-- such a set: SHA-256 has collisions, but none is known.
abbrev pub IsCollisionFree : Crypto → (Header → Type 0) → Type 0
IsCollisionFree c Seen =
    (a b : Header) → Seen a → Seen b → hash_header c a ≡ hash_header c b → a ≡ b

abbrev pub IsStored : HashMap H256 (Block × ℕ) → H256 → Type 0
IsStored blocks k = (e : Block × ℕ) × (get blocks k ≡ some e)

-- The blockchain is valid; each stored block has the state after it, the difficulty of the genesis
-- block and, but for the genesis block, its proof of work.
pub record IsSafe (c : Crypto) (Seen : Header → Type 0) (node : Node) : Type 0 where
  pub chain : IsValid c node.blockchain
  pub stated :
      (k : H256) (e : Block × ℕ)
      → get node.blockchain.blocks k ≡ some e
      → (s : State) × (get node.block_state k ≡ some s)
  pub seen : (k : H256) (e : Block × ℕ) → get node.blockchain.blocks k ≡ some e → Seen e.0.head
  pub fixed_difficulty :
      (k : H256) (e : Block × ℕ)
      → get node.blockchain.blocks k ≡ some e
      → e.0.head.difficulty ≡ genesis_difficulty
  pub worked :
      (k : H256) (e : Block × ℕ)
      → get node.blockchain.blocks k ≡ some e
      → k ≢ genesis_hash c
      → le k e.0.head.difficulty ≡ true

-- A block that is not the genesis block, with its proof of work.
pub record IsWorked (c : Crypto) (Seen : Header → Type 0) (block : Block) : Type 0 where
  pub seen : Seen block.head
  pub worked : le (hash c block) block.head.difficulty ≡ true
  pub other : hash c block ≢ genesis_hash c

-- The node that `main` starts.
pub initial-IsSafe :
    (c : Crypto) (Seen : Header → Type 0) (k : KeyPair)
    → Seen genesis.head
    → (w : IsSafe c Seen (initial c k)) × (w.chain.top ≡ 0)
unfolding initial new genesis_hash genesis
initial-IsSafe c Seen key_pair g = (
  record {
    chain = (new-IsValid c).0;
    stated = λ k e h.
        let at_k = (get-insert_nil (hash c genesis) (genesis, 0) k h).0 in
        (
          new_state c key_pair,
          rw (← at_k) (get-insert_self [] (hash c genesis) (new_state c key_pair)),
        );
    seen = λ k e h.
        subst (λ (t : Block × ℕ). Seen t.0.head)
          (get-insert_nil (hash c genesis) (genesis, 0) k h).1 g;
    fixed_difficulty = λ k e h.
        ap (λ (t : Block × ℕ). t.0.head.difficulty)
          (sym (get-insert_nil (hash c genesis) (genesis, 0) k h).1);
    worked = λ k e h n. absurd (n (sym (get-insert_nil (hash c genesis) (genesis, 0) k h).0));
  },
  (new-IsValid c).1,
)
