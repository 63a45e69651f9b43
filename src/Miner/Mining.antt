-- ===== src/Miner/Mining.antt =====
-- A round of the miner returns, and what it sends is a block with its proof of work on the tip.
use mathlib.Core.List.{map-append}
use bitcoin_client.Prelude.{
  ℕ, ◌≤◌, ◌≡◌, ◌⊎◌, inl, inr, refl, sym, ap, ◌∙◌, true, List, [], ◌∷◌, ◌++◌, map, Option, none,
  some, ◌>>=◌, ◌=?◌, leb, length, length-append, All, In, Bool-cases, arith,
}
use bitcoin_client.Prelude.HashMap.{HashMap, get, remove, get-remove, get-remove_self}
use bitcoin_client.Types.Hash.{H256, h256_eq, le, zeros}
use bitcoin_client.Types.Block.{Block}
use bitcoin_client.Types.Transaction.{SignedTransaction}
use bitcoin_client.Types.Crypto.{Crypto, hash, hash_signed}
use bitcoin_client.Types.Merkle
use bitcoin_client.Types.Merkle.{MerkleTree}
use bitcoin_client.Types.Merkle.Proof.{verify-proof}
use bitcoin_client.Blockchain.{genesis_difficulty}
use bitcoin_client.Node.{Node}
use bitcoin_client.Miner.{
  Miner, Round, block_size, fill, select, remove_all, candidate, conclude, mine,
}

-- The hashes to remove are those of the transactions of the block, at most `block_size` of them.
pub record IsBatch (c : Crypto) (m : Miner) : Type 0 where
  pub hashes : m.to_remove ≡ map (hash_signed c) m.transaction
  pub bounded : length m.to_remove ≤ block_size

-- The entries of a map whose keys are the hashes of the transactions.
abbrev pub AreKeyed : Crypto → List (H256 × SignedTransaction) → Type 0
AreKeyed c entries = All (λ e. e.0 ≡ hash_signed c e.1) entries

module _ (c : Crypto) where
  fill-IsBatch :
      (entries : List (H256 × SignedTransaction)) (m : Miner)
      → AreKeyed c entries
      → IsBatch c m
      → let (to_remove, transaction) = fill entries m.to_remove m.transaction in
        IsBatch c (record m { to_remove = to_remove; transaction = transaction })
  unfolding fill
  fill-IsBatch [] m k b = record { hashes = b.hashes; bounded = b.bounded }
  fill-IsBatch ((h, t) ∷ entries) m k b = elim (Bool-cases (leb block_size (length m.to_remove))) [
    | inl full ↦ rw full (record { hashes = b.hashes; bounded = b.bounded })
    | inr more ↦ rw more (
        fill-IsBatch entries
          (record m { to_remove = m.to_remove ++ h ∷ []; transaction = m.transaction ++ t ∷ [] })
          k.1
          (record {
            hashes = rw (map-append, ← b.hashes) (ap (λ (x : H256). m.to_remove ++ x ∷ []) k.0);
            bounded = ground (arith, length-append m.to_remove (h ∷ []));
          }))
  ]

  pub select-IsBatch :
      (entries : List (H256 × SignedTransaction)) (m : Miner)
      → AreKeyed c entries
      → IsBatch c m
      → IsBatch c (select entries m)
  unfolding select
  select-IsBatch entries m k b = elim (Bool-cases (length m.to_remove =? 0)) [
    | inl fresh ↦ rw fresh (fill-IsBatch entries m k b)
    | inr busy ↦ rw busy b
  ]

  -- The tree of the transactions has a root.
  pub root_total :
      (ts : List SignedTransaction)
      → (tree : MerkleTree) × (Merkle.new c (hash_signed c) ts ≡ some tree)
        × (r : H256) × (Merkle.root tree ≡ some r)
  unfolding Merkle.new Merkle.root
  root_total [] = (record { tree_list = [] }, refl, zeros, refl)
  root_total (t ∷ ts) =
      let v = verify-proof c (hash_signed c) (t ∷ ts) 0 refl in
      (v.tree, v.new_eq, v.tree_root, v.root_eq)

get-remove_all :
    (trans : HashMap H256 SignedTransaction) (hashes : List H256) (h : H256)
    → (get trans h ≡ none) ⊎ In h hashes
    → get (remove_all trans hashes) h ≡ none
unfolding remove_all
get-remove_all trans [] h (inl e) = e
get-remove_all trans [] h (inr e) = absurd e
get-remove_all trans (x ∷ hashes) h (inl e) =
    get-remove_all (remove trans x) hashes h (inl (ground (arith, get-remove trans x h)))
get-remove_all trans (x ∷ hashes) h (inr (inl same)) =
    get-remove_all (remove trans x) hashes h
      (inl (ap (get (remove trans x)) (sym same) ∙ get-remove_self trans x))
get-remove_all trans (x ∷ hashes) h (inr (inr later)) =
    get-remove_all (remove trans x) hashes h (inr later)

-- A block that the miner sends: it is on the tip and has its proof of work for the fixed
-- difficulty; it commits to its transactions by the root of their Merkle tree.
pub record IsMined (c : Crypto) (node : Node) (m : Miner) (block : Block) : Type 0 where
  pub tree : MerkleTree
  pub parent : block.head.parent ≡ node.blockchain.tip
  pub difficulty : block.head.difficulty ≡ genesis_difficulty
  pub worked : le (hash c block) block.head.difficulty ≡ true
  pub content : block.cont.st ≡ m.transaction
  pub tree_eq : Merkle.new c (hash_signed c) block.cont.st ≡ some tree
  pub root_eq : Merkle.root tree ≡ some block.head.merkle_root

-- A round that sends a block clears the batch and takes its transactions off the mempool; a round
-- that does not changes nothing but the batch.
abbrev pub IsOutcome : Crypto → Node → Miner → Round → Option Block → Type 0
IsOutcome c node m r none = (r.node ≡ node) × (r.miner ≡ m)
IsOutcome c node m r (some block) =
    IsMined c node m block
    × (r.miner ≡ record m { to_remove = []; transaction = [] })
    × ((h : H256) → In h m.to_remove → get r.node.mempool.trans h ≡ none)
    × (r.node.blockchain ≡ node.blockchain)
    × (r.node.block_state ≡ node.block_state)

pub record Mined (c : Crypto) (node : Node) (entries : List (H256 × SignedTransaction))
    (nonce time : ℕ) (m : Miner) : Type 0 where
  pub result : Round
  pub returns : mine c node entries nonce time m ≡ some result
  pub batch : IsBatch c result.miner
  pub outcome : IsOutcome c node (select entries m) result result.finished

pub mine-IsMined :
    (c : Crypto) (node : Node) (entries : List (H256 × SignedTransaction)) (nonce time : ℕ)
    (m : Miner)
    → AreKeyed c entries
    → IsBatch c m
    → Mined c node entries nonce time m
unfolding mine conclude candidate
mine-IsMined c node entries nonce time m k b =
    let selected = select entries m in
    let batch = select-IsBatch c entries m k b in
    let (tree, en, r, er) = root_total c selected.transaction in
    let block = candidate node.blockchain.tip selected.transaction r nonce time in
    elim (Bool-cases (le (hash c block) genesis_difficulty)) [
      | inl worked ↦ record {
        result = record {
          miner = record selected { to_remove = []; transaction = [] };
          node = record node {
            mempool = record { trans = remove_all node.mempool.trans selected.to_remove };
          };
          finished = some block;
        };
        returns = rw (en, er, ◌>>=◌, worked);
        batch = record { hashes = refl; bounded = omega arith };
        outcome = (
          record {
            tree = tree;
            parent = refl;
            difficulty = refl;
            worked = worked;
            content = refl;
            tree_eq = en;
            root_eq = er;
          },
          refl,
          λ h inside. get-remove_all node.mempool.trans selected.to_remove h (inr inside),
          refl,
          refl,
        );
      }
      | inr weak ↦ record {
        result = record { miner = selected; node = node; finished = none };
        returns = rw (en, er, ◌>>=◌, weak);
        batch = batch;
        outcome = (refl, refl);
      }
    ]
