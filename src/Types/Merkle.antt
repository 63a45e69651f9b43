-- ===== src/Types/Merkle.antt =====
-- The Merkle tree of src/types/merkle.rs. `none` is a panic of the code, or loop fuel that ran
-- out; `Types.Merkle.Build` shows that a tree of leaves has neither.
pub mod Build
pub mod Proof
pub mod Binding
use bitcoin_client.Prelude.{
  ℕ, zero, suc, ◌+◌, ◌-◌, ◌/◌, ◌%◌, Bool, false, not, ◌&&◌, List, [], ◌∷◌, ◌++◌, map, Option, none,
  some, ◌>>=◌, ◌==◌, ◌=?◌, leb, if◌then◌else◌, length, get_elem?,
}
use bitcoin_client.Types.Hash.{H256, h256_eq, zeros}
use bitcoin_client.Types.Crypto.{Crypto, digest}

pub record MerkleTree : Type 0 where
  pub tree_list : List (List H256)

-- `if level.len() != 1 && level.len() % 2 != 0 { level.push(level[level.len() - 1]) }`
unfoldable pub pad : List H256 → Option (List H256)
pad level =
    if not (length level =? 1) && not (length level % 2 =? 0)
    then (get_elem? level (length level - 1) >>= λ last. some (level ++ last ∷ []))
    else some level

-- The digest of two hashes in a row.
unfoldable pub combine : Crypto → H256 → H256 → H256
combine c left right = digest c (left.bytes ++ right.bytes)

module _ (c : Crypto) where
  -- The inner loop of `new`: it takes `level[index]` and `level[index + 1]`, two by two.
  unfoldable pub next_level : List H256 → Option (List H256)
  next_level [] = some []
  next_level (x ∷ []) = none
  next_level (x ∷ y ∷ rest) = next_level rest >>= λ combined. some (combine c x y ∷ combined)

  -- The outer loop of `new`: the levels from this one up. A level is longer than the next one, so
  -- the length of the leaf level is fuel enough.
  unfoldable pub build : ℕ → List H256 → Option (List (List H256))
  unfolding pad
  build zero level = none
  build (suc fuel) level =
      if length level =? 1
      then some (level ∷ [])
      else (next_level level >>= λ next.
          pad next >>= λ padded. build fuel padded >>= λ levels. some (level ∷ levels))

  -- `MerkleTree::new`, for the `hash` of the items' type.
  unfoldable pub new {ℓ} : {T : Type ℓ} → (T → H256) → List T → Option MerkleTree
  unfolding build pad
  new hash [] = some (record { tree_list = [] })
  new hash (d ∷ data_rest) = pad (map hash (d ∷ data_rest)) >>= λ level0.
      build (length level0) level0 >>= λ tree. some (record { tree_list = tree })

  -- The loop of `verify`.
  unfoldable pub fold_proof : H256 → ℕ → List H256 → H256
  fold_proof current_hash datum_index [] = current_hash
  fold_proof current_hash datum_index (p ∷ proof) =
      fold_proof
        (if datum_index % 2 =? 0 then combine c current_hash p else combine c p current_hash)
        (datum_index / 2) proof

  -- `verify`
  unfoldable pub verify : H256 → H256 → List H256 → ℕ → ℕ → Bool
  unfolding fold_proof
  verify root datum proof index leaf_size =
      if leb leaf_size index
      then false
      else if leb leaf_size 0
      then false
      else (fold_proof datum index proof == root)

-- The first hash of the last level.
unfoldable pub top : List (List H256) → Option H256
top levels = get_elem? levels (length levels - 1) >>= λ level. get_elem? level 0

-- `MerkleTree::root`
unfoldable pub root : MerkleTree → Option H256
unfolding top
root t = if length t.tree_list =? 0 then some zeros else top t.tree_list

-- The other one of the pair that holds the index.
unfoldable pub sibling : ℕ → ℕ
sibling i = if i % 2 =? 0 then i + 1 else i - 1

-- The loop of `proof`, over the levels from the leaves up; the last level has no sibling.
unfoldable pub proof_from : List (List H256) → ℕ → Option (List H256)
unfolding sibling
proof_from [] i = some []
proof_from (level ∷ []) i = some []
proof_from (level ∷ above ∷ levels) i = get_elem? level (sibling i) >>= λ s.
    proof_from (above ∷ levels) (i / 2) >>= λ rest. some (s ∷ rest)

-- `MerkleTree::proof`: `self.treeList[0]` panics on the tree of no leaves.
unfoldable pub proof : MerkleTree → ℕ → Option (List H256)
unfolding proof_from
proof t index = get_elem? t.tree_list 0 >>= λ level0.
    if leb (length level0) index then some [] else proof_from t.tree_list index
