-- ===== src/Blockchain.antt =====
-- `Blockchain` of src/blockchain/mod.rs: the blocks by hash, each with its height, and the tip.
-- A `None` that the code unwraps is a panic, `none`.
pub mod Invariant
pub mod Chain
use bitcoin_client.Prelude.{
  ℕ, zero, suc, ◌+◌, List, [], ◌∷◌, ◌++◌, reverse, Option, none, some, ◌>>=◌, ltb, if◌then◌else◌,
  u32,
}
use bitcoin_client.Prelude.HashMap
use bitcoin_client.Prelude.HashMap.{HashMap, get}
use bitcoin_client.Types.Hash.{H256, h256_eq, zeros}
use bitcoin_client.Types.Block.{Header, Content, Block}
use bitcoin_client.Types.Crypto.{Crypto, hash}

pub record Blockchain : Type 0 where
  pub blocks : HashMap H256 (Block × ℕ)
  pub tip : H256

-- 000ff93a75a75895a351786dd7a188515173f6928a8af8c9baa4dcff268a4f0f
abbrev pub genesis_difficulty : H256
genesis_difficulty = record {
  bytes =
      0x00 ∷ 0x0f ∷ 0xf9 ∷ 0x3a ∷ 0x75 ∷ 0xa7 ∷ 0x58 ∷ 0x95 ∷ 0xa3 ∷ 0x51 ∷ 0x78 ∷ 0x6d ∷ 0xd7
      ∷ 0xa1 ∷ 0x88 ∷ 0x51 ∷ 0x51 ∷ 0x73 ∷ 0xf6 ∷ 0x92 ∷ 0x8a ∷ 0x8a ∷ 0xf8 ∷ 0xc9 ∷ 0xba ∷ 0xa4
      ∷ 0xdc ∷ 0xff ∷ 0x26 ∷ 0x8a ∷ 0x4f ∷ 0x0f ∷ [];
}

unfoldable pub genesis : Block
genesis = record {
  head = record {
    parent = zeros;
    nonce = 0;
    difficulty = genesis_difficulty;
    timestamp = 0;
    merkle_root = zeros;
  };
  cont = record { st = [] };
}

-- The loop of `all_blocks_in_longest_chain`: `height` rounds, each with a lookup.
unfoldable pub walk : HashMap H256 (Block × ℕ) → ℕ → H256 → List H256 → Option (List H256)
walk blocks zero next_hash hashes = some hashes
walk blocks (suc height) next_hash hashes = get blocks next_hash >>= λ entry.
    walk blocks height entry.0.head.parent (hashes ++ next_hash ∷ [])

-- `all_blocks_in_longest_chain`
unfoldable pub all_blocks_in_longest_chain : Blockchain → Option (List H256)
unfolding walk
all_blocks_in_longest_chain chain = get chain.blocks chain.tip >>= λ entry.
    walk chain.blocks entry.1 entry.0.head.parent (chain.tip ∷ []) >>= λ hashes.
    some (reverse hashes)

module _ (c : Crypto) where
  unfoldable pub genesis_hash : H256
  genesis_hash = hash c genesis

  -- `Blockchain::new`
  unfoldable pub new : Blockchain
  new = record { blocks = HashMap.insert [] genesis_hash (genesis, 0); tip = genesis_hash }

  -- The map and the tip after a block is stored at a height, where the tip has the height `top`.
  unfoldable pub extend : Blockchain → Block → ℕ → ℕ → Blockchain
  extend chain block height top = record {
    blocks = HashMap.insert chain.blocks (hash c block) (block, height);
    tip = if ltb top height then hash c block else chain.tip;
  }

  -- `Blockchain::insert`
  unfoldable pub insert : Blockchain → Block → Option Blockchain
  unfolding extend
  insert chain block = get chain.blocks block.head.parent >>= λ parent.
      get chain.blocks chain.tip >>= λ prev_tip.
      some (extend chain block (u32 (parent.1 + 1)) prev_tip.1)
