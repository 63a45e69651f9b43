-- ===== src/Types/Block.antt =====
-- The data of src/types/block.rs.
use bitcoin_client.Prelude.{ℕ, List}
use bitcoin_client.Types.Hash.{H256}
use bitcoin_client.Types.Transaction.{SignedTransaction}

pub record Header : Type 0 where
  pub parent : H256
  pub nonce : ℕ  -- u32
  pub difficulty : H256
  pub timestamp : ℕ  -- u128
  pub merkle_root : H256

pub record Content : Type 0 where
  pub st : List SignedTransaction

pub record Block : Type 0 where
  pub head : Header
  pub cont : Content

-- `Block::get_parent`
unfoldable pub get_parent : Block → H256
get_parent b = b.head.parent

-- `Block::get_difficulty`
unfoldable pub get_difficulty : Block → H256
get_difficulty b = b.head.difficulty
