-- ===== src/Network/Message.antt =====
-- `Message` of src/network/message.rs.
use Prim.Native.String.{String}
use bitcoin_client.Prelude.{List}
use bitcoin_client.Types.Hash.{H256}
use bitcoin_client.Types.Block.{Block}
use bitcoin_client.Types.Transaction.{SignedTransaction}

pub data Message : Type 0 where
  ping : String → Message
  pong : String → Message
  new_block_hashes : List H256 → Message
  get_blocks : List H256 → Message
  blocks : List Block → Message
  new_transaction_hashes : List H256 → Message
  get_transactions : List H256 → Message
  transactions : List SignedTransaction → Message
