-- ===== src/Node.antt =====
-- The state that the threads of src/main.rs share: the blockchain, the mempool and the state of
-- the unspent outputs after each block, each behind its own mutex.
use bitcoin_client.Prelude.{[]}
use bitcoin_client.Prelude.HashMap.{HashMap, insert}
use bitcoin_client.Types.Hash.{H256, h256_eq}
use bitcoin_client.Types.Transaction.{Mempool, State, new_mempool}
use bitcoin_client.Types.Crypto.{Crypto, KeyPair}
use bitcoin_client.Blockchain
use bitcoin_client.Blockchain.{Blockchain, genesis_hash}
use bitcoin_client.Ledger.{new_state}

pub record Node : Type 0 where
  pub blockchain : Blockchain
  pub mempool : Mempool
  pub block_state : HashMap H256 State

-- The node that `main` starts, for the first of the hard-coded key pairs.
unfoldable pub initial : Crypto → KeyPair → Node
initial c first_key = record {
  blockchain = Blockchain.new c;
  mempool = new_mempool;
  block_state = insert [] (genesis_hash c) (new_state c first_key);
}
