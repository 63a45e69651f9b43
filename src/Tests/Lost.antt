-- ===== src/Tests/Lost.antt =====
-- A batch in which a payment stands before the payment whose output it spends: the map of the
-- mempool may be iterated in that order.
use bitcoin_client.Prelude.{◌≡◌, refl, List, [], ◌∷◌, none, some, In, arith}
use bitcoin_client.Prelude.Bytes.{from_be_bytes}
use bitcoin_client.Prelude.Equality.{list_eq, list_beq, nat_eq, pair_eq}
use bitcoin_client.Prelude.HashMap.{get, insert, get-insert_self}
use bitcoin_client.Types.Hash.{H256, h256_eq, cmp}
use bitcoin_client.Types.Address.{address_eq, from_public_key_bytes}
use bitcoin_client.Types.Block.{Block}
use bitcoin_client.Types.Transaction.{Transaction, SignedTransaction}
use bitcoin_client.Types.Crypto.{hash, hash_signed, sign, verify, address_of, digest}
use bitcoin_client.Types.Merkle
use bitcoin_client.Types.Merkle.{build, next_level, pad, combine}
use bitcoin_client.Blockchain
use bitcoin_client.Blockchain.{genesis_hash}
use bitcoin_client.Ledger.{new_state, check_txs, check_tx, sum_input}
use bitcoin_client.Node.{initial}
use bitcoin_client.Miner
use bitcoin_client.Miner.{Miner, mine, select, fill, conclude, candidate, new_miner}
use bitcoin_client.Miner.Worker.{on_finished}
use bitcoin_client.Miner.Lost.{lost_transactions}
use bitcoin_client.Tests.Toy.{toy, owner, toy_digest, transaction_bytes}
use bitcoin_client.Tests.Chain.{signed_payment}
use bitcoin_client.Tests.Client.{start_node}

abbrev child : Transaction
child = record {
  input = record { prev_trans = hash_signed toy signed_payment; index = 1 } ∷ [];
  output = record { recipient_addr = address_of toy (3 ∷ []); value = 40 } ∷ [];
}

abbrev signed_child : SignedTransaction
signed_child = record {
  transaction = child;
  signature_vector = sign toy child owner;
  public_key_vector = owner.public_key;
}

abbrev pool_entries : List (H256 × SignedTransaction)
pool_entries =
    (hash_signed toy signed_child, signed_child)
    ∷ (hash_signed toy signed_payment, signed_payment)
    ∷ []

abbrev Sent : Type 0
Sent =
    (r : Miner.Round) × (block : Block) × (mine toy start_node pool_entries 5 6 new_miner ≡ some r)
    × (r.finished ≡ some block)
    × (check_txs toy (new_state toy owner) block.cont.st ≡ none)

sent : Sent
unfolding mine select fill conclude candidate Merkle.new Merkle.root build next_level pad combine
    cmp from_be_bytes hash toy_digest new_miner check_txs check_tx sum_input new_state get insert
    digest verify list_eq list_beq sign nat_eq transaction_bytes hash_signed from_public_key_bytes
    pair_eq h256_eq
sent = (_, _, refl, refl, refl)

state_there : get start_node.block_state start_node.blockchain.tip ≡ some (new_state toy owner)
unfolding initial Blockchain.new
state_there = get-insert_self [] (genesis_hash toy) (new_state toy owner)

lost_transactions_example :
    (on_finished toy sent.0.node sent.1 ≡ some (sent.0.node, []))
    × (sent.0.node.blockchain ≡ start_node.blockchain)
    × (sent.0.node.block_state ≡ start_node.block_state)
    × ((t : SignedTransaction)
        → In t sent.1.cont.st
        → get sent.0.node.mempool.trans (hash_signed toy t) ≡ none)
unfolding new_miner
lost_transactions_example =
    lost_transactions toy start_node pool_entries 5 6 new_miner sent.0 sent.1 (new_state toy owner)
      (refl, (refl, tt)) (record { hashes = refl; bounded = omega arith }) sent.2 sent.3 state_there
      sent.4
