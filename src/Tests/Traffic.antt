-- ===== src/Tests/Traffic.antt =====
-- What the worker, the miner and the generator send, and the control of their loops.
use bitcoin_client.Prelude.{
  ℕ, ◌≡◌, ◌⊎◌, refl, true, List, [], ◌∷◌, map, some, none, ◌>>=◌, inl, inr, pair_eq, nat_eq, arith,
}
use bitcoin_client.Prelude.HashMap.{get, insert, get-insert_self}
use bitcoin_client.Types.Hash.{H256, h256_eq, zeros, cmp}
use bitcoin_client.Types.Transaction.{SignedTransaction, new_mempool}
use bitcoin_client.Types.Crypto.{hash, hash_signed, address_of, from_seed_and_public_key}
use bitcoin_client.Ledger.{new_state, check_tx_state}
use bitcoin_client.Prelude.Bytes.{from_be_bytes}
use bitcoin_client.Blockchain
use bitcoin_client.Blockchain.{genesis, genesis_hash, all_blocks_in_longest_chain}
use bitcoin_client.Node.{Node, initial}
use bitcoin_client.Control.{Received, run, start, signal, empty, paused}
use bitcoin_client.Network.Worker.{receive_transactions}
use bitcoin_client.Network.Worker.Gossip.{receive_transactions-Received}
use bitcoin_client.Network.Worker.Gossip
use bitcoin_client.Network.Worker.Safe.{IsSafe, initial-IsSafe}
use bitcoin_client.Miner.{Miner}
use bitcoin_client.Miner.Mining.{IsMined}
use bitcoin_client.Miner.Worker.{Taken, on_finished-IsSafe}
use bitcoin_client.Generator.{GeneLoop, get_tx_balance, generate, new, public_key_gen, peers}
use bitcoin_client.Generator.Safe.{IsNew, Generated, generate-Generated, new-IsGenerator}
use bitcoin_client.Generator.Chain.{Order, AreOrders, rounds, announced_as, rounds-check_tx_state}
use bitcoin_client.Api.{chain_txs}
use bitcoin_client.Api.Routes.{listing_at, chain_txs-all_blocks}
use bitcoin_client.Types.Merkle
use bitcoin_client.Types.Address.{Address}
use bitcoin_client.Generator.Keys.{seed_0, public_0, public_1, public_2}
use bitcoin_client.Tests.Toy.{toy, toy-IsCrypto, owner, toy_digest}
use bitcoin_client.Tests.Chain.{block_1, signed_payment, IsSeen, seen_free, block_1_other}

abbrev the_node : Node
the_node = initial toy owner

receive_transactions-Received_example :
    let (mempool', news') = receive_transactions toy new_mempool [] (signed_payment ∷ []) in
    Gossip.Received toy new_mempool mempool' [] news'
receive_transactions-Received_example =
    receive_transactions-Received toy new_mempool [] (signed_payment ∷ [])

chain_txs-all_blocks_example : chain_txs toy the_node.blockchain ≡ (
    all_blocks_in_longest_chain the_node.blockchain >>= λ hs.
    some (map (listing_at toy the_node.blockchain.blocks) hs))
chain_txs-all_blocks_example = chain_txs-all_blocks toy the_node.blockchain

-- The first block, as the miner makes it.
abbrev pub batch : Miner
batch = record {
  operating_state = run 0;
  to_remove = hash_signed toy signed_payment ∷ [];
  transaction = signed_payment ∷ [];
}

pub block_1-IsMined : IsMined toy the_node batch block_1
unfolding initial Merkle.new Merkle.root Blockchain.new genesis_hash cmp from_be_bytes hash
    toy_digest
block_1-IsMined = record {
  tree = record { tree_list = (hash_signed toy signed_payment ∷ []) ∷ [] };
  parent = refl;
  difficulty = refl;
  worked = refl;
  content = refl;
  tree_eq = refl;
  root_eq = refl;
}

the_safe : (w : IsSafe toy IsSeen the_node) × (w.chain.top ≡ 0)
the_safe = initial-IsSafe toy IsSeen owner (inl refl)

on_finished-IsSafe_example : Taken toy IsSeen the_node the_safe.0.chain.top block_1
on_finished-IsSafe_example =
    on_finished-IsSafe seen_free the_node the_safe.0 batch the_node block_1 block_1-IsMined
      (inr (inl refl)) block_1_other ((genesis, 0), the_safe.0.chain.genesis_stored)
      (omega (arith, the_safe.1))

abbrev gene : GeneLoop
gene = record {
  operating_state = run 7;
  public_key = owner;
  addr = address_of toy owner.public_key;
  peer_addrs = (address_of toy (3 ∷ []), address_of toy (4 ∷ []));
  prev_tip = genesis_hash toy;
  state = new_state toy owner;
}

abbrev own_entries : List ((H256 × ℕ) × (ℕ × Address))
own_entries = ((zeros, 0), (100, address_of toy owner.public_key)) ∷ []

generate-Generated_example :
    (((get_tx_balance gene.addr own_entries).1 ≡ 0)
      × (generate toy the_node own_entries gene
          ≡ record { gene = gene; node = the_node; sent = none }))
    ⊎ Generated toy the_node gene (generate toy the_node own_entries gene)
unfolding new_state
generate-Generated_example =
    generate-Generated toy-IsCrypto gene (record { matches = refl; owns = refl }) the_node
      own_entries
      ((get-insert_self [] (zeros, 0) (100, address_of toy owner.public_key), omega arith), tt)

-- The generator of the first of the hard-coded key pairs.
abbrev pub first_gene : GeneLoop
first_gene = record {
  operating_state = paused;
  public_key = record { seed = seed_0; public_key = public_0 };
  addr = address_of toy public_0;
  peer_addrs = (address_of toy public_1, address_of toy public_2);
  prev_tip = genesis_hash toy;
  state = new_state toy owner;
}

first_gene-new : new toy the_node 0 ≡ some first_gene
unfolding new initial public_key_gen from_seed_and_public_key peers Blockchain.new
first_gene-new = rw (get-insert_self [] (genesis_hash toy) (new_state toy owner), ◌>>=◌) refl

new-IsGenerator_example : IsNew toy the_node 0 first_gene
new-IsGenerator_example = new-IsGenerator the_node 0 first_gene-new

abbrev gene_rounds : List (Received × Order)
gene_rounds = (empty, λ s. own_entries) ∷ (signal (start 2), λ s. []) ∷ []

gene_there : get the_node.block_state the_node.blockchain.tip ≡ some gene.state
unfolding initial Blockchain.new
gene_there = get-insert_self [] (genesis_hash toy) (new_state toy owner)

gene_orders : AreOrders toy the_node gene_rounds gene
unfolding new_state
gene_orders = (
  λ q. cc q,
  ((get-insert_self [] (zeros, 0) (100, address_of toy owner.public_key), omega arith), tt),
  λ r e. (λ q. cc q, tt, λ r' e'. tt),
)

rounds-check_tx_state_example :
    (node' : Node) × (g' : GeneLoop) × (made : List SignedTransaction) × (rounds toy the_node
        gene_rounds gene
      ≡ some (node', g', announced_as toy made))
    × (node'.blockchain ≡ the_node.blockchain)
    × (check_tx_state toy the_node.block_state the_node.blockchain.tip made (hash toy block_1)
        ≡ some (true, insert the_node.block_state (hash toy block_1) g'.state))
unfolding initial Blockchain.new
rounds-check_tx_state_example =
    rounds-check_tx_state toy-IsCrypto the_node gene_rounds gene (hash toy block_1)
      (record { matches = refl; owns = refl }) refl gene_there gene_orders
