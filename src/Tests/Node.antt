-- ===== src/Tests/Node.antt =====
-- The worker, the blockchain and the routes on a node with the genesis block.
use bitcoin_client.Prelude.{
  ℕ, ◌+◌, ◌=?◌, if◌then◌else◌, length, none, ◌≡◌, ◌↔◌, refl, sym, Bool, true, List, [], ◌∷◌, some,
  none, All, arith, get_elem?, inl, inr,
}
use bitcoin_client.Prelude.HashMap.{get, get-insert_nil, get-insert_self}
use bitcoin_client.Types.Hash.{H256, h256_eq}
use bitcoin_client.Types.Block.{Block}
use bitcoin_client.Types.Transaction.{State}
use bitcoin_client.Types.Crypto.{hash, hash_signed}
use bitcoin_client.Blockchain
use bitcoin_client.Blockchain.{genesis, genesis_hash, all_blocks_in_longest_chain}
use bitcoin_client.Blockchain.Invariant.{
  IsValid, Inserted, new-IsValid, insert-IsValid, insert_panics,
}
use bitcoin_client.Blockchain.Chain.{IsPath, all_blocks_in_longest_chain-IsPath}
use bitcoin_client.Prelude.Bytes.{from_be_bytes}
use bitcoin_client.Types.Hash.{cmp}
use bitcoin_client.Ledger.{new_state, check_txs}
use bitcoin_client.Network.Worker.{Loop, connect_block, process_block}
use bitcoin_client.Network.Worker.Forged.{forged_content}
use bitcoin_client.Node.{Node, initial}
use bitcoin_client.Network.Message.{blocks, transactions}
use bitcoin_client.Network.Worker.Safe.{IsSafe, IsWorked, initial-IsSafe}
use bitcoin_client.Network.Worker.Blocks.{IsReady, Handled, on_blocks-IsReady}
use bitcoin_client.Network.Worker.Run.{run, run-IsReady}
use bitcoin_client.Miner.{tx_exist_check}
use bitcoin_client.Miner.Exist.{Lacks, tx_exist_check_iff}
use bitcoin_client.Api.{state_at}
use bitcoin_client.Api.Routes.{state_at-longest_chain}
use bitcoin_client.Client.{Client}
use bitcoin_client.Client.Invariant.{IsClient, held}
use bitcoin_client.Client.Start.{start, start-IsClient}
use bitcoin_client.Client.Index.{CommandLine, Host}
use bitcoin_client.Tests.Toy.{toy, owner, toy_digest}
use bitcoin_client.Tests.Chain.{block_1, block_2, signed_payment, IsSeen, seen_free, block_1_other}

abbrev pub first_node : Node
first_node = initial toy owner

pub first_safe : (w : IsSafe toy IsSeen first_node) × (w.chain.top ≡ 0)
first_safe = initial-IsSafe toy IsSeen owner (inl refl)

abbrev pub first_ready : IsReady toy IsSeen (λ _. ⊥) first_node []
first_ready = record {
  safe = first_safe.0;
  worked = tt;
  elsewhere = λ k h. absurd h;
  parentless = tt;
}

first_IsValid : IsValid toy first_node.blockchain
first_IsValid = first_safe.0.chain

-- A worker receives the second block, then the first, and then a transaction.
run-IsReady_example :
    (e : Node × List Block) × (run toy
        (initial toy owner)
        []
        (blocks (block_2 ∷ []) ∷ blocks (block_1 ∷ []) ∷ transactions (signed_payment ∷ []) ∷ [])
      ≡ some e)
    × IsReady toy IsSeen (λ _. ⊥) e.0 e.1
run-IsReady_example =
    run-IsReady seen_free owner
      (blocks (block_2 ∷ []) ∷ blocks (block_1 ∷ []) ∷ transactions (signed_payment ∷ []) ∷ [])
      (inl refl) ((inr (inr (inl refl)), tt), ((inr (inl refl), tt), (tt, tt))) (omega arith)

-- The two blocks in one message, the child first.
on_blocks-IsReady_example :
    Handled toy IsSeen
      (λ _. ⊥)
      first_node
      []
      (block_2 ∷ block_1 ∷ [])
      (first_ready.safe.chain.top + 0 + 2)
on_blocks-IsReady_example =
    on_blocks-IsReady seen_free (λ _. ⊥) first_node [] (block_2 ∷ block_1 ∷ []) first_ready
      (inr (inr (inl refl)), (inr (inl refl), tt)) (omega (arith, first_safe.1))

abbrev first_chain : Blockchain.Blockchain
first_chain = Blockchain.new toy

abbrev first_valid : IsValid toy first_chain
first_valid = (new-IsValid toy).0

no_clash :
    (b : Block) (h : ℕ)
    → get first_chain.blocks (hash toy block_1) ≡ some (b, h)
    → b.head ≡ block_1.head
unfolding Blockchain.new genesis_hash
no_clash b h e =
    absurd
      (block_1_other (sym (get-insert_nil (hash toy genesis) (genesis, 0) (hash toy block_1) e).0))

-- The first block goes on the genesis block.
insert-IsValid_example : Inserted toy first_chain first_valid.top block_1 0
insert-IsValid_example =
    insert-IsValid first_valid block_1 genesis 0 first_valid.genesis_stored block_1_other no_clash
      (omega (arith, (new-IsValid toy).1))

-- The second block's parent is not there.
insert_panics_example :
    (Blockchain.insert toy first_chain block_2 ≡ none)
    ↔ (get first_chain.blocks block_2.head.parent ≡ none)
insert_panics_example = insert_panics first_valid block_2

all_blocks_in_longest_chain-IsPath_example :
    (hashes : List H256) × (all_blocks_in_longest_chain first_chain ≡ some hashes)
    × IsPath toy first_chain.blocks first_chain.tip first_valid.top hashes
all_blocks_in_longest_chain-IsPath_example =
    all_blocks_in_longest_chain-IsPath toy first_chain first_valid

tx_exist_check_iff_example :
    (r : Bool) × (hashes : List H256) × (tx_exist_check toy first_chain
        (hash_signed toy signed_payment)
      ≡ some r)
    × (all_blocks_in_longest_chain first_chain ≡ some hashes)
    × ((r ≡ true) ↔ All (Lacks toy first_chain.blocks (hash_signed toy signed_payment)) hashes)
tx_exist_check_iff_example =
    tx_exist_check_iff toy (hash_signed toy signed_payment) first_chain first_valid

state_at-longest_chain_example :
    (hashes : List H256) × (k : H256) × (s : State) × (all_blocks_in_longest_chain
        first_node.blockchain
      ≡ some hashes)
    × (get_elem? hashes 0 ≡ some k)
    × (get first_node.block_state k ≡ some s)
    × (state_at first_node 0 ≡ some s)
state_at-longest_chain_example =
    state_at-longest_chain toy first_node first_IsValid first_safe.0.stated 0 (omega arith)

-- The first of the three nodes, with four workers.
start-IsClient_example :
    (client : Client) × (start toy 0 4 ≡ some client)
    × (w : IsClient toy IsSeen client) × (w.safe.chain.top + held client ≡ 0)
start-IsClient_example =
    start-IsClient (record { first = refl; second = refl; third = refl }) (inl refl) 0 4
      (omega arith)

-- "127.0.0.1:6001"
abbrev second_addr : List ℕ
second_addr = 49 ∷ 50 ∷ 55 ∷ 46 ∷ 48 ∷ 46 ∷ 48 ∷ 46 ∷ 49 ∷ 58 ∷ 54 ∷ 48 ∷ 48 ∷ 49 ∷ []

abbrev second_line : CommandLine
second_line = record {
  peer_addr = second_addr;
  api_addr = 58 ∷ 55 ∷ 48 ∷ 48 ∷ 49 ∷ [];
  p2p_workers = 52 ∷ [];
}

-- A text is an address of its length, unless it is empty.
abbrev any_host : Host ℕ
any_host = record {
  parse = λ text. if length text =? 0 then none else some (length text);
  binds = λ addr. true;
}

abbrev pub first_loop : Loop
first_loop = record { node = first_node; orphan_blocks = []; new_blocks = []; n = 0; replies = [] }

pub first_there : get first_node.block_state (genesis_hash toy) ≡ some (new_state toy owner)
unfolding initial
first_there = get-insert_self [] (genesis_hash toy) (new_state toy owner)

-- The first block, worked.
pub first_block : IsWorked toy IsSeen block_1
unfolding cmp from_be_bytes hash toy_digest
first_block = record { seen = inr (inl refl); worked = refl; other = block_1_other }

-- The first block, sent without its payment.
forged_content_example :
    (t : Loop) × (connect_block toy first_loop
        (genesis_hash toy)
        (record block_1 { cont = record { st = [] } })
      ≡ some t)
    × (get t.node.blockchain.blocks (hash toy block_1)
        ≡ some (record block_1 { cont = record { st = [] } }, 1))
    × (process_block toy t block_1 ≡ some t)
unfolding check_txs genesis
forged_content_example =
    forged_content seen_free first_loop first_safe.0 block_1 first_block (record { st = [] })
      genesis 0 first_safe.0.chain.genesis_stored refl (new_state toy owner) (new_state toy owner)
      first_there refl (omega (arith, first_safe.1))
