-- ===== src/Tests/Sync.antt =====
-- The first block, from a node that has stored it to one that has not.
use bitcoin_client.Prelude.{
  ◌≡◌, refl, sym, ◌∙◌, [], ◌∷◌, Option, some, none, some-injective, Option-cases, arith, inl, inr,
}
use mathlib.Core.Path.{subst}
use bitcoin_client.Prelude.Equality.{list_eq, list_beq, nat_eq, pair_eq}
use bitcoin_client.Prelude.HashMap.{get, insert, get-insert_nil}
use bitcoin_client.Types.Hash.{h256_eq}
use bitcoin_client.Types.Address.{address_eq, from_public_key_bytes}
use bitcoin_client.Types.Transaction.{State}
use bitcoin_client.Types.Crypto.{hash, hash_signed, sign, verify}
use bitcoin_client.Blockchain
use bitcoin_client.Blockchain.{genesis, genesis_hash}
use bitcoin_client.Ledger.{new_state, check_txs, check_tx, sum_input, sum_output}
use bitcoin_client.Node.{initial}
use bitcoin_client.Network.Worker.{Loop}
use bitcoin_client.Network.Worker.Safe.{IsStored, IsSafe}
use bitcoin_client.Network.Worker.Connect.{connect_block_total}
use bitcoin_client.Network.Worker.Forged.{forged_content}
use bitcoin_client.Network.Sync.{Worked, sync, IsAddable, sync_stores}
use bitcoin_client.Tests.Toy.{toy, owner, toy_digest, transaction_bytes}
use bitcoin_client.Tests.Chain.{block_1, IsSeen, seen_free, block_1_other}
use bitcoin_client.Tests.Node.{
  first_node, first_loop, first_safe, first_there, first_block, first_ready,
}

payment_passes :
    (after : State) × (check_txs toy (new_state toy owner) block_1.cont.st ≡ some after)
unfolding check_txs check_tx sum_input sum_output new_state get insert verify list_eq list_beq sign
    nat_eq transaction_bytes hash_signed from_public_key_bytes pair_eq h256_eq address_eq toy_digest
payment_passes = (_, refl)

-- The node that has stored the block.
stored :
    (t : Loop) × IsSafe toy IsSeen t.node
    × (get t.node.blockchain.blocks (hash toy block_1) ≡ some (block_1, 1))
unfolding genesis
stored =
    let (t, ran, at_hash, again) =
      forged_content seen_free first_loop first_safe.0 block_1 first_block block_1.cont genesis 0
        first_safe.0.chain.genesis_stored refl (new_state toy owner) payment_passes.0 first_there
        payment_passes.1 (omega (arith, first_safe.1)) in
    let (u, ran', c) =
      connect_block_total seen_free first_loop first_safe.0 block_1 first_block genesis 0
        first_safe.0.chain.genesis_stored (omega (arith, first_safe.1)) in
    let both : ◌≡◌ {A = Option Loop} (some u) (some t) = sym ran' ∙ ran in
    (t, subst (λ (x : Loop). IsSafe toy IsSeen x.node) (some-injective both) c.safe, at_hash)

not_there : get first_node.blockchain.blocks (hash toy block_1) ≡ none
unfolding initial Blockchain.new genesis_hash
not_there = elim (Option-cases (get first_node.blockchain.blocks (hash toy block_1))) [
  | inl missing ↦ missing
  | inr (e, found) ↦ absurd (
      block_1_other
        (sym (get-insert_nil (hash toy genesis) (genesis, 0) (hash toy block_1) found).0))
]

addable : IsAddable toy first_node block_1
addable = record {
  fresh = not_there;
  p = genesis;
  ph = 0;
  parent = first_safe.0.chain.genesis_stored;
  state = new_state toy owner;
  after = payment_passes.0;
  found = first_there;
  passed = payment_passes.1;
}

sync_stores_example :
    (r : Worked) × (sync toy stored.0.node [] first_node [] (hash toy block_1 ∷ []) ≡ some r)
    × IsStored r.node.blockchain.blocks (hash toy block_1)
sync_stores_example =
    sync_stores seen_free stored.0.node first_node [] [] stored.1 first_ready block_1 1 stored.2
      addable (omega (arith, first_safe.1))
