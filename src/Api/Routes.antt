-- ===== src/Api/Routes.antt =====
-- What the routes of src/api/mod.rs that read the blockchain answer.
use mathlib.Core.List.{map-append}
use mathlib.Mathlib.Data.List.Basic.{map-reverse_aux}
use bitcoin_client.Prelude.{
  ℕ, zero, suc, ◌≤◌, ◌≡◌, refl, sym, ap, ◌∙◌, inl, inr, List, [], ◌∷◌, ◌++◌, map, reverse, Option,
  none, some, ◌>>=◌, ltb, Bool-cases, Option-cases, get_elem?, lt-get_elem?, le-get_elem?, arith,
}
use bitcoin_client.Prelude.HashMap.{HashMap, get}
use bitcoin_client.Types.Hash.{H256, h256_eq}
use bitcoin_client.Types.Block.{Block}
use bitcoin_client.Types.Transaction.{State}
use bitcoin_client.Types.Crypto.{Crypto}
use bitcoin_client.Blockchain.{Blockchain, walk, all_blocks_in_longest_chain}
use bitcoin_client.Blockchain.Invariant.{IsValid}
use bitcoin_client.Blockchain.Chain.{IsPath, all_blocks_in_longest_chain-IsPath}
use bitcoin_client.Node.{Node}
use bitcoin_client.Api.{state_loop, state_at, listing, tx_loop, chain_txs}

abbrev pub of_entry : Crypto → Option (Block × ℕ) → List (List ℕ)
of_entry c none = []
of_entry c (some e) = listing c e.0

-- The transactions of the block that is stored under a hash.
abbrev pub listing_at : Crypto → HashMap H256 (Block × ℕ) → H256 → List (List ℕ)
listing_at c blocks k = of_entry c (get blocks k)

module _ (c : Crypto) where
  listing-snoc :
      (blocks : HashMap H256 (Block × ℕ)) (k : H256) (hashes : List H256) (e : Block × ℕ)
      → get blocks k ≡ some e
      → map (listing_at c blocks) hashes ++ listing c e.0 ∷ []
        ≡ map (listing_at c blocks) (hashes ++ k ∷ [])
  listing-snoc blocks k hashes e found =
      ap (λ l. map (listing_at c blocks) hashes ++ l ∷ []) (sym (ap (of_entry c) found))
      ∙ sym (map-append (listing_at c blocks) hashes (k ∷ []))

  tx_loop-walk :
      (blocks : HashMap H256 (Block × ℕ)) (height : ℕ) (next : H256) (hashes : List H256)
      → tx_loop c blocks height next (map (listing_at c blocks) hashes)
        ≡ (walk blocks height next hashes >>= λ hs. some (map (listing_at c blocks) hs))
  unfolding tx_loop walk
  tx_loop-walk blocks zero next hashes = refl
  tx_loop-walk blocks (suc height) next hashes = elim (Option-cases (get blocks next)) [
    | inl missing_block ↦ rw (missing_block, ◌>>=◌) refl
    | inr (e, found) ↦
        rw (found, ◌>>=◌)
          (ap (tx_loop c blocks height e.0.head.parent) (listing-snoc blocks next hashes e found)
            ∙ tx_loop-walk blocks height e.0.head.parent (hashes ++ next ∷ []))
  ]

  -- "/blockchain/longest-chain-tx" answers with the transactions of the blocks whose hashes
  -- "/blockchain/longest-chain" answers with, in the same order, and panics where that does.
  pub chain_txs-all_blocks :
      (chain : Blockchain)
      → chain_txs c chain
        ≡ (all_blocks_in_longest_chain chain >>= λ hs. some (map (listing_at c chain.blocks) hs))
  unfolding chain_txs all_blocks_in_longest_chain
  chain_txs-all_blocks chain = elim (Option-cases (get chain.blocks chain.tip)) [
    | inl missing_tip ↦ rw (missing_tip, ◌>>=◌) refl
    | inr (e, found) ↦
        let first : listing c e.0 ∷ [] ≡ map (listing_at c chain.blocks) (chain.tip ∷ []) =
          listing-snoc chain.blocks chain.tip [] e found in
        rw (found, ◌>>=◌)
          (ap (λ l. tx_loop c chain.blocks e.1 e.0.head.parent l >>= λ ls. some (reverse ls)) first
            ∙ ap (λ r. r >>= λ ls. some (reverse ls))
                (tx_loop-walk chain.blocks e.1 e.0.head.parent (chain.tip ∷ []))
            ∙ reverse-bind (walk chain.blocks e.1 e.0.head.parent (chain.tip ∷ [])))
  ]
    where
      reverse-bind :
          (m : Option (List H256))
          → ((m >>= λ hs. some (map (listing_at c chain.blocks) hs)) >>= λ ls. some (reverse ls))
            ≡ ((m >>= λ hs. some (reverse hs)) >>= λ hs. some (map (listing_at c chain.blocks) hs))
      reverse-bind none = refl
      reverse-bind (some hs) = ap some (sym (map-reverse_aux (listing_at c chain.blocks) hs []))

module _ {c : Crypto} {blocks : HashMap H256 (Block × ℕ)} {tip : H256} {top : ℕ}
    {hashes : List H256} (path : IsPath c blocks tip top hashes) where
  -- From a place of the path the loop goes down to the place that is asked for.
  state_loop_below :
      (index height : ℕ) (k : H256) (b : Block)
      → get_elem? hashes height ≡ some k
      → get blocks k ≡ some (b, height)
      → index ≤ height
      → (k' : H256) × (state_loop blocks index height k b ≡ some k')
        × (get_elem? hashes index ≡ some k')
  unfolding state_loop
  state_loop_below index zero k b at_k stored le =
      let same : index ≡ 0 = omega (arith, le) in (k, refl, rw same at_k)
  state_loop_below index (suc height) k b at_k stored le =
      elim (Bool-cases (ltb index (suc height))) [
        | inl deeper ↦ elim (Option-cases (get_elem? hashes height)) [
          | inl outside ↦ absurd (
              omega
                (arith, le-get_elem? hashes height outside, lt-get_elem? hashes (suc height) at_k))
          | inr (j, at_j) ↦
              let (p, found) = path.heights height j at_j in
              let up : b.head.parent ≡ j =
                path.parents height j k b (suc height) at_j at_k stored in
              let found' : get blocks b.head.parent ≡ some (p, height) =
                ap (get blocks) up ∙ found in
              let below : index ≤ height = ground (arith, deeper) in
              let (k', runs, at_index) =
                state_loop_below index height b.head.parent p (at_j ∙ ap some (sym up)) found'
                  below in
              (k', rw (deeper, found', ◌>>=◌) runs, at_index)
        ]
        | inr here ↦
            let same : index ≡ suc height = ground (arith, here, le) in
            (k, rw here refl, rw same at_k)
      ]

module _ (c : Crypto) (node : Node) (w : IsValid c node.blockchain) where
  -- On a valid blockchain whose stored blocks have their states, "/blockchain/state" for a height
  -- up to the tip's answers with the state after the block that "/blockchain/longest-chain" has at
  -- that place.
  pub state_at-longest_chain :
      ((k : H256) (e : Block × ℕ)
        → get node.blockchain.blocks k ≡ some e
        → (s : State) × (get node.block_state k ≡ some s))
      → (index : ℕ) → index ≤ w.top
      → (hashes : List H256) × (k : H256) × (s : State) × (all_blocks_in_longest_chain
            node.blockchain
          ≡ some hashes)
        × (get_elem? hashes index ≡ some k)
        × (get node.block_state k ≡ some s)
        × (state_at node index ≡ some s)
  unfolding state_at
  state_at-longest_chain stated index le =
      let (hashes, returns, path) = all_blocks_in_longest_chain-IsPath c node.blockchain w in
      let (k, runs, at_index) =
        state_loop_below path index w.top node.blockchain.tip w.tip_block path.last w.tip_stored
          le in
      let (b, stored) = path.heights index k at_index in
      let (s, has) = stated k (b, index) stored in
      (hashes, k, s, returns, at_index, has, rw (w.tip_stored, ◌>>=◌, runs, ◌>>=◌) has)
