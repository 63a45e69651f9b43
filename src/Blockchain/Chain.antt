-- ===== src/Blockchain/Chain.antt =====
-- What `all_blocks_in_longest_chain` returns.
use mathlib.Core.List.{append-nil, append_assoc, reverse-append}
use bitcoin_client.Prelude.{
  ℕ, zero, suc, ◌<◌, ◌≡◌, ◌⊎◌, refl, sym, ap, ◌∙◌, inl, inr, List, [], ◌∷◌, ◌++◌, reverse, Option,
  some, ◌>>=◌, arith, length, length-append, lt-get_elem?, get_elem?-snoc_last, get_elem?,
}
use bitcoin_client.Prelude.HashMap.{HashMap, get}
use bitcoin_client.Types.Hash.{H256, h256_eq}
use bitcoin_client.Types.Block.{Block}
use bitcoin_client.Types.Crypto.{Crypto}
use bitcoin_client.Blockchain.{Blockchain, genesis_hash, walk, all_blocks_in_longest_chain}
use bitcoin_client.Blockchain.Invariant.{IsValid}

-- The hashes from the genesis block up to a block of height `top`: the hash at place i is that of
-- a block of height i, whose parent is the hash before it.
pub record IsPath (c : Crypto) (blocks : HashMap H256 (Block × ℕ)) (k : H256) (top : ℕ)
    (hashes : List H256) : Type 0 where
  pub size : length hashes ≡ suc top
  pub first : get_elem? hashes 0 ≡ some (genesis_hash c)
  pub last : get_elem? hashes top ≡ some k
  pub heights :
      (i : ℕ) (j : H256) → get_elem? hashes i ≡ some j → (b : Block) × (get blocks j ≡ some (b, i))
  pub parents :
      (i : ℕ) (j j' : H256) (b : Block) (h : ℕ)
      → get_elem? hashes i ≡ some j
      → get_elem? hashes (suc i) ≡ some j'
      → get blocks j' ≡ some (b, h)
      → b.head.parent ≡ j

get_elem?-snoc_lt :
    (xs : List H256) (x : H256) (i : ℕ)
    → i < length xs
    → get_elem? (xs ++ x ∷ []) i ≡ get_elem? xs i
get_elem?-snoc_lt [] x i h = elim h [ ]
get_elem?-snoc_lt (y ∷ xs) x zero h = refl
get_elem?-snoc_lt (y ∷ xs) x (suc i) h = get_elem?-snoc_lt xs x i (omega arith)

-- A place of a list with one more element.
get_elem?-snoc_cases :
    (xs : List H256) (x : H256) (i : ℕ) {j : H256}
    → get_elem? (xs ++ x ∷ []) i ≡ some j
    → (get_elem? xs i ≡ some j) ⊎ ((i ≡ length xs) × (x ≡ j))
get_elem?-snoc_cases [] x zero h = inr (refl, cc)
get_elem?-snoc_cases [] x (suc i) h = cc
get_elem?-snoc_cases (y ∷ xs) x zero h = inl h
get_elem?-snoc_cases (y ∷ xs) x (suc i) h = elim (get_elem?-snoc_cases xs x i h) [
  | inl old ↦ inl old
  | inr (at_end, same) ↦ inr (ap suc at_end, same)
]

module _ (c : Crypto) (chain : Blockchain) (w : IsValid c chain) where
  genesis-IsPath :
      (k : H256) (b : Block) → get chain.blocks k ≡ some (b, 0) → IsPath c chain.blocks k 0 (k ∷ [])
  genesis-IsPath k b e = record {
    size = refl;
    first = ap some (w.rooted k b e);
    last = refl;
    heights = heights;
    parents = λ i j j' b h p q. absurd (cc);
  }
    where
      heights :
          (i : ℕ) (j : H256)
          → get_elem? (k ∷ []) i ≡ some j
          → (b : Block) × (get chain.blocks j ≡ some (b, i))
      heights zero j h = (b, let same : k ≡ j = cc in rw (← same) e)
      heights (suc i) j h = cc

  snoc-IsPath :
      (k : H256) (b : Block) (h : ℕ) (hashes : List H256)
      → get chain.blocks k ≡ some (b, suc h)
      → IsPath c chain.blocks b.head.parent h hashes
      → IsPath c chain.blocks k (suc h) (hashes ++ k ∷ [])
  snoc-IsPath k b h hashes e p = record {
    size = omega (arith, p.size, length-append {0} hashes (k ∷ []));
    first = get_elem?-snoc_lt hashes k 0 (omega (arith, p.size)) ∙ p.first;
    last = rw (← p.size) (get_elem?-snoc_last hashes k);
    heights = λ i j g. elim (get_elem?-snoc_cases hashes k i g) [
      | inl old ↦ p.heights i j old
      | inr (at_end, same) ↦ let place : i ≡ suc h = at_end ∙ p.size in (b, rw (← same, place) e)
    ];
    parents = parents;
  }
    where
      parents :
          (i : ℕ) (j j' : H256) (b' : Block) (h' : ℕ)
          → get_elem? (hashes ++ k ∷ []) i ≡ some j
          → get_elem? (hashes ++ k ∷ []) (suc i) ≡ some j'
          → get chain.blocks j' ≡ some (b', h')
          → b'.head.parent ≡ j
      parents i j j' b' h' g g' st = elim (get_elem?-snoc_cases hashes k i g) [
        | inl before ↦ elim (get_elem?-snoc_cases hashes k (suc i) g') [
          | inl old ↦ p.parents i j j' b' h' before old st
          | inr (at_end, same) ↦
              let place : i ≡ h = omega (arith, p.size) in
              let here : get_elem? hashes h ≡ some j = rw place at before in
              let parent : b.head.parent ≡ j = cc p.last in
              let both : ◌≡◌ {A = Option (Block × ℕ)} (some (b, suc h)) (some (b', h')) =
                sym e ∙ ap (get chain.blocks) same ∙ st in
              let block : b ≡ b' = cc in ap (λ (x : Block). x.head.parent) (sym block) ∙ parent
        ]
        | inr (at_end, same) ↦ elim (get_elem?-snoc_cases hashes k (suc i) g') [
          | inl old ↦ absurd (omega (arith, lt-get_elem? hashes (suc i) old))
          | inr (beyond, _) ↦ absurd (omega arith)
        ]
      ]

  -- From a stored block the loop adds the hashes down to the genesis block.
  walk-IsPath :
      (k : H256) (h : ℕ) (b : Block)
      → get chain.blocks k ≡ some (b, h)
      → (below : List H256) × ((hashes : List H256)
          → walk chain.blocks h b.head.parent hashes ≡ some (hashes ++ below))
        × IsPath c chain.blocks k h (reverse (k ∷ below))
  unfolding walk
  walk-IsPath k zero b e = ([], λ hashes. ap some (sym (append-nil hashes)), genesis-IsPath k b e)
  walk-IsPath k (suc h) b e =
      let (p, stored) = w.linked k b h e in
      let (below, run, path) = walk-IsPath b.head.parent h p stored in
      (
        b.head.parent ∷ below,
        λ hashes.
            rw (stored, ◌>>=◌)
              (run (hashes ++ b.head.parent ∷ [])
                ∙ ap some (append_assoc hashes (b.head.parent ∷ []) below)),
        rw (reverse-append (k ∷ []) (b.head.parent ∷ below)) (snoc-IsPath k b h _ e path),
      )

  -- In a valid blockchain `all_blocks_in_longest_chain` returns, and its result is the path from
  -- the genesis block to the tip: one hash for each height up to the tip's, each that of a stored
  -- block of that height whose parent is the hash before it.
  pub all_blocks_in_longest_chain-IsPath :
      (hashes : List H256) × (all_blocks_in_longest_chain chain ≡ some hashes)
      × IsPath c chain.blocks chain.tip w.top hashes
  unfolding all_blocks_in_longest_chain
  all_blocks_in_longest_chain-IsPath =
      let (below, run, path) = walk-IsPath chain.tip w.top w.tip_block w.tip_stored in
      (reverse (chain.tip ∷ below), rw (w.tip_stored, run (chain.tip ∷ [])), path)
