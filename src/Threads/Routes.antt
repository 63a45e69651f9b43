-- ===== src/Threads/Routes.antt =====
-- The routes of src/api/mod.rs that read the blockchain a lock at a time, while blocks are added.
use bitcoin_client.Prelude.{
  ℕ, zero, suc, ◌≡◌, refl, sym, ap, ◌∙◌, inl, inr, List, [], ◌∷◌, ◌++◌, some, ltb, Bool-cases,
  Option,
}
use bitcoin_client.Prelude.HashMap.{get}
use bitcoin_client.Types.Hash.{H256, h256_eq}
use bitcoin_client.Types.Block.{Header, Block}
use bitcoin_client.Types.Crypto.{Crypto}
use bitcoin_client.Blockchain.Chain.{all_blocks_in_longest_chain-IsPath}
use bitcoin_client.Network.Worker.Safe.{IsStored}
use bitcoin_client.Api.{listing}
use bitcoin_client.Threads.{Shared}
use bitcoin_client.Threads.Others.{
  state_loop_program, state_program, tx_loop_program, chain_txs_program, Request, state_request,
  txs_request, chain_request, request_program,
}
use bitcoin_client.Threads.Calm.{IsCalm, Later, IsStored-Later, Calm, Calm-bind, unchanged}
use bitcoin_client.Threads.Turns.{Any, IsCalmThread}

-- A block of the header and the height is stored under the hash.
abbrev pub IsAt : Shared → H256 → Block → ℕ → Type 0
IsAt s k block height =
    (e : Block × ℕ) × (get s.node.blockchain.blocks k ≡ some e)
    × (e.0.head ≡ block.head)
    × (e.1 ≡ height)

IsAt-Later :
    {s s' : Shared} (k : H256) (block : Block) (height : ℕ)
    → Later s s'
    → IsAt s k block height
    → IsAt s' k block height
IsAt-Later k block height l (e, found, head, level) =
    let (e', found', head', level') = l.blocks k e found in
    (e', found', head' ∙ head, level' ∙ level)

-- Below a height above 0 a block of the height before it is stored under the hash.
abbrev pub IsBelow : Shared → ℕ → H256 → Type 0
IsBelow s zero k = Unit
IsBelow s (suc height) k = (p : Block) × (get s.node.blockchain.blocks k ≡ some (p, height))

IsBelow-Later :
    {s s' : Shared} (height : ℕ) (k : H256) → Later s s' → IsBelow s height k → IsBelow s' height k
IsBelow-Later zero k l b = tt
IsBelow-Later (suc height) k l (p, found) =
    let (e', found', _, level) = l.blocks k (p, height) found in
    (e'.0, found' ∙ ap (λ (n : ℕ). some (e'.0, n)) level)

module _ (c : Crypto) (Seen : Header → Type 0) where
  -- The parent of a block of a height above 0 is stored, one below it.
  parent_at :
      (s : Shared) (w : IsCalm c Seen s) (k : H256) (block : Block) (height : ℕ)
      → IsAt s k block (suc height)
      → (p : Block) × (get s.node.blockchain.blocks block.head.parent ≡ some (p, height))
  parent_at s w k block height (e, found, head, level) =
      let at_k : ◌≡◌ {A = Option (Block × ℕ)} (get s.node.blockchain.blocks k)
          (some (e.0, suc height)) =
        found ∙ ap (λ (n : ℕ). some (e.0, n)) level in
      let (p, stored) = w.safe.chain.linked k e.0 height at_k in
      (p, ap (λ (x : Header). get s.node.blockchain.blocks x.parent) (sym head) ∙ stored)

  state_loop_program-Calm :
      (block_index height : ℕ) (k : H256) (block : Block) (s : Shared)
      → IsAt s k block height
      → Calm c Seen
          (λ s' h. IsStored s'.node.blockchain.blocks h)
          s
          (state_loop_program block_index height k block)
  unfolding state_loop_program
  state_loop_program-Calm block_index zero k block s (e, found, _, _) =
      λ s' l. IsStored-Later k l (e, found)
  state_loop_program-Calm block_index (suc height) k block s a =
      elim (Bool-cases (ltb block_index (suc height))) [
        | inr low ↦ rw low (λ s' l. IsStored-Later k l (a.0, a.1))
        | inl high ↦ rw high (λ s' l w room ok.
            let (p, found) = parent_at s' w k block height (IsAt-Later k block (suc height) l a) in
            rw found (
              unchanged s' w,
              state_loop_program-Calm block_index height block.head.parent p s'
                  ((p, height), found, refl, refl),
            ))
      ]

  state_program-Calm :
      (s : Shared) (block_index : ℕ) → Calm c Seen Any s (state_program block_index)
  unfolding state_program
  state_program-Calm s block_index = λ s' l w room ok. (
    unchanged s' w,
    λ s'' l' w' room' ok.
        let tip = s'.node.blockchain.tip in
        let (e, found) = IsStored-Later tip l' (_, w.safe.chain.tip_stored) in
        rw found (
          unchanged s'' w',
          Calm-bind c Seen (λ s3 h. IsStored s3.node.blockchain.blocks h) Any s''
              (state_loop_program block_index e.1 tip e.0) _
              (state_loop_program-Calm block_index e.1 tip e.0 s'' (e, found, refl, refl))
              (λ s3 next_hash l3 stored s4 l4 w4 room4 ok.
                let (e4, found4) = IsStored-Later next_hash l4 stored in
                let (st, state) = w4.safe.stated next_hash e4 found4 in
                rw state (unchanged s4 w4, λ s5 l5. tt)),
        ),
  )

  parent-IsBelow :
      (s : Shared) (w : IsCalm c Seen s) (k : H256) (block : Block) (height : ℕ)
      → get s.node.blockchain.blocks k ≡ some (block, height)
      → IsBelow s height block.head.parent
  parent-IsBelow s w k block zero found = tt
  parent-IsBelow s w k block (suc height) found = w.safe.chain.linked k block height found

  tx_loop_program-Calm :
      (height : ℕ) (next_hash : H256) (hashes_string : List (List (List ℕ))) (s : Shared)
      → IsBelow s height next_hash
      → Calm c Seen Any s (tx_loop_program c height next_hash hashes_string)
  unfolding tx_loop_program
  tx_loop_program-Calm zero next_hash hashes_string s b = λ s' l. tt
  tx_loop_program-Calm (suc height) next_hash hashes_string s b = λ s' l w room ok.
      let (p, found) = IsBelow-Later (suc height) next_hash l b in
      rw found (
        unchanged s' w,
        tx_loop_program-Calm height p.head.parent (hashes_string ++ listing c p ∷ []) s'
            (parent-IsBelow s' w next_hash p height found),
      )

  chain_txs_program-Calm : (s : Shared) → Calm c Seen Any s (chain_txs_program c)
  unfolding chain_txs_program
  chain_txs_program-Calm s = λ s' l w room ok. (
    unchanged s' w,
    λ s'' l' w' room' ok.
        let tip = s'.node.blockchain.tip in
        let (e, found) = IsStored-Later tip l' (_, w.safe.chain.tip_stored) in
        rw found (
          unchanged s'' w',
          Calm-bind c Seen Any Any s'' (tx_loop_program c e.1 e.0.head.parent (listing c e.0 ∷ []))
              _
              (tx_loop_program-Calm e.1 e.0.head.parent (listing c e.0 ∷ []) s''
                (parent-IsBelow s'' w' tip e.0 e.1 found))
              (λ s3 hs l3 q s4 l4. tt),
        ),
  )

  -- A request to a route that reads the blockchain keeps what it owes.
  pub request_program-Calm :
      (s : Shared) (request : Request) → IsCalmThread c Seen s (request_program c request)
  unfolding request_program
  request_program-Calm s (state_request block_index) =
      Calm-bind c Seen Any Any s (state_program block_index) _ (state_program-Calm s block_index)
        (λ s' st l q s'' l'. tt)
  request_program-Calm s chain_request = λ s' l w room ok.
      let (hashes, found, path) =
        all_blocks_in_longest_chain-IsPath c s'.node.blockchain w.safe.chain in
      rw found (unchanged s' w, λ s'' l'. tt)
  request_program-Calm s txs_request =
      Calm-bind c Seen Any Any s (chain_txs_program c) _ (chain_txs_program-Calm s)
        (λ s' hs l q s'' l'. tt)
