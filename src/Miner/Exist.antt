-- ===== src/Miner/Exist.antt =====
-- `tx_exist_check` of src/miner/mod.rs, against the list of the longest chain.
use mathlib.Core.Path.{subst}
use mathlib.Core.List.{append-nil, append_assoc, reverse-append, reverse-reverse}
use bitcoin_client.Prelude.{
  ℕ, zero, suc, ◌≡◌, ◌≢◌, ◌↔◌, inl, inr, refl, sym, ap, ◌∙◌, Bool, true, false, List, [], ◌∷◌, ◌++◌,
  reverse, some, ◌>>=◌, ◌==◌, All, All-append, Bool-cases,
}
use bitcoin_client.Prelude.HashMap.{HashMap, get}
use bitcoin_client.Types.Hash.{H256, h256_eq}
use bitcoin_client.Types.Block.{Block}
use bitcoin_client.Types.Transaction.{SignedTransaction}
use bitcoin_client.Types.Crypto.{Crypto, hash_signed}
use bitcoin_client.Blockchain.{Blockchain, walk, all_blocks_in_longest_chain}
use bitcoin_client.Blockchain.Invariant.{IsValid}
use bitcoin_client.Miner.{absent, exist_loop, tx_exist_check}

All-reverse : {A : Type 0} (P : A → Type 0) (xs : List A) → All P xs → All P (reverse xs)
All-reverse P [] a = tt
All-reverse P (x ∷ xs) a =
    rw (reverse-append (x ∷ []) xs)
      (All-append P (reverse xs) (x ∷ []) (All-reverse P xs a.1) (a.0, tt))

-- No transaction of the stored block has the hash.
abbrev pub Lacks : Crypto → HashMap H256 (Block × ℕ) → H256 → H256 → Type 0
Lacks c blocks tx k =
    (e : Block × ℕ) → get blocks k ≡ some e → All (λ t. tx ≢ hash_signed c t) e.0.cont.st

module _ (c : Crypto) (tx : H256) where
  absent_iff :
      (st : List SignedTransaction) → (absent c tx st ≡ true) ↔ All (λ t. tx ≢ hash_signed c t) st
  unfolding absent
  absent_iff [] = (λ h. tt, λ h. refl)
  absent_iff (t ∷ st) = elim (Bool-cases (tx == hash_signed c t)) [
    | inl same ↦
        (λ h. cc (rw same at h), λ a. absurd (a.0 ((h256_eq.same_iff tx (hash_signed c t)).0 same)))
    | inr other ↦ (
      λ h. (
        λ q. cc ((h256_eq.same_iff tx (hash_signed c t)).1 q),
        (absent_iff st).0 (rw other at h),
      ),
      λ a. rw other ((absent_iff st).1 a.1),
    )
  ]

  Lacks-iff :
      (blocks : HashMap H256 (Block × ℕ)) (k : H256) (e : Block × ℕ)
      → get blocks k ≡ some e
      → (absent c tx e.0.cont.st ≡ true) ↔ Lacks c blocks tx k
  Lacks-iff blocks k e h = (
    λ a f g.
        let same : e ≡ f = cc in
        subst (λ (x : Block × ℕ). All (λ t. tx ≢ hash_signed c t) x.0.cont.st) same
          ((absent_iff e.0.cont.st).0 a),
    λ l. (absent_iff e.0.cont.st).1 (l e h),
  )

  module _ (chain : Blockchain) (w : IsValid c chain) where
    exist_loop_total :
        (k : H256) (h : ℕ) (b : Block)
        → get chain.blocks k ≡ some (b, h)
        → (r : Bool) × (exist_loop c chain.blocks tx h b.head.parent ≡ some r)
          × (below : List H256) × ((hashes : List H256)
              → walk chain.blocks h b.head.parent hashes ≡ some (hashes ++ below))
          × ((r ≡ true) ↔ All (Lacks c chain.blocks tx) below)
    unfolding exist_loop walk
    exist_loop_total k zero b e =
        (true, refl, [], λ hashes. ap some (sym (append-nil hashes)), (λ _. tt, λ _. refl))
    exist_loop_total k (suc h) b e =
        let (p, stored) = w.linked k b h e in
        let parent = b.head.parent in
        let (r, run, below, walked, iff) = exist_loop_total parent h p stored in
        let walked' : (hashes : List H256)
            → walk chain.blocks (suc h) parent hashes ≡ some (hashes ++ parent ∷ below) =
          λ hashes.
            rw (stored, walk, ◌>>=◌)
              (walked (hashes ++ parent ∷ [])
                ∙ ap some (append_assoc hashes (parent ∷ []) below)) in
        let here = Lacks-iff chain.blocks parent (p, h) stored in
        elim (Bool-cases (absent c tx p.cont.st)) [
          | inl lacks ↦ (
            r,
            rw (stored, ◌>>=◌, lacks) run,
            parent ∷ below,
            walked',
            (λ t. (here.0 lacks, iff.0 t), λ a. iff.1 a.1),
          )
          | inr has ↦ (
            false,
            rw (stored, ◌>>=◌, has),
            parent ∷ below,
            walked',
            (λ t. cc, λ a. cc (here.1 a.0)),
          )
        ]

    -- In a valid blockchain `tx_exist_check` returns, and its result is `true` exactly if no block
    -- of the list that `all_blocks_in_longest_chain` returns has a transaction of the given hash.
    pub tx_exist_check_iff :
        (r : Bool) × (hashes : List H256) × (tx_exist_check c chain tx ≡ some r)
        × (all_blocks_in_longest_chain chain ≡ some hashes)
        × ((r ≡ true) ↔ All (Lacks c chain.blocks tx) hashes)
    unfolding tx_exist_check all_blocks_in_longest_chain
    tx_exist_check_iff =
        let (r, run, below, walked, iff) =
          exist_loop_total chain.tip w.top w.tip_block w.tip_stored in
        let hashes = reverse (chain.tip ∷ below) in
        let listed : all_blocks_in_longest_chain chain ≡ some hashes =
          rw (w.tip_stored, ◌>>=◌, walked (chain.tip ∷ []), ◌>>=◌) in
        let here = Lacks-iff chain.blocks chain.tip (w.tip_block, w.top) w.tip_stored in
        let P = Lacks c chain.blocks tx in
        let back : All P hashes → All P (chain.tip ∷ below) =
          λ a. rw reverse-reverse at (All-reverse P hashes a) in
        elim (Bool-cases (absent c tx w.tip_block.cont.st)) [
          | inl lacks ↦ (
            r,
            hashes,
            rw (w.tip_stored, ◌>>=◌, lacks) run,
            listed,
            (λ t. All-reverse P (chain.tip ∷ below) (here.0 lacks, iff.0 t), λ a. iff.1 (back a).1),
          )
          | inr has ↦ (
            false,
            hashes,
            rw (w.tip_stored, ◌>>=◌, has),
            listed,
            (λ t. cc, λ a. cc (here.1 (back a).0)),
          )
        ]
