-- ===== src/Blockchain/Invariant.antt =====
-- What holds of a blockchain between two calls.
use bitcoin_client.Prelude.{
  ℕ, zero, suc, ◌+◌, ◌≤◌, ◌<◌, ◌≡◌, ◌≢◌, ◌↔◌, Option-cases, refl, sym, ap, ◌∙◌, inl, inr, [],
  Option, none, some, ◌>>=◌, ltb, if◌then◌else◌, u32, u32_mod, arith, ◌==◌, Bool-cases,
}
use bitcoin_client.Prelude.HashMap
use bitcoin_client.Prelude.HashMap.{
  HashMap, get, get-insert, get-insert_cases, get-insert_self, get-insert_ne, get-insert_nil,
}
use bitcoin_client.Types.Hash.{H256, h256_eq}
use bitcoin_client.Types.Block.{Header, Block}
use bitcoin_client.Types.Crypto.{Crypto, hash}
use bitcoin_client.Blockchain.{Blockchain, genesis, genesis_hash, new, extend, insert}

-- Each block is stored under its hash, one above its parent; the genesis block alone has height
-- 0; no block is higher than the tip.
pub record IsValid (c : Crypto) (chain : Blockchain) : Type 0 where
  pub top : ℕ
  pub tip_block : Block
  pub tip_stored : get chain.blocks chain.tip ≡ some (tip_block, top)
  pub keyed : (k : H256) (b : Block) (h : ℕ) → get chain.blocks k ≡ some (b, h) → hash c b ≡ k
  pub linked :
      (k : H256) (b : Block) (h : ℕ)
      → get chain.blocks k ≡ some (b, suc h)
      → (p : Block) × (get chain.blocks b.head.parent ≡ some (p, h))
  pub rooted : (k : H256) (b : Block) → get chain.blocks k ≡ some (b, 0) → k ≡ genesis_hash c
  pub genesis_stored : get chain.blocks (genesis_hash c) ≡ some (genesis, 0)
  pub highest : (k : H256) (b : Block) (h : ℕ) → get chain.blocks k ≡ some (b, h) → h ≤ top

-- The stored blocks of the block's hash, if any, have its header.
abbrev pub NoClash : Crypto → Blockchain → Block → Type 0
NoClash c chain block =
    (b : Block) (h : ℕ) → get chain.blocks (hash c block) ≡ some (b, h) → b.head ≡ block.head

-- A blockchain with the genesis block alone is valid, of height 0.
pub new-IsValid : (c : Crypto) → (w : IsValid c (new c)) × (w.top ≡ 0)
unfolding new genesis_hash
new-IsValid c = (
  record {
    top = 0;
    tip_block = genesis;
    tip_stored = get-insert_self [] (hash c genesis) (genesis, 0);
    keyed = λ k b h e.
        let (at_k, same) = get-insert_nil (hash c genesis) (genesis, 0) k e in
        ap (λ (t : Block × ℕ). hash c t.0) (sym same) ∙ at_k;
    linked = λ k b h e.
        let (at_k, same) = get-insert_nil (hash c genesis) (genesis, 0) k e in
        let level : 0 ≡ suc h = ap (λ (t : Block × ℕ). t.1) same in absurd (omega arith);
    rooted = λ k b e. sym (get-insert_nil (hash c genesis) (genesis, 0) k e).0;
    genesis_stored = get-insert_self [] (hash c genesis) (genesis, 0);
    highest = λ k b h e.
        let (at_k, same) = get-insert_nil (hash c genesis) (genesis, 0) k e in
        let level : 0 ≡ h = ap (λ (t : Block × ℕ). t.1) same in omega arith;
  },
  refl,
)

module _ {c : Crypto} {chain : Blockchain} (w : IsValid c chain) (block p : Block) (ph : ℕ)
    (parent : get chain.blocks block.head.parent ≡ some (p, ph))
    (other : hash c block ≢ genesis_hash c) (clash : NoClash c chain block) where
  abbrev after : HashMap H256 (Block × ℕ)
  after = HashMap.insert chain.blocks (hash c block) (block, suc ph)

  -- A block that is stored again is stored at the height that it has.
  same_height : (b : Block) (h : ℕ) → get chain.blocks (hash c block) ≡ some (b, h) → h ≡ suc ph
  same_height b zero e = absurd (other (w.rooted (hash c block) b e))
  same_height b (suc h) e =
      let (q, eq) = w.linked (hash c block) b h e in
      let up : get chain.blocks block.head.parent ≡ some (q, h) =
        ap (get chain.blocks) (ap (λ (x : Header). x.parent) (sym (clash b (suc h) e))) ∙ eq in
      let both : ◌≡◌ {A = Option (Block × ℕ)} (some (p, ph)) (some (q, h)) = sym parent ∙ up in
      let level : ph ≡ h = cc in omega arith

  -- A stored block is stored at the same height afterwards.
  kept :
      (k : H256) (b : Block) (h : ℕ)
      → get chain.blocks k ≡ some (b, h)
      → (b' : Block) × (get after k ≡ some (b', h))
  kept k b h e = elim (Bool-cases (hash c block == k)) [
    | inl at_k ↦
        let same = (h256_eq.same_iff (hash c block) k).0 at_k in
        let level = same_height b h (rw (← same) at e) in
        (block, rw (get-insert chain.blocks _ _ k, at_k) (ap (λ t. some (block, t)) (sym level)))
    | inr away ↦ (b, rw (get-insert chain.blocks _ _ k, away) e)
  ]

  after-keyed : (k : H256) (b : Block) (h : ℕ) → get after k ≡ some (b, h) → hash c b ≡ k
  after-keyed k b h e = elim (get-insert_cases chain.blocks _ _ k e) [
    | inl s ↦ ap (λ (t : Block × ℕ). hash c t.0) (sym s.1) ∙ s.0
    | inr o ↦ w.keyed k b h o.1
  ]

  after-linked :
      (k : H256) (b : Block) (h : ℕ)
      → get after k ≡ some (b, suc h)
      → (q : Block) × (get after b.head.parent ≡ some (q, h))
  after-linked k b h e = elim (get-insert_cases chain.blocks _ _ k e) [
    | inl s ↦
        let same_block : block ≡ b = ap (λ (t : Block × ℕ). t.0) s.1 in
        let level : suc ph ≡ suc h = ap (λ (t : Block × ℕ). t.1) s.1 in
        let level' : ph ≡ h = omega arith in
        kept b.head.parent p h (rw (same_block, level') at parent)
    | inr o ↦ let (q, eq) = w.linked k b h o.1 in kept b.head.parent q h eq
  ]

  after-rooted : (k : H256) (b : Block) → get after k ≡ some (b, 0) → k ≡ genesis_hash c
  after-rooted k b e = elim (get-insert_cases chain.blocks _ _ k e) [
    | inl s ↦ let level : suc ph ≡ 0 = ap (λ (t : Block × ℕ). t.1) s.1 in absurd (omega arith)
    | inr o ↦ w.rooted k b o.1
  ]

  after-genesis : get after (genesis_hash c) ≡ some (genesis, 0)
  after-genesis = get-insert_ne chain.blocks _ _ (genesis_hash c) other ∙ w.genesis_stored

  after-highest :
      (top : ℕ)
      → w.top ≤ top
      → suc ph ≤ top
      → (k : H256) (b : Block) (h : ℕ) → get after k ≡ some (b, h)
      → h ≤ top
  after-highest top hw hp k b h e = elim (get-insert_cases chain.blocks _ _ k e) [
    | inl s ↦ let level : suc ph ≡ h = ap (λ (t : Block × ℕ). t.1) s.1 in omega arith
    | inr o ↦ omega (arith, w.highest k b h o.1)
  ]

  -- The tip of the extended chain moves to the block exactly when that is higher.
  extend-IsValid :
      (v : IsValid c (extend c chain block (suc ph) w.top)) × (v.top
        ≡ (if ltb w.top (suc ph) then suc ph else w.top))
  unfolding extend
  extend-IsValid = elim (Bool-cases (ltb w.top (suc ph))) [
    | inl higher ↦ rw higher (
      record {
        top = suc ph;
        tip_block = block;
        tip_stored = get-insert_self chain.blocks (hash c block) (block, suc ph);
        keyed = after-keyed;
        linked = after-linked;
        rooted = after-rooted;
        genesis_stored = after-genesis;
        highest = after-highest (suc ph) (ground arith) (omega arith);
      },
      refl,
    )
    | inr lower ↦ rw lower (
        let (tip_block, stored) = kept chain.tip w.tip_block w.top w.tip_stored in
        (
          record {
            top = w.top;
            tip_block = tip_block;
            tip_stored = stored;
            keyed = after-keyed;
            linked = after-linked;
            rooted = after-rooted;
            genesis_stored = after-genesis;
            highest = after-highest w.top (omega arith) (ground arith);
          },
          refl,
        ))
  ]

insert-eq :
    {c : Crypto} {chain : Blockchain} (w : IsValid c chain) (block p : Block) (ph : ℕ)
    → get chain.blocks block.head.parent ≡ some (p, ph)
    → w.top + 1 < u32_mod
    → insert c chain block ≡ some (extend c chain block (suc ph) w.top)
unfolding insert
insert-eq {c} {chain} w block p ph parent room =
    let low = w.highest block.head.parent p ph parent in
    let fits : u32 (ph + 1) ≡ suc ph = omega arith in
    rw (parent, w.tip_stored, ◌>>=◌) (ap (λ t. some (extend c chain block t w.top)) fits)

-- The blockchain after a block was inserted on a stored parent.
pub record Inserted (c : Crypto) (chain : Blockchain) (top : ℕ) (block : Block) (ph : ℕ)
    : Type 0 where
  pub chain' : Blockchain
  pub returns : insert c chain block ≡ some chain'
  pub valid : IsValid c chain'
  pub new_top : valid.top ≡ (if ltb top (suc ph) then suc ph else top)
  pub new_tip : chain'.tip ≡ (if ltb top (suc ph) then hash c block else chain.tip)
  pub stored : get chain'.blocks (hash c block) ≡ some (block, suc ph)
  pub others : (k : H256) → hash c block ≢ k → get chain'.blocks k ≡ get chain.blocks k
  pub again : (b : Block) (h : ℕ) → get chain.blocks (hash c block) ≡ some (b, h) → h ≡ suc ph

-- Inserting a block other than the genesis block on a stored parent, in a valid blockchain whose
-- height has room in a `u32` and where no block of another header has the block's hash: the
-- blockchain stays valid; the block is stored, one above its parent and, where its hash was stored
-- before, at the height it had, and every other entry is left alone; the tip moves to the block if it is strictly higher than the tip, and stays if not.
pub insert-IsValid :
    {c : Crypto} {chain : Blockchain} (w : IsValid c chain) (block p : Block) (ph : ℕ)
    → get chain.blocks block.head.parent ≡ some (p, ph)
    → hash c block ≢ genesis_hash c
    → NoClash c chain block
    → w.top + 1 < u32_mod
    → Inserted c chain w.top block ph
unfolding extend
insert-IsValid {c} {chain} w block p ph parent other clash room =
    let (valid, top) = extend-IsValid w block p ph parent other clash in
    record {
      chain' = extend c chain block (suc ph) w.top;
      returns = insert-eq w block p ph parent room;
      valid = valid;
      new_top = top;
      new_tip = refl;
      stored = get-insert_self chain.blocks (hash c block) (block, suc ph);
      others = λ k. get-insert_ne chain.blocks (hash c block) (block, suc ph) k;
      again = same_height w block p ph parent other clash;
    }

-- In a valid blockchain, `insert` panics exactly when the parent of the block is not stored.
pub insert_panics :
    {c : Crypto} {chain : Blockchain}
    → IsValid c chain
    → (block : Block) → (insert c chain block ≡ none) ↔ (get chain.blocks block.head.parent ≡ none)
unfolding insert
insert_panics {c} {chain} w block = elim (Option-cases (get chain.blocks block.head.parent)) [
  | inl missing ↦ (λ _. missing, λ _. rw missing)
  | inr (entry, stored) ↦ (λ h. cc (rw (stored, w.tip_stored, ◌>>=◌) at h), λ h. cc)
]
