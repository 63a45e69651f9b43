-- ===== src/Network/Worker/Connect.antt =====
-- Connecting a worked block whose parent is stored keeps the node safe.
use mathlib.Core.Path.{subst}
use bitcoin_client.Prelude.{
  ℕ, suc, ◌+◌, ◌≤◌, ◌<◌, ◌≡◌, ◌≢◌, ◌⊎◌, inl, inr, refl, sym, ap, ◌∙◌, true, [], ◌∷◌, ◌++◌, Option,
  none, some, ◌>>=◌, ◌==◌, All, All-append, All-imp, Bool-cases, Option-cases, u32_mod, arith,
}
use bitcoin_client.Prelude.HashMap.{HashMap, get, insert, get-insert, get-insert_self}
use bitcoin_client.Types.Hash.{H256, h256_eq, le}
use bitcoin_client.Types.Block.{Header, Block}
use bitcoin_client.Types.Transaction.{State}
use bitcoin_client.Types.Crypto.{Crypto, hash}
use bitcoin_client.Blockchain
use bitcoin_client.Blockchain.{Blockchain, genesis_hash}
use bitcoin_client.Blockchain.Invariant.{Inserted, insert-IsValid, NoClash}
use bitcoin_client.Ledger.{check_txs, check_tx_state, conclude}
use bitcoin_client.Network.Worker.{Loop, add_checked, connect_block}
use bitcoin_client.Network.Worker.Safe.{IsCollisionFree, IsStored, IsSafe, IsWorked}

-- What one attempt to connect a block leaves: the block is inserted, its hash last among the new
-- ones, or nothing is changed.
pub record Connected (c : Crypto) (Seen : Header → Type 0) (s : Loop) (top : ℕ) (block : Block)
    (t : Loop) : Type 0 where
  pub safe : IsSafe c Seen t.node
  pub top_le : safe.chain.top ≤ top + 1
  pub orphans : t.orphan_blocks ≡ s.orphan_blocks
  pub counter : t.n ≡ s.n
  pub news : (t.new_blocks ≡ s.new_blocks) ⊎ (t.new_blocks ≡ s.new_blocks ++ hash c block ∷ [])
  pub kept : (k : H256) → IsStored s.node.blockchain.blocks k → IsStored t.node.blockchain.blocks k
  pub added :
      (k : H256)
      → IsStored t.node.blockchain.blocks k
      → IsStored s.node.blockchain.blocks k
        ⊎ ((t.new_blocks ≡ s.new_blocks ++ hash c block ∷ []) × (hash c block ≡ k))
  pub news_stored :
      All (IsStored s.node.blockchain.blocks) s.new_blocks
      → All (IsStored t.node.blockchain.blocks) t.new_blocks

-- No state is lost where one is written.
pub keeps-insert :
    (states : HashMap H256 State) (h : H256) (after : State) (k : H256) (st : State)
    → get states k ≡ some st
    → (st' : State) × (get (insert states h after) k ≡ some st')
keeps-insert states h after k st found = elim (Bool-cases (h == k)) [
  | inl same ↦ (after, rw (get-insert states h after k, same))
  | inr other ↦ (st, rw (get-insert states h after k, other) found)
]

module _ {c : Crypto} {Seen : Header → Type 0} (free : IsCollisionFree c Seen) (s : Loop)
    (w : IsSafe c Seen s.node) (block : Block) (a : IsWorked c Seen block) (p : Block) (ph : ℕ)
    (parent : get s.node.blockchain.blocks block.head.parent ≡ some (p, ph))
    (room : w.chain.top + 1 < u32_mod) where
  unchanged : Connected c Seen s w.chain.top block s
  unchanged = record {
    safe = w;
    top_le = omega arith;
    orphans = refl;
    counter = refl;
    news = inl refl;
    kept = λ k h. h;
    added = λ k h. inl h;
    news_stored = λ h. h;
  }

  pub clash : NoClash c s.node.blockchain block
  unfolding hash
  clash b h e =
      free b.head block.head (w.seen (hash c block) (b, h) e) a.seen
        (w.chain.keyed (hash c block) b h e)

  -- The states after the insertion: those before, and one for the block.
  module _ (i : Inserted c s.node.blockchain w.chain.top block ph) (states : HashMap H256 State)
      (covers : (k : H256) (st : State)
        → get s.node.block_state k ≡ some st
        → (st' : State) × (get states k ≡ some st'))
      (own : (st : State) × (get states (hash c block) ≡ some st))
      (same_difficulty : block.head.difficulty ≡ p.head.difficulty) where
    unfoldable pub grown : Loop
    grown = record s {
      node = record (s.node) { blockchain = i.chain'; block_state = states };
      new_blocks = s.new_blocks ++ hash c block ∷ [];
    }

    -- An entry of the new map is the block's, or an old one.
    entry_cases :
        (k : H256) (e : Block × ℕ)
        → get i.chain'.blocks k ≡ some e
        → ((hash c block ≡ k) × ((block, suc ph) ≡ e))
          ⊎ ((hash c block ≢ k) × (get s.node.blockchain.blocks k ≡ some e))
    entry_cases k e h = elim (Bool-cases (hash c block == k)) [
      | inl same ↦
          let at_k = (h256_eq.same_iff (hash c block) k).0 same in
          let both : ◌≡◌ {A = Option (Block × ℕ)} (some (block, suc ph)) (some e) =
            sym i.stored ∙ ap (get i.chain'.blocks) at_k ∙ h in
          inl (at_k, cc both)
      | inr other ↦
          let away : hash c block ≢ k = λ q. cc ((h256_eq.same_iff (hash c block) k).1 q) in
          inr (away, sym (i.others k away) ∙ h)
    ]

    kept-IsStored : (k : H256) → IsStored s.node.blockchain.blocks k → IsStored i.chain'.blocks k
    kept-IsStored k (e, h) = elim (Bool-cases (hash c block == k)) [
      | inl same ↦ (
        (block, suc ph),
        ap (get i.chain'.blocks) (sym ((h256_eq.same_iff (hash c block) k).0 same)) ∙ i.stored,
      )
      | inr other ↦ (e, i.others k (λ q. cc ((h256_eq.same_iff (hash c block) k).1 q)) ∙ h)
    ]

    grown-IsSafe : IsSafe c Seen grown.node
    unfolding grown
    grown-IsSafe = record {
      chain = i.valid;
      stated = λ k e h. elim (entry_cases k e h) [
        | inl (at_k, _) ↦ rw (← at_k) own
        | inr (away, old) ↦ let (st, found) = w.stated k e old in covers k st found
      ];
      seen = λ k e h. elim (entry_cases k e h) [
        | inl (_, same) ↦ subst (λ (t : Block × ℕ). Seen t.0.head) same a.seen
        | inr (_, old) ↦ w.seen k e old
      ];
      fixed_difficulty = λ k e h. elim (entry_cases k e h) [
        | inl (_, same) ↦
            ap (λ (t : Block × ℕ). t.0.head.difficulty) (sym same)
            ∙ same_difficulty
            ∙ w.fixed_difficulty block.head.parent (p, ph) parent
        | inr (_, old) ↦ w.fixed_difficulty k e old
      ];
      worked = λ k e h n. elim (entry_cases k e h) [
        | inl (at_k, same) ↦
            rw (← at_k) (
              subst (λ (t : Block × ℕ). le (hash c block) t.0.head.difficulty ≡ true) same a.worked)
        | inr (_, old) ↦ w.worked k e old n
      ];
    }

    pub grown-Connected : Connected c Seen s w.chain.top block grown
    unfolding grown grown-IsSafe
    grown-Connected = record {
      safe = grown-IsSafe;
      top_le = ground (arith, i.new_top, w.chain.highest block.head.parent p ph parent);
      orphans = refl;
      counter = refl;
      news = inr refl;
      kept = kept-IsStored;
      added = λ k (e, h). elim (entry_cases k e h) [
        | inl (at_k, _) ↦ inr (refl, at_k)
        | inr (_, old) ↦ inl (e, old)
      ];
      news_stored = λ h.
          All-append _ s.new_blocks (hash c block ∷ []) (All-imp kept-IsStored s.new_blocks h)
            (((block, suc ph), i.stored), tt);
    }

  -- The state of the parent is there; the check refuses the transactions, or the insertion that
  -- follows returns.
  pub checked_cases :
      block.head.difficulty ≡ p.head.difficulty
      → (state : State) × (get s.node.block_state block.head.parent ≡ some state)
        × ((check_txs c state block.cont.st ≡ none)
            ⊎ ((after : State) × (chain' : Blockchain) × (check_txs c state block.cont.st
                  ≡ some after)
                × (Blockchain.insert c s.node.blockchain block ≡ some chain')
                × Connected c Seen s w.chain.top block (record s {
                  node = record (s.node) {
                    blockchain = chain';
                    block_state = insert s.node.block_state (hash c block) after;
                  };
                  new_blocks = s.new_blocks ++ hash c block ∷ [];
                })))
  unfolding grown
  checked_cases same_difficulty =
      let (state, found) = w.stated block.head.parent (p, ph) parent in
      (
        state,
        found,
        elim (Option-cases (check_txs c state block.cont.st)) [
          | inl refused ↦ inl refused
          | inr (after, passed) ↦
              let i = insert-IsValid w.chain block p ph parent a.other clash room in
              inr (
                after,
                i.chain',
                passed,
                i.returns,
                grown-Connected i _ (keeps-insert s.node.block_state (hash c block) after)
                    (after, get-insert_self s.node.block_state (hash c block) after)
                    same_difficulty,
              )
        ],
      )

  add_checked_total :
      block.head.difficulty ≡ p.head.difficulty
      → (t : Loop) × (add_checked c s block ≡ some t) × Connected c Seen s w.chain.top block t
  unfolding add_checked check_tx_state conclude
  add_checked_total same_difficulty =
      let (state, found, cases) = checked_cases same_difficulty in
      elim cases [
        | inl refused ↦ (s, rw (found, refused, ◌>>=◌), unchanged)
        | inr (after, chain', passed, returns, d) ↦ (_, rw (found, passed, returns, ◌>>=◌), d)
      ]

  -- Connecting a worked block to its stored parent does not panic, and keeps the node safe.
  pub connect_block_total :
      (t : Loop) × (connect_block c s block.head.parent block ≡ some t)
      × Connected c Seen s w.chain.top block t
  unfolding connect_block
  connect_block_total = elim (Bool-cases (block.head.difficulty == p.head.difficulty)) [
    | inl same ↦
        let (t, e, d) = add_checked_total ((h256_eq.same_iff _ _).0 same) in
        (t, rw (parent, same, ◌>>=◌) e, d)
    | inr other ↦ (s, rw (parent, other, ◌>>=◌), unchanged)
  ]
