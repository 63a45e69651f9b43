-- ===== src/Threads/Adding.antt =====
-- The programs that add blocks keep what they owe.
use bitcoin_client.Prelude.{
  ℕ, ◌+◌, ◌≤◌, ◌≡◌, ◌⊎◌, refl, sym, ◌∙◌, inl, inr, Bool, true, false, List, [], ◌∷◌, ◌++◌, Option,
  none, some, ◌==◌, All, All-append, All-imp, length, length-append, if◌then◌else◌, Bool-cases,
  arith,
}
use bitcoin_client.Prelude.HashMap.{get, get-insert_self}
use bitcoin_client.Types.Hash.{H256, h256_eq}
use bitcoin_client.Types.Block.{Header, Block}
use bitcoin_client.Types.Transaction.{SignedTransaction, State}
use bitcoin_client.Types.Crypto.{Crypto, hash}
use bitcoin_client.Blockchain.{genesis_difficulty}
use bitcoin_client.Ledger.{check_txs}
use bitcoin_client.Network.Worker.Safe.{IsCollisionFree, IsStored, IsWorked}
use bitcoin_client.Threads.{Shared, done, bind}
use bitcoin_client.Threads.Worker.{
  Vars, conclude_program, check_program, insert_program, add_program, connect_program,
}
use bitcoin_client.Threads.Calm.{Later, IsStored-Later, Calm, Calm-bind, unchanged}
use bitcoin_client.Threads.Owed.{write_state, write_chain}

-- There is a state under the hash.
abbrev pub HasState : Shared → H256 → Type 0
HasState s h = (st : State) × (get s.node.block_state h ≡ some st)

pub HasState-Later : {s s' : Shared} (h : H256) → Later s s' → HasState s h → HasState s' h
HasState-Later h l (st, found) = l.states h st found

module _ (c : Crypto) (Seen : Header → Type 0) where
  conclude_program-Calm :
      (s : Shared) (h : H256) (after : Option State)
      → Calm c Seen (λ s' passed. passed ≡ true → HasState s' h) s (conclude_program h after)
  unfolding conclude_program
  conclude_program-Calm s h none = λ s' l p. cc
  conclude_program-Calm s h (some st) = λ s' l w room ok. (
    write_state s' w h st,
    λ s'' l' p. HasState-Later h l' (st, get-insert_self s'.node.block_state h st),
  )

  -- The check of a block whose parent is stored; if it passes, the block has a state.
  pub check_program-Calm :
      (s : Shared) (parent : H256) (txs : List SignedTransaction) (h : H256)
      → IsStored s.node.blockchain.blocks parent
      → Calm c Seen (λ s' passed. passed ≡ true → HasState s' h) s (check_program c parent txs h)
  unfolding check_program
  check_program-Calm s parent txs h stored = λ s' l w room ok.
      let (e, found) = IsStored-Later parent l stored in
      let (st, state) = w.safe.stated parent e found in
      rw state (unchanged s' w, conclude_program-Calm s' h (check_txs c st txs))

-- The worker's orphans have their proofs of work, and its new blocks are stored.
pub record IsVars (c : Crypto) (Seen : Header → Type 0) (s : Shared) (v : Vars) : Type 0 where
  pub worked : All (IsWorked c Seen) v.orphan_blocks
  pub stored : All (IsStored s.node.blockchain.blocks) v.new_blocks

abbrev pub weight : Vars → ℕ
weight v = length v.new_blocks + length v.orphan_blocks

-- After an attempt to connect a block: it is stored, and last among the new ones, or nothing has
-- changed.
abbrev pub IsTried : Crypto → Vars → Block → Shared → Vars → Type 0
IsTried c v block s t =
    (t ≡ v)
    ⊎ ((t ≡ record v { new_blocks = v.new_blocks ++ hash c block ∷ [] })
        × IsStored s.node.blockchain.blocks (hash c block))

module _ (c : Crypto) (Seen : Header → Type 0) where
  pub IsVars-Later :
      {s s' : Shared} (v : Vars) → Later s s' → IsVars c Seen s v → IsVars c Seen s' v
  IsVars-Later v l i = record {
    worked = i.worked;
    stored = All-imp (λ k. IsStored-Later k l) v.new_blocks i.stored;
  }

  pub tried-IsVars :
      (s : Shared) (v : Vars) (block : Block) (t : Vars)
      → IsVars c Seen s v
      → IsTried c v block s t
      → IsVars c Seen s t
        × (t.n ≡ v.n)
        × (t.orphan_blocks ≡ v.orphan_blocks)
        × (weight t ≤ weight v + 1)
  tried-IsVars s v block t i (inl same) = rw same (i, refl, refl, omega arith)
  tried-IsVars s v block t i (inr (more, stored)) = rw more (
    record {
      worked = i.worked;
      stored = All-append _ v.new_blocks (hash c block ∷ []) i.stored (stored, tt);
    },
    refl,
    refl,
    omega (arith, length-append v.new_blocks (hash c block ∷ [])),
  )

module _ (c : Crypto) (Seen : Header → Type 0) (free : IsCollisionFree c Seen) where
  pub insert_program-Calm :
      (s : Shared) (block : Block)
      → IsWorked c Seen block
      → IsStored s.node.blockchain.blocks block.head.parent
      → block.head.difficulty ≡ genesis_difficulty
      → HasState s (hash c block)
      → Calm c Seen
          (λ s' _. IsStored s'.node.blockchain.blocks (hash c block))
          s
          (insert_program c block)
  unfolding insert_program
  insert_program-Calm s block a parent same own = λ s' l w room ok.
      let (e, found) = IsStored-Later block.head.parent l parent in
      let (st, state) = HasState-Later (hash c block) l own in
      let r =
        write_chain free s' w block a e.0 e.1 found
          (same ∙ sym (w.safe.fixed_difficulty block.head.parent e found)) st state room in
      rw r.returns (r.owed, λ s'' l'. IsStored-Later (hash c block) l' r.stored)

  add_program-Calm :
      (s : Shared) (v : Vars) (block : Block)
      → IsWorked c Seen block
      → IsStored s.node.blockchain.blocks block.head.parent
      → block.head.difficulty ≡ genesis_difficulty
      → Calm c Seen (IsTried c v block) s (add_program c v block)
  unfolding add_program
  add_program-Calm s v block a parent same =
      Calm-bind c Seen _ (IsTried c v block) s
        (check_program c block.head.parent block.cont.st (hash c block)) _
        (check_program-Calm c Seen s block.head.parent block.cont.st (hash c block) parent) (finish)
    where
      finish :
          (s' : Shared) (passed : Bool)
          → Later s s'
          → (passed ≡ true → HasState s' (hash c block))
          → Calm c Seen (IsTried c v block) s' (
              if passed
              then bind
                  (insert_program c block)
                  (λ _. done (record v { new_blocks = v.new_blocks ++ hash c block ∷ [] }))
              else done v)
      finish s' false l own = λ s'' l'. inl refl
      finish s' true l own =
          Calm-bind c Seen _ (IsTried c v block) s' (insert_program c block) _
            (insert_program-Calm s' block a (IsStored-Later block.head.parent l parent) same
              (own refl))
            (λ s'' u l' stored s3 l3. inr (refl, IsStored-Later (hash c block) l3 stored))

  pub connect_program-Calm :
      (s : Shared) (v : Vars) (block : Block)
      → IsWorked c Seen block
      → IsStored s.node.blockchain.blocks block.head.parent
      → Calm c Seen (IsTried c v block) s (connect_program c v block.head.parent block)
  unfolding connect_program
  connect_program-Calm s v block a parent = λ s' l w room ok.
      let (e, found) = IsStored-Later block.head.parent l parent in
      (
        unchanged s' w,
        rw found (elim (Bool-cases (block.head.difficulty == e.0.head.difficulty)) [
          | inl same ↦ rw same (
              add_program-Calm s' v block a (e, found)
                ((h256_eq.same_iff _ _).0 same ∙ w.safe.fixed_difficulty block.head.parent e found))
          | inr other ↦ rw other (λ s'' l'. inl refl)
        ]),
      )
