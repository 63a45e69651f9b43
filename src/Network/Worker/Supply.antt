-- ===== src/Network/Worker/Supply.antt =====
-- No handler of src/network/worker.rs stores a state with more coins than there were, as long as
-- the blocks that it has are sound.
use bitcoin_client.Prelude.{
  Bool, ℕ, zero, suc, ◌≤◌, ◌≡◌, inl, inr, List, [], ◌∷◌, some, >>=-eq-some, some-injective, ◌==◌,
  get_elem?, All, All-append, Bool-cases, Option-cases, arith,
}
use mathlib.Core.Path.{subst}
use bitcoin_client.Prelude.HashMap.{HashMap, get, get-insert_cases, contains_key}
use bitcoin_client.Types.Hash.{H256, h256_eq, le}
use bitcoin_client.Types.Block.{Block}
use bitcoin_client.Types.Transaction.{SignedTransaction, State}
use bitcoin_client.Types.Crypto.{Crypto, hash}
use bitcoin_client.Blockchain
use bitcoin_client.Ledger.{check_txs, check_tx_state, conclude}
use bitcoin_client.Ledger.Conserve.{total, IsSound, check_txs_conserve}
use bitcoin_client.Node.{Node}
use bitcoin_client.Network.Message.{
  Message, ping, pong, new_block_hashes, get_blocks, blocks, new_transaction_hashes,
  get_transactions, transactions,
}
use bitcoin_client.Network.Worker.{
  Loop, Outcome, add_checked, connect_block, scan, unorphan, unorphan_fuel, process_block,
  process_blocks, on_blocks, handle, on_transactions,
}
use bitcoin_client.Network.Worker.Run.{carried}

-- No state has more coins.
abbrev pub IsBounded : ℕ → HashMap H256 State → Type 0
IsBounded coins states = (k : H256) (st : State) → get states k ≡ some st → total st.states ≤ coins

abbrev pub IsSoundBlock : Block → Type 0
IsSoundBlock b = All IsSound b.cont.st

-- The states are bounded and the orphans sound.
pub record IsFunded (coins : ℕ) (s : Loop) : Type 0 where
  pub bounded : IsBounded coins s.node.block_state
  pub sound : All IsSoundBlock s.orphan_blocks

pub check_tx_state-IsBounded :
    (c : Crypto) (coins : ℕ) (states : HashMap H256 State) (parent : H256)
    (txs : List SignedTransaction) (h : H256) {r : Bool × HashMap H256 State}
    → IsBounded coins states
    → All IsSound txs
    → check_tx_state c states parent txs h ≡ some r
    → IsBounded coins r.1
unfolding check_tx_state conclude
check_tx_state-IsBounded c coins states parent txs h {r} b sound e =
    let (st, found, e') = >>=-eq-some (get states parent) _ e in
    let done = some-injective e' in
    subst (λ (x : Bool × HashMap H256 State). IsBounded coins x.1) done
      (elim (Option-cases (check_txs c st txs)) [
        | inl refused ↦ rw refused b
        | inr (after, passed) ↦ rw passed (λ k st' there.
            elim (get-insert_cases states h after k there) [
              | inl (_, same) ↦
                  subst (λ (x : State). total x.states ≤ coins) same
                    (omega
                      (arith, check_txs_conserve c st after txs sound passed, b parent st found))
              | inr (_, old) ↦ b k st' old
            ])
      ])

module _ (c : Crypto) (coins : ℕ) where
  add_checked-IsFunded :
      (s : Loop) (block : Block) {t : Loop}
      → IsFunded coins s
      → IsSoundBlock block
      → add_checked c s block ≡ some t
      → IsFunded coins t
  unfolding add_checked
  add_checked-IsFunded s block {t} f sound e =
      let (checked, ran, e1) = >>=-eq-some (check_tx_state c _ _ _ _) _ e in
      let b = check_tx_state-IsBounded c coins _ _ _ _ f.bounded sound ran in
      elim (Bool-cases checked.0) [
        | inl passed ↦
            let (chain, grown, e2) =
              >>=-eq-some (Blockchain.insert c s.node.blockchain block) _ (rw passed at e1) in
            subst (IsFunded coins) (some-injective e2) (record { bounded = b; sound = f.sound })
        | inr refused ↦ subst (IsFunded coins) (some-injective (rw refused at e1)) f
      ]

  connect_block-IsFunded :
      (s : Loop) (parent : H256) (block : Block) {t : Loop}
      → IsFunded coins s
      → IsSoundBlock block
      → connect_block c s parent block ≡ some t
      → IsFunded coins t
  unfolding connect_block
  connect_block-IsFunded s parent block f sound e =
      let (p, found, e1) = >>=-eq-some (get s.node.blockchain.blocks parent) _ e in
      elim (Bool-cases (block.head.difficulty == p.0.head.difficulty)) [
        | inl same ↦ add_checked-IsFunded s block f sound (rw same at e1)
        | inr other ↦ subst (IsFunded coins) (some-injective (rw other at e1)) f
      ]

  scan-IsFunded :
      (parent : H256) (rest : List Block) (s : Loop) {t : Loop}
      → IsFunded coins s
      → All IsSoundBlock rest
      → scan c parent rest s ≡ some t
      → IsFunded coins t
  unfolding scan
  scan-IsFunded parent [] s f a e = subst (IsFunded coins) (some-injective e) f
  scan-IsFunded parent (o ∷ rest) s f a e = elim (Bool-cases (o.head.parent == parent)) [
    | inl same ↦
        let (u, ran, e1) =
          >>=-eq-some (connect_block c s parent o) (scan c parent rest) (rw (same, scan) at e) in
        scan-IsFunded parent rest u (connect_block-IsFunded s parent o f a.0 ran) a.1 e1
    | inr other ↦
        scan-IsFunded parent rest _
          (record {
            bounded = f.bounded;
            sound = All-append _ s.orphan_blocks (o ∷ []) f.sound (a.0, tt);
          })
          a.1 (rw (other, scan) at e)
  ]

  unorphan-IsFunded :
      (fuel : ℕ) (s : Loop) {t : Loop}
      → IsFunded coins s
      → unorphan c fuel s ≡ some t
      → IsFunded coins t
  unfolding unorphan
  unorphan-IsFunded zero s f e = subst (IsFunded coins) (some-injective e) f
  unorphan-IsFunded (suc fuel) s f e = elim (Option-cases (get_elem? s.new_blocks s.n)) [
    | inl end ↦ subst (IsFunded coins) (some-injective (rw (end, unorphan) at e)) f
    | inr (parent, place) ↦
        let (u, ran, e1) =
          >>=-eq-some (scan c parent s.orphan_blocks (record s { orphan_blocks = [] }))
            (λ t. unorphan c fuel (record t { n = suc t.n })) (rw (place, unorphan) at e) in
        let f' =
          scan-IsFunded parent s.orphan_blocks (record s { orphan_blocks = [] })
            (record { bounded = f.bounded; sound = tt }) f.sound ran in
        unorphan-IsFunded fuel (record u { n = suc u.n })
          (record { bounded = f'.bounded; sound = f'.sound }) e1
  ]

  process_block-IsFunded :
      (s : Loop) (block : Block) {t : Loop}
      → IsFunded coins s
      → IsSoundBlock block
      → process_block c s block ≡ some t
      → IsFunded coins t
  unfolding process_block
  process_block-IsFunded s block f sound e =
      elim (Bool-cases (le (hash c block) block.head.difficulty)) [
        | inr weak ↦ subst (IsFunded coins) (some-injective (rw weak at e)) f
        | inl worked ↦ elim (Bool-cases (contains_key s.node.blockchain.blocks (hash c block))) [
          | inl known ↦ subst (IsFunded coins) (some-injective (rw (worked, known) at e)) f
          | inr fresh ↦
              elim (Bool-cases (contains_key s.node.blockchain.blocks block.head.parent)) [
                | inl parent ↦
                    let (u, ran, e1) =
                      >>=-eq-some (connect_block c s block.head.parent block)
                        (λ t. unorphan c (unorphan_fuel t) t) (rw (worked, fresh, parent) at e) in
                    unorphan-IsFunded (unorphan_fuel u) u
                      (connect_block-IsFunded s block.head.parent block f sound ran) e1
                | inr orphan ↦
                    subst (IsFunded coins) (some-injective (rw (worked, fresh, orphan) at e))
                      (record {
                        bounded = f.bounded;
                        sound = All-append _ s.orphan_blocks (block ∷ []) f.sound (sound, tt);
                      })
              ]
        ]
      ]

  process_blocks-IsFunded :
      (s : Loop) (received : List Block) {t : Loop}
      → IsFunded coins s
      → All IsSoundBlock received
      → process_blocks c s received ≡ some t
      → IsFunded coins t
  unfolding process_blocks
  process_blocks-IsFunded s [] f a e = subst (IsFunded coins) (some-injective e) f
  process_blocks-IsFunded s (block ∷ rest) f a e =
      let (u, ran, e1) = >>=-eq-some (process_block c s block) (λ t. process_blocks c t rest) e in
      process_blocks-IsFunded u rest (process_block-IsFunded s block f a.0 ran) a.1 e1

  kept :
      {o o' : Outcome}
      → o ≡ o'
      → IsBounded coins o.node.block_state
      → All IsSoundBlock o.orphan_blocks
      → IsBounded coins o'.node.block_state × All IsSoundBlock o'.orphan_blocks
  kept same b a =
      subst (λ (o : Outcome). IsBounded coins o.node.block_state × All IsSoundBlock o.orphan_blocks)
        same (b, a)

  -- The handler of any message, if the blocks that it carries and the orphans are sound.
  pub handle-IsBounded :
      (node : Node) (orphan_blocks : List Block) (m : Message) {o : Outcome}
      → IsBounded coins node.block_state
      → All IsSoundBlock orphan_blocks
      → All IsSoundBlock (carried m)
      → handle c node orphan_blocks m ≡ some o
      → IsBounded coins o.node.block_state × All IsSoundBlock o.orphan_blocks
  unfolding handle on_blocks on_transactions
  handle-IsBounded node orphan_blocks (blocks received) b a s e =
      let (t, ran, e1) = >>=-eq-some (process_blocks c _ received) _ e in
      let f = process_blocks-IsFunded _ received (record { bounded = b; sound = a }) s ran in
      subst (λ (o : Outcome). IsBounded coins o.node.block_state × All IsSoundBlock o.orphan_blocks)
        (some-injective e1) (f.bounded, f.sound)
  handle-IsBounded node orphan_blocks (ping x) b a s e = kept (some-injective e) b a
  handle-IsBounded node orphan_blocks (pong x) b a s e = kept (some-injective e) b a
  handle-IsBounded node orphan_blocks (new_block_hashes x) b a s e = kept (some-injective e) b a
  handle-IsBounded node orphan_blocks (get_blocks x) b a s e = kept (some-injective e) b a
  handle-IsBounded node orphan_blocks (new_transaction_hashes x) b a s e =
      kept (some-injective e) b a
  handle-IsBounded node orphan_blocks (get_transactions x) b a s e = kept (some-injective e) b a
  handle-IsBounded node orphan_blocks (transactions x) b a s e = kept (some-injective e) b a
