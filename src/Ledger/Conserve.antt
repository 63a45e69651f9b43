-- ===== src/Ledger/Conserve.antt =====
-- No block makes coins out of nothing, as long as no transaction of it names an input twice and no
-- sum of outputs leaves the range of a `u32`.
use bitcoin_client.Prelude.{
  ℕ, suc, ◌+◌, ◌≤◌, ◌<◌, ◌≡◌, ◌≢◌, refl, ap, List, [], ◌∷◌, some, >>=-eq-some, u8, u32_mod, pair_eq,
  nat_eq, All, arith,
}
use bitcoin_client.Prelude.HashMap.{get, insert, remove, get-remove_ne}
use bitcoin_client.Types.Hash.{H256, h256_eq}
use bitcoin_client.Types.Address.{Address}
use bitcoin_client.Types.Transaction.{Input, Output, SignedTransaction, State, key}
use bitcoin_client.Types.Crypto.{Crypto}
use bitcoin_client.Ledger.{Outputs, remove_inputs, insert_outputs, spend, check_tx, check_txs}
use bitcoin_client.Ledger.Spec.{
  worth, value_at, input_total, output_total, IsAdmissible, check_tx_iff,
}

-- The value of all unspent outputs.
unfoldable pub total : Outputs → ℕ
total [] = 0
total ((k, e) ∷ states) = e.0 + total states

-- No two inputs name the same output.
abbrev pub IsDistinct : List Input → Type 0
IsDistinct [] = Unit
IsDistinct (i ∷ inputs) = All (λ j. key i ≢ key j) inputs × IsDistinct inputs

-- No output is counted twice, and the outputs' sum does not wrap around.
abbrev pub IsSound : SignedTransaction → Type 0
IsSound st = IsDistinct st.transaction.input × (output_total st.transaction.output < u32_mod)

total-insert :
    (states : Outputs) (k : H256 × ℕ) (v : ℕ) (a : Address)
    → total (insert states k (v, a)) ≤ total states + v
unfolding total insert
total-insert [] k v a = omega arith
total-insert ((j, e) ∷ states) k v a = ground (arith, total-insert states k v a)

-- Removing what is not stored, and what is, in one statement.
total-remove :
    (states : Outputs) (k : H256 × ℕ) → total (remove states k) + value_at states k ≤ total states
unfolding total remove get
total-remove [] k = omega arith
total-remove ((j, e) ∷ states) k = ground (arith, total-remove states k)

value_at-remove_ne :
    (states : Outputs) (k j : H256 × ℕ) → k ≢ j → value_at (remove states k) j ≡ value_at states j
value_at-remove_ne states k j n = ap worth (get-remove_ne states k j n)

input_total-remove :
    (states : Outputs) (k : H256 × ℕ) (inputs : List Input)
    → All (λ j. k ≢ key j) inputs
    → input_total (remove states k) inputs ≡ input_total states inputs
input_total-remove states k [] a = refl
input_total-remove states k (i ∷ inputs) a =
    omega (arith, value_at-remove_ne states k (key i) a.0, input_total-remove states k inputs a.1)

total-remove_inputs :
    (states : Outputs) (inputs : List Input)
    → IsDistinct inputs
    → total (remove_inputs states inputs) + input_total states inputs ≤ total states
unfolding remove_inputs
total-remove_inputs states [] d = omega arith
total-remove_inputs states (i ∷ inputs) d = omega (
  arith,
  total-remove states (key i),
  total-remove_inputs (remove states (key i)) inputs d.1,
  input_total-remove states (key i) inputs d.0,
)

total-insert_outputs :
    (states : Outputs) (h : H256) (index : ℕ) (outputs : List Output)
    → total (insert_outputs states h index outputs) ≤ total states + output_total outputs
unfolding insert_outputs
total-insert_outputs states h index [] = omega arith
total-insert_outputs states h index (o ∷ outputs) = omega (
  arith,
  total-insert states (h, u8 index) o.value o.recipient_addr,
  total-insert_outputs (insert states (h, u8 index) (o.value, o.recipient_addr)) h (suc index)
      outputs,
)

pub total-spend :
    (c : Crypto) (state : State) (st : SignedTransaction)
    → IsAdmissible c state st
    → IsSound st
    → total (spend c state st).states ≤ total state.states
unfolding spend
total-spend c state st a s = omega (
  arith,
  a.covered,
  total-remove_inputs state.states st.transaction.input s.0,
  total-insert_outputs (remove_inputs state.states st.transaction.input) _ 0 st.transaction.output,
)

-- If no transaction of a block names an input twice, and the sum of each one's outputs is below
-- 2 ^ 32, then a block that passes the check leaves unspent outputs of no more value than before.
pub check_txs_conserve :
    (c : Crypto) (state next : State) (signed_txs : List SignedTransaction)
    → All IsSound signed_txs
    → check_txs c state signed_txs ≡ some next
    → total next.states ≤ total state.states
unfolding check_txs
check_txs_conserve c state next [] s h = let same : state ≡ next = cc in rw same (omega arith)
check_txs_conserve c state next (st ∷ signed_txs) s h =
    let (mid, passed, h') = >>=-eq-some (check_tx c state st) _ h in
    let (a, e) = (check_tx_iff c state mid st).0 passed in
    omega (
      arith,
      check_txs_conserve c mid next signed_txs s.1 h',
      total-spend c state st a s.0,
      ap (λ (x : State). total x.states) e,
    )
