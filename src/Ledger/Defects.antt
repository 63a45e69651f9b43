-- ===== src/Ledger/Defects.antt =====
-- Where the check lets coins be made: an input that is named twice is counted twice, and the sum
-- of the outputs is taken modulo 2 ^ 32.
use bitcoin_client.Prelude.{
  ℕ, ◌+◌, ◌<◌, ◌≡◌, refl, ap, ◌∙◌, true, List, [], ◌∷◌, some, u32_mod, pair_eq, nat_eq, arith,
}
use bitcoin_client.Prelude.HashMap.{get, insert, get-insert_self, get-insert_ne}
use bitcoin_client.Types.Hash.{H256, h256_eq}
use bitcoin_client.Types.Transaction.{Input, Output, SignedTransaction, State, key}
use bitcoin_client.Types.Crypto.{Crypto, hash_signed, verify, address_of}
use bitcoin_client.Ledger.{Outputs, remove_inputs, insert_outputs, spend, check_tx}
use bitcoin_client.Ledger.Spec.{worth, value_at, check_tx_iff}

module _ (states : Outputs) (h : H256) (outputs : List Output) (o : Output) where
  single_output :
      outputs ≡ o ∷ []
      → get (insert_outputs states h 0 outputs) (h, 0) ≡ some (o.value, o.recipient_addr)
  unfolding insert_outputs
  single_output e = rw e (get-insert_self states (h, 0) (o.value, o.recipient_addr))

  two_outputs :
      (p : Output)
      → outputs ≡ o ∷ p ∷ []
      → (get (insert_outputs states h 0 outputs) (h, 0) ≡ some (o.value, o.recipient_addr))
        × (get (insert_outputs states h 0 outputs) (h, 1) ≡ some (p.value, p.recipient_addr))
  unfolding insert_outputs
  two_outputs p e =
      let first = insert states (h, 0) (o.value, o.recipient_addr) in
      rw e (
        get-insert_ne first (h, 1) (p.value, p.recipient_addr) (h, 0)
              (λ q. absurd (omega (arith, ap (λ (t : H256 × ℕ). t.1) q)))
            ∙ get-insert_self states (h, 0) (o.value, o.recipient_addr),
        get-insert_self first (h, 1) (p.value, p.recipient_addr),
      )

-- A signed transaction that names an unspent output of the signer twice, and has one output of
-- twice the value, passes the check: the state after it has an output of that double value.
pub double_spend_passes :
    (c : Crypto) (state : State) (st : SignedTransaction) (i : Input) (o : Output) (v : ℕ)
    → verify c st.transaction st.public_key_vector st.signature_vector ≡ true
    → get state.states (key i) ≡ some (v, address_of c st.public_key_vector)
    → st.transaction.input ≡ i ∷ i ∷ []
    → st.transaction.output ≡ o ∷ []
    → o.value ≡ v + v
    → (check_tx c state st ≡ some (spend c state st))
      × (get (spend c state st).states (hash_signed c st, 0) ≡ some (v + v, o.recipient_addr))
unfolding spend
double_spend_passes c state st i o v signed owned ins outs double =
    let value : value_at state.states (key i) ≡ v = ap worth owned in
    (
      (check_tx_iff c state (spend c state st) st).1 (
        record {
          signed = signed;
          owned = rw ins ((v, owned), ((v, owned), tt));
          covered = rw (ins, outs) (omega arith);
        },
        refl,
      ),
      single_output (remove_inputs state.states st.transaction.input) (hash_signed c st)
            st.transaction.output o outs
          ∙ ap (λ t. some (t, o.recipient_addr)) double,
    )

-- A signed transaction with one unspent input of the signer, and two outputs whose sum is above
-- the input's value by 2 ^ 32, passes the check: the state after it has both outputs.
pub overflow_passes :
    (c : Crypto) (state : State) (st : SignedTransaction) (i : Input) (o p : Output) (v : ℕ)
    → verify c st.transaction st.public_key_vector st.signature_vector ≡ true
    → get state.states (key i) ≡ some (v, address_of c st.public_key_vector)
    → v < u32_mod
    → st.transaction.input ≡ i ∷ []
    → st.transaction.output ≡ o ∷ p ∷ []
    → o.value + p.value ≡ v + u32_mod
    → (check_tx c state st ≡ some (spend c state st))
      × (get (spend c state st).states (hash_signed c st, 0) ≡ some (o.value, o.recipient_addr))
      × (get (spend c state st).states (hash_signed c st, 1) ≡ some (p.value, p.recipient_addr))
unfolding spend
overflow_passes c state st i o p v signed owned small ins outs over =
    let value : value_at state.states (key i) ≡ v = ap worth owned in
    let stored =
      two_outputs (remove_inputs state.states st.transaction.input) (hash_signed c st)
        st.transaction.output o p outs in
    (
      (check_tx_iff c state (spend c state st) st).1 (
        record {
          signed = signed;
          owned = rw ins ((v, owned), tt);
          covered = rw (ins, outs) (omega arith);
        },
        refl,
      ),
      stored.0,
      stored.1,
    )
