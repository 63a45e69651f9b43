-- ===== src/Ledger/Spec.antt =====
-- When a transaction passes the check, stated without the loops.
use bitcoin_client.Prelude.{
  eq_refl, ℕ, ◌+◌, ◌≤◌, ◌≡◌, ◌↔◌, refl, sym, ap, ◌∙◌, inl, inr, true, List, [], ◌∷◌, Option, none,
  some, ◌>>=◌, >>=-eq-some, ◌==◌, ltb, u32, pair_eq, nat_eq, All, Bool-cases, arith,
}
use bitcoin_client.Prelude.HashMap.{get}
use bitcoin_client.Types.Hash.{H256, h256_eq}
use bitcoin_client.Types.Address.{Address, address_eq}
use bitcoin_client.Types.Transaction.{Input, Output, SignedTransaction, State, key}
use bitcoin_client.Types.Crypto.{Crypto, verify, address_of}
use bitcoin_client.Ledger.{Outputs, sum_output, sum_input, spend, check_tx}

abbrev pub worth : Option (ℕ × Address) → ℕ
worth none = 0
worth (some e) = e.0

-- The value of an output, 0 if it is not unspent.
abbrev pub value_at : Outputs → H256 × ℕ → ℕ
value_at states k = worth (get states k)

-- Sums without wrap-around.
abbrev pub input_total : Outputs → List Input → ℕ
input_total states [] = 0
input_total states (i ∷ inputs) = value_at states (key i) + input_total states inputs

abbrev pub output_total : List Output → ℕ
output_total [] = 0
output_total (o ∷ outputs) = o.value + output_total outputs

-- The output that an input names is unspent and the owner's.
abbrev pub IsOwned : Address → Outputs → Input → Type 0
IsOwned owner states i = (v : ℕ) × (get states (key i) ≡ some (v, owner))

-- The signature is the signer's, the inputs are unspent and the signer's, and the outputs' sum, as
-- a `u32`, is no more than the inputs'.
pub record IsAdmissible (c : Crypto) (state : State) (st : SignedTransaction) : Type 0 where
  pub signed : verify c st.transaction st.public_key_vector st.signature_vector ≡ true
  pub owned : All (IsOwned (address_of c st.public_key_vector) state.states) st.transaction.input
  pub covered :
      u32 (output_total st.transaction.output) ≤ u32 (input_total state.states st.transaction.input)

pub sum_output-eq :
    (acc : ℕ) (outputs : List Output)
    → u32 acc ≡ acc
    → sum_output acc outputs ≡ u32 (acc + output_total outputs)
unfolding sum_output
sum_output-eq acc [] h = omega arith
sum_output-eq acc (o ∷ outputs) h = omega (arith, sum_output-eq (u32 (acc + o.value)) outputs)

sum_input-eq :
    (owner : Address) (states : Outputs) (acc : ℕ) (inputs : List Input)
    → u32 acc ≡ acc
    → All (IsOwned owner states) inputs
    → sum_input owner states acc inputs ≡ some (u32 (acc + input_total states inputs))
unfolding sum_input
sum_input-eq owner states acc [] h a = ap some (omega arith)
sum_input-eq owner states acc (i ∷ inputs) h a =
    let (v, e) = a.0 in
    let value : value_at states (key i) ≡ v = ap worth e in
    rw (e, eq_refl owner, ◌>>=◌)
      (sum_input-eq owner states (u32 (acc + v)) inputs (omega arith) a.1 ∙ ap some (omega arith))

sum_input-IsOwned :
    (owner : Address) (states : Outputs) (acc : ℕ) (inputs : List Input) {t : ℕ}
    → sum_input owner states acc inputs ≡ some t
    → All (IsOwned owner states) inputs
unfolding sum_input
sum_input-IsOwned owner states acc [] h = tt
sum_input-IsOwned owner states acc (i ∷ inputs) h =
    let (entry, found, h') = >>=-eq-some (get states (key i)) _ h in
    elim (Bool-cases (entry.1 == owner)) [
      | inl same ↦
          let e : entry.1 ≡ owner = (address_eq.same_iff entry.1 owner).0 same in
          (
            (entry.0, found ∙ ap (λ (o : Address). some (entry.0, o)) e),
            sum_input-IsOwned owner states (u32 (acc + entry.0)) inputs (rw same at h'),
          )
      | inr other ↦ cc (rw other at h')
    ]

check_tx_admissible :
    (c : Crypto) (state : State) (st : SignedTransaction)
    → IsAdmissible c state st
    → check_tx c state st ≡ some (spend c state st)
unfolding check_tx
check_tx_admissible c state st a =
    rw
      (
        a.signed,
        sum_input-eq (address_of c st.public_key_vector) state.states 0 st.transaction.input refl
            a.owned,
        sum_output-eq 0 st.transaction.output refl,
        ◌>>=◌,
      )
      (ground (arith, a.covered))

check_tx_inverse :
    (c : Crypto) (state : State) (st : SignedTransaction) {next : State}
    → check_tx c state st ≡ some next
    → IsAdmissible c state st × (next ≡ spend c state st)
unfolding check_tx
check_tx_inverse c state st h =
    elim (Bool-cases (verify c st.transaction st.public_key_vector st.signature_vector)) [
      | inl signed ↦
          let (total, sum, h') =
            >>=-eq-some (sum_input _ state.states 0 st.transaction.input) _ (rw signed at h) in
          let owned = sum_input-IsOwned _ state.states 0 st.transaction.input sum in
          let total_eq : ◌≡◌ {A = Option ℕ} (some total)
              (some (u32 (0 + input_total state.states st.transaction.input))) =
            sym sum ∙ sum_input-eq _ state.states 0 st.transaction.input refl owned in
          elim (Bool-cases (ltb total (sum_output 0 st.transaction.output))) [
            | inl less ↦ cc (rw less at h')
            | inr enough ↦
                let kept = rw enough at h' in
                (
                  record {
                    signed = signed;
                    owned = owned;
                    covered = ground (arith, sum_output-eq 0 st.transaction.output refl);
                  },
                  cc kept,
                )
          ]
      | inr unsigned ↦ cc (rw unsigned at h)
    ]

-- The check of a transaction passes exactly when its signature is the signer's, every input is
-- unspent and the signer's, and the `u32` sum of its outputs is no more than that of its inputs;
-- the state then has its inputs removed and its outputs added.
pub check_tx_iff :
    (c : Crypto) (state next : State) (st : SignedTransaction)
    → (check_tx c state st ≡ some next) ↔ (IsAdmissible c state st × (next ≡ spend c state st))
check_tx_iff c state next st =
    (check_tx_inverse c state st, λ (a, e). check_tx_admissible c state st a ∙ ap some (sym e))
