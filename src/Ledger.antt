-- ===== src/Ledger.antt =====
-- The check of a block's transactions against the state after its parent: `check_tx_state`, which
-- src/network/worker.rs and src/miner/worker.rs both have, and `State` of
-- src/types/transaction.rs. Where a transaction is refused, the loops return `none`.
pub mod Spec
pub mod Conserve
pub mod Defects
use bitcoin_client.Prelude.{
  ℕ, zero, suc, ◌+◌, Bool, true, false, List, [], ◌∷◌, Option, none, some, ◌>>=◌, ◌==◌, ltb,
  if◌then◌else◌, u32, u8, pair_eq, nat_eq,
}
use bitcoin_client.Prelude.HashMap
use bitcoin_client.Prelude.HashMap.{HashMap, get, insert, remove, contains_key}
use bitcoin_client.Types.Hash.{H256, h256_eq, zeros}
use bitcoin_client.Types.Address.{Address, address_eq}
use bitcoin_client.Types.Transaction.{Input, Output, Transaction, SignedTransaction, State, key}
use bitcoin_client.Types.Crypto.{Crypto, KeyPair, hash_signed, verify, address_of}

-- The unspent outputs.
abbrev pub Outputs : Type 0
Outputs = HashMap (H256 × ℕ) (ℕ × Address)

-- `tx.output.iter().map(|x| x.value as u32).sum()`
unfoldable pub sum_output : ℕ → List Output → ℕ
sum_output acc [] = acc
sum_output acc (o ∷ outputs) = sum_output (u32 (acc + o.value)) outputs

-- `for input in &tx.input { state.states.remove(..) }`
unfoldable pub remove_inputs : Outputs → List Input → Outputs
remove_inputs states [] = states
remove_inputs states (i ∷ inputs) = remove_inputs (remove states (key i)) inputs

-- `for (index, output) in tx.output.iter().enumerate() { state.states.insert(..) }`
unfoldable pub insert_outputs : Outputs → H256 → ℕ → List Output → Outputs
insert_outputs states tx_hash index [] = states
insert_outputs states tx_hash index (o ∷ outputs) =
    insert_outputs (insert states (tx_hash, u8 index) (o.value, o.recipient_addr)) tx_hash
      (suc index) outputs

-- The loop over the inputs: the sum of their values, if each is unspent and the signer's.
unfoldable pub sum_input : Address → Outputs → ℕ → List Input → Option ℕ
sum_input owner states acc [] = some acc
sum_input owner states acc (i ∷ inputs) = get states (key i) >>= λ entry.
    if entry.1 == owner then sum_input owner states (u32 (acc + entry.0)) inputs else none

module _ (c : Crypto) where
  -- The state after a transaction that passed the check.
  unfoldable pub spend : State → SignedTransaction → State
  unfolding remove_inputs insert_outputs
  spend state st = record {
    states =
        insert_outputs (remove_inputs state.states st.transaction.input) (hash_signed c st) 0
          st.transaction.output;
  }

  -- One round of the loop over the transactions.
  unfoldable pub check_tx : State → SignedTransaction → Option State
  unfolding sum_input sum_output spend
  check_tx state st =
      if verify c st.transaction st.public_key_vector st.signature_vector
      then (sum_input (address_of c st.public_key_vector) state.states 0 st.transaction.input
          >>= λ total.
              if ltb total (sum_output 0 st.transaction.output)
              then none
              else some (spend state st))
      else none

  -- The loop over the transactions.
  unfoldable pub check_txs : State → List SignedTransaction → Option State
  check_txs state [] = some state
  check_txs state (st ∷ signed_txs) = check_tx state st >>= λ next. check_txs next signed_txs

  unfoldable pub conclude : HashMap H256 State → H256 → Option State → Bool × HashMap H256 State
  conclude block_state block_hash none = (false, block_state)
  conclude block_state block_hash (some state) = (true, insert block_state block_hash state)

  -- `check_tx_state`: it panics where the parent has no state.
  unfoldable pub check_tx_state :
      HashMap H256 State → H256 → List SignedTransaction → H256 → Option (Bool × HashMap H256 State)
  unfolding check_txs conclude
  check_tx_state block_state parent_hash signed_txs block_hash =
      get block_state parent_hash >>= λ state.
      some (conclude block_state block_hash (check_txs state signed_txs))

  -- `State::new`: the initial offering of 100 coins to a key.
  unfoldable pub new_state : KeyPair → State
  new_state k = record { states = insert [] (zeros, 0) (100, address_of c k.public_key) }

  -- The inputs' loop of `State::update`.
  unfoldable pub update_inputs : Outputs → List Input → Outputs
  update_inputs states [] = states
  update_inputs states (i ∷ inputs) =
      update_inputs (if contains_key states (key i) then remove states (key i) else states) inputs

  -- `State::update`
  unfoldable pub update : State → SignedTransaction → State
  unfolding update_inputs insert_outputs
  update state st = record {
    states =
        insert_outputs (update_inputs state.states st.transaction.input) (hash_signed c st) 0
          st.transaction.output;
  }
