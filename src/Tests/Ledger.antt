-- ===== src/Tests/Ledger.antt =====
-- The check of transactions: a payment of the initial offering, and the two ways to make coins.
use bitcoin_client.Prelude.{ℕ, ◌≤◌, ◌≡◌, ◌↔◌, refl, [], ◌∷◌, some, pair_eq, nat_eq, ◌>>=◌, arith}
use bitcoin_client.Prelude.HashMap.{get, get-insert_self}
use bitcoin_client.Types.Hash.{h256_eq, zeros}
use bitcoin_client.Types.Transaction.{Input, Output, Transaction, SignedTransaction, State}
use bitcoin_client.Types.Crypto.{hash_signed, verify-sign, sign, address_of}
use bitcoin_client.Ledger.{new_state, spend, check_tx, check_txs}
use bitcoin_client.Ledger.Spec.{IsAdmissible, check_tx_iff}
use bitcoin_client.Ledger.Conserve.{total, check_txs_conserve}
use bitcoin_client.Ledger.Defects.{double_spend_passes, overflow_passes}
use bitcoin_client.Tests.Toy.{toy, toy-IsCrypto, owner}
use bitcoin_client.Tests.Chain.{payment, signed_payment}

abbrev first_state : State
first_state = new_state toy owner

check_tx_iff_example :
    (check_tx toy first_state signed_payment ≡ some (spend toy first_state signed_payment)) ↔ (
      IsAdmissible toy first_state signed_payment
      × (spend toy first_state signed_payment ≡ spend toy first_state signed_payment))
check_tx_iff_example =
    check_tx_iff toy first_state (spend toy first_state signed_payment) signed_payment

offering_owned : get first_state.states (zeros, 0) ≡ some (100, address_of toy owner.public_key)
unfolding new_state
offering_owned = get-insert_self [] (zeros, 0) (100, address_of toy owner.public_key)

payment_passes :
    check_txs toy first_state (signed_payment ∷ []) ≡ some (spend toy first_state signed_payment)
unfolding check_txs
payment_passes =
    rw
      (
        (check_tx_iff toy first_state (spend toy first_state signed_payment) signed_payment).1 (
          record {
            signed = verify-sign toy toy-IsCrypto payment owner refl;
            owned = ((100, offering_owned), tt);
            covered = rw offering_owned (omega arith);
          },
          refl,
        ),
        ◌>>=◌,
      )
      refl

check_txs_conserve_example :
    total (spend toy first_state signed_payment).states ≤ total first_state.states
check_txs_conserve_example =
    check_txs_conserve toy first_state (spend toy first_state signed_payment) (signed_payment ∷ [])
      (((tt, tt), omega arith), tt) payment_passes

abbrev offering : Input
offering = record { prev_trans = zeros; index = 0 }

abbrev by_owner : Transaction → SignedTransaction
by_owner t = record {
  transaction = t;
  signature_vector = sign toy t owner;
  public_key_vector = owner.public_key;
}

abbrev output_of : ℕ → Output
output_of v = record { recipient_addr = address_of toy owner.public_key; value = v }

abbrev doubled : SignedTransaction
doubled = by_owner (record { input = offering ∷ offering ∷ []; output = output_of 200 ∷ [] })

abbrev wrapped : SignedTransaction
wrapped =
    by_owner
      (record { input = offering ∷ []; output = output_of 4000000000 ∷ output_of 294967396 ∷ [] })

double_spend_passes_example :
    (check_tx toy first_state doubled ≡ some (spend toy first_state doubled))
    × (get (spend toy first_state doubled).states (hash_signed toy doubled, 0)
        ≡ some (200, address_of toy owner.public_key))
double_spend_passes_example =
    double_spend_passes toy first_state doubled offering (output_of 200) 100
      (verify-sign toy toy-IsCrypto doubled.transaction owner refl) offering_owned refl refl refl

overflow_passes_example :
    (check_tx toy first_state wrapped ≡ some (spend toy first_state wrapped))
    × (get (spend toy first_state wrapped).states (hash_signed toy wrapped, 0)
        ≡ some (4000000000, address_of toy owner.public_key))
    × (get (spend toy first_state wrapped).states (hash_signed toy wrapped, 1)
        ≡ some (294967396, address_of toy owner.public_key))
overflow_passes_example =
    overflow_passes toy first_state wrapped offering (output_of 4000000000) (output_of 294967396)
      100 (verify-sign toy toy-IsCrypto wrapped.transaction owner refl) offering_owned (omega arith)
      refl refl refl
