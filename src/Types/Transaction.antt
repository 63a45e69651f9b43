-- ===== src/Types/Transaction.antt =====
-- The data of src/types/transaction.rs.
use bitcoin_client.Prelude.{ℕ, ◌-◌, ◌/◌, List, [], ◌∷◌, replicate, ◌||◌, ◌=?◌, if◌then◌else◌}
use bitcoin_client.Prelude.HashMap.{HashMap}
use bitcoin_client.Types.Hash.{H256}
use bitcoin_client.Types.Address.{Address}

pub record Input : Type 0 where
  pub prev_trans : H256
  pub index : ℕ  -- u8

pub record Output : Type 0 where
  pub recipient_addr : Address
  pub value : ℕ  -- u32

pub record Transaction : Type 0 where
  pub input : List Input
  pub output : List Output

pub record SignedTransaction : Type 0 where
  pub transaction : Transaction
  pub signature_vector : List ℕ
  pub public_key_vector : List ℕ

pub record Mempool : Type 0 where
  pub trans : HashMap H256 SignedTransaction

-- The unspent outputs: the key is a transaction's hash and the index of an output of it.
pub record State : Type 0 where
  pub states : HashMap (H256 × ℕ) (ℕ × Address)

-- `Mempool::new`
unfoldable pub new_mempool : Mempool
new_mempool = record { trans = [] }

abbrev pub key : Input → H256 × ℕ
key i = (i.prev_trans, i.index)

-- `Output::pass_check`: a third of the balance to the first peer, the rest in two parts to the
-- second, or all of it to the first peer where a part would be 0.
unfoldable pub pass_check_outputs : ℕ → Address × Address → List Output
pass_check_outputs balance peer_addrs =
    let v1 = balance / 3 in
    let v2 = (balance - v1) / 2 in
    let v3 = balance - v1 - v2 in
    if (v1 =? 0) || (v2 =? 0) || (v3 =? 0)
    then record { recipient_addr = peer_addrs.0; value = balance } ∷ []
    else record { recipient_addr = peer_addrs.0; value = v1 }
      ∷ record { recipient_addr = peer_addrs.1; value = v2 }
      ∷ record { recipient_addr = peer_addrs.1; value = v3 }
      ∷ []

-- `Transaction::pass_check`
unfoldable pub pass_check : List Input → ℕ → Address × Address → Transaction
pass_check inputs balance peer_addrs = record {
  input = inputs;
  output = pass_check_outputs balance peer_addrs;
}

-- `Input::pass_check`
unfoldable pub pass_check_input : H256 → ℕ → Input
pass_check_input hash ind = record { prev_trans = hash; index = ind }

-- `Input::random`, for the byte and the index that the generator of random numbers gives.
unfoldable pub random_input : ℕ → ℕ → Input
random_input byte index = record {
  prev_trans = record { bytes = replicate 32 byte };
  index = index;
}

-- `Output::random`
unfoldable pub random_output : ℕ → ℕ → Output
random_output byte value = record {
  recipient_addr = record { bytes = replicate 20 byte };
  value = value;
}
