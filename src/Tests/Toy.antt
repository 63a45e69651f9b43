-- ===== src/Tests/Toy.antt =====
-- Cryptography for the tests: a digest of 16 bits that is easy to compute, and signatures that
-- name the key.
use bitcoin_client.Prelude.{
  ℕ, ◌+◌, ◌*◌, ◌/◌, ◌%◌, refl, List, [], ◌∷◌, ◌++◌, ◌==◌, ◌=?◌, nat_eq, list_eq, eq_refl, replicate,
  length, arith,
}
use bitcoin_client.Types.Transaction.{Input, Output, Transaction}
use bitcoin_client.Types.Block.{Header}
use bitcoin_client.Types.Crypto.{Crypto, IsCrypto, KeyPair}

unfoldable pub fold_toy : ℕ → List ℕ → ℕ
fold_toy acc [] = acc
fold_toy acc (b ∷ bs) = fold_toy ((acc * 31 + b) % 65536) bs

unfoldable pub toy_digest : List ℕ → List ℕ
unfolding fold_toy
toy_digest bs = let s = fold_toy 7 bs in replicate 30 0 ++ (s / 256 % 256) ∷ (s % 256) ∷ []

unfoldable pub input_bytes : List Input → List ℕ
input_bytes [] = []
input_bytes (i ∷ inputs) = i.prev_trans.bytes ++ i.index ∷ input_bytes inputs

unfoldable pub output_bytes : List Output → List ℕ
output_bytes [] = []
output_bytes (o ∷ outputs) = o.recipient_addr.bytes ++ o.value ∷ output_bytes outputs

unfoldable pub transaction_bytes : Transaction → List ℕ
unfolding input_bytes output_bytes
transaction_bytes t = length t.input ∷ input_bytes t.input ++ output_bytes t.output

unfoldable pub header_bytes : Header → List ℕ
header_bytes h = h.parent.bytes ++ h.nonce ∷ h.difficulty.bytes ++ h.timestamp ∷ h.merkle_root.bytes

abbrev pub toy : Crypto
toy = record {
  sha256 = toy_digest;
  serialize_transaction = transaction_bytes;
  serialize_signed =
      λ t. transaction_bytes t.transaction ++ t.public_key_vector ++ t.signature_vector;
  serialize_header = header_bytes;
  key_matches = λ seed public. length seed =? length public;
  ed25519_sign = λ seed public message. public ++ message;
  ed25519_verify = λ public message signature. signature == (public ++ message);
}

pub toy-IsCrypto : IsCrypto toy
unfolding toy_digest
toy-IsCrypto = record {
  digest_size = λ bs. refl;
  digest_bytes = λ bs. omega arith;
  verify_sign = λ seed public message h. eq_refl (public ++ message);
}

abbrev pub owner : KeyPair
owner = record { seed = 1 ∷ []; public_key = 2 ∷ [] }
