-- ===== src/Types/Crypto.antt =====
-- What the client takes from the crates `ring` (SHA-256 and Ed25519) and `bincode`
-- (serialization), and the functions of src/types/block.rs and src/types/transaction.rs that call
-- them.
use bitcoin_client.Prelude.{
  ℕ, ◌≡◌, Bool, true, List, Option, some, none, length, All, if◌then◌else◌,
}
use bitcoin_client.Prelude.Bytes.{IsByte}
use bitcoin_client.Types.Hash.{H256, IsH256}
use bitcoin_client.Types.Address
use bitcoin_client.Types.Address.{Address}
use bitcoin_client.Types.Transaction.{Transaction, SignedTransaction}
use bitcoin_client.Types.Block.{Header, Block}

-- The crates' functions: parameters of the model.
pub record Crypto : Type 0 where
  pub sha256 : List ℕ → List ℕ
  pub serialize_transaction : Transaction → List ℕ
  pub serialize_signed : SignedTransaction → List ℕ
  pub serialize_header : Header → List ℕ
  -- whether a seed belongs to a public key
  pub key_matches : List ℕ → List ℕ → Bool
  -- the signature of a message by a seed and its public key
  pub ed25519_sign : List ℕ → List ℕ → List ℕ → List ℕ
  -- public key, message, signature
  pub ed25519_verify : List ℕ → List ℕ → List ℕ → Bool

-- What the crates document: a digest has 32 bytes, and a key pair's signature verifies.
pub record IsCrypto (c : Crypto) : Type 0 where
  pub digest_size : (bs : List ℕ) → length (c.sha256 bs) ≡ 32
  pub digest_bytes : (bs : List ℕ) → All IsByte (c.sha256 bs)
  pub verify_sign :
      (seed public message : List ℕ)
      → c.key_matches seed public ≡ true
      → c.ed25519_verify public message (c.ed25519_sign seed public message) ≡ true

-- `Ed25519KeyPair`
pub record KeyPair : Type 0 where
  pub seed : List ℕ
  pub public_key : List ℕ

module _ (c : Crypto) where
  -- `Ed25519KeyPair::from_seed_and_public_key`, which checks that the two belong together.
  unfoldable pub from_seed_and_public_key : List ℕ → List ℕ → Option KeyPair
  from_seed_and_public_key seed public =
      if c.key_matches seed public then some (record { seed = seed; public_key = public }) else none

  -- A digest as an `H256`.
  unfoldable pub digest : List ℕ → H256
  digest bs = record { bytes = c.sha256 bs }

  -- `impl Hashable for H256`
  unfoldable pub hash_h256 : H256 → H256
  unfolding digest
  hash_h256 h = digest h.bytes

  -- `impl Hashable for SignedTransaction`
  unfoldable pub hash_signed : SignedTransaction → H256
  unfolding digest
  hash_signed t = digest (c.serialize_signed t)

  -- `impl Hashable for Header`
  unfoldable pub hash_header : Header → H256
  unfolding digest
  hash_header h = digest (c.serialize_header h)

  -- `impl Hashable for Block`: the header alone.
  unfoldable pub hash : Block → H256
  unfolding hash_header
  hash b = hash_header b.head

  -- `sign`
  unfoldable pub sign : Transaction → KeyPair → List ℕ
  sign t k = c.ed25519_sign k.seed k.public_key (c.serialize_transaction t)

  -- `verify`
  unfoldable pub verify : Transaction → List ℕ → List ℕ → Bool
  verify t public_key signature = c.ed25519_verify public_key (c.serialize_transaction t) signature

  -- `Address::from_public_key_bytes`
  abbrev pub address_of : List ℕ → Address
  address_of bytes = Address.from_public_key_bytes c.sha256 bytes

  pub digest-IsH256 : IsCrypto c → (bs : List ℕ) → IsH256 (digest bs)
  unfolding digest
  digest-IsH256 w bs = record { size = w.digest_size bs; all_bytes = w.digest_bytes bs }

  -- A signature made by `sign` passes `verify` under the same key pair.
  pub verify-sign :
      IsCrypto c
      → (t : Transaction) (k : KeyPair) → c.key_matches k.seed k.public_key ≡ true
      → verify t k.public_key (sign t k) ≡ true
  unfolding verify sign
  verify-sign w t k m = w.verify_sign k.seed k.public_key (c.serialize_transaction t) m
