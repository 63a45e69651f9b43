-- ===== src/Tests/Chain.antt =====
-- The chain of blocks on two blocks after the genesis block.
use bitcoin_client.Prelude.{ℕ, ◌≡◌, ◌≢◌, refl, sym, ◌∙◌, ◌⊎◌, inl, inr, In, [], ◌∷◌, arith, ap}
use bitcoin_client.Prelude.Bytes.{from_be_bytes}
use bitcoin_client.Types.Hash.{H256, zeros}
use bitcoin_client.Types.Block.{Header, Block}
use bitcoin_client.Types.Transaction.{Transaction, SignedTransaction}
use bitcoin_client.Types.Crypto.{digest, hash, hash_header, hash_signed, sign, address_of}
use bitcoin_client.Blockchain.{genesis, genesis_hash, genesis_difficulty}
use bitcoin_client.Network.Worker.Safe.{IsCollisionFree}
use bitcoin_client.Tests.Toy.{toy, owner, toy_digest, header_bytes, transaction_bytes}
use bitcoin_client.Types.Address.{from_public_key_bytes}

abbrev pub payment : Transaction
payment = record {
  input = record { prev_trans = zeros; index = 0 } ∷ [];
  output =
      record { recipient_addr = address_of toy (3 ∷ []); value = 60 }
      ∷ record { recipient_addr = address_of toy (2 ∷ []); value = 40 }
      ∷ [];
}

abbrev pub signed_payment : SignedTransaction
signed_payment = record {
  transaction = payment;
  signature_vector = sign toy payment owner;
  public_key_vector = owner.public_key;
}

abbrev pub block_1 : Block
block_1 = record {
  head = record {
    parent = genesis_hash toy;
    nonce = 1;
    difficulty = genesis_difficulty;
    timestamp = 1;
    merkle_root = hash_signed toy signed_payment;
  };
  cont = record { st = signed_payment ∷ [] };
}

abbrev pub block_2 : Block
block_2 = record {
  head = record {
    parent = hash toy block_1;
    nonce = 2;
    difficulty = genesis_difficulty;
    timestamp = 2;
    merkle_root = zeros;
  };
  cont = record { st = [] };
}

-- The headers of the tests.
abbrev pub IsSeen : Header → Type 0
IsSeen h = In h (genesis.head ∷ block_1.head ∷ block_2.head ∷ [])

hash_value : Header → ℕ
hash_value h = from_be_bytes (hash_header toy h).bytes

value_0 : hash_value genesis.head ≡ 1266
unfolding hash_value hash_header digest genesis from_be_bytes toy_digest header_bytes
value_0 = refl

value_1 : hash_value block_1.head ≡ 16101
unfolding hash_value hash_header digest genesis from_be_bytes genesis_hash hash hash_signed
    toy_digest header_bytes transaction_bytes from_public_key_bytes sign
value_1 = refl

value_2 : hash_value block_2.head ≡ 24537
unfolding hash_value hash_header digest genesis from_be_bytes genesis_hash hash hash_signed
    toy_digest header_bytes transaction_bytes from_public_key_bytes sign
value_2 = refl

-- The value of a digest tells the three headers apart.
abbrev IsOneOf : Header → Type 0
IsOneOf h =
    ((genesis.head ≡ h) × (hash_value h ≡ 1266))
    ⊎ ((block_1.head ≡ h) × (hash_value h ≡ 16101))
    ⊎ ((block_2.head ≡ h) × (hash_value h ≡ 24537))

seen-IsOneOf : (h : Header) → IsSeen h → IsOneOf h
seen-IsOneOf h (inl e) = inl (e, ap hash_value (sym e) ∙ value_0)
seen-IsOneOf h (inr (inl e)) = inr (inl (e, ap hash_value (sym e) ∙ value_1))
seen-IsOneOf h (inr (inr (inl e))) = inr (inr (e, ap hash_value (sym e) ∙ value_2))
seen-IsOneOf h (inr (inr (inr x))) = elim x [ ]

same_header : (a b : Header) → IsOneOf a → IsOneOf b → hash_value a ≡ hash_value b → a ≡ b
same_header a b (inl (p, m)) (inl (q, n)) e = sym p ∙ q
same_header a b (inl (p, m)) (inr (inl (q, n))) e = absurd (omega arith)
same_header a b (inl (p, m)) (inr (inr (q, n))) e = absurd (omega arith)
same_header a b (inr (inl (p, m))) (inl (q, n)) e = absurd (omega arith)
same_header a b (inr (inl (p, m))) (inr (inl (q, n))) e = sym p ∙ q
same_header a b (inr (inl (p, m))) (inr (inr (q, n))) e = absurd (omega arith)
same_header a b (inr (inr (p, m))) (inl (q, n)) e = absurd (omega arith)
same_header a b (inr (inr (p, m))) (inr (inl (q, n))) e = absurd (omega arith)
same_header a b (inr (inr (p, m))) (inr (inr (q, n))) e = sym p ∙ q

pub seen_free : IsCollisionFree toy IsSeen
unfolding hash_value
seen_free a b sa sb e =
    same_header a b (seen-IsOneOf a sa) (seen-IsOneOf b sb)
      (ap (λ (h : H256). from_be_bytes h.bytes) e)

-- The first block is not the genesis block.
pub block_1_other : hash toy block_1 ≢ genesis_hash toy
unfolding hash_value hash genesis_hash
block_1_other e =
    absurd (omega (arith, value_0, value_1, ap (λ (h : H256). from_be_bytes h.bytes) e))
