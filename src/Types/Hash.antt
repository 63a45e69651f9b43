-- ===== src/Types/Hash.antt =====
-- `H256` of src/types/hash.rs: a 32-byte string with the order of a big-endian number.
pub mod Order
pub mod Display
use Prim.Native.Nat.Ordering.{lt, eq, gt}
use bitcoin_client.Prelude.{
  ℕ, ◌≡◌, ◌↔◌, ap, Bool, true, false, List, ◌∷◌, [], PartialEq, ◌==◌, nat_eq, list_eq, take, drop,
  length, All, compare, Ordering, replicate, arith,
}
use bitcoin_client.Prelude.Bytes.{IsByte, from_be_bytes}

-- `struct H256([u8; 32])`
pub record H256 : Type 0 where
  pub bytes : List ℕ

-- What the type `[u8; 32]` says of the bytes.
pub record IsH256 (h : H256) : Type 0 where
  pub size : length h.bytes ≡ 32
  pub all_bytes : All IsByte h.bytes

-- The derived `PartialEq`.
pub h256_beq : H256 → H256 → Bool
h256_beq a b = a.bytes == b.bytes

pub h256_beq_iff : (a b : H256) → (h256_beq a b ≡ true) ↔ (a ≡ b)
unfolding h256_beq
h256_beq_iff a b = (
  λ h. ground (arith, (list_eq {A = ℕ}).same_iff a.bytes b.bytes),
  λ h. ground (arith, (list_eq {A = ℕ}).same_iff a.bytes b.bytes),
)

instance unfoldable pub h256_eq : PartialEq H256
unfolding h256_beq
h256_eq = record { same_value = h256_beq; same_iff = h256_beq_iff }

-- `Ord::cmp`: the 16 high bytes as a `u128`, then the 16 low ones.
unfoldable pub cmp : H256 → H256 → Ordering
cmp self other =
    let self_higher = from_be_bytes (take 16 self.bytes) in
    let self_lower = from_be_bytes (take 16 (drop 16 self.bytes)) in
    let other_higher = from_be_bytes (take 16 other.bytes) in
    let other_lower = from_be_bytes (take 16 (drop 16 other.bytes)) in
    let higher = compare self_higher other_higher in
    elim higher [ eq ↦ compare self_lower other_lower | lt ↦ lt | gt ↦ gt ]

-- `a <= b` of `PartialOrd`, whose `partial_cmp` is `Some(cmp)`.
abbrev pub le : H256 → H256 → Bool
le a b = elim (cmp a b) [ gt ↦ false | lt ↦ true | eq ↦ true ]

-- `[0u8; 32].into()`
abbrev pub zeros : H256
zeros = record { bytes = replicate 32 0 }
