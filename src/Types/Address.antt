-- ===== src/Types/Address.antt =====
-- `Address` of src/types/address.rs: the last 20 bytes of the digest of a public key.
use bitcoin_client.Prelude.{
  ℕ, ◌-◌, ◌≡◌, ◌↔◌, Bool, true, List, [], ◌∷◌, ◌++◌, Option, some, PartialEq, ◌==◌, nat_eq, list_eq,
  length, drop, All, get_elem?, ◌>>=◌, arith,
}
use bitcoin_client.Prelude.Bytes.{IsByte}
use bitcoin_client.Types.Hash.Display.{write_hex, start}

-- `struct Address(pub [u8; 20])`
pub record Address : Type 0 where
  pub bytes : List ℕ

-- What the type `[u8; 20]` says of the bytes.
pub record IsAddress (a : Address) : Type 0 where
  pub size : length a.bytes ≡ 20
  pub all_bytes : All IsByte a.bytes

-- The derived `PartialEq`.
pub address_beq : Address → Address → Bool
address_beq a b = a.bytes == b.bytes

pub address_beq_iff : (a b : Address) → (address_beq a b ≡ true) ↔ (a ≡ b)
unfolding address_beq
address_beq_iff a b = (
  λ h. ground (arith, (list_eq {A = ℕ}).same_iff a.bytes b.bytes),
  λ h. ground (arith, (list_eq {A = ℕ}).same_iff a.bytes b.bytes),
)

instance unfoldable pub address_eq : PartialEq Address
unfolding address_beq
address_eq = record { same_value = address_beq; same_iff = address_beq_iff }

-- `slice_array`: the last 20 bytes. Fewer than 20 bytes would panic, and no digest is that short.
unfoldable pub slice_array : List ℕ → Address
slice_array b = record { bytes = drop (length b - 20) b }

-- `from_public_key_bytes`, for the digest function `sha256`.
unfoldable pub from_public_key_bytes : (List ℕ → List ℕ) → List ℕ → Address
unfolding slice_array
from_public_key_bytes sha256 bytes = slice_array (sha256 bytes)

-- `Display`, with the precision of the format string.
pub display : Option ℕ → Address → List ℕ
unfolding write_hex start
display precision a = write_hex (drop (start 20 precision) a.bytes)

-- `Debug`: the first two bytes and the last two.
pub debug : Address → Option (List ℕ)
unfolding write_hex
debug a = do
  b0 ← get_elem? a.bytes 0
  b1 ← get_elem? a.bytes 1
  b18 ← get_elem? a.bytes 18
  b19 ← get_elem? a.bytes 19
  some (write_hex (b0 ∷ b1 ∷ []) ++ (b'.' ∷ b'.' ∷ write_hex (b18 ∷ b19 ∷ [])))
