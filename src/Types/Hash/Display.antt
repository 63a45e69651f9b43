-- ===== src/Types/Hash/Display.antt =====
-- `Display` of src/types/hash.rs: lower-case hexadecimal, as ASCII codes.
use bitcoin_client.Prelude.{
  ℕ, ◌+◌, ◌-◌, ◌*◌, ◌/◌, ◌%◌, ◌<◌, ◌≡◌, refl, List, [], ◌∷◌, Option, none, some, ltb, leb,
  if◌then◌else◌, length, drop, All, arith, length-drop,
}
use bitcoin_client.Prelude.Bytes.{IsByte}
use bitcoin_client.Types.Hash.{H256, IsH256}

hex_digit : ℕ → ℕ
hex_digit n = if ltb n 10 then 48 + n else 87 + n

-- `write!(f, "{:>02x}", byte)` for each byte of the slice.
unfoldable pub write_hex : List ℕ → List ℕ
unfolding hex_digit
write_hex [] = []
write_hex (b ∷ bs) = hex_digit (b / 16) ∷ hex_digit (b % 16) ∷ write_hex bs

-- The first byte that is written, out of `size`.
unfoldable pub start : ℕ → Option ℕ → ℕ
start size none = 0
start size (some precision) = if leb (2 * size) precision then 0 else size - precision / 2

unfoldable pub display : Option ℕ → H256 → List ℕ
unfolding write_hex start
display precision h = write_hex (drop (start 32 precision) h.bytes)

-- `to_string()`: no precision.
unfoldable pub to_string : H256 → List ℕ
unfolding display
to_string h = display none h

length-write_hex : (bs : List ℕ) → length (write_hex bs) ≡ 2 * length bs
unfolding write_hex
length-write_hex [] = refl
length-write_hex (b ∷ bs) = omega (arith, length-write_hex bs)

-- With a precision the print has that many digits, down to an even number, and at most 64.
pub length-display :
    (precision : ℕ) (h : H256)
    → IsH256 h
    → length (display (some precision) h) ≡ (if leb 64 precision then 64 else 2 * (precision / 2))
unfolding display
length-display precision h w = ground (
  arith,
  length-write_hex (drop (start 32 (some precision)) h.bytes),
  length-drop (start 32 (some precision)) h.bytes,
)

hex_digit-injective : (a b : ℕ) → a < 16 → b < 16 → hex_digit a ≡ hex_digit b → a ≡ b
unfolding hex_digit
hex_digit-injective a b ha hb e = ground arith

write_hex-injective :
    (xs ys : List ℕ) → All IsByte xs → All IsByte ys → write_hex xs ≡ write_hex ys → xs ≡ ys
unfolding write_hex
write_hex-injective [] [] hx hy e = refl
write_hex-injective [] (y ∷ ys) hx hy e = cc
write_hex-injective (x ∷ xs) [] hx hy e = cc
write_hex-injective (x ∷ xs) (y ∷ ys) hx hy e = ground (
  arith,
  hex_digit-injective (x / 16) (y / 16),
  hex_digit-injective (x % 16) (y % 16),
  write_hex-injective xs ys hx.1 hy.1,
)

-- Different hashes print differently.
pub to_string-injective : (a b : H256) → IsH256 a → IsH256 b → to_string a ≡ to_string b → a ≡ b
unfolding to_string
to_string-injective a b ha hb e =
    ground (arith, write_hex-injective a.bytes b.bytes ha.all_bytes hb.all_bytes)
