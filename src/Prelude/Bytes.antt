-- ===== src/Prelude/Bytes.antt =====
-- Big-endian byte strings: `from_be_bytes` and `u32::to_be_bytes`.
use Prim.Native.Nat.{ℕ, ◌+◌, ◌*◌, ◌/◌, ◌%◌, ◌^◌, ◌<◌}
use mathlib.Core.Path.{◌≡◌, refl}
use mathlib.Core.List.{List, [], ◌∷◌, ◌++◌}
use native.Mathlib.Nat.{pow-suc, pow-zero}
use native.Mathlib.Omega.{arith}
use bitcoin_client.Prelude.Tests.{u32_mod}
use bitcoin_client.Prelude.Lists.{length, All}

abbrev pub IsByte : ℕ → Type 0
IsByte b = b < 256

-- The value of the bytes read so far, and the rest.
unfoldable pub be_from : ℕ → List ℕ → ℕ
be_from acc [] = acc
be_from acc (b ∷ bs) = be_from (acc * 256 + b) bs

unfoldable pub from_be_bytes : List ℕ → ℕ
unfolding be_from
from_be_bytes bs = be_from 0 bs

unfoldable pub u32_to_be_bytes : ℕ → List ℕ
u32_to_be_bytes n = (n / 16777216 % 256) ∷ (n / 65536 % 256) ∷ (n / 256 % 256) ∷ (n % 256) ∷ []

pub be_from-append :
    (acc : ℕ) (xs ys : List ℕ) → be_from acc (xs ++ ys) ≡ be_from (be_from acc xs) ys
unfolding be_from
be_from-append acc [] ys = refl
be_from-append acc (x ∷ xs) ys = be_from-append (acc * 256 + x) xs ys

pub be_from-eq : (acc : ℕ) (xs : List ℕ) → be_from acc xs ≡ acc * 256 ^ length xs + be_from 0 xs
unfolding be_from
be_from-eq acc [] = rw pow-zero (omega arith)
be_from-eq acc (x ∷ xs) =
    rw pow-suc (omega (arith, be_from-eq (acc * 256 + x) xs, be_from-eq (0 * 256 + x) xs))

pub be_from-lt :
    (acc : ℕ) (xs : List ℕ) → All IsByte xs → be_from acc xs < (acc + 1) * 256 ^ length xs
unfolding be_from
be_from-lt acc [] h = rw pow-zero (omega arith)
be_from-lt acc (x ∷ xs) h = rw pow-suc (grind (arith, be_from-lt (acc * 256 + x) xs h.1))

-- The bytes of a number of known length are determined by the number.
pub be_from-injective :
    (a b : ℕ) (xs ys : List ℕ)
    → length xs ≡ length ys
    → All IsByte xs
    → All IsByte ys
    → be_from a xs ≡ be_from b ys
    → (a ≡ b) × (xs ≡ ys)
unfolding be_from
be_from-injective a b [] [] l hx hy e = (e, refl)
be_from-injective a b [] (y ∷ ys) l hx hy e = absurd (omega arith)
be_from-injective a b (x ∷ xs) [] l hx hy e = absurd (omega arith)
be_from-injective a b (x ∷ xs) (y ∷ ys) l hx hy e =
    let (front, rest) =
      be_from-injective (a * 256 + x) (b * 256 + y) xs ys (omega arith) hx.1 hy.1 e in
    let same : a ≡ b = omega arith in
    let first : x ≡ y = omega arith in (same, λ i. first i ∷ rest i)

pub from_be_bytes-u32_to_be_bytes : (n : ℕ) → n < u32_mod → from_be_bytes (u32_to_be_bytes n) ≡ n
unfolding from_be_bytes u32_to_be_bytes
from_be_bytes-u32_to_be_bytes n h = omega arith

pub u32_to_be_bytes-IsByte : (n : ℕ) → All IsByte (u32_to_be_bytes n)
unfolding u32_to_be_bytes
u32_to_be_bytes-IsByte n = omega arith
