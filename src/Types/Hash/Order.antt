-- ===== src/Types/Hash/Order.antt =====
-- The order of `H256` is that of the 256-bit number that its bytes spell.
use Prim.Native.Nat.Ordering.{lt, eq, gt}
use bitcoin_client.Prelude.{
  ℕ, zero, suc, [], ◌∷◌, ◌+◌, ◌*◌, ◌<◌, ◌≤◌, ◌≡◌, ◌↔◌, refl, sym, ap, ◌∙◌, List, take, drop, length,
  All, compare, arith, take-append-drop, length-take, length-drop, All-take, All-drop, ◌++◌,
}
use bitcoin_client.Prelude.Bytes.{
  IsByte, be_from, from_be_bytes, be_from-append, be_from-eq, be_from-lt, be_from-injective,
}
use bitcoin_client.Types.Hash.{H256, IsH256, cmp}

abbrev u128_mod : ℕ
u128_mod = 340282366920938463463374607431768211456

-- The number that a hash spells.
unfoldable pub value : H256 → ℕ
value h = from_be_bytes h.bytes

record IsHalf (bs : List ℕ) : Type 0 where
  size : length bs ≡ 16
  all_bytes : All IsByte bs

half-lt : (bs : List ℕ) → IsHalf bs → from_be_bytes bs < u128_mod
unfolding from_be_bytes
half-lt bs h = rw h.size at (be_from-lt 0 bs h.all_bytes)

from_be_bytes-append :
    (hi lo : List ℕ)
    → length lo ≡ 16
    → from_be_bytes (hi ++ lo) ≡ from_be_bytes hi * u128_mod + from_be_bytes lo
unfolding from_be_bytes
from_be_bytes-append hi lo h = be_from-append 0 hi lo ∙ rw h at (be_from-eq (be_from 0 hi) lo)

take_all : (n : ℕ) (xs : List ℕ) → length xs ≤ n → take n xs ≡ xs
take_all zero [] h = refl
take_all zero (x ∷ xs) h = absurd (omega arith)
take_all (suc n) [] h = refl
take_all (suc n) (x ∷ xs) h = ap (λ l. x ∷ l) (take_all n xs (omega arith))

abbrev high : H256 → List ℕ
high h = take 16 h.bytes

abbrev low : H256 → List ℕ
low h = take 16 (drop 16 h.bytes)

high-IsHalf : (h : H256) → IsH256 h → IsHalf (high h)
high-IsHalf h w = record {
  size = omega (arith, length-take {0} 16 h.bytes, w.size);
  all_bytes = All-take IsByte 16 h.bytes w.all_bytes;
}

length-drop_half : (h : H256) → IsH256 h → length (drop 16 h.bytes) ≡ 16
length-drop_half h w = omega (arith, length-drop {0} 16 h.bytes, w.size)

low-eq : (h : H256) → IsH256 h → low h ≡ drop 16 h.bytes
low-eq h w = take_all 16 (drop 16 h.bytes) (omega (arith, length-drop_half h w))

low-IsHalf : (h : H256) → IsH256 h → IsHalf (low h)
low-IsHalf h w =
    rw (low-eq h w)
      (record { size = length-drop_half h w; all_bytes = All-drop IsByte 16 h.bytes w.all_bytes })

value-halves :
    (h : H256) → IsH256 h → value h ≡ from_be_bytes (high h) * u128_mod + from_be_bytes (low h)
unfolding value
value-halves h w =
    ap from_be_bytes (sym (take-append-drop 16 h.bytes))
    ∙ ap (λ l. from_be_bytes (high h ++ l)) (sym (low-eq h w))
    ∙ from_be_bytes-append (high h) (low h) (low-IsHalf h w).size

lex-compare :
    (a b c d : ℕ)
    → b < u128_mod
    → d < u128_mod
    → elim (compare a c) [ eq ↦ compare b d | lt ↦ lt | gt ↦ gt ]
      ≡ compare (a * u128_mod + b) (c * u128_mod + d)
lex-compare a b c d hb hd = ground arith

-- `cmp` compares the 256-bit numbers.
pub cmp-eq-compare : (a b : H256) → IsH256 a → IsH256 b → cmp a b ≡ compare (value a) (value b)
unfolding cmp
cmp-eq-compare a b ha hb =
    rw (value-halves a ha, value-halves b hb)
      (lex-compare _ _ _ _ (half-lt (low a) (low-IsHalf a ha)) (half-lt (low b) (low-IsHalf b hb)))

value-injective : (a b : H256) → IsH256 a → IsH256 b → value a ≡ value b → a ≡ b
unfolding value from_be_bytes
value-injective a b ha hb e =
    let same =
      (be_from-injective 0 0 a.bytes b.bytes (omega (arith, ha.size, hb.size)) ha.all_bytes
        hb.all_bytes e).1 in
    λ i. record { bytes = same i }

-- `cmp` is consistent with the derived `PartialEq`.
cmp-eq_iff : (a b : H256) → IsH256 a → IsH256 b → (cmp a b ≡ eq) ↔ (a ≡ b)
cmp-eq_iff a b ha hb = (
  λ h. value-injective a b ha hb (ground (arith, cmp-eq-compare a b ha hb)),
  λ h. ground (arith, cmp-eq-compare a b ha hb, ap value h),
)
