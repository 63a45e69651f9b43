-- ===== src/Prelude/Equality.antt =====
-- Rust's `PartialEq`, with the law of a derived instance: `==` is true exactly at equal values.
use Prim.Native.Nat.{ℕ}
use mathlib.Core.Path.{◌≡◌, refl}
use mathlib.Core.Logic.{◌↔◌, ◌≢◌, inl, inr}
use mathlib.Core.Bool.{Bool, true, false, ◌&&◌}
use mathlib.Core.List.{List, [], ◌∷◌}
use native.Mathlib.Omega.{arith}
use bitcoin_client.Prelude.Tests.{◌=?◌, =?_iff, Bool-cases}

pub record PartialEq {ℓ} (T : Type ℓ) : Type ℓ where
  pub same_value : T → T → Bool
  pub same_iff : (self other : T) → (same_value self other ≡ true) ↔ (self ≡ other)

module _ {ℓ} {T : Type ℓ} ⦃t : PartialEq T⦄ where
  infix 50 ◌==◌
  abbrev pub ◌==◌ : T → T → Bool
  ◌==◌ self other = t.same_value self other

instance unfoldable pub nat_eq : PartialEq ℕ
nat_eq = record { same_value = ◌=?◌; same_iff = =?_iff }

module _ {ℓ} {A : Type ℓ} ⦃e : PartialEq A⦄ where
  pub eq_refl : (a : A) → e.same_value a a ≡ true
  eq_refl a = (e.same_iff a a).1 refl

  pub eq_false : (a b : A) → a ≢ b → e.same_value a b ≡ false
  eq_false a b n = elim (Bool-cases (e.same_value a b)) [
    | inl h ↦ absurd (n ((e.same_iff a b).0 h))
    | inr h ↦ h
  ]

  unfoldable pub list_beq : List A → List A → Bool
  list_beq [] [] = true
  list_beq [] (y ∷ ys) = false
  list_beq (x ∷ xs) [] = false
  list_beq (x ∷ xs) (y ∷ ys) = e.same_value x y && list_beq xs ys

  pub list_beq_iff : (xs ys : List A) → (list_beq xs ys ≡ true) ↔ (xs ≡ ys)
  unfolding list_beq
  list_beq_iff [] [] = (λ _. refl, λ _. refl)
  list_beq_iff [] (y ∷ ys) = (λ h. cc, λ h. cc)
  list_beq_iff (x ∷ xs) [] = (λ h. cc, λ h. cc)
  list_beq_iff (x ∷ xs) (y ∷ ys) = (
    λ h. ground (arith, e.same_iff x y, list_beq_iff xs ys),
    λ h. ground (arith, e.same_iff x y, list_beq_iff xs ys),
  )

  instance unfoldable pub list_eq : PartialEq (List A)
  list_eq = record { same_value = list_beq; same_iff = list_beq_iff }

module _ {ℓ κ} {A : Type ℓ} {B : Type κ} ⦃a : PartialEq A⦄ ⦃b : PartialEq B⦄ where
  pub pair_beq : A × B → A × B → Bool
  pair_beq x y = a.same_value x.0 y.0 && b.same_value x.1 y.1

  pub pair_beq_iff : (x y : A × B) → (pair_beq x y ≡ true) ↔ (x ≡ y)
  unfolding pair_beq
  pair_beq_iff x y = (
    λ h. ground (arith, a.same_iff x.0 y.0, b.same_iff x.1 y.1),
    λ h. ground (arith, a.same_iff x.0 y.0, b.same_iff x.1 y.1),
  )

  instance unfoldable pub pair_eq : PartialEq (A × B)
  unfolding pair_beq
  pair_eq = record { same_value = pair_beq; same_iff = pair_beq_iff }
