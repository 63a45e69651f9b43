-- ===== src/Prelude/HashMap.antt =====
-- `std::collections::HashMap` as an association list. The order of the list stands for no
-- behaviour of the program: code that iterates over a map takes the sequence of entries as an
-- argument.
use bitcoin_client.Prelude.Tests.{if◌then◌else◌, Bool-cases}
use bitcoin_client.Prelude.Equality.{PartialEq, ◌==◌, eq_refl, eq_false}
use mathlib.Core.Path.{◌≡◌, refl}
use mathlib.Core.Logic.{◌≢◌, ◌⊎◌, inl, inr}
use mathlib.Core.Bool.{Bool, true, false}
use mathlib.Core.List.{List, [], ◌∷◌}
use mathlib.Core.Option.{Option, none, some}
use native.Mathlib.Omega.{arith}

abbrev pub HashMap {ℓ κ} : Type ℓ → Type κ → Type (ℓ ⊔ κ)
HashMap K V = List (K × V)

abbrev pub is_some {ℓ} : {A : Type ℓ} → Option A → Bool
is_some none = false
is_some (some _) = true

module _ {ℓ κ} {K : Type ℓ} {V : Type κ} ⦃e : PartialEq K⦄ where
  unfoldable pub get : HashMap K V → K → Option V
  get [] k = none
  get ((j, v) ∷ m) k = if j == k then some v else get m k

  unfoldable pub insert : HashMap K V → K → V → HashMap K V
  insert [] k v = (k, v) ∷ []
  insert ((j, w) ∷ m) k v = if j == k then (k, v) ∷ m else (j, w) ∷ insert m k v

  unfoldable pub remove : HashMap K V → K → HashMap K V
  remove [] k = []
  remove ((j, w) ∷ m) k = if j == k then remove m k else (j, w) ∷ remove m k

  abbrev pub contains_key : HashMap K V → K → Bool
  contains_key m k = is_some (get m k)

  pub get-insert :
      (m : HashMap K V) (k : K) (v : V) (j : K)
      → get (insert m k v) j ≡ (if k == j then some v else get m j)
  unfolding get insert
  get-insert [] k v j = refl
  get-insert ((i, w) ∷ m) k v j =
      ground (arith, e.same_iff i k, e.same_iff i j, e.same_iff k j, get-insert m k v j)

  pub get-insert_self : (m : HashMap K V) (k : K) (v : V) → get (insert m k v) k ≡ some v
  get-insert_self m k v = simp (get-insert, eq_refl)

  pub get-remove :
      (m : HashMap K V) (k j : K) → get (remove m k) j ≡ (if k == j then none else get m j)
  unfolding get remove
  get-remove [] k j = ground arith
  get-remove ((i, w) ∷ m) k j =
      ground (arith, e.same_iff i k, e.same_iff i j, e.same_iff k j, get-remove m k j)

  -- What an entry of a map after an insertion was before.
  pub get-insert_cases :
      (m : HashMap K V) (k : K) (v : V) (j : K) {w : V}
      → get (insert m k v) j ≡ some w
      → ((k ≡ j) × (v ≡ w)) ⊎ ((k ≢ j) × (get m j ≡ some w))
  get-insert_cases m k v j h = elim (Bool-cases (k == j)) [
    | inl same ↦
        let h' : some v ≡ some _ = rw (get-insert m k v j, same) at h in
        inl ((e.same_iff k j).0 same, cc h')
    | inr other ↦ inr (λ p. cc ((e.same_iff k j).1 p), rw (get-insert m k v j, other) at h)
  ]

  pub get-insert_ne :
      (m : HashMap K V) (k : K) (v : V) (j : K) → k ≢ j → get (insert m k v) j ≡ get m j
  get-insert_ne m k v j n = rw (get-insert m k v j, eq_false k j n)

  pub get-insert_nil :
      (k : K) (v : V) (j : K) {w : V} → get (insert [] k v) j ≡ some w → (k ≡ j) × (v ≡ w)
  unfolding get
  get-insert_nil k v j h = elim (get-insert_cases [] k v j h) [ inl s ↦ s | inr o ↦ cc o.1 ]

  pub get-remove_ne : (m : HashMap K V) (k j : K) → k ≢ j → get (remove m k) j ≡ get m j
  get-remove_ne m k j n = rw (get-remove m k j, eq_false k j n)

  pub get-remove_self : (m : HashMap K V) (k : K) → get (remove m k) k ≡ none
  get-remove_self m k = rw (get-remove m k k, eq_refl k)
