-- ===== src/Api/Parse.antt =====
-- `parse` of the parameters of src/api/mod.rs.
use bitcoin_client.Prelude.{
  ℕ, Option, none, ◌+◌, ◌-◌, ◌*◌, ◌≤◌, ◌<◌, ◌≡◌, ◌≢◌, ◌↔◌, refl, inl, inr, List, [], ◌∷◌, some,
  ◌=?◌, if◌then◌else◌, All, Bool-cases, Option-cases, some-injective, ap, ◌∙◌, arith,
}
use bitcoin_client.Types.Crypto.{Crypto}
use bitcoin_client.Node.{Node}
use bitcoin_client.Api.{
  parse_digits, parse_unsigned, parse_uint, u64_mod, Response, Command, ok, start_miner,
  miner_start, respond, on_parsed,
}

-- The number that digits write.
abbrev pub decimal : ℕ → List ℕ → ℕ
decimal acc [] = acc
decimal acc (b ∷ bs) = decimal (acc * 10 + (b - 48)) bs

abbrev pub IsDigit : ℕ → Type 0
IsDigit b = (48 ≤ b) × (b ≤ 57)

-- The digits of the text, after a `+` if there is one.
abbrev pub unsigned : List ℕ → List ℕ
unsigned [] = []
unsigned (b ∷ bs) = if b =? 43 then bs else b ∷ bs

decimal_le : (acc : ℕ) (bs : List ℕ) → acc ≤ decimal acc bs
decimal_le acc [] = omega arith
decimal_le acc (b ∷ bs) = omega (arith, decimal_le (acc * 10 + (b - 48)) bs)

parse_digits-eq :
    (limit acc n : ℕ) (bs : List ℕ)
    → parse_digits limit acc bs ≡ some n
    → All IsDigit bs × (decimal acc bs ≡ n) × ((acc < limit) → n < limit)
unfolding parse_digits
parse_digits-eq limit acc n [] h = let e : acc ≡ n = cc in ground arith
parse_digits-eq limit acc n (b ∷ bs) h =
    ground (arith, parse_digits-eq limit (acc * 10 + (b - 48)) n bs)

parse_digits_accepts :
    (limit acc : ℕ) (bs : List ℕ)
    → All IsDigit bs
    → decimal acc bs < limit
    → parse_digits limit acc bs ≡ some (decimal acc bs)
unfolding parse_digits
parse_digits_accepts limit acc [] a l = refl
parse_digits_accepts limit acc (b ∷ bs) a l = ground (
  arith,
  parse_digits_accepts limit (acc * 10 + (b - 48)) bs a.1 l,
  decimal_le (acc * 10 + (b - 48)) bs,
  a.0,
)

parse_unsigned_iff :
    (limit n : ℕ) (bs : List ℕ)
    → 0 < limit
    → (parse_unsigned limit bs ≡ some n)
      ↔ ((bs ≢ []) × All IsDigit bs × (decimal 0 bs ≡ n) × (n < limit))
unfolding parse_unsigned
parse_unsigned_iff limit n [] p = (λ h. cc, λ h. absurd (h.0 refl))
parse_unsigned_iff limit n (b ∷ bs) p = (
  λ h. (
    λ e. cc,
    (parse_digits-eq limit 0 n (b ∷ bs) h).0,
    (parse_digits-eq limit 0 n (b ∷ bs) h).1,
    (parse_digits-eq limit 0 n (b ∷ bs) h).2 p,
  ),
  λ (_, a, e, l). rw (← e) (parse_digits_accepts limit 0 (b ∷ bs) a (rw e l)),
)

-- A parameter is parsed to a number exactly when it has decimal digits and nothing else after an
-- optional `+`, they write that number, and the number is below the type's limit.
pub parse_uint_iff :
    (limit n : ℕ) (bs : List ℕ)
    → 0 < limit
    → (parse_uint limit bs ≡ some n) ↔ (
        (unsigned bs ≢ [])
        × All IsDigit (unsigned bs)
        × (decimal 0 (unsigned bs) ≡ n)
        × (n < limit))
unfolding parse_uint
parse_uint_iff limit n [] p = (λ h. cc, λ h. absurd (h.0 refl))
parse_uint_iff limit n (b ∷ bs) p = elim (Bool-cases (b =? 43)) [
  | inl plus ↦ rw plus (parse_unsigned_iff limit n bs p)
  | inr digit ↦ rw digit (parse_unsigned_iff limit n (b ∷ bs) p)
]

module _ (c : Crypto) (node : Node) where
  started :
      (param : Option (List ℕ)) (n : ℕ)
      → respond c node miner_start param ≡ some (ok, start_miner n)
      → (bs : List ℕ) × (param ≡ some bs) × (parse_uint u64_mod bs ≡ some n)
  unfolding respond
  started none n h = cc
  started (some bs) n h = elim (Option-cases (parse_uint u64_mod bs)) [
    | inl wrong ↦ cc (rw wrong at h)
    | inr (k, parsed) ↦
        let pair : ◌≡◌ {A = Response × Command} (ok, start_miner k) (ok, start_miner n) =
          some-injective (rw parsed at h) in
        let same : k ≡ n = cc in (bs, refl, parsed ∙ ap some same)
  ]

  starts :
      (bs : List ℕ) (n : ℕ)
      → parse_uint u64_mod bs ≡ some n
      → respond c node miner_start (some bs) ≡ some (ok, start_miner n)
  unfolding respond
  starts bs n h = ap (λ m. on_parsed m (λ lambda. some (ok, start_miner lambda))) h

  -- "/miner/start" answers "ok" and starts the miner with a number exactly when the parameter is
  -- there, has decimal digits and nothing else after an optional `+`, and they write that number,
  -- which is below 2 ^ 64.
  pub miner_start_iff :
      (param : Option (List ℕ)) (n : ℕ)
      → (respond c node miner_start param ≡ some (ok, start_miner n)) ↔ (
          (bs : List ℕ) × (param ≡ some bs)
          × (unsigned bs ≢ [])
          × All IsDigit (unsigned bs)
          × (decimal 0 (unsigned bs) ≡ n)
          × (n < u64_mod))
  miner_start_iff param n = (
    λ h.
        let (bs, there, parsed) = started param n h in
        let r = (parse_uint_iff u64_mod n bs (omega arith)).0 parsed in
        (bs, there, r.0, r.1, r.2, r.3),
    λ (bs, there, some_digit, digits, written, small). rw there (
        starts bs n
          ((parse_uint_iff u64_mod n bs (omega arith)).1 (some_digit, digits, written, small))),
  )
