-- ===== src/Types/Merkle/Binding.antt =====
-- A Merkle root binds its leaves: a proof of the full length for another hash at an index yields
-- two of the byte strings that the two proofs digest, with one digest.
use bitcoin_client.Prelude.{
  lt-get_elem?, All-get_elem?, ℕ, ◌+◌, ◌/◌, ◌%◌, ◌<◌, ◌≡◌, ◌≢◌, ◌⊎◌, inl, inr, refl, sym, ap, ◌∙◌,
  true, List, [], ◌∷◌, ◌++◌, map, some, >>=-eq-some, ◌=?◌, if◌then◌else◌, Bool-cases, length,
  length-map, get_elem?, arith, ◌==◌, nat_eq, list_eq, All, In,
}
use bitcoin_client.Types.Hash.{H256, IsH256, h256_eq}
use bitcoin_client.Types.Crypto.{Crypto, IsCrypto, digest, digest-IsH256}
use bitcoin_client.Types.Merkle.{
  MerkleTree, combine, new, fold_proof, verify, root, sibling, proof_from, proof,
}
use bitcoin_client.Types.Merkle.Build.{pairs, Tower, single, paired, new-IsTreeOf}
use bitcoin_client.Types.Merkle.Proof.{verify-proof, verify_in_range, gt→leb_false}

-- Two different byte strings with one digest.
abbrev pub Clash : Crypto → List ℕ → List ℕ → Type 0
Clash c first second = (first ≢ second) × (c.sha256 first ≡ c.sha256 second)

-- A string of the one list clashes with one of the other.
pub record Collision (c : Crypto) (firsts seconds : List (List ℕ)) : Type 0 where
  pub first : List ℕ
  pub second : List ℕ
  pub among_firsts : In first firsts
  pub among_seconds : In second seconds
  pub clash : Clash c first second

-- Equal digests are of equal strings, or the strings clash.
digest_cases : (c : Crypto) (xs ys : List ℕ) → digest c xs ≡ digest c ys → (xs ≡ ys) ⊎ Clash c xs ys
unfolding digest
digest_cases c xs ys e = elim (Bool-cases (xs == ys)) [
  | inl same ↦ inl ((list_eq.same_iff xs ys).0 same)
  | inr other ↦ inr (λ p. cc ((list_eq.same_iff xs ys).1 p), ap (λ (h : H256). h.bytes) e)
]

append_cancel :
    (xs ys xs' ys' : List ℕ)
    → length xs ≡ length xs'
    → xs ++ ys ≡ xs' ++ ys'
    → (xs ≡ xs') × (ys ≡ ys')
append_cancel [] ys [] ys' l e = (refl, e)
append_cancel [] ys (x ∷ xs') ys' l e = absurd (omega arith)
append_cancel (x ∷ xs) ys [] ys' l e = absurd (omega arith)
append_cancel (x ∷ xs) ys (y ∷ xs') ys' l e =
    let t : xs ++ ys ≡ xs' ++ ys' = cc in
    let h : x ≡ y = cc in
    let (p, q) = append_cancel xs ys xs' ys' (omega arith) t in (λ i. h i ∷ p i, q)

h256_path : (a b : H256) → a.bytes ≡ b.bytes → a ≡ b
h256_path a b e = λ i. record { bytes = e i }

combine_cases :
    (c : Crypto) (a b a' b' : H256)
    → IsH256 a
    → IsH256 a'
    → combine c a b ≡ combine c a' b'
    → ((a ≡ a') × (b ≡ b')) ⊎ Clash c (a.bytes ++ b.bytes) (a'.bytes ++ b'.bytes)
unfolding combine
combine_cases c a b a' b' w w' e =
    elim (digest_cases c (a.bytes ++ b.bytes) (a'.bytes ++ b'.bytes) e) [
      | inl same ↦
          let (p, q) =
            append_cancel a.bytes b.bytes a'.bytes b'.bytes (omega (arith, w.size, w'.size)) same in
          inl (h256_path a a' p, h256_path b b' q)
      | inr bad ↦ inr bad
    ]

abbrev step : Crypto → H256 → H256 → ℕ → H256
step c d x i = if i % 2 =? 0 then combine c d x else combine c x d

-- What a step of the fold digests.
abbrev pub preimage : H256 → H256 → ℕ → List ℕ
preimage d x i = if i % 2 =? 0 then d.bytes ++ x.bytes else x.bytes ++ d.bytes

-- What the fold of a proof digests, from the leaf up.
abbrev pub folded : Crypto → H256 → ℕ → List H256 → List (List ℕ)
folded c d i [] = []
folded c d i (x ∷ p) = preimage d x i ∷ folded c (step c d x i) (i / 2) p

step_cases :
    (c : Crypto) (d x d' x' : H256) (i : ℕ)
    → IsH256 d
    → IsH256 x
    → IsH256 d'
    → IsH256 x'
    → step c d x i ≡ step c d' x' i
    → (d ≡ d') ⊎ Clash c (preimage d x i) (preimage d' x' i)
step_cases c d x d' x' i wd wx wd' wx' e = elim (Bool-cases (i % 2 =? 0)) [
  | inl even ↦ elim (combine_cases c d x d' x' wd wd' (rw even at e)) [
    | inl s ↦ inl s.0
    | inr bad ↦ inr (rw even bad)
  ]
  | inr odd ↦ elim (combine_cases c x d x' d' wx wx' (rw odd at e)) [
    | inl s ↦ inl s.1
    | inr bad ↦ inr (rw odd bad)
  ]
]

step-IsH256 : (c : Crypto) → IsCrypto c → (d x : H256) (i : ℕ) → IsH256 (step c d x i)
unfolding combine
step-IsH256 c w d x i = elim (Bool-cases (i % 2 =? 0)) [
  | inl even ↦ rw even (digest-IsH256 c w _)
  | inr odd ↦ rw odd (digest-IsH256 c w _)
]

fold_cases :
    (c : Crypto) (w : IsCrypto c) (p p' : List H256) (d d' : H256) (i : ℕ)
    → length p ≡ length p'
    → IsH256 d
    → IsH256 d'
    → All IsH256 p
    → All IsH256 p'
    → fold_proof c d i p ≡ fold_proof c d' i p'
    → (d ≡ d') ⊎ Collision c (folded c d i p) (folded c d' i p')
unfolding fold_proof
fold_cases c w [] [] d d' i l wd wd' wp wp' e = inl e
fold_cases c w [] (x ∷ p') d d' i l wd wd' wp wp' e = absurd (omega arith)
fold_cases c w (x ∷ p) [] d d' i l wd wd' wp wp' e = absurd (omega arith)
fold_cases c w (x ∷ p) (x' ∷ p') d d' i l wd wd' wp wp' e =
    elim (fold_cases c w p p' (step c d x i) (step c d' x' i) (i / 2) (omega arith)
      (step-IsH256 c w d x i) (step-IsH256 c w d' x' i) wp.1 wp'.1 e) [
        | inl same ↦ elim (step_cases c d x d' x' i wd wp.0 wd' wp'.0 same) [
          | inl equal ↦ inl equal
          | inr clash ↦ inr (record {
            first = preimage d x i;
            second = preimage d' x' i;
            among_firsts = inl refl;
            among_seconds = inl refl;
            clash = clash;
          })
        ]
        | inr bad ↦ inr (record {
          first = bad.first;
          second = bad.second;
          among_firsts = inr bad.among_firsts;
          among_seconds = inr bad.among_seconds;
          clash = bad.clash;
        })
      ]

pairs-IsH256 : (c : Crypto) → IsCrypto c → (level : List H256) → All IsH256 (pairs c level)
unfolding pairs combine
pairs-IsH256 c w [] = tt
pairs-IsH256 c w (x ∷ []) = tt
pairs-IsH256 c w (x ∷ y ∷ rest) = (digest-IsH256 c w _, pairs-IsH256 c w rest)

-- The hashes of a proof are those of the tree.
proof_from-IsH256 :
    {c : Crypto} {level : List H256} {above : List (List H256)}
    → IsCrypto c
    → Tower c level above
    → All IsH256 level
    → (i : ℕ) {p : List H256} → proof_from (level ∷ above) i ≡ some p
    → All IsH256 p
unfolding proof_from
proof_from-IsH256 w (single h) a i {p} e = let n : [] ≡ p = cc in rw (← n) tt
proof_from-IsH256 {c} w (paired {level = level} {padded = padded} {above = above} even pd t) a i {p}
      e =
    let (s, es, e') = >>=-eq-some (get_elem? level (sibling i)) _ e in
    let (rest, er, e'') = >>=-eq-some (proof_from (padded ∷ above) (i / 2)) _ e' in
    let n : s ∷ rest ≡ p = cc in
    rw (← n) (
      All-get_elem? IsH256 level (sibling i) a es,
      proof_from-IsH256 w t (pd.bytes (pairs-IsH256 c w level)) (i / 2) er,
    )

map-IsH256 :
    {T : Type 0} (hash : T → H256)
    → ((x : T) → IsH256 (hash x))
    → (items : List T) → All IsH256 (map hash items)
map-IsH256 hash h [] = tt
map-IsH256 hash h (x ∷ items) = (h x, map-IsH256 hash h items)

proof-IsH256 :
    {T : Type 0} (c : Crypto) (hash : T → H256) (items : List T) (i : ℕ) {t : MerkleTree}
    {p : List H256}
    → IsCrypto c
    → ((x : T) → IsH256 (hash x))
    → i < length items
    → new c hash items ≡ some t
    → proof t i ≡ some p
    → All IsH256 p
unfolding proof
proof-IsH256 c hash [] i w h l en ep = elim l [ ]
proof-IsH256 c hash (x ∷ items) i {t} {p} w h l en ep =
    let (t', en', b) = new-IsTreeOf c hash x items in
    let same : t' ≡ t = cc in
    let levels : t.tree_list ≡ b.leaves ∷ b.above = rw same at b.levels in
    let inside : i < length b.leaves = omega (arith, b.padded.long, length-map hash (x ∷ items)) in
    let ep' = rw (levels, gt→leb_false (length b.leaves) i inside) at ep in
    proof_from-IsH256 w b.tower (b.padded.bytes (map-IsH256 hash h (x ∷ items))) i ep'

-- Let the tree of some items have the given root. If `verify` accepts a hash at the index of an
-- item, with a proof that has a hash for each level below the root, then the hash is that of the
-- item, or SHA-256 has a collision in what was digested here: a string that `verify` digests on the
-- way up from the hash, and another string with the same digest that it digests on the way up from
-- the item with the tree's own proof.
pub verify_binding :
    {T : Type 0} (c : Crypto) (hash : T → H256) (items : List T) (i : ℕ) {x : T} {t : MerkleTree}
    {r : H256} (d : H256) (p : List H256)
    → IsCrypto c
    → ((y : T) → IsH256 (hash y))
    → get_elem? items i ≡ some x
    → new c hash items ≡ some t
    → root t ≡ some r
    → IsH256 d
    → All IsH256 p
    → length p + 1 ≡ length t.tree_list
    → verify c r d p i (length items) ≡ true
    → (d ≡ hash x)
      ⊎ ((q : List H256) × (proof t i ≡ some q)
          × Collision c (folded c d i p) (folded c (hash x) i q))
verify_binding c hash items i {x} {t} {r} d p w h e en er wd wp l a =
    let v = verify-proof c hash items i e in
    let inside = lt-get_elem? items i e in
    let same : v.tree ≡ t = cc v.new_eq in
    let same_root : v.tree_root ≡ r = cc (rw same at v.root_eq) in
    let accepted : fold_proof c d i p ≡ r =
      (h256_eq.same_iff _ _).0 (rw (verify_in_range c r d p i (length items) inside) at a) in
    let honest : fold_proof c (hash x) i v.path ≡ v.tree_root =
      (h256_eq.same_iff _ _).0 (
        rw (verify_in_range c v.tree_root (hash x) v.path i (length items) inside) at v.accepted) in
    elim (fold_cases c w p v.path d (hash x) i
      (omega (arith, v.path_length, ap (λ (t : MerkleTree). length t.tree_list) same)) wd (h x) wp
      (proof-IsH256 c hash items i w h inside v.new_eq v.proof_eq)
      (accepted ∙ sym same_root ∙ sym honest)) [
        | inl equal ↦ inl equal
        | inr bad ↦ inr (v.path, rw same at v.proof_eq, bad)
      ]
