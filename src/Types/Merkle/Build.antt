-- ===== src/Types/Merkle/Build.antt =====
-- Building a Merkle tree neither panics nor runs out of fuel.
use bitcoin_client.Prelude.{
  All-get_elem?, get_elem?-append, ℕ, zero, suc, ◌+◌, ◌-◌, ◌*◌, ◌%◌, ◌≤◌, ◌<◌, ◌≡◌, refl, ◌⊎◌, inl,
  inr, not, ◌&&◌, List, [], ◌∷◌, ◌++◌, map, some, ◌=?◌, Bool-cases, length, length-append, All,
  All-append, get_elem?, arith,
}
use bitcoin_client.Types.Hash.{H256, IsH256}
use bitcoin_client.Types.Crypto.{Crypto}
use bitcoin_client.Types.Merkle.{MerkleTree, pad, next_level, build, new, combine}

-- A level of a tree: one hash, or pairs.
pub record IsLevel (level : List H256) : Type 0 where
  pub nonempty : 1 ≤ length level
  pub paired : (length level ≡ 1) ⊎ (length level % 2 ≡ 0)

pub get_elem?-lt : (xs : List H256) (i : ℕ) → i < length xs → (x : H256) × (get_elem? xs i ≡ some x)
get_elem?-lt [] i h = elim h [ ]
get_elem?-lt (x ∷ xs) zero h = (x, refl)
get_elem?-lt (x ∷ xs) (suc i) h = get_elem?-lt xs i (omega arith)

-- What `pad` gives: a level, that has the given hashes at their places.
pub record IsPadded (level padded : List H256) : Type 0 where
  pub level_ok : IsLevel padded
  pub long : length level ≤ length padded
  pub bytes : All IsH256 level → All IsH256 padded
  pub short : length padded ≤ length level + length level % 2
  pub keeps : (i : ℕ) {x : H256} → get_elem? level i ≡ some x → get_elem? padded i ≡ some x

pub pad_total :
    (level : List H256)
    → 1 ≤ length level
    → (p : List H256) × (pad level ≡ some p) × IsPadded level p
unfolding pad
pad_total level h = elim (Bool-cases (not (length level =? 1) && not (length level % 2 =? 0))) [
  | inl odd ↦
      let (last, e) = get_elem?-lt level (length level - 1) (omega arith) in
      let grown : length (level ++ last ∷ []) ≡ length level + 1 =
        length-append level (last ∷ []) in
      (
        level ++ last ∷ [],
        rw (odd, e),
        record {
          level_ok = record { nonempty = omega arith; paired = inr (ground arith) };
          long = omega arith;
          bytes = λ a.
              All-append IsH256 level (last ∷ []) a
                (All-get_elem? IsH256 level (length level - 1) a e, tt);
          short = ground arith;
          keeps = λ i. get_elem?-append level (last ∷ []) i;
        },
      )
  | inr even ↦ (
    level,
    rw even,
    record {
      level_ok = record { nonempty = h; paired = ground arith };
      long = omega arith;
      bytes = λ a. a;
      short = omega arith;
      keeps = λ i e. e;
    },
  )
]

-- The next level up, where the hashes come in pairs.
unfoldable pub pairs : Crypto → List H256 → List H256
pairs c [] = []
pairs c (x ∷ []) = []
pairs c (x ∷ y ∷ rest) = combine c x y ∷ pairs c rest

next_level-eq :
    (c : Crypto) (level : List H256)
    → length level % 2 ≡ 0
    → next_level c level ≡ some (pairs c level)
unfolding next_level pairs
next_level-eq c [] h = refl
next_level-eq c (x ∷ []) h = absurd (omega arith)
next_level-eq c (x ∷ y ∷ rest) h = rw (next_level-eq c rest (omega arith))

length-pairs :
    (c : Crypto) (level : List H256)
    → length level % 2 ≡ 0
    → 2 * length (pairs c level) ≡ length level
unfolding pairs
length-pairs c [] h = refl
length-pairs c (x ∷ []) h = absurd (omega arith)
length-pairs c (x ∷ y ∷ rest) h = omega (arith, length-pairs c rest)

-- A level and those above it, up to the one of one hash.
pub data Tower (c : Crypto) : List H256 → List (List H256) → Type 0 where
  single : {level : List H256} → length level ≡ 1 → Tower c level []
  paired :
      {level padded : List H256} {above : List (List H256)}
      → length level % 2 ≡ 0
      → IsPadded (pairs c level) padded
      → Tower c padded above
      → Tower c level (padded ∷ above)

build_total :
    (c : Crypto) (fuel : ℕ) (level : List H256)
    → IsLevel level
    → length level ≤ fuel
    → (above : List (List H256)) × (build c fuel level ≡ some (level ∷ above)) × Tower c level above
unfolding build
build_total c zero level w h = absurd (omega (arith, w.nonempty))
build_total c (suc fuel) level w h = elim (Bool-cases (length level =? 1)) [
  | inl one ↦ ([], rw one, single (ground arith))
  | inr more ↦
      let even : length level % 2 ≡ 0 = ground arith in
      let ln = length-pairs c level even in
      let (padded, ep, p) = pad_total (pairs c level) (ground arith) in
      let (above, eb, t) = build_total c fuel padded p.level_ok (ground (arith, p.short)) in
      (padded ∷ above, rw (more, next_level-eq c level even, ep, eb), paired even p t)
]

-- The tree of a list of items: the hashes of the items, made a level, below a tower.
pub record IsTreeOf {T : Type 0} (c : Crypto) (hash : T → H256) (items : List T) (t : MerkleTree)
    : Type 0 where
  pub leaves : List H256
  pub above : List (List H256)
  pub levels : t.tree_list ≡ leaves ∷ above
  pub padded : IsPadded (map hash items) leaves
  pub tower : Tower c leaves above

pub new-IsTreeOf :
    {T : Type 0} (c : Crypto) (hash : T → H256) (d : T) (rest : List T)
    → (t : MerkleTree) × (new c hash (d ∷ rest) ≡ some t) × IsTreeOf c hash (d ∷ rest) t
unfolding new
new-IsTreeOf c hash d rest =
    let (level0, ep, p) = pad_total (map hash (d ∷ rest)) (omega arith) in
    let (above, eb, t) = build_total c (length level0) level0 p.level_ok (omega arith) in
    (
      record { tree_list = level0 ∷ above },
      rw (ep, eb),
      record { leaves = level0; above = above; levels = refl; padded = p; tower = t },
    )
