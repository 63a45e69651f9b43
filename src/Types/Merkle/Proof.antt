-- ===== src/Types/Merkle/Proof.antt =====
-- Every leaf of a tree verifies: the proof that the tree gives for an index passes `verify`
-- against the tree's root.
use bitcoin_client.Prelude.{
  lt-get_elem?, ℕ, zero, suc, ◌+◌, ◌-◌, ◌/◌, ◌%◌, ◌≤◌, ◌<◌, ◌≡◌, refl, ◌∙◌, true, false, List, [],
  ◌∷◌, map, some, ◌=?◌, if◌then◌else◌, length, length-map, get_elem?, arith, eq_refl, leb, ◌==◌,
}
use bitcoin_client.Types.Hash.{H256, h256_eq}
use bitcoin_client.Types.Crypto.{Crypto}
use bitcoin_client.Types.Merkle.{
  MerkleTree, combine, new, fold_proof, verify, top, root, sibling, proof_from, proof,
}
use bitcoin_client.Types.Merkle.Build.{pairs, Tower, single, paired, new-IsTreeOf}

sibling_next : (i : ℕ) → sibling (suc (suc i)) ≡ suc (suc (sibling i))
unfolding sibling
sibling_next i = ground arith

half_next : (i : ℕ) → suc (suc i) / 2 ≡ suc (i / 2)
half_next i = omega arith

even_next : (i : ℕ) → suc (suc i) % 2 ≡ i % 2
even_next i = omega arith

-- One step of `verify`: a hash and the sibling of its place give the hash of the next level.
get_elem?-pairs :
    (c : Crypto) (level : List H256) (i : ℕ) {d : H256}
    → length level % 2 ≡ 0
    → get_elem? level i ≡ some d
    → (s : H256) × (get_elem? level (sibling i) ≡ some s)
      × (get_elem? (pairs c level) (i / 2)
          ≡ some (if i % 2 =? 0 then combine c d s else combine c s d))
unfolding pairs sibling
get_elem?-pairs c [] i p h = cc
get_elem?-pairs c (x ∷ []) i p h = absurd (omega arith)
get_elem?-pairs c (x ∷ y ∷ rest) zero p h = (y, refl, cc)
get_elem?-pairs c (x ∷ y ∷ rest) (suc zero) p h = (x, refl, cc)
get_elem?-pairs c (x ∷ y ∷ rest) (suc (suc i)) p h =
    let (s, es, en) = get_elem?-pairs c rest i (omega arith) h in
    (s, rw (sibling_next i) es, rw (half_next i, even_next i) en)

top-cons :
    (level above : List H256) (rest : List (List H256))
    → top (level ∷ above ∷ rest) ≡ top (above ∷ rest)
unfolding top
top-cons level above rest =
    let e : suc (suc (length rest)) - 1 ≡ suc (suc (length rest) - 1) = omega arith in rw e

Tower-proof :
    {c : Crypto} {level : List H256} {above : List (List H256)}
    → Tower c level above
    → (i : ℕ) {d : H256} → get_elem? level i ≡ some d
    → (p : List H256) × (proof_from (level ∷ above) i ≡ some p)
      × (top (level ∷ above) ≡ some (fold_proof c d i p))
      × (length p ≡ length above)
unfolding proof_from top fold_proof
Tower-proof (single {level = level} h) i e =
    let first : i ≡ 0 = omega (arith, lt-get_elem? level i e) in ([], refl, rw first at e, refl)
Tower-proof {c} (paired {level = level} {padded = padded} {above = above} even w t) i e =
    let (s, es, en) = get_elem?-pairs c level i even e in
    let (p, ep, et, lp) = Tower-proof t (i / 2) (w.keeps (i / 2) en) in
    (s ∷ p, rw (es, ep), top-cons level padded above ∙ et, omega arith)

get_elem?-map :
    {T : Type 0} (f : T → H256) (items : List T) (i : ℕ) {x : T}
    → get_elem? items i ≡ some x
    → get_elem? (map f items) i ≡ some (f x)
get_elem?-map f [] i h = cc
get_elem?-map f (y ∷ items) zero h = cc
get_elem?-map f (y ∷ items) (suc i) h = get_elem?-map f items i h

pub gt→leb_false : (n i : ℕ) → i < n → leb n i ≡ false
gt→leb_false n i h = ground arith

pos→=?_false : (n : ℕ) → 0 < n → (n =? 0) ≡ false
pos→=?_false n h = ground arith

root-eq-top :
    (t : MerkleTree) (l : List H256) (ls : List (List H256))
    → t.tree_list ≡ l ∷ ls
    → root t ≡ top (l ∷ ls)
unfolding root
root-eq-top t l ls e = rw e (rw (pos→=?_false (suc (length ls)) (omega arith)) refl)

-- `verify` of an index in range is the fold alone.
pub verify_in_range :
    (c : Crypto) (r d : H256) (p : List H256) (i n : ℕ)
    → i < n
    → verify c r d p i n ≡ (fold_proof c d i p == r)
unfolding verify
verify_in_range c r d p i n h = rw (gt→leb_false n i h, gt→leb_false n 0 (omega arith))

-- The proof of an item, the root that it is checked against, and the number of levels.
pub record Verifies {T : Type 0} (c : Crypto) (hash : T → H256) (items : List T) (i : ℕ) (x : T)
    : Type 0 where
  pub tree : MerkleTree
  pub tree_root : H256
  pub path : List H256
  pub new_eq : new c hash items ≡ some tree
  pub root_eq : root tree ≡ some tree_root
  pub proof_eq : proof tree i ≡ some path
  pub path_length : length path + 1 ≡ length tree.tree_list
  pub accepted : verify c tree_root (hash x) path i (length items) ≡ true

-- For every item of a list, `new`, `root` and `proof` return, the proof has a hash for each level
-- below the root, and `verify` accepts the hash of the item with that proof, at its index, against
-- that root.
pub verify-proof :
    {T : Type 0} (c : Crypto) (hash : T → H256) (items : List T) (i : ℕ) {x : T}
    → get_elem? items i ≡ some x
    → Verifies c hash items i x
unfolding proof
verify-proof c hash [] i e = cc
verify-proof c hash (d ∷ rest) i {x} e =
    let (t, en, w) = new-IsTreeOf c hash d rest in
    let leaf = get_elem?-map hash (d ∷ rest) i e in
    let inside = lt-get_elem? (d ∷ rest) i e in
    let (p, ep, et, lp) = Tower-proof w.tower i (w.padded.keeps i leaf) in
    let long : length (d ∷ rest) ≤ length w.leaves =
      omega (arith, w.padded.long, length-map hash (d ∷ rest)) in
    record {
      tree = t;
      tree_root = fold_proof c (hash x) i p;
      path = p;
      new_eq = en;
      root_eq = root-eq-top t w.leaves w.above w.levels ∙ et;
      proof_eq = rw w.levels (rw (gt→leb_false (length w.leaves) i (omega arith)) ep);
      path_length = rw w.levels (omega arith);
      accepted =
          verify_in_range c _ (hash x) p i (length (d ∷ rest)) inside
          ∙ eq_refl (fold_proof c (hash x) i p);
    }
