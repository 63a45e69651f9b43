-- ===== src/Generator/Safe.antt =====
-- What the generator of src/generator/tx_generator.rs sends.
use mathlib.Core.Path.{subst}
use bitcoin_client.Prelude.{
  ℕ, zero, suc, ◌+◌, ◌≤◌, ◌<◌, ◌≡◌, ◌⊎◌, inl, inr, refl, sym, ap, ◌∙◌, ◌>>=◌, true, List, [], ◌∷◌,
  none, some, >>=-eq-some, some-injective, ◌==◌, ◌=?◌, nat_eq, pair_eq, u32, u32_mod, All,
  Bool-cases, get_elem?, arith,
}
use bitcoin_client.Prelude.HashMap.{get, is_some, contains_key, get-insert_self}
use bitcoin_client.Types.Hash.{H256, h256_eq}
use bitcoin_client.Types.Address.{Address, address_eq}
use bitcoin_client.Types.Transaction.{
  Input, SignedTransaction, Mempool, key, pass_check, pass_check_outputs,
}
use bitcoin_client.Types.Crypto.{
  Crypto, IsCrypto, KeyPair, from_seed_and_public_key, verify-sign, hash_signed, address_of,
}
use bitcoin_client.Ledger.{Outputs, spend, check_tx}
use bitcoin_client.Ledger.Spec.{worth, IsAdmissible, output_total, check_tx_iff}
use bitcoin_client.Ledger.Conserve.{total, IsSound, total-spend}
use bitcoin_client.Node.{Node}
use bitcoin_client.Network.Message.{new_transaction_hashes}
use bitcoin_client.Control.{paused}
use bitcoin_client.Generator.Keys.{seed_0, public_0, seed_1, public_1, seed_2, public_2}
use bitcoin_client.Generator.{
  GeneLoop, Round, get_tx_balance, public_key_gen, peers, new, signed, add_absent, announce,
  generate,
}

-- The outputs of the generator's transaction are worth what it spends.
pass_check_outputs-total :
    (balance : ℕ) (peer_addrs : Address × Address)
    → output_total (pass_check_outputs balance peer_addrs) ≡ balance
unfolding pass_check_outputs
pass_check_outputs-total balance peer_addrs = ground arith

-- The key pair's halves belong together, and the address is the key's.
pub record IsGenerator (c : Crypto) (g : GeneLoop) : Type 0 where
  pub matches : c.key_matches g.public_key.seed g.public_key.public_key ≡ true
  pub owns : g.addr ≡ address_of c g.public_key.public_key

from_seed-matches :
    (c : Crypto) (seed public : List ℕ) {k : KeyPair}
    → from_seed_and_public_key c seed public ≡ some k
    → c.key_matches k.seed k.public_key ≡ true
unfolding from_seed_and_public_key
from_seed-matches c seed public h = elim (Bool-cases (c.key_matches seed public)) [
  | inl fit ↦
      let e : record { seed = seed; public_key = public } ≡ _ = cc (rw fit at h) in
      ap (λ (k : KeyPair). c.key_matches k.seed k.public_key) (sym e) ∙ fit
  | inr unfit ↦ cc (rw unfit at h)
]

public_key_gen-matches :
    (c : Crypto) (index : ℕ) {k : KeyPair}
    → public_key_gen c index ≡ some k
    → c.key_matches k.seed k.public_key ≡ true
unfolding public_key_gen
public_key_gen-matches c zero h = from_seed-matches c _ _ h
public_key_gen-matches c (suc zero) h = from_seed-matches c _ _ h
public_key_gen-matches c (suc (suc zero)) h = from_seed-matches c _ _ h
public_key_gen-matches c (suc (suc (suc n))) h = cc h

-- The entries that an iteration sees are those of the map, and their values are of a `u32`.
abbrev pub IsOrder : Outputs → List ((H256 × ℕ) × (ℕ × Address)) → Type 0
IsOrder states entries = All (λ e. (get states e.0 ≡ some e.1) × (e.1.0 < u32_mod)) entries

-- An unspent output of the address, of a value in a `u32`.
pub record Balance (addr : Address) (states : Outputs) (found : List Input × ℕ) : Type 0 where
  pub input : Input
  pub single : found.0 ≡ input ∷ []
  pub unspent : get states (key input) ≡ some (found.1, addr)
  pub fits : found.1 < u32_mod

get_tx_balance-Balance :
    (addr : Address) (states : Outputs) (entries : List ((H256 × ℕ) × (ℕ × Address)))
    → IsOrder states entries
    → ((get_tx_balance addr entries).1 ≡ 0) ⊎ Balance addr states (get_tx_balance addr entries)
unfolding get_tx_balance
get_tx_balance-Balance addr states [] o = inl refl
get_tx_balance-Balance addr states ((k, e) ∷ entries) o = elim (Bool-cases (e.1 == addr)) [
  | inl own ↦
      let same : e.1 ≡ addr = (address_eq.same_iff e.1 addr).0 own in
      let fits : e.0 < u32_mod = o.0.1 in
      let value : u32 (0 + e.0) ≡ e.0 = omega (arith, fits) in
      inr (
        rw own (record {
          input = record { prev_trans = k.0; index = k.1 };
          single = refl;
          unspent = o.0.0 ∙ cc;
          fits = omega (arith, value, fits);
        }))
  | inr other ↦ rw other (get_tx_balance-Balance addr states entries o.1)
]

-- What a round with a balance makes and sends.
pub record Generated (c : Crypto) (node : Node) (g : GeneLoop) (r : Round) : Type 0 where
  pub st : SignedTransaction
  -- it spends one unspent output of the generator's, in full
  pub spends :
      Balance g.addr g.state.states (st.transaction.input, output_total st.transaction.output)
  -- it passes the check of the worker and the miner on the generator's state
  pub checked : check_tx c g.state st ≡ some r.gene.state
  pub conserved : total r.gene.state.states ≤ total g.state.states
  pub pooled : is_some (get r.node.mempool.trans (hash_signed c st)) ≡ true
  pub announced : r.sent ≡ some (new_transaction_hashes (hash_signed c st ∷ []))
  pub kept : (r.node.blockchain ≡ node.blockchain) × (r.node.block_state ≡ node.block_state)

add_absent-get :
    (mempool : Mempool) (h : H256) (t : SignedTransaction)
    → is_some (get (add_absent mempool h t).trans h) ≡ true
unfolding add_absent
add_absent-get mempool h t = elim (Bool-cases (contains_key mempool.trans h)) [
  | inl known ↦ rw known known
  | inr fresh ↦ rw fresh (ap is_some (get-insert_self mempool.trans h t))
]

module _ {c : Crypto} (w : IsCrypto c) (g : GeneLoop) (own : IsGenerator c g) where
  admissible :
      (found : List Input × ℕ) (b : Balance g.addr g.state.states found)
      → IsAdmissible c g.state (signed c g found.0 found.1)
  unfolding signed pass_check
  admissible found b = record {
    signed = verify-sign c w (pass_check found.0 found.1 g.peer_addrs) g.public_key own.matches;
    owned =
        rw b.single ((found.1, b.unspent ∙ ap (λ (a : Address). some (found.1, a)) own.owns), tt);
    covered =
        rw (pass_check_outputs-total found.1 g.peer_addrs, b.single)
          (omega (arith, ap worth b.unspent));
  }

  sound :
      (found : List Input × ℕ) (b : Balance g.addr g.state.states found)
      → IsSound (signed c g found.0 found.1)
  unfolding signed pass_check
  sound found b = (rw b.single (tt, tt), rw (pass_check_outputs-total found.1 g.peer_addrs) b.fits)

  announce-Generated :
      (node : Node) (found : List Input × ℕ) (b : Balance g.addr g.state.states found)
      → Generated c node g (announce c node g (signed c g found.0 found.1))
  unfolding announce signed pass_check
  announce-Generated node found b =
      let st = signed c g found.0 found.1 in
      let a = admissible found b in
      record {
        st = st;
        spends = record {
          input = b.input;
          single = b.single;
          unspent =
              b.unspent
              ∙ ap (λ (v : ℕ). some (v, g.addr))
                  (sym (pass_check_outputs-total found.1 g.peer_addrs));
          fits = rw (pass_check_outputs-total found.1 g.peer_addrs) b.fits;
        };
        checked = (check_tx_iff c g.state (spend c g.state st) st).1 (a, refl);
        conserved = total-spend c g.state st a (sound found b);
        pooled = add_absent-get node.mempool (hash_signed c st) st;
        announced = refl;
        kept = (refl, refl);
      }

  -- A round of a generator whose key pair matches either finds no balance and changes and sends
  -- nothing, or makes a transaction that spends one of its unspent outputs in full, passes the check
  -- of the worker and the miner on the generator's state, makes no coins, is in the mempool and is
  -- announced; the blockchain and the states of the node stay. The iteration sees the entries of the
  -- map, whose values are of a `u32`.
  pub generate-Generated :
      (node : Node) (entries : List ((H256 × ℕ) × (ℕ × Address)))
      → IsOrder g.state.states entries
      → (((get_tx_balance g.addr entries).1 ≡ 0)
          × (generate c node entries g ≡ record { gene = g; node = node; sent = none }))
        ⊎ Generated c node g (generate c node entries g)
  unfolding generate
  generate-Generated node entries o = elim (Bool-cases ((get_tx_balance g.addr entries).1 =? 0)) [
    | inl empty ↦ inl (ground (arith, empty), rw empty refl)
    | inr full ↦ rw full (elim (get_tx_balance-Balance g.addr g.state.states entries o) [
      | inl zero_balance ↦ absurd (ground (arith, full, zero_balance))
      | inr b ↦ inr (announce-Generated node (get_tx_balance g.addr entries) b)
    ])
  ]

-- The public keys of the two nodes that are not the one of the index.
abbrev pub others : ℕ → List ℕ × List ℕ
others zero = (public_1, public_2)
others (suc zero) = (public_0, public_2)
others (suc (suc n)) = (public_0, public_1)

from_seed-public :
    (c : Crypto) (seed public : List ℕ) {k : KeyPair}
    → from_seed_and_public_key c seed public ≡ some k
    → k.public_key ≡ public
unfolding from_seed_and_public_key
from_seed-public c seed public {k} h = elim (Bool-cases (c.key_matches seed public)) [
  | inl fit ↦
      let e : record { seed = seed; public_key = public } ≡ k = cc (rw fit at h) in
      ap (λ (k : KeyPair). k.public_key) (sym e)
  | inr unfit ↦ cc (rw unfit at h)
]

index_small : (c : Crypto) (index : ℕ) {k : KeyPair} → public_key_gen c index ≡ some k → index < 3
unfolding public_key_gen
index_small c zero h = omega arith
index_small c (suc zero) h = omega arith
index_small c (suc (suc zero)) h = omega arith
index_small c (suc (suc (suc n))) h = cc h

-- The hard-coded public keys by their index.
abbrev public_of : ℕ → List ℕ
public_of zero = public_0
public_of (suc zero) = public_1
public_of (suc (suc n)) = public_2

public_key_gen-public :
    (c : Crypto) (index : ℕ) {k : KeyPair}
    → public_key_gen c index ≡ some k
    → k.public_key ≡ public_of index
unfolding public_key_gen
public_key_gen-public c zero h = from_seed-public c seed_0 public_0 h
public_key_gen-public c (suc zero) h = from_seed-public c seed_1 public_1 h
public_key_gen-public c (suc (suc zero)) h = from_seed-public c seed_2 public_2 h
public_key_gen-public c (suc (suc (suc n))) h = cc h

-- Two peers, one after the other.
two_peers :
    (c : Crypto) (i j : ℕ) {peer_addr : List Address}
    → (public_key_gen c i >>= λ k. public_key_gen c j >>= λ l.
        some (address_of c k.public_key ∷ address_of c l.public_key ∷ []))
      ≡ some peer_addr
    → peer_addr ≡ address_of c (public_of i) ∷ address_of c (public_of j) ∷ []
two_peers c i j h =
    let (k, made, h1) = >>=-eq-some (public_key_gen c i) _ h in
    let (l, made', h2) = >>=-eq-some (public_key_gen c j) _ h1 in
    let a = public_key_gen-public c i made in
    let b = public_key_gen-public c j made' in
    sym (some-injective h2)
    ∙ ap (λ p. address_of c p ∷ address_of c l.public_key ∷ []) a
    ∙ ap (λ q. address_of c (public_of i) ∷ address_of c q ∷ []) b

peers-others :
    (c : Crypto) (index : ℕ) {peer_addr : List Address}
    → index < 3
    → peers c index (0 ∷ 1 ∷ 2 ∷ []) [] ≡ some peer_addr
    → peer_addr ≡ address_of c (others index).0 ∷ address_of c (others index).1 ∷ []
unfolding peers
peers-others c zero small h = two_peers c 1 2 h
peers-others c (suc zero) small h = two_peers c 0 2 h
peers-others c (suc (suc zero)) small h = two_peers c 0 1 h
peers-others c (suc (suc (suc n))) small h = absurd (omega (arith, small))

-- What the generator of an index is set up with.
pub record IsNew (c : Crypto) (node : Node) (index : ℕ) (g : GeneLoop) : Type 0 where
  pub generator : IsGenerator c g
  pub small : index < 3
  -- the hard-coded key of the index, and the addresses of the two others
  pub own : public_key_gen c index ≡ some g.public_key
  pub pays : g.peer_addrs ≡ (address_of c (others index).0, address_of c (others index).1)
  pub known : get node.block_state g.prev_tip ≡ some g.state
  pub on_tip : g.prev_tip ≡ node.blockchain.tip
  pub waits : g.operating_state ≡ paused

-- A generator that is set up has an index below 3 and waits for a signal. It has the hard-coded key
-- pair of its index, whose halves belong together, and that key's address; it pays to the addresses
-- of the two other hard-coded public keys, in their order; and its state is the one that is stored
-- after the tip of the node.
pub new-IsGenerator :
    {c : Crypto} (node : Node) (index : ℕ) {g : GeneLoop}
    → new c node index ≡ some g
    → IsNew c node index g
unfolding new
new-IsGenerator {c} node index {g} h =
    let (k, made, h1) = >>=-eq-some (public_key_gen c index) _ h in
    let (peer_addr, listed, h2) = >>=-eq-some (peers c index (0 ∷ 1 ∷ 2 ∷ []) []) _ h1 in
    let (first, at_0, h3) = >>=-eq-some (get_elem? peer_addr 0) _ h2 in
    let (second, at_1, h4) = >>=-eq-some (get_elem? peer_addr 1) _ h3 in
    let (state, stored, h5) = >>=-eq-some (get node.block_state node.blockchain.tip) _ h4 in
    let e = some-injective h5 in
    let small : index < 3 = index_small c index made in
    let same = peers-others c index small listed in
    let first_is : first ≡ address_of c (others index).0 =
      some-injective (sym at_0 ∙ ap (λ l. get_elem? l 0) same) in
    let second_is : second ≡ address_of c (others index).1 =
      some-injective (sym at_1 ∙ ap (λ l. get_elem? l 1) same) in
    subst (IsNew c node index) e (record {
      generator = record { matches = public_key_gen-matches c index made; owns = refl };
      small = small;
      own = made;
      pays = λ i. (first_is i, second_is i);
      known = stored;
      on_tip = refl;
      waits = refl;
    })
