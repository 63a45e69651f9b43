-- ===== src/Generator.antt =====
-- The generator of transactions of src/generator/tx_generator.rs. What the control channel gives
-- and the order in which the map of the unspent outputs is iterated are arguments of a round.
pub mod Keys
pub mod Safe
pub mod Chain
use bitcoin_client.Prelude.{
  ℕ, zero, suc, ◌+◌, Bool, true, false, List, [], ◌∷◌, ◌++◌, Option, none, some, ◌>>=◌, ◌==◌, ◌=?◌,
  nat_eq, if◌then◌else◌, u32, get_elem?,
}
use bitcoin_client.Prelude.HashMap.{HashMap, get, insert, contains_key}
use bitcoin_client.Types.Hash.{H256, h256_eq}
use bitcoin_client.Types.Address.{Address, address_eq}
use bitcoin_client.Types.Transaction.{
  Input, Transaction, SignedTransaction, Mempool, State, pass_check,
}
use bitcoin_client.Types.Crypto.{
  Crypto, KeyPair, from_seed_and_public_key, hash_signed, sign, address_of,
}
use bitcoin_client.Ledger.{spend}
use bitcoin_client.Node.{Node}
use bitcoin_client.Network.Message.{Message, new_transaction_hashes}
use bitcoin_client.Control.{OperatingState, Received, Turn, wait, finish, work, control, paused}
use bitcoin_client.Generator.Keys.{seed_0, public_0, seed_1, public_1, seed_2, public_2}

-- The fields of `GeneLoop` that are the generator's own, and the variables of `generator_loop`.
pub record GeneLoop : Type 0 where
  pub operating_state : OperatingState
  pub public_key : KeyPair
  pub addr : Address
  pub peer_addrs : Address × Address
  pub prev_tip : H256
  pub state : State

-- What a round changes and broadcasts.
pub record Round : Type 0 where
  pub gene : GeneLoop
  pub node : Node
  pub sent : Option Message

-- The first entry of the address.
unfoldable pub get_tx_balance : Address → List ((H256 × ℕ) × (ℕ × Address)) → List Input × ℕ
get_tx_balance addr [] = ([], 0)
get_tx_balance addr ((k, e) ∷ entries) =
    let rest = get_tx_balance addr entries in
    if e.1 == addr then (record { prev_trans = k.0; index = k.1 } ∷ [], u32 (0 + e.0)) else rest

-- A transaction enters the mempool if its hash is not there.
unfoldable pub add_absent : Mempool → H256 → SignedTransaction → Mempool
add_absent mempool tx_hash t =
    if contains_key mempool.trans tx_hash
    then mempool
    else record { trans = insert mempool.trans tx_hash t }

-- The state is taken anew where the tip has changed.
unfoldable pub refresh : Node → GeneLoop → Option GeneLoop
refresh node g =
    if g.prev_tip == node.blockchain.tip
    then some g
    else (get node.block_state node.blockchain.tip >>= λ state.
        some (record g { prev_tip = node.blockchain.tip; state = state }))

module _ (c : Crypto) where
  -- `public_key_gen`: any other index panics, and so does a pair that does not match.
  unfoldable pub public_key_gen : ℕ → Option KeyPair
  unfolding from_seed_and_public_key
  public_key_gen zero = from_seed_and_public_key c seed_0 public_0
  public_key_gen (suc zero) = from_seed_and_public_key c seed_1 public_1
  public_key_gen (suc (suc zero)) = from_seed_and_public_key c seed_2 public_2
  public_key_gen (suc (suc (suc n))) = none

  -- The loop over the indices below 3, from the one given.
  unfoldable pub peers : ℕ → List ℕ → List Address → Option (List Address)
  peers own [] peer_addr = some peer_addr
  peers own (i ∷ indices) peer_addr =
      if i =? own
      then peers own indices peer_addr
      else (public_key_gen i >>= λ k.
          peers own indices (peer_addr ++ address_of c k.public_key ∷ []))

  -- `new`, with the first lines of `generator_loop`, which take the state after the tip.
  unfoldable pub new : Node → ℕ → Option GeneLoop
  unfolding peers
  new node pub_key_index = public_key_gen pub_key_index >>= λ k.
      peers pub_key_index (0 ∷ 1 ∷ 2 ∷ []) [] >>= λ peer_addr. get_elem? peer_addr 0 >>= λ first.
      get_elem? peer_addr 1 >>= λ second. get node.block_state node.blockchain.tip >>= λ state.
      some (record {
        operating_state = paused;
        public_key = k;
        addr = address_of c k.public_key;
        peer_addrs = (first, second);
        prev_tip = node.blockchain.tip;
        state = state;
      })

  -- The signed transaction of a round.
  unfoldable pub signed : GeneLoop → List Input → ℕ → SignedTransaction
  signed g inputs balance =
      let new_transaction = pass_check inputs balance g.peer_addrs in
      record {
        transaction = new_transaction;
        signature_vector = sign c new_transaction g.public_key;
        public_key_vector = g.public_key.public_key;
      }

  -- The transaction enters the mempool, is announced, and is spent in the generator's state.
  unfoldable pub announce : Node → GeneLoop → SignedTransaction → Round
  unfolding add_absent
  announce node g t =
      let tx_hash = hash_signed c t in
      record {
        gene = record g { state = spend c g.state t };
        node = record node { mempool = add_absent node.mempool tx_hash t };
        sent = some (new_transaction_hashes (tx_hash ∷ []));
      }

  -- The `match` on the balance.
  unfoldable pub generate : Node → List ((H256 × ℕ) × (ℕ × Address)) → GeneLoop → Round
  unfolding signed announce
  generate node entries g =
      let (inputs, balance) = get_tx_balance g.addr entries in
      if balance =? 0
      then record { gene = g; node = node; sent = none }
      else announce node g (signed g inputs balance)

  -- The rest of a round. The state decides the entries that the iteration sees.
  unfoldable pub take_turn :
      Turn → Node → (State → List ((H256 × ℕ) × (ℕ × Address))) → GeneLoop → Option Round
  take_turn wait node order g = some (record { gene = g; node = node; sent = none })
  take_turn finish node order g = some (record { gene = g; node = node; sent = none })
  take_turn work node order g =
      refresh node g >>= λ next. some (generate node (order next.state) next)

  -- A round of `generator_loop`.
  unfoldable pub round :
      Node → Received → (State → List ((H256 × ℕ) × (ℕ × Address))) → GeneLoop → Option Round
  unfolding take_turn
  round node received order g = control g.operating_state received >>= λ next.
      take_turn next.1 node order (record g { operating_state = next.0 })
