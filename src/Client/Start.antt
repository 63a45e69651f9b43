-- ===== src/Client/Start.antt =====
-- What `main` of src/main.rs sets up.
use bitcoin_client.Prelude.{
  ℕ, zero, suc, ◌+◌, ◌<◌, ◌≡◌, refl, true, List, [], ◌∷◌, Option, some, ◌>>=◌, get_elem?, replicate,
  All, arith,
}
use bitcoin_client.Prelude.HashMap.{get, get-insert_self}
use bitcoin_client.Types.Hash.{h256_eq}
use bitcoin_client.Types.Block.{Header, Block}
use bitcoin_client.Types.Crypto.{Crypto, KeyPair, address_of, from_seed_and_public_key}
use bitcoin_client.Blockchain
use bitcoin_client.Blockchain.{genesis, genesis_hash}
use bitcoin_client.Ledger.{new_state}
use bitcoin_client.Node.{initial}
use bitcoin_client.Network.Worker.Safe.{IsWorked, initial-IsSafe}
use bitcoin_client.Control.{paused}
use bitcoin_client.Miner.{new_miner}
use bitcoin_client.Miner.Mining.{IsBatch}
use bitcoin_client.Generator
use bitcoin_client.Generator.{GeneLoop, public_key_gen, peers}
use bitcoin_client.Generator.Keys.{seed_0, public_0, seed_1, public_1, seed_2, public_2}
use bitcoin_client.Client.{Client}
use bitcoin_client.Client.Invariant.{IsClient, count, held}

module _ (c : Crypto) where
  -- `all_public_keys` of `main`.
  unfoldable pub all_public_keys : Option (List KeyPair)
  all_public_keys = Generator.public_key_gen c 0 >>= λ first.
      Generator.public_key_gen c 1 >>= λ second.
      Generator.public_key_gen c 2 >>= λ third. some (first ∷ second ∷ third ∷ [])

  -- What `main` sets up, for a digit of the address and a number of workers of the network;
  -- `Client.Index` has how the command line gives them.
  unfoldable pub start : ℕ → ℕ → Option Client
  unfolding all_public_keys
  start public_key_index p2p_workers = all_public_keys >>= λ keys.
      get_elem? keys public_key_index >>= λ public_key. get_elem? keys 0 >>= λ first.
      Generator.new c (initial c first) public_key_index >>= λ gene. some (record {
        node = initial c first;
        buffers = replicate p2p_workers [];
        miner = new_miner;
        finished_blocks = [];
        gene = gene;
      })

-- The hard-coded seeds belong to the hard-coded public keys.
pub record AreKeys (c : Crypto) : Type 0 where
  pub first : c.key_matches seed_0 public_0 ≡ true
  pub second : c.key_matches seed_1 public_1 ≡ true
  pub third : c.key_matches seed_2 public_2 ≡ true

no_blocks :
    (P : List Block → Type 0) (n : ℕ) → P [] → All P (replicate n []) × (count (replicate n []) ≡ 0)
no_blocks P zero p = (tt, refl)
no_blocks P (suc n) p = let (a, e) = no_blocks P n p in ((p, a), omega (arith, e))

new_batch : (c : Crypto) → IsBatch c new_miner
unfolding new_miner
new_batch c = record { hashes = refl; bounded = omega arith }

module _ {c : Crypto} (keys : AreKeys c) where
  key_0 : public_key_gen c 0 ≡ some (record { seed = seed_0; public_key = public_0 })
  unfolding public_key_gen from_seed_and_public_key
  key_0 = rw keys.first refl

  key_1 : public_key_gen c 1 ≡ some (record { seed = seed_1; public_key = public_1 })
  unfolding public_key_gen from_seed_and_public_key
  key_1 = rw keys.second refl

  key_2 : public_key_gen c 2 ≡ some (record { seed = seed_2; public_key = public_2 })
  unfolding public_key_gen from_seed_and_public_key
  key_2 = rw keys.third refl

  state_stored :
      (first : KeyPair)
      → get (initial c first).block_state (initial c first).blockchain.tip
        ≡ some (new_state c first)
  unfolding initial Blockchain.new
  state_stored first = get-insert_self [] (genesis_hash c) (new_state c first)

  -- The generator of a key pair, with the addresses of the two others.
  abbrev gene_of : KeyPair → KeyPair → List ℕ → List ℕ → GeneLoop
  gene_of first own peer_1 peer_2 = record {
    operating_state = paused;
    public_key = own;
    addr = address_of c own.public_key;
    peer_addrs = (address_of c peer_1, address_of c peer_2);
    prev_tip = (initial c first).blockchain.tip;
    state = new_state c first;
  }

  gene_total :
      (first : KeyPair) (index : ℕ)
      → index < 3
      → (gene : GeneLoop) × (Generator.new c (initial c first) index ≡ some gene)
  unfolding Generator.new peers
  gene_total first zero small = (
    gene_of first (record { seed = seed_0; public_key = public_0 }) public_1 public_2,
    rw (key_0, key_1, key_2, ◌>>=◌, state_stored first) refl,
  )
  gene_total first (suc zero) small = (
    gene_of first (record { seed = seed_1; public_key = public_1 }) public_0 public_2,
    rw (key_0, key_1, key_2, ◌>>=◌, state_stored first) refl,
  )
  gene_total first (suc (suc zero)) small = (
    gene_of first (record { seed = seed_2; public_key = public_2 }) public_0 public_1,
    rw (key_0, key_1, key_2, ◌>>=◌, state_stored first) refl,
  )
  gene_total first (suc (suc (suc n))) small = absurd (omega (arith, small))

  abbrev pub three_keys : List KeyPair
  three_keys =
      record { seed = seed_0; public_key = public_0 }
      ∷ record { seed = seed_1; public_key = public_1 }
      ∷ record { seed = seed_2; public_key = public_2 }
      ∷ []

  pub keys_made : all_public_keys c ≡ some three_keys
  unfolding all_public_keys
  keys_made = rw (key_0, key_1, key_2, ◌>>=◌) refl

  pub own_key : (index : ℕ) → index < 3 → (k : KeyPair) × (get_elem? three_keys index ≡ some k)
  own_key zero small = (_, refl)
  own_key (suc zero) small = (_, refl)
  own_key (suc (suc zero)) small = (_, refl)
  own_key (suc (suc (suc n))) small = absurd (omega (arith, small))

  -- For a digit below 3 and hard-coded keys that belong together, `main` sets a client up: it does
  -- not panic, and the client is in order, on a chain of height 0 and with no block held.
  pub start-IsClient :
      {Seen : Header → Type 0}
      → Seen genesis.head
      → (public_key_index p2p_workers : ℕ) → public_key_index < 3
      → (client : Client) × (start c public_key_index p2p_workers ≡ some client)
        × (w : IsClient c Seen client) × (w.safe.chain.top + held client ≡ 0)
  unfolding start all_public_keys
  start-IsClient {Seen} g index workers small =
      let first : KeyPair = record { seed = seed_0; public_key = public_0 } in
      let (own, at_index) = own_key index small in
      let (gene, made) = gene_total first index small in
      let (safe, top) = initial-IsSafe c Seen first g in
      let (worked, none_held) = no_blocks (All (IsWorked c Seen)) workers tt in
      (
        record {
          node = initial c first;
          buffers = replicate workers [];
          miner = new_miner;
          finished_blocks = [];
          gene = gene;
        },
        rw (key_0, key_1, key_2, ◌>>=◌, at_index, made) refl,
        record { safe = safe; buffers_worked = worked; batch = new_batch c; queued = tt },
        omega (arith, top, none_held),
      )
