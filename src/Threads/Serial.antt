-- ===== src/Threads/Serial.antt =====
-- The rounds of the miner, its worker and the generator that no other thread comes between do what
-- the rounds of Miner, Miner.Worker and Generator say.
pub mod Finish
pub mod Loops
use bitcoin_client.Prelude.{
  ℕ, zero, suc, ◌≡◌, refl, ap, ◌∙◌, inl, inr, Bool, List, [], ◌∷◌, ◌++◌, Option, none, some, ◌>>=◌,
  ◌==◌, ◌=?◌, if◌then◌else◌, length, Bool-cases, Option-cases,
}
use bitcoin_client.Prelude.HashMap.{HashMap, get, insert, contains_key}
use bitcoin_client.Types.Hash.{H256, h256_eq, le}
use bitcoin_client.Types.Address.{Address}
use bitcoin_client.Types.Block.{Block}
use bitcoin_client.Types.Transaction.{SignedTransaction, Mempool, State}
use bitcoin_client.Types.Crypto.{Crypto, hash, hash_signed}
use bitcoin_client.Types.Merkle
use bitcoin_client.Blockchain
use bitcoin_client.Blockchain.{Blockchain, genesis_difficulty}
use bitcoin_client.Ledger.{check_txs, check_tx_state, conclude}
use bitcoin_client.Control.{Turn, wait, finish, work, Received, control, OperatingState}
use bitcoin_client.Node.{Node}
use bitcoin_client.Network.Message.{Message, new_block_hashes}
use bitcoin_client.Miner
use bitcoin_client.Miner.{Miner, remove_all, fill, select, candidate, mine, take_turn}
use bitcoin_client.Miner.Worker.{on_finished}
use bitcoin_client.Generator
use bitcoin_client.Generator.{GeneLoop, get_tx_balance, add_absent, refresh, generate, announce}
use bitcoin_client.Threads.{
  Shared, Program, done, alone, bind, unwrap, look, write, mempool_lock, chain_lock, state_lock,
}
use bitcoin_client.Threads.Worker.{conclude_program, check_program, insert_program, or_else}
use bitcoin_client.Threads.Alone.Bind.{alone-bind, alone-bind_eq}
use bitcoin_client.Threads.Others.{
  OutputOrder, PoolOrder, refresh_program, offer_program, select_program, remove_program,
  generate_program, generator_turn, send_program, mine_program, miner_turn, finished_program,
  taker_program, miner_program, generator_program,
}

-- What follows a part of a program, for each value that the part may leave.
pub then_rest :
    {X A B : Type 0} (o : Option X) (f : X → Shared × A) (g : A → Program B)
    (h : X → Option (Shared × B))
    → ((x : X) → alone (g (f x).1) (f x).0 ≡ h x)
    → ((o >>= λ x. some (f x)) >>= λ (r : Shared × A). alone (g r.1) r.0) ≡ (o >>= h)
then_rest none f g h rest = refl
then_rest (some x) f g h rest = rest x

remove_program-alone :
    (hashes : List H256) (s : Shared)
    → alone (remove_program hashes) s
      ≡ some (write mempool_lock s (record { trans = remove_all s.node.mempool.trans hashes }), tt)
unfolding remove_program alone remove_all
remove_program-alone [] s = refl
remove_program-alone (h ∷ hashes) s = remove_program-alone hashes _

select_program-alone :
    (order : PoolOrder) (m : Miner) (s : Shared)
    → alone (select_program order m) s ≡ some (s, select (order s.node.mempool) m)
unfolding select_program select alone
select_program-alone order m s = elim (Bool-cases (length m.to_remove =? 0)) [
  | inl e ↦ rw (e, alone) refl
  | inr e ↦ rw e refl
]

-- The channel after a round of the miner.
abbrev queue_after : List Block → Option Block → List Block
queue_after queue none = queue
queue_after queue (some block) = queue ++ block ∷ []

abbrev pub mined : Shared → Miner.Round → Shared × Miner
mined s r =
    (record { node = r.node; finished_blocks = queue_after s.finished_blocks r.finished }, r.miner)

refresh_program-alone :
    (g : GeneLoop) (s : Shared)
    → alone (refresh_program g) s ≡ (refresh s.node g >>= λ g'. some (s, g'))
unfolding refresh_program refresh alone
refresh_program-alone g s = elim (Bool-cases (g.prev_tip == s.node.blockchain.tip)) [
  | inl e ↦ rw (refresh_program, alone, e) refl
  | inr e ↦ elim (Option-cases (get s.node.block_state s.node.blockchain.tip)) [
    | inl f ↦ rw (refresh_program, alone, e, alone, f) refl
    | inr (state, f) ↦ rw (refresh_program, alone, e, alone, f) refl
  ]
]

offer_program-alone :
    (tx_hash : H256) (t : SignedTransaction) (s : Shared)
    → alone (offer_program tx_hash t) s
      ≡ some (write mempool_lock s (add_absent s.node.mempool tx_hash t), tt)
unfolding offer_program add_absent alone
offer_program-alone tx_hash t s = elim (Bool-cases (contains_key s.node.mempool.trans tx_hash)) [
  | inl e ↦ rw (offer_program, alone, e) refl
  | inr e ↦ rw (offer_program, alone, e) refl
]

abbrev pub generated : Shared → Generator.Round → Shared × GeneLoop
generated s r = (record s { node = r.node }, r.gene)

module _ (c : Crypto) where
  send_program-alone :
      (m : Miner) (block : Block) (s : Shared)
      → alone (send_program c m block) s ≡ some (mined s (Miner.conclude c m s.node block))
  unfolding send_program Miner.conclude alone
  send_program-alone m block s = elim (Bool-cases (le (hash c block) genesis_difficulty)) [
    | inl e ↦
        rw (e, alone)
          (alone-bind_eq (remove_program m.to_remove) _ _ _ (remove_program-alone m.to_remove _))
    | inr e ↦ rw e refl
  ]

  mine_root :
      (m : Miner) (nonce time : ℕ) (s : Shared) (o : Option H256)
      → alone
          (unwrap o (λ root.
            look chain_lock
              (λ chain. send_program c m (candidate chain.tip m.transaction root nonce time))))
          s
        ≡ ((o >>= λ root. some (
              Miner.conclude c m s.node
                (candidate s.node.blockchain.tip m.transaction root nonce time)))
            >>= λ r. some (mined s r))
  unfolding alone
  mine_root m nonce time s none = refl
  mine_root m nonce time s (some root) = send_program-alone m _ s

  mine_tree :
      (m : Miner) (nonce time : ℕ) (s : Shared) (o : Option Merkle.MerkleTree)
      → alone
          (unwrap o (λ tree. unwrap (Merkle.root tree) (λ root.
            look chain_lock
              (λ chain. send_program c m (candidate chain.tip m.transaction root nonce time)))))
          s
        ≡ ((o >>= λ tree. Merkle.root tree >>= λ root. some (
              Miner.conclude c m s.node
                (candidate s.node.blockchain.tip m.transaction root nonce time)))
            >>= λ r. some (mined s r))
  unfolding alone
  mine_tree m nonce time s none = refl
  mine_tree m nonce time s (some tree) = mine_root m nonce time s (Merkle.root tree)

  mine_program-alone :
      (order : PoolOrder) (nonce time : ℕ) (m : Miner) (s : Shared)
      → alone (mine_program c order nonce time m) s
        ≡ (mine c s.node (order s.node.mempool) nonce time m >>= λ r. some (mined s r))
  unfolding mine_program mine alone
  mine_program-alone order nonce time m s =
      alone-bind_eq (select_program order m) _ s _ (select_program-alone order m s)
      ∙ mine_tree (select (order s.node.mempool) m) nonce time s
          (Merkle.new c (hash_signed c) (select (order s.node.mempool) m).transaction)

  generate_program-alone :
      (entries : List ((H256 × ℕ) × (ℕ × Address))) (g : GeneLoop) (s : Shared)
      → alone (generate_program c entries g) s
        ≡ some (
          record s { node = (generate c s.node entries g).node },
          (generate c s.node entries g).gene,
        )
  unfolding generate_program generate announce alone
  generate_program-alone entries g s = elim (Bool-cases ((get_tx_balance g.addr entries).1 =? 0)) [
    | inl e ↦ rw e refl
    | inr e ↦ rw e (alone-bind_eq (offer_program _ _) _ s _ (offer_program-alone _ _ s))
  ]

  pub miner_turn-alone :
      (t : Turn) (order : PoolOrder) (nonce time : ℕ) (m : Miner) (s : Shared)
      → alone (miner_turn c t order nonce time m) s
        ≡ (take_turn c t s.node (order s.node.mempool) nonce time m >>= λ r. some (mined s r))
  unfolding miner_turn take_turn alone
  miner_turn-alone wait order nonce time m s = refl
  miner_turn-alone finish order nonce time m s = refl
  miner_turn-alone work order nonce time m s = mine_program-alone order nonce time m s

  generated_after :
      (order : OutputOrder) (s : Shared) (o : Option GeneLoop)
      → ((o >>= λ g. some (s, g)) >>= λ (r : Shared × GeneLoop).
          alone (generate_program c (order (r.1).state) r.1) r.0)
        ≡ ((o >>= λ next. some (generate c s.node (order next.state) next)) >>= λ r.
            some (generated s r))
  generated_after order s none = refl
  generated_after order s (some g) = generate_program-alone (order g.state) g s

  pub generator_turn-alone :
      (t : Turn) (order : OutputOrder) (g : GeneLoop) (s : Shared)
      → alone (generator_turn c t order g) s
        ≡ (Generator.take_turn c t s.node order g >>= λ r. some (generated s r))
  unfolding generator_turn Generator.take_turn alone
  generator_turn-alone wait order g s = refl
  generator_turn-alone finish order g s = refl
  generator_turn-alone work order g s =
      alone-bind_eq (refresh_program g) _ s _ (refresh_program-alone g s)
      ∙ generated_after order s (refresh s.node g)
