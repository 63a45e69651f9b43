-- ===== src/Threads/Rounds.antt =====
-- The programs of the generator, the miner, the miner's worker and the routes keep what they owe.
use bitcoin_client.Prelude.{
  ℕ, zero, suc, ◌≡◌, ◌≢◌, refl, ap, ◌∙◌, inl, inr, Bool, true, false, List, [], ◌∷◌, ◌++◌, ◌==◌,
  ◌=?◌, All, if◌then◌else◌, length, Bool-cases, Option-cases,
}
use bitcoin_client.Prelude.HashMap.{get, is_some}
use bitcoin_client.Types.Hash.{H256, h256_eq, le}
use bitcoin_client.Types.Address.{Address}
use bitcoin_client.Types.Block.{Header, Block}
use bitcoin_client.Types.Transaction.{SignedTransaction}
use bitcoin_client.Types.Crypto.{Crypto, hash}
use bitcoin_client.Blockchain.{genesis_hash, genesis_difficulty}
use bitcoin_client.Control.{Received, Turn, wait, finish, work, disconnected, control_total}
use bitcoin_client.Miner.{Miner, candidate}
use bitcoin_client.Miner.Mining.{root_total}
use bitcoin_client.Generator.{GeneLoop, get_tx_balance}
use bitcoin_client.Network.Worker.Safe.{IsCollisionFree, IsStored}
use bitcoin_client.Threads.{Shared, done}
use bitcoin_client.Threads.Worker.{check_program, insert_program}
use bitcoin_client.Threads.Others.{
  OutputOrder, PoolOrder, refresh_program, offer_program, select_program, remove_program,
  generate_program, generator_turn, generator_program, send_program, mine_program, miner_turn,
  miner_program, finished_program, rest_of, taker_program,
}
use bitcoin_client.Threads.Calm.{
  IsSent, Later, IsStored-Later, Calm, Calm-bind, Calm-imp, unchanged,
}
use bitcoin_client.Threads.Owed.{IsSent-Later, write_mempool, write_channel}
use bitcoin_client.Threads.Turns.{IsCalmThread, Any}
use bitcoin_client.Threads.Adding.{HasState, check_program-Calm, insert_program-Calm}

module _ (c : Crypto) (Seen : Header → Type 0) where
  refresh_program-Calm : (s : Shared) (g : GeneLoop) → Calm c Seen Any s (refresh_program g)
  unfolding refresh_program
  refresh_program-Calm s g = λ s' l w room ok. (
    unchanged s' w,
    elim (Bool-cases (g.prev_tip == s'.node.blockchain.tip)) [
      | inl same ↦ rw same (λ s'' l'. tt)
      | inr other ↦ rw other (λ s'' l' w' room' ok.
          let (e, stored) = IsStored-Later s'.node.blockchain.tip l' (_, w.safe.chain.tip_stored) in
          let (st, found) = w'.safe.stated s'.node.blockchain.tip e stored in
          rw found (unchanged s'' w', λ s3 l3. tt))
    ],
  )

  offer_program-Calm :
      (s : Shared) (h : H256) (t : SignedTransaction) → Calm c Seen Any s (offer_program h t)
  unfolding offer_program
  offer_program-Calm s h t = λ s' l w room ok. (
    unchanged s' w,
    elim (Option-cases (get s'.node.mempool.trans h)) [
      | inr (u, known) ↦ rw (known, is_some) (λ s'' l'. tt)
      | inl fresh ↦
          rw (fresh, is_some) (λ s'' l' w' room' ok. (write_mempool s'' w' _, λ s3 l3. tt))
    ],
  )

  generate_program-Calm :
      (s : Shared) (entries : List ((H256 × ℕ) × (ℕ × Address))) (g : GeneLoop)
      → Calm c Seen Any s (generate_program c entries g)
  unfolding generate_program
  generate_program-Calm s entries g = elim (Bool-cases ((get_tx_balance g.addr entries).1 =? 0)) [
    | inl poor ↦ rw poor (λ s' l. tt)
    | inr rich ↦ rw rich (
        Calm-bind c Seen Any Any s (offer_program _ _) _ (offer_program-Calm s _ _)
          (λ s' u l q s'' l'. tt))
  ]

  generator_turn-Calm :
      (s : Shared) (t : Turn) (order : OutputOrder) (g : GeneLoop)
      → Calm c Seen Any s (generator_turn c t order g)
  unfolding generator_turn
  generator_turn-Calm s wait order g = λ s' l. tt
  generator_turn-Calm s finish order g = λ s' l. tt
  generator_turn-Calm s work order g =
      Calm-bind c Seen Any Any s (refresh_program g) _ (refresh_program-Calm s g)
        (λ s' next l q. generate_program-Calm s' (order next.state) next)

  -- The generator keeps what it owes, as long as its control channel has a sender.
  pub generator_program-Calm :
      (s : Shared) (g : GeneLoop) (rounds : List (Received × OutputOrder))
      → All (λ r. r.0 ≢ disconnected) rounds
      → IsCalmThread c Seen s (generator_program c g rounds)
  unfolding generator_program
  generator_program-Calm s g [] a = λ s' l. tt
  generator_program-Calm s g ((received, order) ∷ rounds) a =
      let (next, e) = control_total g.operating_state received a.0 in
      rw (e) (
        Calm-bind c Seen Any Any s (generator_turn c next.1 order _) _
          (generator_turn-Calm s next.1 order _)
          (λ s' g' l q. generator_program-Calm s' g' rounds a.1))

  select_program-Calm :
      (s : Shared) (order : PoolOrder) (m : Miner) → Calm c Seen Any s (select_program order m)
  unfolding select_program
  select_program-Calm s order m = elim (Bool-cases (length m.to_remove =? 0)) [
    | inl fresh ↦ rw fresh (λ s' l w room ok. (unchanged s' w, λ s'' l'. tt))
    | inr busy ↦ rw busy (λ s' l. tt)
  ]

  remove_program-Calm :
      (hashes : List H256) (s : Shared) → Calm c Seen Any s (remove_program hashes)
  unfolding remove_program
  remove_program-Calm [] s = λ s' l. tt
  remove_program-Calm (h ∷ hashes) s =
      λ s' l w room ok. (write_mempool s' w _, remove_program-Calm hashes _)

-- A block of the fixed difficulty on a stored parent.
record IsCandidate (s : Shared) (block : Block) : Type 0 where
  difficulty : block.head.difficulty ≡ genesis_difficulty
  parent : IsStored s.node.blockchain.blocks block.head.parent

module _ (c : Crypto) (Seen : Header → Type 0) where
  sent_now :
      (s : Shared) (queue : List Block) (block : Block)
      → All (IsSent c Seen s.node) queue
      → IsCandidate s block
      → le (hash c block) genesis_difficulty ≡ true
      → All (λ b. Seen b.head × (hash c b ≢ genesis_hash c)) (queue ++ block ∷ [])
      → All (IsSent c Seen s.node) (queue ++ block ∷ [])
  sent_now s [] block a d worked n = (
    record {
      worked = record {
        seen = n.0.0;
        worked = ap (le (hash c block)) d.difficulty ∙ worked;
        other = n.0.1;
      };
      difficulty = d.difficulty;
      parent = d.parent;
    },
    tt,
  )
  sent_now s (b ∷ queue) block a d worked n = (a.0, sent_now s queue block a.1 d worked n.1)

  send_program-Calm :
      (s : Shared) (m : Miner) (block : Block)
      → IsCandidate s block
      → Calm c Seen Any s (send_program c m block)
  unfolding send_program
  send_program-Calm s m block d = elim (Bool-cases (le (hash c block) genesis_difficulty)) [
    | inr weak ↦ rw weak (λ s' l. tt)
    | inl worked ↦ rw worked (λ s' l w room ok. (
      write_channel s' w _ (
          sent_now s' s'.finished_blocks block w.sent
            (record {
              difficulty = d.difficulty;
              parent = IsStored-Later block.head.parent l d.parent;
            })
            worked ok),
      Calm-bind c Seen Any Any _ (remove_program m.to_remove) _
          (remove_program-Calm c Seen m.to_remove _) (λ s'' u l' q s3 l3. tt),
    ))
  ]

  mine_program-Calm :
      (s : Shared) (order : PoolOrder) (nonce time : ℕ) (m : Miner)
      → Calm c Seen Any s (mine_program c order nonce time m)
  unfolding mine_program candidate
  mine_program-Calm s order nonce time m =
      Calm-bind c Seen Any Any s (select_program order m) _ (select_program-Calm c Seen s order m)
        (λ s' selected l q.
          let (tree, en, r, er) = root_total c selected.transaction in
          rw (en, er)
            (λ s'' l' w room ok. (
              unchanged s'' w,
              send_program-Calm s'' selected
                  (candidate s''.node.blockchain.tip selected.transaction r nonce time)
                  (record { difficulty = refl; parent = (_, w.safe.chain.tip_stored) }),
            )))

  miner_turn-Calm :
      (s : Shared) (t : Turn) (order : PoolOrder) (nonce time : ℕ) (m : Miner)
      → Calm c Seen Any s (miner_turn c t order nonce time m)
  unfolding miner_turn
  miner_turn-Calm s wait order nonce time m = λ s' l. tt
  miner_turn-Calm s finish order nonce time m = λ s' l. tt
  miner_turn-Calm s work order nonce time m = mine_program-Calm s order nonce time m

  -- The miner keeps what it owes, as long as its control channel has a sender.
  pub miner_program-Calm :
      (s : Shared) (m : Miner) (rounds : List (Received × PoolOrder × ℕ × ℕ))
      → All (λ r. r.0 ≢ disconnected) rounds
      → IsCalmThread c Seen s (miner_program c m rounds)
  unfolding miner_program
  miner_program-Calm s m [] a = λ s' l. tt
  miner_program-Calm s m ((received, order, nonce, time) ∷ rounds) a =
      let (next, e) = control_total m.operating_state received a.0 in
      rw e (
        Calm-bind c Seen Any Any s (miner_turn c next.1 order nonce time _) _
          (miner_turn-Calm s next.1 order nonce time _)
          (λ s' m' l q. miner_program-Calm s' m' rounds a.1))

module _ (c : Crypto) (Seen : Header → Type 0) (free : IsCollisionFree c Seen) where
  finished_program-Calm :
      (s : Shared) (queue : List Block)
      → All (IsSent c Seen s.node) queue
      → Calm c Seen Any s (finished_program c queue)
  unfolding finished_program
  finished_program-Calm s [] a = λ s' l. tt
  finished_program-Calm s (block ∷ queue) a =
      Calm-bind c Seen _ Any s (check_program c block.head.parent block.cont.st (hash c block)) _
        (check_program-Calm c Seen s block.head.parent block.cont.st (hash c block) a.0.parent)
        finish_block
    where
      finish_block :
          (s' : Shared) (passed : Bool)
          → Later s s'
          → (passed ≡ true → HasState s' (hash c block))
          → Calm c Seen Any s' (if passed then insert_program c block else done tt)
      finish_block s' false l own = λ s'' l'. tt
      finish_block s' true l own =
          Calm-imp c Seen _ Any (λ s'' u stored. tt) s' (insert_program c block)
            (insert_program-Calm c Seen free s' block a.0.worked
              (IsStored-Later block.head.parent l a.0.parent) a.0.difficulty (own refl))

  All-rest_of :
      (s : Shared) (queue : List Block)
      → All (IsSent c Seen s.node) queue
      → All (IsSent c Seen s.node) (rest_of queue)
  All-rest_of s [] a = tt
  All-rest_of s (block ∷ queue) a = a.1

  -- The miner's worker keeps what it owes.
  pub taker_program-Calm :
      (s : Shared) (rounds : ℕ) → IsCalmThread c Seen s (taker_program c rounds)
  unfolding taker_program
  taker_program-Calm s zero = λ s' l. tt
  taker_program-Calm s (suc rounds) = λ s' l w room ok. (
    write_channel s' w (rest_of s'.finished_blocks) (All-rest_of s' s'.finished_blocks w.sent),
    Calm-bind c Seen Any Any _ (finished_program c s'.finished_blocks) _
        (finished_program-Calm _ s'.finished_blocks (
          IsSent-Later c Seen
            (write_channel s' w (rest_of s'.finished_blocks)
              (All-rest_of s' s'.finished_blocks w.sent)).later
            s'.finished_blocks w.sent))
        (λ s'' u l' q. taker_program-Calm s'' rounds),
  )
