-- ===== src/Threads/Serial/Loops.antt =====
-- The loops of the miner, its worker and the generator, when no other thread comes between their
-- locks: a run of their programs is a sequence of the rounds of Miner, Miner.Worker and Generator.
use bitcoin_client.Prelude.{ℕ, zero, suc, ◌≡◌, refl, ◌∙◌, List, [], ◌∷◌, Option, none, some, ◌>>=◌}
use bitcoin_client.Types.Hash.{h256_eq}
use bitcoin_client.Types.Block.{Block}
use bitcoin_client.Types.Crypto.{Crypto}
use bitcoin_client.Control.{Turn, Received, control, OperatingState}
use bitcoin_client.Node.{Node}
use bitcoin_client.Miner
use bitcoin_client.Miner.{Miner, remove_all, fill, select, candidate, mine, take_turn}
use bitcoin_client.Miner.Worker.{on_finished}
use bitcoin_client.Generator
use bitcoin_client.Generator.{GeneLoop, get_tx_balance, add_absent, refresh, generate, announce}
use bitcoin_client.Threads.{Shared, alone, bind, unwrap}
use bitcoin_client.Threads.Alone.Bind.{alone-bind_eq}
use bitcoin_client.Threads.Serial.{
  then_rest, mined, generated, miner_turn-alone, generator_turn-alone,
}
use bitcoin_client.Threads.Serial.Finish.{finished_program-alone}
use bitcoin_client.Threads.Others.{
  OutputOrder, PoolOrder, generator_turn, miner_turn, finished_program, taker_program,
  miner_program, generator_program,
}

module _ (c : Crypto) where
  -- The rounds of `Miner.round`, one after the other, with the channel.
  abbrev pub mine_rounds :
      List (Received × PoolOrder × ℕ × ℕ) → Shared → Miner → Option (Shared × Unit {0})
  mine_rounds [] s m = some (s, tt)
  mine_rounds ((received, order, nonce, time) ∷ rounds) s m =
      Miner.round c s.node received (order s.node.mempool) nonce time m >>= λ r.
      mine_rounds rounds (mined s r).0 (mined s r).1

  -- The rounds of `Generator.round`.
  abbrev pub generate_rounds :
      List (Received × OutputOrder) → Shared → GeneLoop → Option (Shared × Unit {0})
  generate_rounds [] s g = some (s, tt)
  generate_rounds ((received, order) ∷ rounds) s g =
      Generator.round c s.node received order g >>= λ r.
      generate_rounds rounds (generated s r).0 (generated s r).1

  -- The rounds of `on_finished`: the channel's blocks in their order, then waiting.
  abbrev pub take_rounds : ℕ → Node → List Block → Option (Shared × Unit {0})
  take_rounds zero node queue = some (record { node = node; finished_blocks = queue }, tt)
  take_rounds (suc rounds) node [] = take_rounds rounds node []
  take_rounds (suc rounds) node (block ∷ queue) =
      on_finished c node block >>= λ r. take_rounds rounds r.0 queue

  mine_next :
      (rounds : List (Received × PoolOrder × ℕ × ℕ)) (order : PoolOrder) (nonce time : ℕ)
      (m : Miner) (s : Shared) (o : Option (OperatingState × Turn))
      → ((s : Shared) (m : Miner) → alone (miner_program c m rounds) s ≡ mine_rounds rounds s m)
      → alone
          (unwrap o (λ next.
            bind
              (miner_turn c next.1 order nonce time (record m { operating_state = next.0 }))
              (λ m'. miner_program c m' rounds)))
          s
        ≡ ((o >>= λ next.
              take_turn c next.1 s.node
                (order s.node.mempool)
                nonce
                time
                (record m { operating_state = next.0 }))
            >>= λ r. mine_rounds rounds (mined s r).0 (mined s r).1)
  unfolding alone
  mine_next rounds order nonce time m s none rest = refl
  mine_next rounds order nonce time m s (some next) rest =
      let m' : Miner = record m { operating_state = next.0 } in
      alone-bind_eq (miner_turn c next.1 order nonce time m') _ s _
        (miner_turn-alone c next.1 order nonce time m' s)
      ∙ then_rest (take_turn c next.1 s.node (order s.node.mempool) nonce time m') (mined s)
          (λ x. miner_program c x rounds) _ (λ r. rest (mined s r).0 (mined s r).1)

  generate_next :
      (rounds : List (Received × OutputOrder)) (order : OutputOrder) (g : GeneLoop) (s : Shared)
      (o : Option (OperatingState × Turn))
      → ((s : Shared) (g : GeneLoop)
          → alone (generator_program c g rounds) s ≡ generate_rounds rounds s g)
      → alone
          (unwrap o (λ next.
            bind
              (generator_turn c next.1 order (record g { operating_state = next.0 }))
              (λ g'. generator_program c g' rounds)))
          s
        ≡ ((o >>= λ next.
              Generator.take_turn c next.1 s.node order (record g { operating_state = next.0 }))
            >>= λ r. generate_rounds rounds (generated s r).0 (generated s r).1)
  unfolding alone
  generate_next rounds order g s none rest = refl
  generate_next rounds order g s (some next) rest =
      let g' : GeneLoop = record g { operating_state = next.0 } in
      alone-bind_eq (generator_turn c next.1 order g') _ s _
        (generator_turn-alone c next.1 order g' s)
      ∙ then_rest (Generator.take_turn c next.1 s.node order g') (generated s)
          (λ x. generator_program c x rounds) _ (λ r. rest (generated s r).0 (generated s r).1)

  miner_program-alone :
      (rounds : List (Received × PoolOrder × ℕ × ℕ)) (m : Miner) (s : Shared)
      → alone (miner_program c m rounds) s ≡ mine_rounds rounds s m
  unfolding miner_program alone Miner.round
  miner_program-alone [] m s = refl
  miner_program-alone ((received, order, nonce, time) ∷ rounds) m s =
      mine_next rounds order nonce time m s (control m.operating_state received)
        (λ s' m'. miner_program-alone rounds m' s')

  generator_program-alone :
      (rounds : List (Received × OutputOrder)) (g : GeneLoop) (s : Shared)
      → alone (generator_program c g rounds) s ≡ generate_rounds rounds s g
  unfolding generator_program alone Generator.round
  generator_program-alone [] g s = refl
  generator_program-alone ((received, order) ∷ rounds) g s =
      generate_next rounds order g s (control g.operating_state received)
        (λ s' g'. generator_program-alone rounds g' s')

  taker_program-alone :
      (rounds : ℕ) (node : Node) (queue : List Block)
      → alone (taker_program c rounds) (record { node = node; finished_blocks = queue })
        ≡ take_rounds rounds node queue
  unfolding taker_program alone finished_program
  taker_program-alone zero node queue = refl
  taker_program-alone (suc rounds) node [] = taker_program-alone rounds node []
  taker_program-alone (suc rounds) node (block ∷ queue) =
      alone-bind_eq (finished_program c (block ∷ queue)) (λ _. taker_program c rounds)
        (record { node = node; finished_blocks = queue }) _
        (finished_program-alone c block (record { node = node; finished_blocks = queue }) queue)
      ∙ then_rest (on_finished c node block)
          (λ r. (record { node = r.0; finished_blocks = queue }, tt)) (λ _. taker_program c rounds)
          _ (λ r. taker_program-alone rounds r.0 queue)

  -- With no other thread in between, any number of rounds of the miner, of the generator and of the
  -- miner's worker, each with the locks that it takes one by one, panic where the rounds that are
  -- one step panic, and leave the same node and the same channel.
  pub loops-alone :
      (mining : List (Received × PoolOrder × ℕ × ℕ)) (generating : List (Received × OutputOrder))
      (taking : ℕ) (m : Miner) (g : GeneLoop) (s : Shared)
      → (alone (miner_program c m mining) s ≡ mine_rounds mining s m)
        × (alone (generator_program c g generating) s ≡ generate_rounds generating s g)
        × (alone (taker_program c taking) s ≡ take_rounds taking s.node s.finished_blocks)
  loops-alone mining generating taking m g s = (
    miner_program-alone mining m s,
    generator_program-alone generating g s,
    taker_program-alone taking s.node s.finished_blocks,
  )
