-- ===== src/Threads/Turns.antt =====
-- Threads that keep what they owe can take turns in any order.
use bitcoin_client.Prelude.{
  ℕ, zero, suc, ◌+◌, ◌<◌, ◌≡◌, refl, List, [], ◌∷◌, none, some, ◌>>=◌, All, All-imp, length,
  u32_mod, arith,
}
use bitcoin_client.Types.Block.{Header}
use bitcoin_client.Types.Crypto.{Crypto}
use bitcoin_client.Threads.{
  Shared, Program, done, panic, acquire, write, read, settle, tick, Pool, turn, run,
}
use bitcoin_client.Threads.Calm.{
  IsCalm, Later, Later-refl, Later-trans, Guaranteed, Calm, Calm-Later, AreNew, unchanged,
}

-- The thread ends with any value.
abbrev pub Any : {A : Type 0} → Shared → A → Type 0
Any s a = Unit

abbrev pub IsCalmThread : (c : Crypto) → (Header → Type 0) → Shared → Program Unit → Type 0
IsCalmThread c Seen = Calm c Seen Any

-- The shared values after a turn, as far as the thread gets.
abbrev pub touch : Program Unit → Shared → Shared
touch (done a) s = s
touch panic s = s
touch (acquire l f k) s = write l s (f (read l s))

abbrev pub touched : ℕ → Shared → Pool → Shared
touched i s [] = s
touched zero s (p ∷ pool) = touch p s
touched (suc i) s (p ∷ pool) = touched i s pool

-- The blocks of the channel are new after each turn of the schedule.
abbrev pub AreAllNew : Crypto → (Header → Type 0) → List ℕ → Shared → Pool → Type 0
AreAllNew c Seen [] s pool = Unit
AreAllNew c Seen (i ∷ schedule) s pool =
    AreNew c Seen (touched i s pool)
    × elim (turn i s pool) [ none ↦ Unit | some r ↦ AreAllNew c Seen schedule r.0 r.1 ]

module _ (c : Crypto) (Seen : Header → Type 0) where
  settles : (s : Shared) (p : Program Unit) → IsCalmThread c Seen s p → settle s p ≡ some (s, p)
  settles s (done a) h = refl
  settles s panic h = absurd h
  settles s (acquire l f k) h = refl

  -- A turn of a thread.
  tick_total :
      (s : Shared) (w : IsCalm c Seen s) (p : Program Unit)
      → IsCalmThread c Seen s p
      → w.safe.chain.top + 1 < u32_mod
      → AreNew c Seen (touch p s)
      → (s' : Shared) × (p' : Program Unit) × (tick p s ≡ some (s', p'))
        × Guaranteed c Seen s w.safe.chain.top s'
        × IsCalmThread c Seen s' p'
  unfolding tick
  tick_total s w (done a) h room ok = (s, done a, refl, unchanged s w, h)
  tick_total s w panic h room ok = absurd h
  tick_total s w (acquire l f k) h room ok =
      let (owed, rest) = h s (Later-refl s) w room ok in
      (_, k (read l s), settles (write l s (f (read l s))) (k (read l s)) rest, owed, rest)

  pool-Later :
      (s s' : Shared) (pool : Pool)
      → Later s s'
      → All (IsCalmThread c Seen s) pool
      → All (IsCalmThread c Seen s') pool
  pool-Later s s' pool l a = All-imp (λ p. Calm-Later c Seen Any p l) pool a

  turn_total :
      (i : ℕ) (s : Shared) (w : IsCalm c Seen s) (pool : Pool)
      → All (IsCalmThread c Seen s) pool
      → w.safe.chain.top + 1 < u32_mod
      → AreNew c Seen (touched i s pool)
      → (s' : Shared) × (pool' : Pool) × (turn i s pool ≡ some (s', pool'))
        × Guaranteed c Seen s w.safe.chain.top s'
        × All (IsCalmThread c Seen s') pool'
  unfolding turn
  turn_total i s w [] a room ok = (s, [], refl, unchanged s w, tt)
  turn_total zero s w (p ∷ pool) a room ok =
      let (s', p', e, owed, h) = tick_total s w p a.0 room ok in
      (s', p' ∷ pool, rw (e, ◌>>=◌), owed, (h, pool-Later s s' pool owed.later a.1))
  turn_total (suc i) s w (p ∷ pool) a room ok =
      let (s', pool', e, owed, h) = turn_total i s w pool a.1 room ok in
      (s', p ∷ pool', rw (e, ◌>>=◌), owed, (Calm-Later c Seen Any p owed.later a.0, h))

  -- Threads that keep what they owe can take turns in any order.
  pub run_total :
      (schedule : List ℕ) (s : Shared) (w : IsCalm c Seen s) (pool : Pool)
      → All (IsCalmThread c Seen s) pool
      → w.safe.chain.top + length schedule < u32_mod
      → AreAllNew c Seen schedule s pool
      → (s' : Shared) × (pool' : Pool) × (run schedule s pool ≡ some (s', pool'))
        × Later s s'
        × IsCalm c Seen s'
        × All (IsCalmThread c Seen s') pool'
  unfolding run
  run_total [] s w pool a room ok = (s, pool, refl, Later-refl s, w, a)
  run_total (i ∷ schedule) s w pool a room ok =
      let (s', pool', e, owed, h) = turn_total i s w pool a (omega arith) ok.0 in
      let (s'', pool'', e', l, w'', h') =
        run_total schedule s' owed.calm pool' h (omega (arith, owed.top_le)) (rw e at ok.1) in
      (s'', pool'', rw (e, ◌>>=◌) e', Later-trans owed.later l, w'', h')
