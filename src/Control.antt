-- ===== src/Control.antt =====
-- The control of the miner (src/miner/mod.rs) and of the generator of transactions
-- (src/generator/tx_generator.rs), which have the same signals, states and first part of the loop.
use bitcoin_client.Prelude.{ℕ, ◌≡◌, ◌≢◌, refl, List, [], ◌∷◌, Option, none, some, ◌>>=◌, arith}

pub data ControlSignal : Type 0 where
  start : ℕ → ControlSignal  -- u64
  update : ControlSignal
  exit : ControlSignal

pub data OperatingState : Type 0 where
  paused : OperatingState
  run : ℕ → OperatingState
  shut_down : OperatingState

-- What the channel gives: a signal, nothing yet, or that its sender is gone.
pub data Received : Type 0 where
  signal : ControlSignal → Received
  empty : Received
  disconnected : Received

-- What a round of the loop goes on with: wait again, return, or do the round's work.
pub data Turn : Type 0 where
  wait : Turn
  finish : Turn
  work : Turn

unfoldable pub on_signal : OperatingState → ControlSignal → OperatingState
on_signal state (start i) = run i
on_signal state update = state
on_signal state exit = shut_down

unfoldable pub turn_of : OperatingState → Turn
turn_of shut_down = finish
turn_of paused = work
turn_of (run i) = work

-- The `match` on the operating state. In the paused state the thread blocks in `recv`, and goes
-- back to the top of the loop with a signal; a channel without sender is a panic.
unfoldable pub control : OperatingState → Received → Option (OperatingState × Turn)
unfolding on_signal turn_of
control paused (signal s) = some (on_signal paused s, wait)
control paused empty = some (paused, wait)
control paused disconnected = none
control shut_down r = some (shut_down, finish)
control (run i) (signal s) = some (on_signal (run i) s, turn_of (on_signal (run i) s))
control (run i) empty = some (run i, work)
control (run i) disconnected = none

pub control_total :
    (state : OperatingState) (r : Received)
    → r ≢ disconnected
    → (next : OperatingState × Turn) × (control state r ≡ some next)
unfolding control
control_total paused (signal s) n = (_, refl)
control_total paused empty n = (_, refl)
control_total paused disconnected n = absurd (n refl)
control_total shut_down r n = (_, refl)
control_total (run i) (signal s) n = (_, refl)
control_total (run i) empty n = (_, refl)
control_total (run i) disconnected n = absurd (n refl)

-- The states over a sequence of receptions.
unfoldable pub controls : OperatingState → List Received → Option OperatingState
unfolding control
controls state [] = some state
controls state (r ∷ rs) = control state r >>= λ next. controls next.0 rs

-- Once shut down, the loop stays so, whatever its channel gives.
pub shut_down_absorbs : (rs : List Received) → controls shut_down rs ≡ some shut_down
unfolding controls
shut_down_absorbs [] = refl
shut_down_absorbs (r ∷ rs) = shut_down_absorbs rs

-- Work is done only in a run.
pub work_needs_run :
    (state next : OperatingState) (r : Received)
    → control state r ≡ some (next, work)
    → (i : ℕ) × (next ≡ run i)
unfolding control
work_needs_run paused next (signal s) h = ground arith
work_needs_run paused next empty h = ground arith
work_needs_run paused next disconnected h = ground arith
work_needs_run shut_down next r h = ground arith
work_needs_run (run i) next (signal (start j)) h = (j, cc)
work_needs_run (run i) next (signal update) h = (i, cc)
work_needs_run (run i) next (signal exit) h = ground arith
work_needs_run (run i) next empty h = (i, cc)
work_needs_run (run i) next disconnected h = cc
