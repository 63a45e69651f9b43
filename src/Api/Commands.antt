-- ===== src/Api/Commands.antt =====
-- From a request of src/api/mod.rs through `Handle::start` of src/miner/mod.rs or of
-- src/generator/tx_generator.rs, and the channel, to the loop that takes the signals.
use bitcoin_client.Prelude.{
  ℕ, ◌<◌, ◌≡◌, ◌≢◌, refl, sym, ap, All-append, ◌∙◌, List, [], ◌∷◌, ◌++◌, Option, none, some, All,
  arith,
}
use mathlib.Core.List.{append_assoc}
use bitcoin_client.Types.Crypto.{Crypto}
use bitcoin_client.Node.{Node}
use bitcoin_client.Control.{
  ControlSignal, start, update, exit, OperatingState, paused, run, shut_down, Received, signal,
  empty, disconnected, on_signal, control, controls,
}
use bitcoin_client.Api.{
  Route, miner_start, tx_generator_start, Response, ok, ok_started, Command, idle, start_miner,
  start_generator, broadcast, parse_uint, u64_mod, respond, on_parsed,
}
use bitcoin_client.Api.Parse.{IsDigit, unsigned, decimal, parse_uint_iff}

-- The two loops that the API controls.
pub data Target : Type 0 where
  miner : Target
  tx_generator : Target

abbrev pub route_of : Target → Route
route_of miner = miner_start
route_of tx_generator = tx_generator_start

abbrev pub start_of : Target → ℕ → Command
start_of miner n = start_miner n
start_of tx_generator n = start_generator n

abbrev pub answer_of : Target → Response
answer_of miner = ok
answer_of tx_generator = ok_started

-- `Handle::start` of the loop
unfoldable pub sent_to : Target → Command → List ControlSignal
sent_to miner (start_miner lambda) = start lambda ∷ []
sent_to tx_generator (start_generator theta) = start theta ∷ []
sent_to target command = []

-- A request, and the node as its thread finds it.
pub record Request : Type 0 where
  pub node : Node
  pub route : Route
  pub param : Option (List ℕ)

module _ (c : Crypto) (target : Target) where
  -- What the thread of a request sends; one that panics sends nothing.
  unfoldable pub sent : Option (Response × Command) → List ControlSignal
  unfolding sent_to
  sent none = []
  sent (some (answer, command)) = sent_to target command

  -- What the threads of requests send, one after the other.
  unfoldable pub serve : List Request → List ControlSignal
  unfolding sent
  serve [] = []
  serve (r ∷ requests) = sent (respond c r.node r.route r.param) ++ serve requests

-- The signals among what the channel gives.
abbrev pub signals : List Received → List ControlSignal
signals [] = []
signals (signal s ∷ rs) = s ∷ signals rs
signals (empty ∷ rs) = signals rs
signals (disconnected ∷ rs) = signals rs

-- The state that signals to start leave.
abbrev latest : OperatingState → List ControlSignal → OperatingState
latest state [] = state
latest state (s ∷ ss) = latest (on_signal state s) ss

abbrev IsStart : ControlSignal → Type 0
IsStart s = (i : ℕ) × (s ≡ start i)

sent_to-IsStart : (target : Target) (command : Command) → All IsStart (sent_to target command)
unfolding sent_to
sent_to-IsStart miner idle = tt
sent_to-IsStart miner (start_miner i) = ((i, refl), tt)
sent_to-IsStart miner (start_generator i) = tt
sent_to-IsStart miner (broadcast m) = tt
sent_to-IsStart tx_generator idle = tt
sent_to-IsStart tx_generator (start_miner i) = tt
sent_to-IsStart tx_generator (start_generator i) = ((i, refl), tt)
sent_to-IsStart tx_generator (broadcast m) = tt

not_update : IsStart update → ⊥
not_update (i, e) = cc

not_exit : IsStart exit → ⊥
not_exit (i, e) = cc

controls-latest :
    (state : OperatingState) (rs : List Received)
    → state ≢ shut_down
    → All (λ r. r ≢ disconnected) rs
    → All IsStart (signals rs)
    → controls state rs ≡ some (latest state (signals rs))
unfolding controls control on_signal
controls-latest state [] live open_channel starts = refl
controls-latest shut_down (r ∷ rs) live open_channel starts = absurd (live refl)
controls-latest state (disconnected ∷ rs) live open_channel starts = absurd (open_channel.0 refl)
controls-latest paused (empty ∷ rs) live open_channel starts =
    controls-latest paused rs live open_channel.1 starts
controls-latest (run i) (empty ∷ rs) live open_channel starts =
    controls-latest (run i) rs live open_channel.1 starts
controls-latest paused (signal (start i) ∷ rs) live open_channel starts =
    controls-latest (run i) rs (λ e. cc) open_channel.1 starts.1
controls-latest (run j) (signal (start i) ∷ rs) live open_channel starts =
    controls-latest (run i) rs (λ e. cc) open_channel.1 starts.1
controls-latest paused (signal update ∷ rs) live open_channel starts = absurd (not_update starts.0)
controls-latest (run j) (signal update ∷ rs) live open_channel starts = absurd (not_update starts.0)
controls-latest paused (signal exit ∷ rs) live open_channel starts = absurd (not_exit starts.0)
controls-latest (run j) (signal exit ∷ rs) live open_channel starts = absurd (not_exit starts.0)

latest-start :
    (state : OperatingState) (before : List ControlSignal) (i : ℕ)
    → latest state (before ++ start i ∷ []) ≡ run i
unfolding on_signal
latest-start state [] i = refl
latest-start state (s ∷ before) i = latest-start (on_signal state s) before i

sent-IsStart :
    (c : Crypto) (target : Target) (outcome : Option (Response × Command))
    → All IsStart (sent c target outcome)
unfolding sent
sent-IsStart c target none = tt
sent-IsStart c target (some (answer, command)) = sent_to-IsStart target command

sent-start :
    (c : Crypto) (target : Target) (n : ℕ)
    → sent c target (some (answer_of target, start_of target n)) ≡ start n ∷ []
unfolding sent sent_to
sent-start c miner n = refl
sent-start c tx_generator n = refl

serve-IsStart :
    (c : Crypto) (target : Target) (requests : List Request) → All IsStart (serve c target requests)
unfolding serve sent
serve-IsStart c target [] = tt
serve-IsStart c target (r ∷ requests) =
    All-append IsStart _ _ (sent-IsStart c target (respond c r.node r.route r.param))
      (serve-IsStart c target requests)

serve-append :
    (c : Crypto) (target : Target) (before later : List Request)
    → serve c target (before ++ later) ≡ serve c target before ++ serve c target later
unfolding serve
serve-append c target [] later = refl
serve-append c target (r ∷ before) later =
    ap (λ l. sent c target (respond c r.node r.route r.param) ++ l)
      (serve-append c target before later)
    ∙ sym (
        append_assoc (sent c target (respond c r.node r.route r.param)) (serve c target before)
          (serve c target later))

starts :
    (c : Crypto) (target : Target) (node : Node) (bs : List ℕ) (n : ℕ)
    → parse_uint u64_mod bs ≡ some n
    → respond c node (route_of target) (some bs) ≡ some (answer_of target, start_of target n)
unfolding respond
starts c miner node bs n h = ap (λ m. on_parsed m (λ lambda. some (ok, start_miner lambda))) h
starts c tx_generator node bs n h =
    ap (λ m. on_parsed m (λ theta. some (ok_started, start_generator theta))) h

started :
    (c : Crypto) (target : Target) (before later : List Request) (node : Node) (bs : List ℕ) (n : ℕ)
    → respond c node (route_of target) (some bs) ≡ some (answer_of target, start_of target n)
    → serve c target later ≡ []
    → serve c target
        (before ++ record { node = node; route = route_of target; param = some bs } ∷ later)
      ≡ serve c target before ++ start n ∷ []
unfolding serve
started c target before later node bs n answered quiet =
    serve-append c target before
      (record { node = node; route = route_of target; param = some bs } ∷ later)
    ∙ ap (λ l. serve c target before ++ l) (rw (answered, sent-start c target n, quiet) refl)

-- A request to start the miner or the generator, whose parameter has decimal digits and nothing
-- else after an optional `+`, which write a number below 2 ^ 64, is answered with "ok" by the miner's route and with "ok!" by the generator's; and once
-- the loop has taken the signals of the requests, with any pauses in between and as long as no
-- request after this one sends it another, it runs with that number. The channel is not closed.
pub start_reaches :
    (c : Crypto) (target : Target) (before later : List Request) (node : Node) (bs : List ℕ)
    → unsigned bs ≢ []
    → All IsDigit (unsigned bs)
    → decimal 0 (unsigned bs) < u64_mod
    → serve c target later ≡ []
    → (rs : List Received) → All (λ r. r ≢ disconnected) rs
    → signals rs
      ≡ serve c target
          (before ++ record { node = node; route = route_of target; param = some bs } ∷ later)
    → (respond c node (route_of target) (some bs)
        ≡ some (answer_of target, start_of target (decimal 0 (unsigned bs))))
      × (controls paused rs ≡ some (run (decimal 0 (unsigned bs))))
start_reaches c target before later node bs there digits small quiet rs open_channel taken =
    let n : ℕ = decimal 0 (unsigned bs) in
    let answered : respond c node (route_of target) (some bs)
        ≡ some (answer_of target, start_of target n) =
      starts c target node bs n
        ((parse_uint_iff u64_mod n bs (omega arith)).1 (there, digits, refl, small)) in
    let reached : signals rs ≡ serve c target before ++ start n ∷ [] =
      taken ∙ started c target before later node bs n answered quiet in
    (
      answered,
      controls-latest paused rs (λ e. cc) open_channel
            (rw reached (All-append IsStart _ _ (serve-IsStart c target before) ((n, refl), tt)))
          ∙ ap some (rw reached (latest-start paused (serve c target before) n)),
    )
