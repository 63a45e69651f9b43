-- ===== src/Tests/Commands.antt =====
-- A node that is asked for its longest chain, then to start the miner, then to ping its peers.
use bitcoin_client.Prelude.{◌≡◌, refl, List, [], ◌∷◌, none, some, arith}
use bitcoin_client.Control.{start, signal, empty, controls, paused, run}
use bitcoin_client.Api.{
  miner_start, network_ping, tx_generator_start, parse_uint, respond, ok, start_miner,
}
use bitcoin_client.Api.Commands.{Request, miner, sent_to, sent, serve, start_reaches}
use bitcoin_client.Tests.Toy.{toy}
use bitcoin_client.Tests.Client.{start_node}

abbrev earlier : List Request
earlier = record { node = start_node; route = tx_generator_start; param = none } ∷ []

abbrev later : List Request
later = record { node = start_node; route = network_ping; param = none } ∷ []

-- "lambda=15"
start_reaches_example :
    (respond toy start_node miner_start (some (49 ∷ 53 ∷ [])) ≡ some (ok, start_miner 15))
    × (controls paused (empty ∷ signal (start 15) ∷ empty ∷ []) ≡ some (run 15))
unfolding serve sent sent_to respond parse_uint
start_reaches_example =
    start_reaches toy miner earlier later start_node (49 ∷ 53 ∷ []) (λ e. cc)
      ((omega arith, omega arith), ((omega arith, omega arith), tt)) (omega arith) refl
      (empty ∷ signal (start 15) ∷ empty ∷ []) ((λ e. cc), ((λ e. cc), ((λ e. cc), tt))) refl
