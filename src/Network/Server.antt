-- ===== src/Network/Server.antt =====
-- `dispatch_control` of src/network/server.rs, over a type of socket addresses. What the sockets
-- do is an argument of the signals: the address of the peer that a stream is connected to, if
-- there is one. A handle is known by its peer's address. A broadcast writes in the order of the
-- association list, where the code has the order of its map.
pub mod Peers
use bitcoin_client.Prelude.{List, [], ◌∷◌, ◌++◌, map, Option, none, some, ◌>>=◌, PartialEq}
use bitcoin_client.Prelude.HashMap.{HashMap, insert, remove}
use bitcoin_client.Network.Message.{Message}

pub data ControlSignal (Addr : Type 0) : Type 0 where
  connect_new_peer : Addr → Option Addr → ControlSignal Addr
  broadcast_message : Message → ControlSignal Addr
  get_new_peer : Option Addr → ControlSignal Addr
  dropped_peer : Addr → ControlSignal Addr
  send_to_peer : Addr → Message → ControlSignal Addr

pub record Handle (Addr : Type 0) : Type 0 where
  pub addr : Addr

-- The peers after a signal, and what is put on the write queues.
pub record Dispatched (Addr : Type 0) : Type 0 where
  pub peers : HashMap Addr (Handle Addr)
  pub written : List (Addr × Message)

module _ {Addr : Type 0} ⦃e : PartialEq Addr⦄ where
  -- `register`
  unfoldable pub register : HashMap Addr (Handle Addr) → Addr → HashMap Addr (Handle Addr)
  register peers addr = insert peers addr (record { addr = addr })

  -- A new peer of either direction: the error of an incoming one ends the loop in a panic, that of
  -- an outgoing one goes to the caller.
  unfoldable pub dispatch :
      HashMap Addr (Handle Addr) → ControlSignal Addr → Option (Dispatched Addr)
  unfolding register
  dispatch peers (connect_new_peer addr none) = some (record { peers = peers; written = [] })
  dispatch peers (connect_new_peer addr (some a)) =
      some (record { peers = register peers a; written = [] })
  dispatch peers (broadcast_message msg) =
      some (record {
        peers = peers;
        written = map (λ (p : Addr × Handle Addr). (p.1.addr, msg)) peers;
      })
  dispatch peers (get_new_peer none) = none
  dispatch peers (get_new_peer (some a)) = some (record { peers = register peers a; written = [] })
  dispatch peers (dropped_peer addr) = some (record { peers = remove peers addr; written = [] })
  dispatch peers (send_to_peer addr msg) = none

  -- The loop over the signals.
  unfoldable pub dispatch_control :
      HashMap Addr (Handle Addr) → List (ControlSignal Addr) → Option (Dispatched Addr)
  unfolding dispatch
  dispatch_control peers [] = some (record { peers = peers; written = [] })
  dispatch_control peers (s ∷ signals) = dispatch peers s >>= λ d.
      dispatch_control d.peers signals >>= λ rest.
      some (record { peers = rest.peers; written = d.written ++ rest.written })
