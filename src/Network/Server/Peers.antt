-- ===== src/Network/Server/Peers.antt =====
-- The peers that src/network/server.rs writes to.
use bitcoin_client.Prelude.{
  ◌≡◌, refl, ap, ◌∙◌, inl, inr, Bool, true, false, List, [], ◌∷◌, ◌++◌, none, some, ◌>>=◌,
  PartialEq, ◌==◌, if◌then◌else◌, Bool-cases, All,
}
use bitcoin_client.Prelude.HashMap.{HashMap, remove, contains_key, is_some, get-insert, get-remove}
use bitcoin_client.Network.Server.{
  ControlSignal, connect_new_peer, broadcast_message, get_new_peer, dropped_peer, send_to_peer,
  Handle, Dispatched, register, dispatch, dispatch_control,
}

module _ {Addr : Type 0} ⦃e : PartialEq Addr⦄ where
  -- Whether a peer is connected after a signal: it is from the registration on, until it is
  -- dropped.
  abbrev pub after : Addr → Bool → ControlSignal Addr → Bool
  after a was (connect_new_peer addr none) = was
  after a was (connect_new_peer addr (some b)) = if b == a then true else was
  after a was (broadcast_message msg) = was
  after a was (get_new_peer none) = was
  after a was (get_new_peer (some b)) = if b == a then true else was
  after a was (dropped_peer b) = if b == a then false else was
  after a was (send_to_peer addr msg) = was

  abbrev pub connected : Addr → Bool → List (ControlSignal Addr) → Bool
  connected a was [] = was
  connected a was (s ∷ signals) = connected a (after a was s) signals

  -- A signal that does not end the loop.
  abbrev pub IsHandled : ControlSignal Addr → Type 0
  IsHandled (get_new_peer none) = ⊥
  IsHandled (send_to_peer addr msg) = ⊥
  IsHandled (connect_new_peer addr r) = Unit
  IsHandled (broadcast_message msg) = Unit
  IsHandled (get_new_peer (some b)) = Unit
  IsHandled (dropped_peer b) = Unit

  register_after :
      (peers : HashMap Addr (Handle Addr)) (b a : Addr)
      → contains_key (register peers b) a ≡ (if b == a then true else contains_key peers a)
  unfolding register
  register_after peers b a = elim (Bool-cases (b == a)) [
    | inl same ↦ rw (get-insert peers b (record { addr = b }) a, same, is_some)
    | inr other ↦ rw (get-insert peers b (record { addr = b }) a, other)
  ]

  remove_after :
      (peers : HashMap Addr (Handle Addr)) (b a : Addr)
      → contains_key (remove peers b) a ≡ (if b == a then false else contains_key peers a)
  remove_after peers b a = elim (Bool-cases (b == a)) [
    | inl same ↦ rw (get-remove peers b a, same, is_some)
    | inr other ↦ rw (get-remove peers b a, other)
  ]

  dispatch-after :
      (peers : HashMap Addr (Handle Addr)) (s : ControlSignal Addr) (a : Addr)
      → IsHandled s
      → (d : Dispatched Addr) × (dispatch peers s ≡ some d)
        × (contains_key d.peers a ≡ after a (contains_key peers a) s)
  unfolding dispatch
  dispatch-after peers (connect_new_peer addr none) a h = (_, refl, refl)
  dispatch-after peers (connect_new_peer addr (some b)) a h = (_, refl, register_after peers b a)
  dispatch-after peers (broadcast_message msg) a h = (_, refl, refl)
  dispatch-after peers (get_new_peer none) a h = absurd h
  dispatch-after peers (get_new_peer (some b)) a h = (_, refl, register_after peers b a)
  dispatch-after peers (dropped_peer b) a h = (_, refl, remove_after peers b a)
  dispatch-after peers (send_to_peer addr msg) a h = absurd h

  -- Over signals that bring no failed incoming stream and no message to one peer, the loop does not
  -- panic, and a peer is in the map afterwards exactly if the last signal that registers or drops
  -- it registers it, or it was there and no signal does.
  pub dispatch_control-connected :
      (signals : List (ControlSignal Addr)) (peers : HashMap Addr (Handle Addr)) (a : Addr)
      → All IsHandled signals
      → (d : Dispatched Addr) × (dispatch_control peers signals ≡ some d)
        × (contains_key d.peers a ≡ connected a (contains_key peers a) signals)
  unfolding dispatch_control
  dispatch_control-connected [] peers a h = (_, refl, refl)
  dispatch_control-connected (s ∷ signals) peers a h =
      let (d, run, one) = dispatch-after peers s a h.0 in
      let (r, run', rest) = dispatch_control-connected signals d.peers a h.1 in
      (
        record { peers = r.peers; written = d.written ++ r.written },
        rw (run, ◌>>=◌, run', ◌>>=◌) refl,
        rest ∙ ap (λ w. connected a w signals) one,
      )
