-- ===== src/Tests/Peers.antt =====
-- Two messages on the way, and the known peers of a command line: two addresses at which no one
-- answers before the third attempt, and between them a text that is no address.
use bitcoin_client.Prelude.{
  ℕ, zero, suc, ◌≡◌, ◌≤◌, ◌+◌, ◌++◌, ◌=?◌, true, length, refl, List, [], ◌∷◌, Option, none, some,
  leb, le→leb, if◌then◌else◌, arith,
}
use bitcoin_client.Prelude.Bytes.{u32_to_be_bytes}
use bitcoin_client.Network.Message.{Message, get_blocks, new_block_hashes}
use bitcoin_client.Network.Frame.{frame, write_all, receive}
use bitcoin_client.Network.Peer.{Codec, write_each, read_messages, read_messages-write_each}
use bitcoin_client.Network.KnownPeers.{
  Attempts, connections, connect_known, addresses, connect_known_finishes, IsReachable,
}

-- Text 0 is no address.
abbrev parse_port : ℕ → Option ℕ
parse_port zero = none
parse_port (suc n) = some n

-- Before attempt 2 no one answers.
abbrev answer_late : ℕ → ℕ → Option ℕ
answer_late t port = if leb 2 t then some port else none

late_reach : (port : ℕ) → IsReachable answer_late port
late_reach port t = (2, port, rw (le→leb 2 (t + 2) (omega arith)) refl)

connect_known_finishes_example :
    (bound : ℕ) × (last : Attempts ℕ) × ((fuel : ℕ)
      → bound ≤ fuel
      → connect_known parse_port answer_late fuel (record { next = 0; sent = [] }) (7 ∷ 0 ∷ 9 ∷ [])
        ≡ some last)
    × (connections last.sent ≡ addresses parse_port (7 ∷ 0 ∷ 9 ∷ []))
connect_known_finishes_example =
    connect_known_finishes parse_port answer_late (7 ∷ 0 ∷ 9 ∷ [])
      (λ peer addr i e. late_reach addr)

abbrev serialize_two : Message → List ℕ
serialize_two (get_blocks hashes) = 4 ∷ []
serialize_two _ = 5 ∷ 6 ∷ []

-- A codec for the two messages of the test.
abbrev two_messages : Codec
two_messages = record {
  serialize = serialize_two;
  deserialize =
      λ bytes. if length bytes =? 1 then some (get_blocks []) else some (new_block_hashes []);
}

read_messages-write_each_example :
    read_messages two_messages (
      receive (
        write_all
          (write_each two_messages
            (record { connected = true; pending = [] })
            (get_blocks [] ∷ new_block_hashes [] ∷ [])).pending
        ++ 0 ∷ 0 ∷ []))
    ≡ some (get_blocks [] ∷ new_block_hashes [] ∷ [])
unfolding frame u32_to_be_bytes
read_messages-write_each_example =
    read_messages-write_each two_messages (get_blocks [] ∷ new_block_hashes [] ∷ [])
      (refl, (refl, tt)) (omega arith, (omega arith, tt)) (get_blocks []) (0 ∷ 0 ∷ [])
      (0 ∷ 1 ∷ 4 ∷ []) (omega arith) refl (omega arith)
