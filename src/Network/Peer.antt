-- ===== src/Network/Peer.antt =====
-- `Handle` of src/network/peer.rs: messages go through `bincode` to the queue of the writing task,
-- through the stream to the reading task, and through `bincode` to the loop of src/network/worker.rs.
use bitcoin_client.Prelude.{
  ◌≡◌, refl, sym, ap, ◌∙◌, ◌<◌, Bool, true, ℕ, List, [], ◌∷◌, ◌++◌, map, Option, some, ◌>>=◌,
  if◌then◌else◌, length, All, u32_mod,
}
use mathlib.Core.List.{append_assoc, append-nil}
use bitcoin_client.Network.Message.{Message}
use bitcoin_client.Network.Frame.{frame, write_all, receive}
use bitcoin_client.Network.Frame.Stream.{IsMessage, receive-write_all}

-- `bincode` on messages.
pub record Codec : Type 0 where
  pub serialize : Message → List ℕ
  pub deserialize : List ℕ → Option Message

-- What was written is read back.
abbrev pub IsReadable : Codec → Message → Type 0
IsReadable c m = c.deserialize (c.serialize m) ≡ some m

-- The queue of the writing task, and whether that task still takes from it.
pub record WriteQueue : Type 0 where
  pub connected : Bool
  pub pending : List (List ℕ)

module _ (c : Codec) where
  -- `Handle::write`: to a disconnected peer it writes nothing.
  unfoldable pub write : WriteQueue → Message → WriteQueue
  write q msg = if q.connected then record q { pending = q.pending ++ c.serialize msg ∷ [] } else q

  unfoldable pub write_each : WriteQueue → List Message → WriteQueue
  unfolding write
  write_each q [] = q
  write_each q (msg ∷ messages) = write_each (write q msg) messages

  -- `bincode::deserialize(&msg).unwrap()`, for the payloads that arrive.
  unfoldable pub read_messages : List (List ℕ) → Option (List Message)
  read_messages [] = some []
  read_messages (msg ∷ payloads) =
      c.deserialize msg >>= λ m. read_messages payloads >>= λ ms. some (m ∷ ms)

  write_each-pending :
      (pending : List (List ℕ)) (messages : List Message)
      → (write_each (record { connected = true; pending = pending }) messages).pending
        ≡ pending ++ map c.serialize messages
  unfolding write_each
  write_each-pending pending [] = sym (append-nil pending)
  write_each-pending pending (m ∷ messages) =
      write_each-pending (pending ++ c.serialize m ∷ []) messages
      ∙ append_assoc pending (c.serialize m ∷ []) (map c.serialize messages)

  read_messages-map :
      (messages : List Message)
      → All (IsReadable c) messages
      → read_messages (map c.serialize messages) ≡ some messages
  unfolding read_messages
  read_messages-map [] w = refl
  read_messages-map (m ∷ messages) w = rw (w.0, ◌>>=◌, read_messages-map messages w.1, ◌>>=◌) refl

  All-serialize :
      (messages : List Message)
      → All (λ m. length (c.serialize m) < u32_mod) messages
      → All IsMessage (map c.serialize messages)
  All-serialize [] a = tt
  All-serialize (m ∷ messages) a = (a.0, All-serialize messages a.1)

  -- The messages that are written to a connected peer, each of fewer than 2 ^ 32 bytes, are those
  -- that the other node's worker reads, in their order, even if the stream ends within the frame of
  -- a further message. `bincode` reads back what it wrote for them.
  pub read_messages-write_each :
      (messages : List Message)
      → All (IsReadable c) messages
      → All (λ m. length (c.serialize m) < u32_mod) messages
      → (last : Message) (cut more : List ℕ) → length (c.serialize last) < u32_mod
      → frame (c.serialize last) ≡ cut ++ more
      → length cut < length (frame (c.serialize last))
      → read_messages (
          receive (
            write_all (write_each (record { connected = true; pending = [] }) messages).pending
            ++ cut))
        ≡ some messages
  read_messages-write_each messages w a last cut more fits e short =
      ap (λ (q : List (List ℕ)). read_messages (receive (write_all q ++ cut)))
        (write_each-pending [] messages)
      ∙ ap read_messages (
          receive-write_all (map c.serialize messages) (c.serialize last) cut more
            (All-serialize messages a) fits e short)
      ∙ read_messages-map messages w
