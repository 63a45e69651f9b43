-- ===== src/Network/Frame.antt =====
-- The frames of the two tasks that `register` of src/network/server.rs starts for a peer: the
-- length of a message in four bytes, then the message.
pub mod Stream
use bitcoin_client.Prelude.{
  ℕ, zero, suc, ◌-◌, List, [], ◌∷◌, ◌++◌, Option, none, some, ◌>>=◌, ltb, leb, if◌then◌else◌,
  length, take, drop, replicate, u32,
}
use bitcoin_client.Prelude.Bytes.{from_be_bytes, u32_to_be_bytes}

-- What the writing task writes for a message.
unfoldable pub frame : List ℕ → List ℕ
frame new_msg = u32_to_be_bytes (u32 (length new_msg)) ++ new_msg

unfoldable pub write_all : List (List ℕ) → List ℕ
unfolding frame
write_all [] = []
write_all (new_msg ∷ queue) = frame new_msg ++ write_all queue

-- `read_exact`, on the bytes that come before the stream ends: the bytes and what is left.
unfoldable pub read_exact : ℕ → List ℕ → Option (List ℕ × List ℕ)
read_exact n stream = if leb n (length stream) then some (take n stream, drop n stream) else none

-- `if msg_buffer.len() < msg_size { msg_buffer.resize(msg_size, 0) }`
unfoldable pub resize : List ℕ → ℕ → List ℕ
resize msg_buffer msg_size =
    if ltb (length msg_buffer) msg_size
    then msg_buffer ++ replicate (msg_size - length msg_buffer) 0
    else msg_buffer

-- A message, the buffer after it, and the rest of the stream.
pub record Read : Type 0 where
  pub new_payload : List ℕ
  pub msg_buffer : List ℕ
  pub rest : List ℕ

-- One round of the reading task: the buffer keeps what earlier, longer messages left in it.
unfoldable pub read_frame : List ℕ → List ℕ → Option Read
unfolding read_exact resize
read_frame msg_buffer stream = read_exact 4 stream >>= λ header.
    read_exact (from_be_bytes header.0) header.1 >>= λ body.
    (let msg_size = from_be_bytes header.0 in
      let filled = body.0 ++ drop msg_size (resize msg_buffer msg_size) in
      some (record { new_payload = take msg_size filled; msg_buffer = filled; rest = body.1 }))

-- The `match` on what was read, and the loop of the reading task: it ends at the first frame that
-- the stream does not have in full.
unfoldable pub deliver : Option Read → (Read → List (List ℕ)) → List (List ℕ)
deliver none next = []
deliver (some r) next = r.new_payload ∷ next r

unfoldable pub read_loop : ℕ → List ℕ → List ℕ → List (List ℕ)
unfolding deliver
read_loop zero msg_buffer stream = []
read_loop (suc fuel) msg_buffer stream =
    deliver (read_frame msg_buffer stream) (λ r. read_loop fuel r.msg_buffer r.rest)

-- The messages that a stream delivers. A frame has four bytes or more, so the bytes are fuel
-- enough.
unfoldable pub receive : List ℕ → List (List ℕ)
receive stream = read_loop (suc (length stream)) [] stream
