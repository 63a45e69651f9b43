-- ===== src/Network/Frame/Stream.antt =====
-- What the reading task of src/network/server.rs makes of what the writing task wrote.
use mathlib.Core.List.{append_assoc}
use bitcoin_client.Prelude.{
  ℕ, zero, suc, ◌≤◌, ◌<◌, ◌≡◌, refl, sym, ap, ◌∙◌, inl, inr, Bool-cases, ltb, List, [], ◌∷◌, ◌++◌,
  Option, none, some, ◌>>=◌, length, take, drop, length-append, length-drop, take-append,
  drop-append, u32, u32_mod, All, arith,
}
use bitcoin_client.Prelude.Bytes.{from_be_bytes, u32_to_be_bytes, from_be_bytes-u32_to_be_bytes}
use bitcoin_client.Network.Frame.{
  frame, write_all, read_exact, resize, Read, read_frame, deliver, read_loop, receive,
}

-- The length of a message fits in the four bytes.
abbrev pub IsMessage : List ℕ → Type 0
IsMessage m = length m < u32_mod

take-append_le : (n : ℕ) (xs ys : List ℕ) → n ≤ length xs → take n (xs ++ ys) ≡ take n xs
take-append_le zero xs ys h = refl
take-append_le (suc n) [] ys h = absurd (omega (arith, h))
take-append_le (suc n) (x ∷ xs) ys h = ap (λ l. x ∷ l) (take-append_le n xs ys (omega (arith, h)))

read_exact-append :
    (xs ys : List ℕ) {n : ℕ}
    → length xs ≡ n
    → ◌≡◌ {A = Option (List ℕ × List ℕ)} (read_exact n (xs ++ ys)) (some (xs, ys))
unfolding read_exact
read_exact-append xs ys e =
    rw (← e, take-append xs ys, drop-append xs ys, length-append {0} xs ys) (ground arith)

read_exact_long :
    (n : ℕ) (xs : List ℕ)
    → n ≤ length xs
    → ◌≡◌ {A = Option (List ℕ × List ℕ)} (read_exact n xs) (some (take n xs, drop n xs))
unfolding read_exact
read_exact_long n xs h = ground arith

read_exact_short : (n : ℕ) (xs : List ℕ) → length xs < n → read_exact n xs ≡ none
unfolding read_exact
read_exact_short n xs h = ground arith

length-u32_to_be_bytes : (n : ℕ) → length (u32_to_be_bytes n) ≡ 4
unfolding u32_to_be_bytes
length-u32_to_be_bytes n = refl

-- The length of a message, back from its header.
header-length :
    (m : List ℕ) → IsMessage m → from_be_bytes (u32_to_be_bytes (u32 (length m))) ≡ length m
header-length m h =
    from_be_bytes-u32_to_be_bytes (u32 (length m)) (omega (arith, h)) ∙ omega (arith, h)

-- A whole frame in front is read, whatever the buffer holds.
read_frame-frame :
    (buffer m rest : List ℕ)
    → IsMessage m
    → read_frame buffer (frame m ++ rest)
      ≡ some (record {
        new_payload = m;
        msg_buffer = m ++ drop (length m) (resize buffer (length m));
        rest = rest;
      })
unfolding read_frame frame
read_frame-frame buffer m rest h =
    let header = u32_to_be_bytes (u32 (length m)) in
    rw
      (
        append_assoc header m rest,
        read_exact-append header (m ++ rest) (length-u32_to_be_bytes (u32 (length m))),
        ◌>>=◌,
        header-length m h,
        read_exact-append m rest refl,
        ◌>>=◌,
        take-append m (drop (length m) (resize buffer (length m))),
      )
      refl

-- A frame that the stream cuts off is not read.
read_frame_cut :
    (buffer m cut more : List ℕ)
    → IsMessage m
    → frame m ≡ cut ++ more
    → length cut < length (frame m)
    → read_frame buffer cut ≡ none
unfolding read_frame frame
read_frame_cut buffer m cut more h e short = elim (Bool-cases (ltb (length cut) 4)) [
  | inl early ↦ rw (read_exact_short 4 cut (ground (arith, early)), ◌>>=◌) refl
  | inr late ↦
      let header = u32_to_be_bytes (u32 (length m)) in
      let enough : 4 ≤ length cut = ground (arith, late) in
      let front : take 4 cut ≡ header =
        sym (take-append_le 4 cut more enough)
        ∙ ap (take 4) (sym e)
        ∙ ap (λ n. take n (header ++ m)) (sym (length-u32_to_be_bytes (u32 (length m))))
        ∙ take-append header m in
      let size : from_be_bytes (take 4 cut) ≡ length m =
        ap from_be_bytes front ∙ header-length m h in
      rw
        (
          read_exact_long 4 cut enough,
          ◌>>=◌,
          size,
          read_exact_short (length m) (drop 4 cut) (
              omega (
                arith,
                short,
                length-drop 4 cut,
                length-append {0} header m,
                length-u32_to_be_bytes (u32 (length m)),
              )),
          ◌>>=◌,
        )
        refl
]

length-frame : (m : List ℕ) → 4 ≤ length (frame m)
unfolding frame
length-frame m = omega (
  arith,
  length-append {0} (u32_to_be_bytes (u32 (length m))) m,
  length-u32_to_be_bytes (u32 (length m)),
)

read_loop-suc :
    (fuel : ℕ) (buffer stream : List ℕ) (r : Read)
    → read_frame buffer stream ≡ some r
    → read_loop (suc fuel) buffer stream ≡ r.new_payload ∷ read_loop fuel r.msg_buffer r.rest
unfolding read_loop
read_loop-suc fuel buffer stream r h =
    ap (λ x. deliver x (λ r. read_loop fuel r.msg_buffer r.rest)) h

read_loop-write_all :
    (fuel : ℕ) (buffer : List ℕ) (queue : List (List ℕ)) (m cut more : List ℕ)
    → All IsMessage queue
    → IsMessage m
    → frame m ≡ cut ++ more
    → length cut < length (frame m)
    → length (write_all queue ++ cut) < fuel
    → read_loop fuel buffer (write_all queue ++ cut) ≡ queue
unfolding read_loop write_all
read_loop-write_all zero buffer queue m cut more a h e short enough = absurd (omega (arith, enough))
read_loop-write_all (suc fuel) buffer [] m cut more a h e short enough =
    ap (λ x. deliver x (λ r. read_loop fuel r.msg_buffer r.rest))
      (read_frame_cut buffer m cut more h e short)
read_loop-write_all (suc fuel) buffer (x ∷ queue) m cut more a h e short enough =
    ap (read_loop (suc fuel) buffer) (append_assoc (frame x) (write_all queue) cut)
    ∙ read_loop-suc fuel buffer _ _ (read_frame-frame buffer x (write_all queue ++ cut) a.0)
    ∙ (ap (λ l. x ∷ l)
        (read_loop-write_all fuel _ queue m cut more a.1 h e short (
          omega (
            arith,
            enough,
            length-frame x,
            length-append {0} (frame x) (write_all queue),
            length-append {0} (frame x ++ write_all queue) cut,
            length-append {0} (write_all queue) cut,
          ))))

-- What one peer writes the other receives: the messages of the queue in order and nothing else,
-- where the stream ends anywhere inside the frame of a next message. Each message is shorter than
-- 2 ^ 32 bytes. A message that was longer leaves nothing of itself in a later one.
pub receive-write_all :
    (queue : List (List ℕ)) (m cut more : List ℕ)
    → All IsMessage queue
    → IsMessage m
    → frame m ≡ cut ++ more
    → length cut < length (frame m)
    → receive (write_all queue ++ cut) ≡ queue
unfolding receive
receive-write_all queue m cut more a h e short =
    read_loop-write_all _ [] queue m cut more a h e short (omega arith)
