-- ===== src/Network/Worker/Blocks.antt =====
-- The handler of `Blocks`: it does not panic, and keeps the node and the orphan buffer in order.
use mathlib.Core.Path.{subst}
use bitcoin_client.Prelude.{
  ℕ, suc, ◌+◌, ◌≤◌, ◌<◌, ◌≡◌, ◌≢◌, ◌⊎◌, inl, inr, refl, sym, ap, List, [], ◌∷◌, ◌++◌, none, some,
  ◌>>=◌, length, length-append, All, All-append, All-imp, Bool-cases, Option-cases, u32_mod, arith,
}
use bitcoin_client.Prelude.HashMap.{get, is_some}
use bitcoin_client.Types.Hash.{H256, h256_eq, le}
use bitcoin_client.Types.Block.{Header, Block}
use bitcoin_client.Types.Crypto.{Crypto, hash}
use bitcoin_client.Blockchain.{genesis_hash}
use bitcoin_client.Node.{Node}
use bitcoin_client.Network.Message.{Message, new_block_hashes, get_blocks}
use bitcoin_client.Network.Worker.{
  Loop, Outcome, connect_block, unorphan, unorphan_fuel, process_block, process_blocks, on_blocks,
  when_any,
}
use bitcoin_client.Network.Worker.Safe.{IsCollisionFree, IsStored, IsSafe, IsWorked}
use bitcoin_client.Network.Worker.Connect.{connect_block_total}
use bitcoin_client.Network.Worker.Orphans.{
  Waits, IsLoop, Waits-connected, length-news_le, unorphan_total, no_parent-IsStored,
}

-- Between two blocks of a message: the loop over the new blocks has caught up.
record IsSettled (c : Crypto) (Seen : Header → Type 0) (Elsewhere : H256 → Type 0)
    (bound pending : ℕ) (s : Loop) : Type 0 where
  inv : IsLoop c Seen Elsewhere bound s.n pending s
  caught_up : length s.new_blocks ≤ s.n

module _ {c : Crypto} {Seen : Header → Type 0} (free : IsCollisionFree c Seen)
    (Elsewhere : H256 → Type 0) (bound : ℕ) (small : bound < u32_mod) (pending : ℕ) where
  settle_less :
      (s : Loop)
      → IsSettled c Seen Elsewhere bound (suc pending) s
      → IsSettled c Seen Elsewhere bound pending s
  settle_less s w = record {
    inv = record {
      safe = w.inv.safe;
      worked = w.inv.worked;
      stored = w.inv.stored;
      waits = w.inv.waits;
      elsewhere = w.inv.elsewhere;
      within = w.inv.within;
      room = omega (arith, w.inv.room);
    };
    caught_up = w.caught_up;
  }

  -- A block whose hash is not stored is not the genesis block.
  not_genesis :
      (s : Loop) (block : Block)
      → IsSettled c Seen Elsewhere bound (suc pending) s
      → get s.node.blockchain.blocks (hash c block) ≡ none
      → hash c block ≢ genesis_hash c
  not_genesis s block w fresh same =
      cc (w.inv.safe.chain.genesis_stored, ap (get s.node.blockchain.blocks) same)

  push_orphan :
      (s : Loop) (block : Block) (replies : List Message)
      → IsSettled c Seen Elsewhere bound (suc pending) s
      → IsWorked c Seen block
      → get s.node.blockchain.blocks block.head.parent ≡ none
      → IsSettled c Seen Elsewhere bound pending
          (record s { orphan_blocks = s.orphan_blocks ++ block ∷ []; replies = replies })
  push_orphan s block replies w a missing = record {
    inv = record {
      safe = w.inv.safe;
      worked = All-append _ s.orphan_blocks (block ∷ []) w.inv.worked (a, tt);
      stored = w.inv.stored;
      waits = All-append _ s.orphan_blocks (block ∷ []) w.inv.waits (inl (λ (e, h). cc), tt);
      elsewhere = w.inv.elsewhere;
      within = w.inv.within;
      room = omega (arith, w.inv.room, length-append s.orphan_blocks (block ∷ []));
    };
    caught_up = w.caught_up;
  }

  connect_settles :
      (s : Loop) (block : Block)
      → IsSettled c Seen Elsewhere bound (suc pending) s
      → IsWorked c Seen block
      → (e : Block × ℕ) → get s.node.blockchain.blocks block.head.parent ≡ some e
      → (t : Loop) × ((connect_block c s block.head.parent block >>= λ t.
            unorphan c (unorphan_fuel t) t)
          ≡ some t)
        × IsSettled c Seen Elsewhere bound pending t
  connect_settles s block w a e parent =
      let (t, run, d) =
        connect_block_total free s w.inv.safe block a e.0 e.1 parent (omega (arith, w.inv.room)) in
      let inv : IsLoop c Seen Elsewhere bound t.n pending t =
        subst (λ (k : ℕ). IsLoop c Seen Elsewhere bound k pending t) (sym d.counter)
          (record {
            safe = d.safe;
            worked = rw d.orphans w.inv.worked;
            stored = d.news_stored w.inv.stored;
            waits = rw d.orphans (
                All-imp (Waits-connected d Elsewhere s.n w.inv.within) s.orphan_blocks w.inv.waits);
            elsewhere = λ k h. d.kept k (w.inv.elsewhere k h);
            within = omega (arith, w.inv.within, length-news_le d);
            room = rw d.orphans (omega (arith, w.inv.room, d.top_le));
          }) in
      let (u, run', inv', done) =
        unorphan_total free Elsewhere bound small pending (unorphan_fuel t) t inv (omega arith) in
      (u, rw (run, ◌>>=◌) run', record { inv = inv'; caught_up = done })

  process_block_total :
      (s : Loop) (block : Block)
      → IsSettled c Seen Elsewhere bound (suc pending) s
      → Seen block.head
      → (t : Loop) × (process_block c s block ≡ some t) × IsSettled c Seen Elsewhere bound pending t
  unfolding process_block
  process_block_total s block w seen = elim (Bool-cases (le (hash c block) block.head.difficulty)) [
    | inr weak ↦ (s, rw weak, settle_less s w)
    | inl worked ↦ elim (Option-cases (get s.node.blockchain.blocks (hash c block))) [
      | inr (e, known) ↦ (s, rw (worked, known, is_some), settle_less s w)
      | inl fresh ↦
          let a : IsWorked c Seen block = record {
            seen = seen;
            worked = worked;
            other = not_genesis s block w fresh;
          } in
          elim (Option-cases (get s.node.blockchain.blocks block.head.parent)) [
            | inl missing ↦
                let replies = s.replies ++ get_blocks (block.head.parent ∷ []) ∷ [] in
                (
                  record s { orphan_blocks = s.orphan_blocks ++ block ∷ []; replies = replies },
                  rw (worked, fresh, is_some, missing, is_some),
                  push_orphan s block replies w a missing,
                )
            | inr (e, parent) ↦
                let (t, run, settled) = connect_settles s block w a e parent in
                (t, rw (worked, fresh, is_some, parent, is_some) run, settled)
          ]
    ]
  ]

-- What a worker keeps from message to message: the parent of an orphan is not stored, or is one of
-- those that another thread has stored, `Elsewhere`.
pub record IsReady (c : Crypto) (Seen : Header → Type 0) (Elsewhere : H256 → Type 0) (node : Node)
    (orphan_blocks : List Block) : Type 0 where
  pub safe : IsSafe c Seen node
  pub worked : All (IsWorked c Seen) orphan_blocks
  pub elsewhere : (k : H256) → Elsewhere k → IsStored node.blockchain.blocks k
  pub parentless :
      All
        (λ o. (¬ IsStored node.blockchain.blocks o.head.parent) ⊎ Elsewhere o.head.parent)
        orphan_blocks

-- The handler of `Blocks` on a message that a ready worker receives.
pub record Handled (c : Crypto) (Seen : Header → Type 0) (Elsewhere : H256 → Type 0) (node : Node)
    (orphan_blocks received : List Block) (bound : ℕ) : Type 0 where
  pub outcome : Outcome
  pub announced : List H256
  pub returns : on_blocks c node orphan_blocks received ≡ some outcome
  pub ready : IsReady c Seen Elsewhere outcome.node outcome.orphan_blocks
  pub height_le : ready.safe.chain.top + length outcome.orphan_blocks ≤ bound
  pub broadcast : outcome.broadcasts ≡ when_any announced (new_block_hashes announced)
  pub announced_stored : All (IsStored outcome.node.blockchain.blocks) announced

module _ {c : Crypto} {Seen : Header → Type 0} (free : IsCollisionFree c Seen)
    (Elsewhere : H256 → Type 0) (bound : ℕ) (small : bound < u32_mod) where
  process_blocks_total :
      (received : List Block) (s : Loop)
      → IsSettled c Seen Elsewhere bound (length received) s
      → All (λ b. Seen b.head) received
      → (t : Loop) × (process_blocks c s received ≡ some t) × IsSettled c Seen Elsewhere bound 0 t
  unfolding process_blocks
  process_blocks_total [] s w seen = (s, refl, w)
  process_blocks_total (block ∷ rest) s w seen =
      let (t, run, w') =
        process_block_total free Elsewhere bound small (length rest) s block w seen.0 in
      let (u, run', w'') = process_blocks_total rest t w' seen.1 in (u, rw (run, ◌>>=◌) run', w'')

-- At the start of a message.
Waits-first :
    (Elsewhere : H256 → Type 0) (s : Loop) (o : Block)
    → (¬ IsStored s.node.blockchain.blocks o.head.parent) ⊎ Elsewhere o.head.parent
    → Waits Elsewhere 0 s o
Waits-first Elsewhere s o (inl missing) = inl missing
Waits-first Elsewhere s o (inr other) = inr (inr other)

-- Let a node be safe, its worker's orphans have their proofs of work, and the parent of each be not
-- stored or of a set of hashes that stands for what other threads have stored; and let the height
-- of the chain leave room for all blocks at hand in a `u32`. Then the handler of `Blocks` returns:
-- it does not panic and its loops end. Afterwards the node is safe (so every stored block has its
-- proof of work, the difficulty of the genesis block and a state), again an orphan's parent is not
-- stored or of that set, and the hashes it broadcasts, if any, are of stored blocks. The headers
-- at hand are of a set without collisions.
pub on_blocks-IsReady :
    {c : Crypto} {Seen : Header → Type 0}
    → IsCollisionFree c Seen
    → (Elsewhere : H256 → Type 0) (node : Node) (orphan_blocks received : List Block)
      (w : IsReady c Seen Elsewhere node orphan_blocks)
    → All (λ b. Seen b.head) received
    → w.safe.chain.top + length orphan_blocks + length received < u32_mod
    → Handled c Seen Elsewhere node orphan_blocks received
        (w.safe.chain.top + length orphan_blocks + length received)
unfolding on_blocks
on_blocks-IsReady {c} {Seen} free Elsewhere node orphan_blocks received w seen room =
    let s0 : Loop = record {
      node = node;
      orphan_blocks = orphan_blocks;
      new_blocks = [];
      n = 0;
      replies = [];
    } in
    let (t, run, settled) =
      process_blocks_total free Elsewhere
        (w.safe.chain.top + length orphan_blocks + length received) room received s0
        (record {
          inv = record {
            safe = w.safe;
            worked = w.worked;
            stored = tt;
            waits = All-imp (Waits-first Elsewhere s0) orphan_blocks w.parentless;
            elsewhere = w.elsewhere;
            within = omega arith;
            room = omega arith;
          };
          caught_up = omega arith;
        })
        seen in
    record {
      outcome = record {
        node = t.node;
        orphan_blocks = t.orphan_blocks;
        replies = t.replies;
        broadcasts = when_any t.new_blocks (new_block_hashes t.new_blocks);
      };
      announced = t.new_blocks;
      returns = rw (run, ◌>>=◌);
      ready = record {
        safe = settled.inv.safe;
        worked = settled.inv.worked;
        elsewhere = settled.inv.elsewhere;
        parentless = no_parent-IsStored settled.inv settled.caught_up;
      };
      height_le = omega (arith, settled.inv.room);
      broadcast = refl;
      announced_stored = settled.inv.stored;
    }
