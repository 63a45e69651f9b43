-- ===== src/Threads/Alone/Blocks.antt =====
-- The handler of `Blocks` of src/network/worker.rs, with no other thread between its locks.
use bitcoin_client.Prelude.{
  ℕ, zero, suc, ◌≡◌, refl, ◌∙◌, inl, inr, Bool, List, [], ◌∷◌, ◌++◌, Option, none, some, ◌>>=◌,
  ◌==◌, if◌then◌else◌, Bool-cases, Option-cases, get_elem?,
}
use bitcoin_client.Prelude.HashMap.{HashMap, get, is_some, insert, contains_key}
use bitcoin_client.Types.Hash.{H256, h256_eq, le}
use bitcoin_client.Types.Block.{Block}
use bitcoin_client.Types.Transaction.{State}
use bitcoin_client.Types.Crypto.{Crypto, hash}
use bitcoin_client.Blockchain
use bitcoin_client.Blockchain.{Blockchain}
use bitcoin_client.Ledger.{check_txs, check_tx_state, conclude}
use bitcoin_client.Network.Worker.{
  Loop, add_checked, connect_block, scan, unorphan, process_block, process_blocks, unorphan_fuel,
}
use bitcoin_client.Threads.{
  Shared, Program, done, alone, bind, look, unwrap, write, chain_lock, state_lock,
}
use bitcoin_client.Threads.Worker.{
  Vars, or_else, conclude_program, check_program, insert_program, add_program, connect_program,
  scan_program, unorphan_program, process_program, process_all, push, catch_up,
}
use bitcoin_client.Threads.Alone.Bind.{alone-bind_eq}

-- The variables of the atomic handler.
abbrev pub loop_of : Shared → Vars → Loop
loop_of s v = record {
  node = s.node;
  orphan_blocks = v.orphan_blocks;
  new_blocks = v.new_blocks;
  n = v.n;
  replies = v.replies;
}

-- The shared values and the variables after a part of the atomic handler.
abbrev back : Shared → Loop → Shared × Vars
back s t = (
  record s { node = t.node },
  record {
    orphan_blocks = t.orphan_blocks;
    new_blocks = t.new_blocks;
    n = t.n;
    replies = t.replies;
  },
)

abbrev pub backs : Shared → Option Loop → Option (Shared × Vars)
backs s o = o >>= λ t. some (back s t)

backs-bind :
    (s : Shared) (o : Option Loop) (f : Loop → Option Loop)
    (g : Shared × Vars → Option (Shared × Vars))
    → ((t : Loop) → g (back s t) ≡ backs s (f t))
    → (backs s o >>= g) ≡ backs s (o >>= f)
backs-bind s none f g h = refl
backs-bind s (some t) f g h = h t

module _ (c : Crypto) (s : Shared) where
  -- The end of `add_program`, for what `insert` returns.
  alone-insert :
      (v : Vars) (h : H256) (states : HashMap H256 State) (o : Option Blockchain)
      → let s' = write state_lock s states in
        alone
          (bind
            (unwrap o (λ _. done tt))
            (λ _. done (record v { new_blocks = v.new_blocks ++ h ∷ [] })))
          (write chain_lock s' (or_else s.node.blockchain o))
        ≡ backs s (
            o >>= λ chain. some (record (loop_of s v) {
              node = record (s.node) { blockchain = chain; block_state = states };
              new_blocks = v.new_blocks ++ h ∷ [];
            }))
  unfolding alone
  alone-insert v h states none = refl
  alone-insert v h states (some chain) = refl

  module _ (v : Vars) (block : Block) where
    abbrev atomic : Bool × HashMap H256 State → Option Loop
    atomic checked =
        if checked.0
        then (Blockchain.insert c s.node.blockchain block >>= λ chain. some (record (loop_of s v) {
          node = record (s.node) { blockchain = chain; block_state = checked.1 };
          new_blocks = v.new_blocks ++ hash c block ∷ [];
        }))
        else some (loop_of s v)

    abbrev next : Bool → Program Vars
    next passed =
        if passed
        then bind (insert_program c block)
            (λ _. done (record v { new_blocks = v.new_blocks ++ hash c block ∷ [] }))
        else done v

    alone-conclude :
        (after : Option State)
        → alone (bind (conclude_program (hash c block) after) next) s
          ≡ backs s (atomic (conclude c s.node.block_state (hash c block) after))
    unfolding alone conclude_program conclude insert_program
    alone-conclude none = refl
    alone-conclude (some st) =
        alone-insert v (hash c block) (insert s.node.block_state (hash c block) st)
          (Blockchain.insert c s.node.blockchain block)

    alone-check :
        (parent : Option State)
        → alone
            (bind
              (unwrap parent
                (λ state. conclude_program (hash c block) (check_txs c state block.cont.st)))
              next)
            s
          ≡ backs s (
              (parent >>= λ state.
              some (conclude c s.node.block_state (hash c block) (check_txs c state block.cont.st)))
              >>= atomic)
    unfolding alone
    alone-check none = refl
    alone-check (some st) = alone-conclude (check_txs c st block.cont.st)

    add_program-alone :
        alone (add_program c v block) s ≡ backs s (add_checked c (loop_of s v) block)
    unfolding alone add_program check_program add_checked check_tx_state
    add_program-alone = alone-check (get s.node.block_state block.head.parent)

    connect_found :
        (o : Option (Block × ℕ))
        → alone
            (unwrap o (λ parent.
              if block.head.difficulty == parent.0.head.difficulty
              then add_program c v block
              else done v))
            s
          ≡ backs s (
              o >>= λ parent.
              if block.head.difficulty == parent.0.head.difficulty
              then add_checked c (loop_of s v) block
              else some (loop_of s v))
    unfolding alone
    connect_found none = refl
    connect_found (some e) = elim (Bool-cases (block.head.difficulty == e.0.head.difficulty)) [
      | inl same ↦ rw same add_program-alone
      | inr other ↦ rw other refl
    ]

    connect_program-alone :
        (parent : H256)
        → alone (connect_program c v parent block) s
          ≡ backs s (connect_block c (loop_of s v) parent block)
    unfolding alone connect_program connect_block
    connect_program-alone parent = connect_found (get s.node.blockchain.blocks parent)

module _ (c : Crypto) where
  -- A program that is followed by another, each with its atomic part.
  bind-backs :
      (p : Program Vars) (g : Vars → Program Vars) (s : Shared) (o : Option Loop)
      (f : Loop → Option Loop)
      → alone p s ≡ backs s o
      → ((t : Loop) → alone (g (back s t).1) (back s t).0 ≡ backs s (f t))
      → alone (bind p g) s ≡ backs s (o >>= f)
  bind-backs p g s o f e h = alone-bind_eq p g s _ e ∙ backs-bind s o f _ h

  scan_program-alone :
      (parent : H256) (rest : List Block) (s : Shared) (v : Vars)
      → alone (scan_program c parent rest v) s ≡ backs s (scan c parent rest (loop_of s v))
  unfolding scan_program scan alone
  scan_program-alone parent [] s v = refl
  scan_program-alone parent (o ∷ rest) s v = elim (Bool-cases (o.head.parent == parent)) [
    | inl same ↦
        rw (same, scan_program, scan)
          (bind-backs (connect_program c v parent o) (scan_program c parent rest) s _
            (scan c parent rest) (connect_program-alone c s v o parent)
            (λ t. scan_program-alone parent rest (back s t).0 (back s t).1))
    | inr other ↦ rw (other, scan_program, scan) (scan_program-alone parent rest s _)
  ]

  unorphan_program-alone :
      (fuel : ℕ) (s : Shared) (v : Vars)
      → alone (unorphan_program c fuel v) s ≡ backs s (unorphan c fuel (loop_of s v))
  unfolding unorphan_program unorphan alone
  unorphan_program-alone zero s v = refl
  unorphan_program-alone (suc fuel) s v = elim (Option-cases (get_elem? v.new_blocks v.n)) [
    | inl end ↦ rw (end, unorphan_program, unorphan) refl
    | inr (parent, place) ↦
        rw (place, unorphan_program, unorphan)
          (bind-backs (scan_program c parent v.orphan_blocks (record v { orphan_blocks = [] })) _ s
            _ _ (scan_program-alone parent v.orphan_blocks s (record v { orphan_blocks = [] }))
            (λ t. unorphan_program-alone fuel (back s t).0 (record (back s t).1 { n = suc t.n })))
  ]

  parent_part :
      (s : Shared) (v : Vars) (block : Block) (o : Option (Block × ℕ))
      → alone
          (if is_some o
            then bind (connect_program c v block.head.parent block) (catch_up c)
            else done (push v block))
          s
        ≡ backs s (
            if is_some o
            then (connect_block c (loop_of s v) block.head.parent block >>= λ t.
                unorphan c (unorphan_fuel t) t)
            else some (loop_of s (push v block)))
  unfolding alone
  parent_part s v block none = refl
  parent_part s v block (some e) =
      bind-backs (connect_program c v block.head.parent block) (catch_up c) s _ _
        (connect_program-alone c s v block block.head.parent)
        (λ t. unorphan_program-alone (unorphan_fuel t) (back s t).0 (back s t).1)

  known_part :
      (s : Shared) (v : Vars) (block : Block) (o : Option (Block × ℕ))
      → alone
          (if is_some o
            then done v
            else look chain_lock (λ chain.
              if contains_key chain.blocks block.head.parent
              then bind (connect_program c v block.head.parent block) (catch_up c)
              else done (push v block)))
          s
        ≡ backs s (
            if is_some o
            then some (loop_of s v)
            else if contains_key s.node.blockchain.blocks block.head.parent
            then (connect_block c (loop_of s v) block.head.parent block >>= λ t.
                unorphan c (unorphan_fuel t) t)
            else some (loop_of s (push v block)))
  unfolding alone
  known_part s v block (some e) = refl
  known_part s v block none = parent_part s v block (get s.node.blockchain.blocks block.head.parent)

  process_program-alone :
      (s : Shared) (v : Vars) (block : Block)
      → alone (process_program c v block) s ≡ backs s (process_block c (loop_of s v) block)
  unfolding process_program process_block alone
  process_program-alone s v block = elim (Bool-cases (le (hash c block) block.head.difficulty)) [
    | inr weak ↦ rw weak refl
    | inl worked ↦ rw worked (known_part s v block (get s.node.blockchain.blocks (hash c block)))
  ]

  pub process_all-alone :
      (s : Shared) (v : Vars) (received : List Block)
      → alone (process_all c v received) s ≡ backs s (process_blocks c (loop_of s v) received)
  unfolding process_all process_blocks alone
  process_all-alone s v [] = refl
  process_all-alone s v (block ∷ rest) =
      bind-backs (process_program c v block) (λ t. process_all c t rest) s _
        (λ t. process_blocks c t rest) (process_program-alone s v block)
        (λ t. process_all-alone (back s t).0 (back s t).1 rest)
