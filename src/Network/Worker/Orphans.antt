-- ===== src/Network/Worker/Orphans.antt =====
-- The loops over the orphan buffer: they end, do not panic, and leave no orphan whose parent is
-- stored.
use mathlib.Core.Path.{subst}
use bitcoin_client.Prelude.{
  ◌=?◌, ℕ, zero, suc, ◌+◌, ◌≤◌, ◌<◌, ◌≡◌, ◌≢◌, ◌⊎◌, inl, inr, refl, sym, ap, ◌∙◌, List, [], ◌∷◌,
  ◌++◌, some, ◌>>=◌, ◌==◌, length, length-append, get_elem?, get_elem?-append, get_elem?-snoc_last,
  lt-get_elem?, All-get_elem?, le-get_elem?, All, All-append, All-imp, Bool-cases, Option-cases,
  u32_mod, arith,
}
use bitcoin_client.Prelude.HashMap.{get}
use bitcoin_client.Types.Hash.{H256, h256_eq}
use bitcoin_client.Types.Block.{Header, Block}
use bitcoin_client.Types.Crypto.{Crypto, hash}
use bitcoin_client.Network.Worker.{Loop, connect_block, scan, unorphan}
use bitcoin_client.Network.Worker.Safe.{IsCollisionFree, IsStored, IsSafe, IsWorked}
use bitcoin_client.Network.Worker.Connect.{Connected, connect_block_total}

-- The orphan's parent is not stored, or is one of the new blocks from place `m` on, or is one of
-- those that another thread has stored, `Elsewhere`.
abbrev pub Waits : (H256 → Type 0) → ℕ → Loop → Block → Type 0
Waits Elsewhere m s o =
    (¬ IsStored s.node.blockchain.blocks o.head.parent)
    ⊎ ((j : ℕ) × (m ≤ j) × (get_elem? s.new_blocks j ≡ some o.head.parent))
    ⊎ Elsewhere o.head.parent

-- What holds between two rounds of the outer loop, with place `m` of the new blocks next, and
-- `pending` blocks of the message to come.
pub record IsLoop (c : Crypto) (Seen : Header → Type 0) (Elsewhere : H256 → Type 0)
    (bound m pending : ℕ) (s : Loop) : Type 0 where
  pub safe : IsSafe c Seen s.node
  pub worked : All (IsWorked c Seen) s.orphan_blocks
  pub stored : All (IsStored s.node.blockchain.blocks) s.new_blocks
  pub waits : All (Waits Elsewhere m s) s.orphan_blocks
  pub elsewhere : (k : H256) → Elsewhere k → IsStored s.node.blockchain.blocks k
  pub within : m ≤ length s.new_blocks
  pub room : safe.chain.top + length s.orphan_blocks + pending ≤ bound

-- What holds in the inner loop, at place `m`, with the orphans `rest` still to be looked at.
record IsScan (c : Crypto) (Seen : Header → Type 0) (Elsewhere : H256 → Type 0)
    (bound m pending : ℕ) (parent : H256) (rest : List Block) (s : Loop) : Type 0 where
  safe : IsSafe c Seen s.node
  worked : All (IsWorked c Seen) s.orphan_blocks
  rest_worked : All (IsWorked c Seen) rest
  stored : All (IsStored s.node.blockchain.blocks) s.new_blocks
  waits : All (Waits Elsewhere (suc m) s) s.orphan_blocks
  rest_waits : All (Waits Elsewhere m s) rest
  elsewhere : (k : H256) → Elsewhere k → IsStored s.node.blockchain.blocks k
  room : safe.chain.top + length s.orphan_blocks + length rest + pending ≤ bound
  place : get_elem? s.new_blocks m ≡ some parent
  parent_stored : IsStored s.node.blockchain.blocks parent

-- Connecting a block lets the orphans wait for it.
module _ {c : Crypto} {Seen : Header → Type 0} {s : Loop} {top : ℕ} {block : Block} {t : Loop}
    (d : Connected c Seen s top block t) where
  pub still_at :
      (j : ℕ) {k : H256} → get_elem? s.new_blocks j ≡ some k → get_elem? t.new_blocks j ≡ some k
  still_at j h = elim d.news [
    | inl same ↦ rw same h
    | inr more ↦ rw more (get_elem?-append s.new_blocks (hash c block ∷ []) j h)
  ]

  pub Waits-connected :
      (Elsewhere : H256 → Type 0) (m : ℕ)
      → m ≤ length s.new_blocks
      → (o : Block) → Waits Elsewhere m s o
      → Waits Elsewhere m t o
  Waits-connected Elsewhere m le o (inr (inr other)) = inr (inr other)
  Waits-connected Elsewhere m le o (inr (inl (j, from, h))) = inr (inl (j, from, still_at j h))
  Waits-connected Elsewhere m le o (inl missing) =
      elim (Option-cases (get t.node.blockchain.blocks o.head.parent)) [
        | inl absent ↦ inl (λ (e, h). cc)
        | inr (e, h) ↦ elim (d.added o.head.parent (e, h)) [
          | inl old ↦ absurd (missing old)
          | inr (more, same) ↦ inr (
              inl (
                length s.new_blocks,
                le,
                rw more (get_elem?-snoc_last s.new_blocks (hash c block) ∙ ap some same),
              ))
        ]
      ]

  length-news : length t.new_blocks ≤ length s.new_blocks + 1
  length-news = elim d.news [
    | inl same ↦ rw same (omega arith)
    | inr more ↦ rw more (omega (arith, length-append s.new_blocks (hash c block ∷ [])))
  ]

  pub length-news_le : length s.new_blocks ≤ length t.new_blocks
  length-news_le = elim d.news [
    | inl same ↦ rw same (omega arith)
    | inr more ↦ rw more (omega (arith, length-append s.new_blocks (hash c block ∷ [])))
  ]

-- An orphan of another parent waits for a later place.
Waits-later :
    (Elsewhere : H256 → Type 0) (m : ℕ) (s : Loop) (parent : H256) (o : Block)
    → get_elem? s.new_blocks m ≡ some parent
    → o.head.parent ≢ parent
    → Waits Elsewhere m s o
    → Waits Elsewhere (suc m) s o
Waits-later Elsewhere m s parent o place other (inl missing) = inl missing
Waits-later Elsewhere m s parent o place other (inr (inr away)) = inr (inr away)
Waits-later Elsewhere m s parent o place other (inr (inl (j, from, h))) =
    elim (Bool-cases (j =? m)) [
      | inl same ↦ let at_m : j ≡ m = ground arith in absurd (other (let e = rw at_m at h in cc e))
      | inr later ↦ inr (inl (j, ground arith, h))
    ]

module _ {c : Crypto} {Seen : Header → Type 0} (free : IsCollisionFree c Seen)
    (Elsewhere : H256 → Type 0) (bound : ℕ) (small : bound < u32_mod) (m pending : ℕ) where
  connect-IsScan :
      (parent : H256) (o : Block) (rest : List Block) (s : Loop)
      → IsScan c Seen Elsewhere bound m pending parent (o ∷ rest) s
      → o.head.parent ≡ parent
      → (t : Loop) × (connect_block c s parent o ≡ some t)
        × IsScan c Seen Elsewhere bound m pending parent rest t
        × (t.n ≡ s.n)
        × (length t.new_blocks + length t.orphan_blocks
            ≤ length s.new_blocks + length s.orphan_blocks + 1)
  connect-IsScan parent o rest s w same =
      let (e, h) = w.parent_stored in
      let (t, run, d) =
        connect_block_total free s w.safe o w.rest_worked.0 e.0 e.1
          (ap (get s.node.blockchain.blocks) same ∙ h) (omega (arith, w.room)) in
      let inside = lt-get_elem? s.new_blocks m w.place in
      (
        t,
        ap (λ (k : H256). connect_block c s k o) (sym same) ∙ run,
        record {
          safe = d.safe;
          worked = rw d.orphans w.worked;
          rest_worked = w.rest_worked.1;
          stored = d.news_stored w.stored;
          waits =
              rw d.orphans
                (All-imp (Waits-connected d Elsewhere (suc m) inside) s.orphan_blocks w.waits);
          rest_waits = All-imp (Waits-connected d Elsewhere m (omega arith)) rest w.rest_waits.1;
          elsewhere = λ k h. d.kept k (w.elsewhere k h);
          room = rw d.orphans (omega (arith, w.room, d.top_le));
          place = still_at d m w.place;
          parent_stored = d.kept parent w.parent_stored;
        },
        d.counter,
        rw d.orphans (omega (arith, length-news d)),
      )

  skip-IsScan :
      (parent : H256) (o : Block) (rest : List Block) (s : Loop)
      → IsScan c Seen Elsewhere bound m pending parent (o ∷ rest) s
      → o.head.parent ≢ parent
      → IsScan c Seen Elsewhere bound m pending parent rest
          (record s { orphan_blocks = s.orphan_blocks ++ o ∷ [] })
  skip-IsScan parent o rest s w other = record {
    safe = w.safe;
    worked = All-append _ s.orphan_blocks (o ∷ []) w.worked (w.rest_worked.0, tt);
    rest_worked = w.rest_worked.1;
    stored = w.stored;
    waits =
        All-append _ s.orphan_blocks (o ∷ []) w.waits
          (Waits-later Elsewhere m s parent o w.place other w.rest_waits.0, tt);
    rest_waits = w.rest_waits.1;
    elsewhere = w.elsewhere;
    room = omega (arith, w.room, length-append s.orphan_blocks (o ∷ []));
    place = w.place;
    parent_stored = w.parent_stored;
  }

  -- The inner loop returns, and the next place is then due.
  scan_total :
      (parent : H256) (rest : List Block) (s : Loop)
      → IsScan c Seen Elsewhere bound m pending parent rest s
      → (t : Loop) × (scan c parent rest s ≡ some t)
        × IsLoop c Seen Elsewhere bound (suc m) pending t
        × (t.n ≡ s.n)
        × (length t.new_blocks + length t.orphan_blocks
            ≤ length s.new_blocks + length s.orphan_blocks + length rest)
  unfolding scan
  scan_total parent [] s w = (
    s,
    refl,
    record {
      safe = w.safe;
      worked = w.worked;
      stored = w.stored;
      waits = w.waits;
      elsewhere = w.elsewhere;
      within = lt-get_elem? s.new_blocks m w.place;
      room = omega (arith, w.room);
    },
    refl,
    omega arith,
  )
  scan_total parent (o ∷ rest) s w = elim (Bool-cases (o.head.parent == parent)) [
    | inl same ↦
        let (t, run, w', n', l) =
          connect-IsScan parent o rest s w ((h256_eq.same_iff _ _).0 same) in
        let (u, run', inv, n'', l') = scan_total parent rest t w' in
        (u, rw (same, scan) (rw (run, ◌>>=◌) run'), inv, n'' ∙ n', omega arith)
    | inr other ↦
        let away : o.head.parent ≢ parent = λ q. cc ((h256_eq.same_iff _ _).1 q) in
        let (u, run, inv, n', l) = scan_total parent rest _ (skip-IsScan parent o rest s w away) in
        (u, rw (other, scan) run, inv, n', omega (arith, length-append s.orphan_blocks (o ∷ [])))
  ]

module _ {c : Crypto} {Seen : Header → Type 0} (free : IsCollisionFree c Seen)
    (Elsewhere : H256 → Type 0) (bound : ℕ) (small : bound < u32_mod) (pending : ℕ) where
  -- The outer loop returns; with a fuel of the number of new blocks and orphans it ends by its own
  -- test.
  pub unorphan_total :
      (fuel : ℕ) (s : Loop)
      → IsLoop c Seen Elsewhere bound s.n pending s
      → length s.new_blocks + length s.orphan_blocks ≤ fuel + s.n
      → (t : Loop) × (unorphan c fuel s ≡ some t)
        × IsLoop c Seen Elsewhere bound t.n pending t
        × (length t.new_blocks ≤ t.n)
  unfolding unorphan
  unorphan_total zero s w le = (s, refl, w, omega arith)
  unorphan_total (suc fuel) s w le = elim (Option-cases (get_elem? s.new_blocks s.n)) [
    | inl done ↦ (s, rw (done, unorphan), w, le-get_elem? s.new_blocks s.n done)
    | inr (parent, place) ↦
        let (t, run, inv, same, l) =
          scan_total free Elsewhere bound small s.n pending parent s.orphan_blocks
            (record s { orphan_blocks = [] })
            (record {
              safe = w.safe;
              worked = tt;
              rest_worked = w.worked;
              stored = w.stored;
              waits = tt;
              rest_waits = w.waits;
              elsewhere = w.elsewhere;
              room = omega (arith, w.room);
              place = place;
              parent_stored = All-get_elem? _ s.new_blocks s.n w.stored place;
            }) in
        let next : Loop = record t { n = suc t.n } in
        let inv' : IsLoop c Seen Elsewhere bound (suc t.n) pending next =
          subst (λ (k : ℕ). IsLoop c Seen Elsewhere bound (suc k) pending next) (sym same)
            (record {
              safe = inv.safe;
              worked = inv.worked;
              stored = inv.stored;
              waits = inv.waits;
              elsewhere = inv.elsewhere;
              within = inv.within;
              room = inv.room;
            }) in
        let (u, run', inv'', done) =
          unorphan_total fuel next inv' (omega (arith, ap (λ (x : ℕ). x) same)) in
        (u, rw (place, unorphan) (rw (run, ◌>>=◌) run'), inv'', done)
  ]

-- After the loop an orphan's parent is not stored, or is one of those that another thread stored.
pub no_parent-IsStored :
    {c : Crypto} {Seen : Header → Type 0} {Elsewhere : H256 → Type 0} {bound pending : ℕ} {s : Loop}
    → IsLoop c Seen Elsewhere bound s.n pending s
    → length s.new_blocks ≤ s.n
    → All
        (λ o. (¬ IsStored s.node.blockchain.blocks o.head.parent) ⊎ Elsewhere o.head.parent)
        s.orphan_blocks
no_parent-IsStored {Elsewhere = Elsewhere} {s = s} w le = All-imp over s.orphan_blocks w.waits
  where
    over :
        (o : Block)
        → Waits Elsewhere s.n s o
        → (¬ IsStored s.node.blockchain.blocks o.head.parent) ⊎ Elsewhere o.head.parent
    over o (inl missing) = inl missing
    over o (inr (inl (j, from, h))) = absurd (omega (arith, lt-get_elem? s.new_blocks j h))
    over o (inr (inr other)) = inr other
