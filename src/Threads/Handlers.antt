-- ===== src/Threads/Handlers.antt =====
-- The programs of the network's workers keep what they owe.
use bitcoin_client.Prelude.{
  ℕ, zero, suc, ◌+◌, ◌≤◌, ◌≡◌, refl, ap, ◌∙◌, inl, inr, List, [], ◌∷◌, ◌++◌, ◌==◌, All, All-append,
  All-get_elem?, get_elem?, le-get_elem?, length, length-append, if◌then◌else◌, Bool-cases,
  Option-cases, arith,
}
use bitcoin_client.Prelude.HashMap.{get, is_some, contains_key}
use bitcoin_client.Types.Hash.{H256, h256_eq, le}
use bitcoin_client.Types.Block.{Header, Block}
use bitcoin_client.Types.Transaction.{SignedTransaction}
use bitcoin_client.Types.Crypto.{Crypto, hash, hash_signed, verify}
use bitcoin_client.Network.Message.{
  Message, ping, pong, new_block_hashes, get_blocks, blocks, new_transaction_hashes,
  get_transactions, transactions,
}
use bitcoin_client.Network.Worker.Safe.{IsCollisionFree, IsStored, IsWorked}
use bitcoin_client.Network.Worker.Run.{carried}
use bitcoin_client.Threads.{Shared, bind, done}
use bitcoin_client.Threads.Worker.{
  Vars, Handled, connect_program, scan_program, unorphan_program, process_program, process_all,
  push, catch_up, blocks_program, receive_program, handle_program, worker_program,
}
use bitcoin_client.Threads.Calm.{Later, Later-trans, IsStored-Later, Calm, Calm-bind, unchanged}
use bitcoin_client.Threads.Owed.{write_mempool}
use bitcoin_client.Threads.Turns.{IsCalmThread, Any}
use bitcoin_client.Threads.Adding.{IsVars, weight, IsVars-Later, tried-IsVars, connect_program-Calm}

-- What the inner loop leaves: the same place, and no more hashes and orphans than there were.
pub record IsScanned (c : Crypto) (Seen : Header → Type 0) (n heavy : ℕ) (s : Shared) (t : Vars)
    : Type 0 where
  pub vars : IsVars c Seen s t
  pub place : t.n ≡ n
  pub light : weight t ≤ heavy

-- Between two blocks of a message: the loop over the new blocks has caught up.
pub record IsSettled (c : Crypto) (Seen : Header → Type 0) (s : Shared) (t : Vars) : Type 0 where
  pub vars : IsVars c Seen s t
  pub caught_up : length t.new_blocks ≤ t.n

module _ (c : Crypto) (Seen : Header → Type 0) (free : IsCollisionFree c Seen) where
  scan_program-Calm :
      (n heavy : ℕ) (parent : H256) (rest : List Block) (s : Shared) (v : Vars)
      → IsStored s.node.blockchain.blocks parent
      → All (IsWorked c Seen) rest
      → IsVars c Seen s v
      → v.n ≡ n
      → weight v + length rest ≤ heavy
      → Calm c Seen (IsScanned c Seen n heavy) s (scan_program c parent rest v)
  unfolding scan_program
  scan_program-Calm n heavy parent [] s v p a i same le =
      λ s' l. record { vars = IsVars-Later c Seen v l i; place = same; light = omega arith }
  scan_program-Calm n heavy parent (o ∷ rest) s v p a i same le =
      elim (Bool-cases (o.head.parent == parent)) [
        | inl child ↦
            let eq = (h256_eq.same_iff o.head.parent parent).0 child in
            rw (child, scan_program)
              (Calm-bind c Seen _ (IsScanned c Seen n heavy) s (connect_program c v parent o) _
                (rw (← eq) (connect_program-Calm c Seen free s v o a.0 (rw (← eq) at p)))
                (λ s' t l tried.
                  let (i', n', o', w') =
                    tried-IsVars c Seen s' v o t (IsVars-Later c Seen v l i) tried in
                  scan_program-Calm n heavy parent rest s' t (IsStored-Later parent l p) a.1 i'
                    (n' ∙ same) (omega arith)))
        | inr other ↦
            rw (other, scan_program)
              (scan_program-Calm n heavy parent rest s _ p a.1
                (record {
                  worked = All-append _ v.orphan_blocks (o ∷ []) i.worked (a.0, tt);
                  stored = i.stored;
                })
                same (omega (arith, length-append v.orphan_blocks (o ∷ []))))
      ]

  -- With a fuel of the number of new blocks and orphans the outer loop ends by its own test.
  unorphan_program-Calm :
      (fuel : ℕ) (s : Shared) (v : Vars)
      → IsVars c Seen s v
      → weight v ≤ fuel + v.n
      → Calm c Seen (IsSettled c Seen) s (unorphan_program c fuel v)
  unfolding unorphan_program
  unorphan_program-Calm zero s v i le =
      λ s' l. record { vars = IsVars-Later c Seen v l i; caught_up = omega arith }
  unorphan_program-Calm (suc fuel) s v i le = elim (Option-cases (get_elem? v.new_blocks v.n)) [
    | inl end ↦
        rw (end, unorphan_program)
          (λ s' l. record {
            vars = IsVars-Later c Seen v l i;
            caught_up = le-get_elem? v.new_blocks v.n end;
          })
    | inr (parent, place) ↦
        rw (place, unorphan_program)
          (Calm-bind c Seen (IsScanned c Seen v.n (weight v)) (IsSettled c Seen) s
            (scan_program c parent v.orphan_blocks (record v { orphan_blocks = [] })) _
            (scan_program-Calm v.n (weight v) parent v.orphan_blocks s
              (record v { orphan_blocks = [] }) (All-get_elem? _ v.new_blocks v.n i.stored place)
              i.worked (record { worked = tt; stored = i.stored }) refl (omega arith))
            (λ s' t l d.
              unorphan_program-Calm fuel s' (record t { n = suc t.n })
                (record { worked = d.vars.worked; stored = d.vars.stored })
                (omega (arith, d.light, ap (λ (x : ℕ). x) d.place))))
  ]

  IsSettled-Later :
      {s s' : Shared} (v : Vars) → Later s s' → IsSettled c Seen s v → IsSettled c Seen s' v
  IsSettled-Later v l i = record { vars = IsVars-Later c Seen v l i.vars; caught_up = i.caught_up }

  -- The second lookup, at the parent.
  parent_cases :
      (s : Shared) (v : Vars) (block : Block)
      → IsSettled c Seen s v
      → IsWorked c Seen block
      → Calm c Seen (IsSettled c Seen) s (
          if contains_key s.node.blockchain.blocks block.head.parent
          then bind (connect_program c v block.head.parent block) (catch_up c)
          else done (push v block))
  parent_cases s v block i a =
      elim (Option-cases (get s.node.blockchain.blocks block.head.parent)) [
        | inl missing ↦
            rw (missing, is_some)
              (λ s' l. record {
                vars = record {
                  worked = All-append _ v.orphan_blocks (block ∷ []) i.vars.worked (a, tt);
                  stored = (IsVars-Later c Seen v l i.vars).stored;
                };
                caught_up = i.caught_up;
              })
        | inr (e, found) ↦
            rw (found, is_some)
              (Calm-bind c Seen _ (IsSettled c Seen) s (connect_program c v block.head.parent block)
                _ (connect_program-Calm c Seen free s v block a (e, found))
                (λ s' t l tried.
                  let (i', n', o', w') =
                    tried-IsVars c Seen s' v block t (IsVars-Later c Seen v l i.vars) tried in
                  unorphan_program-Calm (length t.new_blocks + length t.orphan_blocks) s' t i'
                    (omega arith)))
      ]

  process_program-Calm :
      (s : Shared) (v : Vars) (block : Block)
      → IsSettled c Seen s v
      → Seen block.head
      → Calm c Seen (IsSettled c Seen) s (process_program c v block)
  unfolding process_program
  process_program-Calm s v block i seen =
      elim (Bool-cases (le (hash c block) block.head.difficulty)) [
        | inr weak ↦ rw weak (λ s' l. IsSettled-Later v l i)
        | inl worked ↦ rw worked (λ s' l w room ok. (
          unchanged s' w,
          elim (Option-cases (get s'.node.blockchain.blocks (hash c block))) [
            | inr (e, known) ↦
                rw (known, is_some) (λ s'' l'. IsSettled-Later v (Later-trans l l') i)
            | inl fresh ↦
                let a : IsWorked c Seen block = record {
                  seen = seen;
                  worked = worked;
                  other = λ same.
                      cc (
                        w.safe.chain.genesis_stored,
                        ap (get s'.node.blockchain.blocks) same,
                        fresh,
                      );
                } in
                rw (fresh, is_some)
                  (λ s'' l' w' room' ok. (
                    unchanged s'' w',
                    parent_cases s'' v block (IsSettled-Later v (Later-trans l l') i) a,
                  ))
          ],
        ))
      ]

  process_all-Calm :
      (s : Shared) (v : Vars) (received : List Block)
      → IsSettled c Seen s v
      → All (λ b. Seen b.head) received
      → Calm c Seen (IsSettled c Seen) s (process_all c v received)
  unfolding process_all
  process_all-Calm s v [] i seen = λ s' l. IsSettled-Later v l i
  process_all-Calm s v (block ∷ rest) i seen =
      Calm-bind c Seen (IsSettled c Seen) (IsSettled c Seen) s (process_program c v block) _
        (process_program-Calm s v block i seen.0)
        (λ s' t l i'. process_all-Calm s' t rest i' seen.1)

-- The worker keeps the orphans in order.
abbrev pub IsHandled : (c : Crypto) → (Header → Type 0) → Shared → Handled → Type 0
IsHandled c Seen s r = All (IsWorked c Seen) r.orphan_blocks

module _ (c : Crypto) (Seen : Header → Type 0) where
  receive_program-Calm :
      (s : Shared) (new_trans : List H256) (ts : List SignedTransaction)
      → Calm c Seen Any s (receive_program c new_trans ts)
  unfolding receive_program
  receive_program-Calm s new_trans [] = λ s' l. tt
  receive_program-Calm s new_trans (t ∷ ts) =
      elim (Bool-cases (verify c t.transaction t.public_key_vector t.signature_vector)) [
        | inr wrong ↦ rw wrong (receive_program-Calm s new_trans ts)
        | inl signed ↦ rw signed (λ s' l w room ok. (
          unchanged s' w,
          elim (Option-cases (get s'.node.mempool.trans (hash_signed c t))) [
            | inr (u, known) ↦ rw (known, is_some) (receive_program-Calm s' new_trans ts)
            | inl fresh ↦
                rw (fresh, is_some)
                  (λ s'' l' w' room' ok. (
                    write_mempool s'' w' _,
                    receive_program-Calm _ (new_trans ++ hash_signed c t ∷ []) ts,
                  ))
          ],
        ))
      ]

-- A message that is not `GetTransactions`.
abbrev pub IsNoRequest : Message → Type 0
IsNoRequest (get_transactions hashes) = ⊥
IsNoRequest _ = Unit

module _ (c : Crypto) (Seen : Header → Type 0) (free : IsCollisionFree c Seen) where
  handle_program-Calm :
      (s : Shared) (orphan_blocks : List Block) (m : Message)
      → IsNoRequest m
      → All (IsWorked c Seen) orphan_blocks
      → All (λ b. Seen b.head) (carried m)
      → Calm c Seen (IsHandled c Seen) s (handle_program c orphan_blocks m)
  unfolding handle_program blocks_program
  handle_program-Calm s orphan_blocks (ping nonce) q a seen = λ s' l. a
  handle_program-Calm s orphan_blocks (pong nonce) q a seen = λ s' l. a
  handle_program-Calm s orphan_blocks (new_block_hashes hashes) q a seen =
      λ s' l w room ok. (unchanged s' w, λ s'' l'. a)
  handle_program-Calm s orphan_blocks (get_blocks hashes) q a seen =
      λ s' l w room ok. (unchanged s' w, λ s'' l'. a)
  handle_program-Calm s orphan_blocks (blocks received) q a seen =
      Calm-bind c Seen (IsSettled c Seen) (IsHandled c Seen) s (process_all c _ received) _
        (process_all-Calm c Seen free s _ received
          (record { vars = record { worked = a; stored = tt }; caught_up = omega arith }) seen)
        (λ s' v l i s'' l'. i.vars.worked)
  handle_program-Calm s orphan_blocks (new_transaction_hashes hashes) q a seen = λ s' l. a
  handle_program-Calm s orphan_blocks (get_transactions hashes) q a seen = absurd q
  handle_program-Calm s orphan_blocks (transactions ts) q a seen =
      Calm-bind c Seen Any (IsHandled c Seen) s (receive_program c [] ts) _
        (receive_program-Calm c Seen s [] ts) (λ s' v l i s'' l'. a)

  -- A worker that is not asked for transactions keeps what it owes.
  pub worker_program-Calm :
      (s : Shared) (orphan_blocks : List Block) (messages : List Message)
      → All IsNoRequest messages
      → All (IsWorked c Seen) orphan_blocks
      → All (λ m. All (λ b. Seen b.head) (carried m)) messages
      → IsCalmThread c Seen s (worker_program c orphan_blocks messages)
  unfolding worker_program
  worker_program-Calm s orphan_blocks [] q a seen = λ s' l. tt
  worker_program-Calm s orphan_blocks (m ∷ messages) q a seen =
      Calm-bind c Seen (IsHandled c Seen) Any s (handle_program c orphan_blocks m) _
        (handle_program-Calm s orphan_blocks m q.0 a seen.0)
        (λ s' r l i. worker_program-Calm s' r.orphan_blocks messages q.1 i seen.1)
