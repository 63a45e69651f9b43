-- ===== src/Threads/Race.antt =====
-- Where the locks of src/network/worker.rs are too fine: `GetTransactions` looks for a transaction
-- and takes it in two locks of the mempool, and the miner removes transactions in between.
use bitcoin_client.Prelude.{
  ℕ, suc, ◌≡◌, refl, ap, ◌∙◌, true, List, [], ◌∷◌, ◌++◌, replicate, length, Option, none, some,
  ◌>>=◌, Option-cases, inl, inr,
}
use bitcoin_client.Prelude.HashMap.{get, is_some, get-remove_self}
use bitcoin_client.Prelude.HashMap
use bitcoin_client.Types.Hash.{H256, h256_eq, le}
use bitcoin_client.Types.Block.{Block}
use bitcoin_client.Types.Transaction.{SignedTransaction}
use bitcoin_client.Types.Crypto.{Crypto, hash}
use bitcoin_client.Blockchain.{genesis_difficulty}
use bitcoin_client.Network.Message.{Message, get_transactions, transactions}
use bitcoin_client.Network.Worker.{reply_with}
use bitcoin_client.Miner.{Miner}
use bitcoin_client.Threads.{
  Shared, Pool, Program, settle, tick, turn, run, bind, done, look, unwrap, write, mempool_lock,
  channel_lock,
}
use bitcoin_client.Threads.Worker.{collect_program, handle_program, worker_program, silent}
use bitcoin_client.Threads.Others.{remove_program, send_program, miner_program}

run-append :
    (xs ys : List ℕ) (s : Shared) (pool : Pool)
    → run (xs ++ ys) s pool ≡ (run xs s pool >>= λ r. run ys r.0 r.1)
unfolding run
run-append [] ys s pool = refl
run-append (i ∷ xs) ys s pool = elim (Option-cases (turn i s pool)) [
  | inl stuck ↦ rw (stuck, ◌>>=◌) refl
  | inr (r, moved) ↦ rw (moved, ◌>>=◌) (run-append xs ys r.0 r.1)
]

module _ (c : Crypto) (m : Miner) where
  -- The miner with these transactions left to remove, up to the end of its round.
  abbrev removing : List H256 → Program Unit
  removing hashes = bind (bind (remove_program hashes) (λ _. done m)) (λ m'. miner_program c m' [])

  abbrev removed : Shared → H256 → Shared
  removed s h = write mempool_lock s (record { trans = HashMap.remove s.node.mempool.trans h })

  settle-removing :
      (s : Shared) (hashes : List H256) → settle s (removing hashes) ≡ some (s, removing hashes)
  unfolding remove_program miner_program
  settle-removing s [] = refl
  settle-removing s (h ∷ hashes) = refl

  -- A turn of the miner takes one transaction off the mempool.
  removing-turn :
      (s : Shared) (h : H256) (hashes : List H256) (w : Program Unit)
      → turn 1 s (w ∷ removing (h ∷ hashes) ∷ []) ≡ some (removed s h, w ∷ removing hashes ∷ [])
  unfolding turn tick remove_program
  removing-turn s h hashes w = rw (settle-removing (removed s h) hashes) refl

  -- After enough turns the transaction is gone.
  removing-run :
      (front back : List H256) (h : H256) (s : Shared) (w : Program Unit)
      → (s' : Shared) × (run
            (replicate (suc (length front)) 1)
            s
            (w ∷ removing (front ++ h ∷ back) ∷ [])
          ≡ some (s', w ∷ removing back ∷ []))
        × (get s'.node.mempool.trans h ≡ none)
  unfolding run
  removing-run [] back h s w =
      (removed s h, rw (removing-turn s h back w) refl, get-remove_self s.node.mempool.trans h)
  removing-run (x ∷ front) back h s w =
      let (s', ran, gone) = removing-run front back h (removed s x) w in
      (s', rw (removing-turn s x (front ++ h ∷ back) w) ran, gone)

module _ (c : Crypto) (orphan_blocks : List Block) (h : H256) (hashes : List H256)
    (messages : List Message) where
  -- The worker that is asked for the transaction.
  abbrev asked : Program Unit
  asked = worker_program c orphan_blocks (get_transactions (h ∷ hashes) ∷ messages)

  -- The worker that has found it there, before it takes it.
  abbrev taking : Program Unit
  taking =
      bind
        (bind
          (look mempool_lock
            (λ pool. unwrap (get pool.trans h) (λ t. collect_program hashes (t ∷ []))))
          (λ trans. done (silent orphan_blocks (reply_with transactions trans))))
        (λ r. worker_program c r.orphan_blocks messages)

  found_turn :
      (s : Shared) (t : SignedTransaction) (p : Program Unit)
      → get s.node.mempool.trans h ≡ some t
      → turn 0 s (asked ∷ p ∷ []) ≡ some (s, taking ∷ p ∷ [])
  unfolding turn tick worker_program handle_program collect_program
  found_turn s t p there = rw (there, is_some) refl

  gone_turn :
      (s : Shared) (p : Program Unit)
      → get s.node.mempool.trans h ≡ none
      → turn 0 s (taking ∷ p ∷ []) ≡ none
  unfolding turn tick
  gone_turn s p gone = rw gone refl

-- The miner sends a block with a proof of work.
sending_turn :
    (c : Crypto) (m : Miner) (block : Block) (s : Shared) (w : Program Unit)
    → le (hash c block) genesis_difficulty ≡ true
    → turn 1 s (w ∷ bind (send_program c m block) (λ m'. miner_program c m' []) ∷ [])
      ≡ some (
        write channel_lock s (s.finished_blocks ++ block ∷ []),
        w ∷ removing c (record m { to_remove = []; transaction = [] }) m.to_remove ∷ [],
      )
unfolding turn tick send_program
sending_turn c m block s w worked =
    rw (worked, settle-removing c (record m { to_remove = []; transaction = [] })) refl

-- A worker is asked for a transaction of the mempool, and the miner has found the proof of work of a
-- block with that transaction. If the worker looks for the transaction, the miner then sends the
-- block and takes its transactions off the mempool up to this one, a lock for each, and then the
-- worker is next, it panics.
pub get_transactions_panics :
    (c : Crypto) (s : Shared) (orphan_blocks : List Block) (h : H256) (hashes : List H256)
    (messages : List Message) (t : SignedTransaction) (m : Miner) (block : Block)
    (front back : List H256)
    → get s.node.mempool.trans h ≡ some t
    → le (hash c block) genesis_difficulty ≡ true
    → m.to_remove ≡ front ++ h ∷ back
    → run (0 ∷ 1 ∷ replicate (suc (length front)) 1 ++ 0 ∷ []) s (
        worker_program c orphan_blocks (get_transactions (h ∷ hashes) ∷ messages)
        ∷ bind (send_program c m block) (λ m'. miner_program c m' [])
        ∷ [])
      ≡ none
unfolding run
get_transactions_panics c s orphan_blocks h hashes messages t m block front back there worked
      batch =
    let m' : Miner = record m { to_remove = []; transaction = [] } in
    let s1 : Shared = write channel_lock s (s.finished_blocks ++ block ∷ []) in
    let w : Program Unit = taking c orphan_blocks h hashes messages in
    let (s', ran, gone) = removing-run c m' front back h s1 w in
    let found =
      found_turn c orphan_blocks h hashes messages s t
        (bind (send_program c m block) (λ m'. miner_program c m' [])) there in
    let sent = sending_turn c m block s w worked in
    let lost = gone_turn c orphan_blocks h hashes messages s' (removing c m' back) gone in
    let rest : run (replicate (suc (length front)) 1 ++ 0 ∷ []) s1
          (w ∷ removing c m' (front ++ h ∷ back) ∷ [])
        ≡ none =
      run-append (replicate (suc (length front)) 1) (0 ∷ []) s1
        (w ∷ removing c m' (front ++ h ∷ back) ∷ [])
      ∙ ap (λ (o : Option (Shared × Pool)). o >>= λ r. run (0 ∷ []) r.0 r.1) ran
      ∙ ap (λ (o : Option (Shared × Pool)). o >>= λ r. some r) lost in
    rw (found, ◌>>=◌, sent, ◌>>=◌, batch) rest
