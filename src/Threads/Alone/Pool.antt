-- ===== src/Threads/Alone/Pool.antt =====
-- The handlers of `GetTransactions` and `Transactions` of src/network/worker.rs, with no other
-- thread between their locks.
use mathlib.Core.List.{append-nil, append_assoc}
use bitcoin_client.Prelude.{
  ◌≡◌, refl, sym, ap, ◌∙◌, inl, inr, List, [], ◌∷◌, ◌++◌, Option, none, some, ◌>>=◌, if◌then◌else◌,
  Bool-cases,
}
use bitcoin_client.Prelude.HashMap.{get, is_some, insert}
use bitcoin_client.Types.Hash.{H256, h256_eq}
use bitcoin_client.Types.Transaction.{SignedTransaction, Mempool}
use bitcoin_client.Types.Crypto.{Crypto, hash_signed, verify}
use bitcoin_client.Network.Worker.{collect, receive_transactions, receive_transaction}
use bitcoin_client.Threads.{Shared, done, acquire, alone, look, unwrap, write, mempool_lock}
use bitcoin_client.Threads.Worker.{collect_program, receive_program}

pub same_collected : (o : Option (List SignedTransaction)) → (o >>= λ ts. some ([] ++ ts)) ≡ o
same_collected none = refl
same_collected (some ts) = refl

-- One more transaction in front.
collect_more :
    (trans : List SignedTransaction) (t : SignedTransaction) (o : Option (List SignedTransaction))
    → (o >>= λ ts. some ((trans ++ t ∷ []) ++ ts))
      ≡ ((o >>= λ ts. some (t ∷ ts)) >>= λ ts. some (trans ++ ts))
collect_more trans t none = refl
collect_more trans t (some ts) = ap some (append_assoc trans (t ∷ []) ts)

-- The two lookups of `GetTransactions`, for what is there.
collect_found :
    (h : H256) (hashes : List H256) (trans : List SignedTransaction) (s : Shared)
    (o : Option SignedTransaction)
    → get s.node.mempool.trans h ≡ o
    → ((t : SignedTransaction)
        → alone (collect_program hashes (trans ++ t ∷ [])) s
          ≡ some (s, collect s.node.mempool.trans hashes >>= λ ts. some ((trans ++ t ∷ []) ++ ts)))
    → alone
        (if is_some o
          then look mempool_lock
              (λ m'. unwrap (get m'.trans h) (λ t. collect_program hashes (trans ++ t ∷ [])))
          else done none)
        s
      ≡ some (
        s,
        (o >>= λ v. collect s.node.mempool.trans hashes >>= λ vs. some (v ∷ vs)) >>= λ ts.
            some (trans ++ ts),
      )
unfolding alone
collect_found h hashes trans s none e rest = refl
collect_found h hashes trans s (some t) e rest =
    rw (e, alone)
      (rest t
        ∙ ap (λ (l : Option (List SignedTransaction)). some (s, l))
            (collect_more trans t (collect s.node.mempool.trans hashes)))

pub collect_program-alone :
    (hashes : List H256) (trans : List SignedTransaction) (s : Shared)
    → alone (collect_program hashes trans) s
      ≡ some (s, collect s.node.mempool.trans hashes >>= λ ts. some (trans ++ ts))
unfolding collect_program alone collect
collect_program-alone [] trans s =
    ap (λ (l : List SignedTransaction). some (s, some l)) (sym (append-nil trans))
collect_program-alone (h ∷ hashes) trans s =
    collect_found h hashes trans s (get s.node.mempool.trans h) refl
      (λ t. collect_program-alone hashes (trans ++ t ∷ []) s)

module _ (c : Crypto) where
  abbrev received : Shared → Mempool × List H256 → Option (Shared × List H256)
  received s r = some (write mempool_lock s r.0, r.1)

  receive_fresh :
      (s : Shared) (new_trans : List H256) (t : SignedTransaction) (ts : List SignedTransaction)
      (o : Option SignedTransaction)
      → ((s : Shared) (new_trans : List H256)
          → alone (receive_program c new_trans ts) s
            ≡ received s (receive_transactions c s.node.mempool new_trans ts))
      → alone
          (if is_some o
            then receive_program c new_trans ts
            else acquire mempool_lock
                (λ m'. record { trans = insert m'.trans (hash_signed c t) t })
                (λ _. receive_program c (new_trans ++ hash_signed c t ∷ []) ts))
          s
        ≡ received s (
            let r : Mempool × List H256 = if is_some o then (s.node.mempool, new_trans) else (
              record { trans = insert s.node.mempool.trans (hash_signed c t) t },
              new_trans ++ hash_signed c t ∷ [],
            ) in
            receive_transactions c r.0 r.1 ts)
  unfolding alone
  receive_fresh s new_trans t ts none rest = rest _ (new_trans ++ hash_signed c t ∷ [])
  receive_fresh s new_trans t ts (some u) rest = rest s new_trans

  pub receive_program-alone :
      (ts : List SignedTransaction) (s : Shared) (new_trans : List H256)
      → alone (receive_program c new_trans ts) s
        ≡ received s (receive_transactions c s.node.mempool new_trans ts)
  unfolding receive_program receive_transactions receive_transaction alone
  receive_program-alone [] s new_trans = refl
  receive_program-alone (t ∷ ts) s new_trans =
      elim (Bool-cases (verify c t.transaction t.public_key_vector t.signature_vector)) [
        | inr wrong ↦
            rw (wrong, receive_transactions, receive_transaction)
              (receive_program-alone ts s new_trans)
        | inl signed ↦
            rw (signed, receive_transactions, receive_transaction)
              (receive_fresh s new_trans t ts (get s.node.mempool.trans (hash_signed c t))
                (receive_program-alone ts))
      ]
