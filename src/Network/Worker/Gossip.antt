-- ===== src/Network/Worker/Gossip.antt =====
-- The handlers that answer and spread hashes, blocks and transactions.
use mathlib.Core.Path.{subst}
use bitcoin_client.Prelude.{
  ℕ, ◌≡◌, ◌↔◌, inl, inr, refl, sym, ap, ◌∙◌, true, List, [], ◌∷◌, map, none, some, >>=-eq-some, All,
  All-append, All-imp, In, Bool-cases, Option-cases,
}
use bitcoin_client.Prelude.HashMap
use bitcoin_client.Prelude.HashMap.{
  HashMap, get, contains_key, is_some, get-insert_self, get-insert_cases, get-insert_ne,
}
use bitcoin_client.Types.Hash.{H256, h256_eq}
use bitcoin_client.Types.Block.{Block}
use bitcoin_client.Types.Transaction.{SignedTransaction, Mempool}
use bitcoin_client.Types.Crypto.{Crypto, hash_signed, verify}
use bitcoin_client.Network.Worker.{missing, collect, receive_transaction, receive_transactions}

-- The hashes that `NewBlockHashes` asks for are those of the message that are not stored.
missing_iff :
    (stored : HashMap H256 (Block × ℕ)) (k : H256) (hashes : List H256)
    → In k (missing stored hashes) ↔ (In k hashes × (get stored k ≡ none))
unfolding missing
missing_iff stored k [] = (λ h. absurd h, λ h. absurd h.0)
missing_iff stored k (x ∷ hashes) = elim (Option-cases (get stored x)) [
  | inr (v, known) ↦ (
    λ h.
        let (inside, fresh) = (missing_iff stored k hashes).0 (rw (known, is_some) at h) in
        (inr inside, fresh),
    λ (inside, fresh).
        rw (known, is_some)
          (elim inside [
            | inl here ↦ cc (ap (get stored) here)
            | inr later ↦ (missing_iff stored k hashes).1 (later, fresh)
          ]),
  )
  | inl unknown ↦ (
    λ h. elim (rw (unknown, is_some) at h) [
      | inl here ↦ (inl here, ap (get stored) (sym here) ∙ unknown)
      | inr later ↦
          let (inside, fresh) = (missing_iff stored k hashes).0 later in (inr inside, fresh)
    ],
    λ (inside, fresh).
        rw (unknown, is_some)
          (elim inside [
            | inl here ↦ inl here
            | inr later ↦ inr ((missing_iff stored k hashes).1 (later, fresh))
          ]),
  )
]

collect_reads :
    {V : Type 0} (stored : HashMap H256 V) (hashes : List H256) (vs : List V)
    → collect stored hashes ≡ some vs
    → map (get stored) hashes ≡ map some vs
unfolding collect
collect_reads stored [] vs h = let same : [] ≡ vs = cc in rw (← same)
collect_reads stored (x ∷ hashes) vs h =
    let (v, found, h') = >>=-eq-some (get stored x) _ h in
    let (ws, rest, h'') = >>=-eq-some (collect stored hashes) _ h' in
    let same : v ∷ ws ≡ vs = cc in
    rw (← same, found) (ap (λ l. some v ∷ l) (collect_reads stored hashes ws rest))

reads_collect :
    {V : Type 0} (stored : HashMap H256 V) (hashes : List H256) (vs : List V)
    → map (get stored) hashes ≡ map some vs
    → collect stored hashes ≡ some vs
unfolding collect
reads_collect stored [] [] h = refl
reads_collect stored [] (v ∷ vs) h = cc
reads_collect stored (x ∷ hashes) [] h = cc
reads_collect stored (x ∷ hashes) (v ∷ vs) h =
    let found : get stored x ≡ some v = cc in
    let rest : map (get stored) hashes ≡ map some vs = cc in
    rw (found, reads_collect stored hashes vs rest)

-- `GetBlocks` and `GetTransactions` answer exactly if every key is there, and then with the value
-- of each key, in order.
collect_iff :
    {V : Type 0} (stored : HashMap H256 V) (hashes : List H256) (vs : List V)
    → (collect stored hashes ≡ some vs) ↔ (map (get stored) hashes ≡ map some vs)
collect_iff stored hashes vs = (collect_reads stored hashes vs, reads_collect stored hashes vs)

-- Each entry of the pool is stored under its hash, and its signature verifies.
abbrev pub IsPool : Crypto → Mempool → Type 0
IsPool c mempool =
    (k : H256) (t : SignedTransaction)
    → get mempool.trans k ≡ some t
    → (hash_signed c t ≡ k) × (verify c t.transaction t.public_key_vector t.signature_vector ≡ true)

abbrev pub InPool : Mempool → H256 → Type 0
InPool mempool k = (t : SignedTransaction) × (get mempool.trans k ≡ some t)

-- What the handler of `Transactions` leaves of the pool and the new hashes before it.
pub record Received (c : Crypto) (mempool mempool' : Mempool) (news news' : List H256)
    : Type 0 where
  pub pool : IsPool c mempool → IsPool c mempool'
  pub kept :
      (k : H256) (t : SignedTransaction)
      → get mempool.trans k ≡ some t
      → get mempool'.trans k ≡ some t
  pub in_pool : All (InPool mempool) news → All (InPool mempool') news'

module _ (c : Crypto) where
  receive_transaction-Received :
      (mempool : Mempool) (news : List H256) (t : SignedTransaction)
      → let (mempool', news') = receive_transaction c mempool news t in
        Received c mempool mempool' news news'
  unfolding receive_transaction
  receive_transaction-Received mempool news t =
      elim (Bool-cases (verify c t.transaction t.public_key_vector t.signature_vector)) [
        | inr wrong ↦ rw wrong (record { pool = λ h. h; kept = λ k u h. h; in_pool = λ h. h })
        | inl signed ↦ elim (Option-cases (get mempool.trans (hash_signed c t))) [
          | inr (u, known) ↦
              rw (signed, known, is_some)
                (record { pool = λ h. h; kept = λ k u h. h; in_pool = λ h. h })
          | inl fresh ↦
              rw (signed, fresh, is_some)
                (let kept : (k : H256) (u : SignedTransaction)
                      → get mempool.trans k ≡ some u
                      → get (HashMap.insert mempool.trans (hash_signed c t) t) k ≡ some u =
                    λ k u h.
                      get-insert_ne mempool.trans (hash_signed c t) t k
                        (λ same. cc (fresh, ap (get mempool.trans) same))
                      ∙ h in
                  record {
                    pool = λ h k u e.
                        elim (get-insert_cases mempool.trans (hash_signed c t) t k e) [
                          | inl (at_k, same) ↦ (
                            ap (hash_signed c) (sym same) ∙ at_k,
                            subst
                                (λ (x : SignedTransaction).
                                  verify c x.transaction x.public_key_vector x.signature_vector
                                  ≡ true)
                                same signed,
                          )
                          | inr (_, old) ↦ h k u old
                        ];
                    kept = kept;
                    in_pool = λ a.
                        All-append _ news (hash_signed c t ∷ [])
                          (All-imp (λ k (u, e). (u, kept k u e)) news a)
                          ((t, get-insert_self mempool.trans (hash_signed c t) t), tt);
                  })
        ]
      ]

  -- The handler of `Transactions` keeps a pool of verified transactions under their hashes, does
  -- not replace an entry, and announces only hashes that are then in the pool.
  pub receive_transactions-Received :
      (mempool : Mempool) (news : List H256) (ts : List SignedTransaction)
      → let (mempool', news') = receive_transactions c mempool news ts in
        Received c mempool mempool' news news'
  unfolding receive_transactions
  receive_transactions-Received mempool news [] = record {
    pool = λ h. h;
    kept = λ k u h. h;
    in_pool = λ h. h;
  }
  receive_transactions-Received mempool news (t ∷ ts) =
      let one = receive_transaction-Received mempool news t in
      let (mempool', news') = receive_transaction c mempool news t in
      let rest = receive_transactions-Received mempool' news' ts in
      record {
        pool = λ h. rest.pool (one.pool h);
        kept = λ k u h. rest.kept k u (one.kept k u h);
        in_pool = λ h. rest.in_pool (one.in_pool h);
      }
