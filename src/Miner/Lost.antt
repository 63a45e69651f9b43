-- ===== src/Miner/Lost.antt =====
-- What becomes of the transactions of a block that the miner sends and its worker refuses.
use mathlib.Core.Path.{subst}
use bitcoin_client.Prelude.{
  ◌≡◌, refl, sym, ap, ◌∙◌, ℕ, List, [], ◌∷◌, map, Option, none, some, ◌>>=◌, In, inl, inr,
}
use bitcoin_client.Prelude.HashMap.{HashMap, get}
use bitcoin_client.Types.Hash.{H256, h256_eq}
use bitcoin_client.Types.Block.{Block}
use bitcoin_client.Types.Transaction.{SignedTransaction, State}
use bitcoin_client.Types.Crypto.{Crypto, hash_signed}
use bitcoin_client.Ledger
use bitcoin_client.Ledger.{check_txs, conclude}
use bitcoin_client.Node.{Node}
use bitcoin_client.Miner
use bitcoin_client.Miner.{Miner, select, mine}
use bitcoin_client.Miner.Mining.{IsBatch, AreKeyed, IsOutcome, mine-IsMined, select-IsBatch}
use bitcoin_client.Miner.Worker.{on_finished}

In-map :
    (c : Crypto) (ts : List SignedTransaction) (t : SignedTransaction)
    → In t ts
    → In (hash_signed c t) (map (hash_signed c) ts)
In-map c [] t i = i
In-map c (x ∷ ts) t (inl same) = inl (ap (hash_signed c) same)
In-map c (x ∷ ts) t (inr later) = inr (In-map c ts t later)

-- The miner takes the transactions of a block off the mempool when it sends the block. If the
-- block's transactions do not pass the check after the state of the tip, the worker then refuses
-- it: nothing is stored or sent, the blockchain is that before the round, and yet none of the
-- transactions is in the mempool. The entries of the mempool are iterated with each transaction
-- under its hash, and the batch before the round is in order.
pub lost_transactions :
    (c : Crypto) (node : Node) (entries : List (H256 × SignedTransaction)) (nonce time : ℕ)
    (m : Miner) (r : Miner.Round) (block : Block) (state : State)
    → AreKeyed c entries
    → IsBatch c m
    → mine c node entries nonce time m ≡ some r
    → r.finished ≡ some block
    → get node.block_state node.blockchain.tip ≡ some state
    → check_txs c state block.cont.st ≡ none
    → (on_finished c r.node block ≡ some (r.node, []))
      × (r.node.blockchain ≡ node.blockchain)
      × (r.node.block_state ≡ node.block_state)
      × ((t : SignedTransaction)
          → In t block.cont.st
          → get r.node.mempool.trans (hash_signed c t) ≡ none)
unfolding on_finished Ledger.check_tx_state conclude
lost_transactions c node entries nonce time m r block state keyed batch run sent there refused =
    let w = mine-IsMined c node entries nonce time m keyed batch in
    let same : ◌≡◌ {A = Option Miner.Round} (some w.result) (some r) = sym w.returns ∙ run in
    let result : w.result ≡ r = cc same in
    let outcome : IsOutcome c node (select entries m) r (some block) =
      subst (λ (o : Option Block). IsOutcome c node (select entries m) r o) sent
        (subst (λ (x : Miner.Round). IsOutcome c node (select entries m) x x.finished) result
          w.outcome) in
    let (mined, cleared, gone, chain, states) = outcome in
    let at_parent : get r.node.block_state block.head.parent ≡ some state =
      ap (λ (s : HashMap H256 State). get s block.head.parent) states
      ∙ ap (get node.block_state) mined.parent
      ∙ there in
    (
      rw (at_parent, refused, ◌>>=◌) refl,
      chain,
      states,
      λ t i. gone (hash_signed c t) (
          subst (λ (hs : List H256). In (hash_signed c t) hs)
            (sym (select-IsBatch c entries m keyed batch).hashes)
            (In-map c (select entries m).transaction t
              (subst (λ (ts : List SignedTransaction). In t ts) mined.content i))),
    )
