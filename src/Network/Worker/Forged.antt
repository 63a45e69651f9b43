-- ===== src/Network/Worker/Forged.antt =====
-- The hash of a block is that of its header, and no handler compares the header's Merkle root with
-- the block's transactions.
use bitcoin_client.Prelude.{
  ℕ, suc, ◌+◌, ◌<◌, ◌≡◌, refl, true, [], ◌∷◌, ◌++◌, some, ◌>>=◌, ◌==◌, u32_mod,
}
use bitcoin_client.Prelude.HashMap.{get, insert, is_some}
use bitcoin_client.Types.Hash.{h256_eq}
use bitcoin_client.Types.Block.{Header, Block, Content}
use bitcoin_client.Types.Transaction.{State}
use bitcoin_client.Types.Crypto.{Crypto, hash}
use bitcoin_client.Blockchain.Invariant.{insert-IsValid}
use bitcoin_client.Ledger.{check_txs, check_tx_state, conclude}
use bitcoin_client.Network.Worker.{Loop, add_checked, connect_block, process_block}
use bitcoin_client.Network.Worker.Safe.{IsCollisionFree, IsSafe, IsWorked}
use bitcoin_client.Network.Worker.Connect.{clash}

-- A block with its proof of work, whose parent is stored with its difficulty, may be sent with any
-- other transactions that pass the check after its parent: they are stored under the block's hash,
-- and the block itself, which then comes with its own transactions, is ignored. The node is safe,
-- its height leaves room in a `u32`, and no other header at hand has the hash.
pub forged_content :
    {c : Crypto} {Seen : Header → Type 0}
    → IsCollisionFree c Seen
    → (s : Loop) (w : IsSafe c Seen s.node) (block : Block) → IsWorked c Seen block
    → (forged : Content) (p : Block) (ph : ℕ)
    → get s.node.blockchain.blocks block.head.parent ≡ some (p, ph)
    → block.head.difficulty ≡ p.head.difficulty
    → (state after : State) → get s.node.block_state block.head.parent ≡ some state
    → check_txs c state forged.st ≡ some after
    → w.chain.top + 1 < u32_mod
    → (t : Loop) × (connect_block c s block.head.parent (record block { cont = forged }) ≡ some t)
      × (get t.node.blockchain.blocks (hash c block)
          ≡ some (record block { cont = forged }, suc ph))
      × (process_block c t block ≡ some t)
unfolding connect_block add_checked check_tx_state conclude hash process_block
forged_content {c} {Seen} free s w block a forged p ph parent same state after found passed room =
    let block' : Block = record block { cont = forged } in
    let a' : IsWorked c Seen block' = record {
      seen = a.seen;
      worked = a.worked;
      other = a.other;
    } in
    let i =
      insert-IsValid w.chain block' p ph parent a.other (clash free s w block' a' p ph parent room)
        room in
    let equal : (block.head.difficulty == p.head.difficulty) ≡ true =
      (h256_eq.same_iff _ _).1 same in
    let t : Loop = record s {
      node = record (s.node) {
        blockchain = i.chain';
        block_state = insert s.node.block_state (hash c block) after;
      };
      new_blocks = s.new_blocks ++ hash c block ∷ [];
    } in
    (
      t,
      rw (parent, equal, found, passed, i.returns, ◌>>=◌) refl,
      i.stored,
      rw (a.worked, i.stored, is_some) refl,
    )
