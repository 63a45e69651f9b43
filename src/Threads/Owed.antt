-- ===== src/Threads/Owed.antt =====
-- What one lock of a thread does to the node: writing a state, inserting a block, changing the
-- mempool, sending and taking a block of the channel.
use bitcoin_client.Prelude.{
  ℕ, suc, ◌+◌, ◌<◌, ◌≡◌, refl, sym, ap, ◌∙◌, inl, inr, List, [], ◌∷◌, some, ◌==◌, All, All-imp,
  Bool-cases, u32_mod, arith,
}
use bitcoin_client.Prelude.HashMap.{get, insert}
use bitcoin_client.Types.Hash.{H256, h256_eq}
use bitcoin_client.Types.Block.{Header, Block}
use bitcoin_client.Types.Transaction.{State, Mempool}
use bitcoin_client.Types.Crypto.{Crypto, hash}
use bitcoin_client.Blockchain
use bitcoin_client.Blockchain.{Blockchain}
use bitcoin_client.Blockchain.Invariant.{Inserted, NoClash, insert-IsValid}
use bitcoin_client.Network.Worker.{Loop}
use bitcoin_client.Network.Worker.Safe.{IsCollisionFree, IsStored, IsWorked}
use bitcoin_client.Network.Worker.Connect.{Connected, grown, grown-Connected, clash, keeps-insert}
use bitcoin_client.Threads.{Shared, chain_lock, mempool_lock, state_lock, channel_lock, write}
use bitcoin_client.Threads.Calm.{IsSent, IsCalm, Later, IsStored-Later, Guaranteed}

-- The blocks of the channel keep their parents.
pub IsSent-Later :
    (c : Crypto) (Seen : Header → Type 0) {s s' : Shared} (l : Later s s') (blocks : List Block)
    → All (IsSent c Seen s.node) blocks
    → All (IsSent c Seen s'.node) blocks
IsSent-Later c Seen l blocks a =
    All-imp
      (λ b d. record {
        worked = d.worked;
        difficulty = d.difficulty;
        parent = IsStored-Later b.head.parent l d.parent;
      })
      blocks a

module _ {c : Crypto} {Seen : Header → Type 0} where
  pub write_state :
      (s : Shared) (w : IsCalm c Seen s) (h : H256) (st : State)
      → Guaranteed c Seen s w.safe.chain.top (write state_lock s (insert s.node.block_state h st))
  write_state s w h st = record {
    later = l;
    calm = record {
      safe = record {
        chain = w.safe.chain;
        stated = λ k e found.
            let (old, at_k) = w.safe.stated k e found in
            keeps-insert s.node.block_state h st k old at_k;
        seen = w.safe.seen;
        fixed_difficulty = w.safe.fixed_difficulty;
        worked = w.safe.worked;
      };
      sent = IsSent-Later c Seen l s.finished_blocks w.sent;
    };
    top_le = omega arith;
  }
    where
      l : Later s (write state_lock s (insert s.node.block_state h st))
      l = record {
        blocks = λ k e found. (e, found, refl, refl);
        states = keeps-insert s.node.block_state h st;
      }

  pub write_mempool :
      (s : Shared) (w : IsCalm c Seen s) (m : Mempool)
      → Guaranteed c Seen s w.safe.chain.top (write mempool_lock s m)
  write_mempool s w m = record {
    later = l;
    calm = record {
      safe = record {
        chain = w.safe.chain;
        stated = w.safe.stated;
        seen = w.safe.seen;
        fixed_difficulty = w.safe.fixed_difficulty;
        worked = w.safe.worked;
      };
      sent = IsSent-Later c Seen l s.finished_blocks w.sent;
    };
    top_le = omega arith;
  }
    where
      l : Later s (write mempool_lock s m)
      l = record {
        blocks = λ k e found. (e, found, refl, refl);
        states = λ k st found. (st, found);
      }

  pub write_channel :
      (s : Shared) (w : IsCalm c Seen s) (blocks : List Block)
      → All (IsSent c Seen s.node) blocks
      → Guaranteed c Seen s w.safe.chain.top (write channel_lock s blocks)
  write_channel s w blocks a = record {
    later = record {
      blocks = λ k e found. (e, found, refl, refl);
      states = λ k st found. (st, found);
    };
    calm = record { safe = w.safe; sent = a };
    top_le = omega arith;
  }

-- The insertion of a block whose parent and whose own state are there.
pub record Stored (c : Crypto) (Seen : Header → Type 0) (s : Shared) (top : ℕ) (block : Block)
    : Type 0 where
  pub chain' : Blockchain
  pub returns : Blockchain.insert c s.node.blockchain block ≡ some chain'
  pub owed : Guaranteed c Seen s top (write chain_lock s chain')
  pub stored : IsStored chain'.blocks (hash c block)

pub write_chain :
    {c : Crypto} {Seen : Header → Type 0}
    → IsCollisionFree c Seen
    → (s : Shared) (w : IsCalm c Seen s) (block : Block) → IsWorked c Seen block
    → (p : Block) (ph : ℕ) → get s.node.blockchain.blocks block.head.parent ≡ some (p, ph)
    → block.head.difficulty ≡ p.head.difficulty
    → (st : State) → get s.node.block_state (hash c block) ≡ some st
    → w.safe.chain.top + 1 < u32_mod
    → Stored c Seen s w.safe.chain.top block
unfolding grown
write_chain {c} {Seen} free s w block a p ph parent same st own room = record {
  chain' = i.chain';
  returns = i.returns;
  owed = record {
    later = l;
    calm = record { safe = d.safe; sent = IsSent-Later c Seen l s.finished_blocks w.sent };
    top_le = d.top_le;
  };
  stored = ((block, suc ph), i.stored);
}
  where
    over : Loop
    over = record { node = s.node; orphan_blocks = []; new_blocks = []; n = 0; replies = [] }

    no_clash : NoClash c s.node.blockchain block
    no_clash = clash free over w.safe block a p ph parent room

    i : Inserted c s.node.blockchain w.safe.chain.top block ph
    i = insert-IsValid w.safe.chain block p ph parent a.other no_clash room

    d : Connected c Seen over w.safe.chain.top block (record over {
      node = record (s.node) { blockchain = i.chain' };
      new_blocks = hash c block ∷ [];
    })
    d =
        grown-Connected free over w.safe block a p ph parent room i s.node.block_state
          (λ k old h. (old, h)) (st, own) same

    l : Later s (write chain_lock s i.chain')
    l = record {
      blocks = λ k e found. elim (Bool-cases (hash c block == k)) [
        | inl at_k ↦
            let eq = (h256_eq.same_iff (hash c block) k).0 at_k in
            let before : get s.node.blockchain.blocks (hash c block) ≡ some (e.0, e.1) =
              ap (get s.node.blockchain.blocks) eq ∙ found in
            (
              (block, suc ph),
              ap (get i.chain'.blocks) (sym eq) ∙ i.stored,
              sym (no_clash e.0 e.1 before),
              sym (i.again e.0 e.1 before),
            )
        | inr away ↦
            (e, i.others k (λ q. cc ((h256_eq.same_iff (hash c block) k).1 q)) ∙ found, refl, refl)
      ];
      states = λ k old h. (old, h);
    }
