-- ===== src/Tests/Client.antt =====
-- A run of the threads: a block that a worker of the network keeps as an orphan, while the miner's
-- worker stores its parent.
use bitcoin_client.Prelude.{
  ◌≡◌, ◌≤◌, refl, List, [], ◌∷◌, some, inl, inr, arith, ◌>>=◌, some-injective, ap, ◌∙◌,
}
use mathlib.Core.Path.{subst}
use bitcoin_client.Prelude.HashMap.{insert, get-insert_nil}
use bitcoin_client.Types.Hash.{h256_eq}
use bitcoin_client.Types.Transaction.{State}
use bitcoin_client.Ledger.{new_state}
use bitcoin_client.Ledger.Conserve.{total}
use bitcoin_client.Client.Supply.{IsFundedClient, steps-IsFundedClient}
use bitcoin_client.Types.Block.{Block}
use bitcoin_client.Blockchain.{genesis, genesis_hash}
use bitcoin_client.Node.{Node, initial}
use bitcoin_client.Network.Message.{blocks}
use bitcoin_client.Network.Worker.Safe.{IsSafe, initial-IsSafe}
use bitcoin_client.Control.{OperatingState, paused, run, shut_down, signal, exit, start, control}
use bitcoin_client.Miner
use bitcoin_client.Miner.{Miner, new_miner}
use bitcoin_client.Miner.Mining.{IsBatch}
use bitcoin_client.Client.{Client, Event, message, mining, finished, generating, steps}
use bitcoin_client.Client.Invariant.{IsClient, AreAdmitted, AreCaughtUp}
use bitcoin_client.Client.Run.{steps-IsClient}
use bitcoin_client.Tests.Toy.{toy, owner}
use bitcoin_client.Tests.Chain.{block_1, block_2, IsSeen, seen_free, block_1_other}
use bitcoin_client.Tests.Traffic.{first_gene, batch, block_1-IsMined}

abbrev pub start_node : Node
start_node = initial toy owner

pub start_safe : (w : IsSafe toy IsSeen start_node) × (w.chain.top ≡ 0)
start_safe = initial-IsSafe toy IsSeen owner (inl refl)

abbrev pub start_client : Client
start_client = record {
  node = start_node;
  buffers = [] ∷ [] ∷ [];
  miner = new_miner;
  finished_blocks = block_1 ∷ [];
  gene = first_gene;
}

pub new_batch : IsBatch toy new_miner
unfolding new_miner
new_batch = record { hashes = refl; bounded = omega arith }

abbrev pub start_valid : IsClient toy IsSeen start_client
start_valid = record {
  safe = start_safe.0;
  buffers_worked = (tt, (tt, tt));
  batch = new_batch;
  queued = (
    record {
      mined_on = start_node;
      used = batch;
      mined = block_1-IsMined;
      seen = inr (inl refl);
      other = block_1_other;
      parent = ((genesis, 0), start_safe.0.chain.genesis_stored);
    },
    tt,
  );
}

-- A miner that is told to exit sends nothing.
exit_sends_none :
    (node : Node) (m : Miner) (state : OperatingState) (r : Miner.Round) (block : Block)
    → (control state (signal exit) >>= λ next.
        Miner.take_turn toy next.1 node [] 0 0 (record m { operating_state = next.0 }))
      ≡ some r
    → ¬ (r.finished ≡ some block)
unfolding control Miner.take_turn
exit_sends_none node m paused r block h q =
    absurd (cc (ap (λ (x : Miner.Round). x.finished) (some-injective h) ∙ q))
exit_sends_none node m (run i) r block h q =
    absurd (cc (ap (λ (x : Miner.Round). x.finished) (some-injective h) ∙ q))
exit_sends_none node m shut_down r block h q =
    absurd (cc (ap (λ (x : Miner.Round). x.finished) (some-injective h) ∙ q))

abbrev events : List Event
events =
    message 1 (blocks (block_2 ∷ []))
    ∷ mining (signal exit) [] 0 0
    ∷ finished
    ∷ generating (signal (start 3)) (λ s. [])
    ∷ finished
    ∷ []

admitted : AreAdmitted toy IsSeen start_client events
unfolding Miner.round
admitted = (
  (([], refl), (inr (inr (inl refl)), tt)),
  λ next e. (
    (
      λ q. cc q,
      tt,
      λ r block h q.
          absurd (exit_sends_none next.node next.miner next.miner.operating_state r block h q),
    ),
    λ next1 e1. (tt, λ next2 e2. (λ q. cc q, λ next3 e3. (tt, λ next4 e4. tt))),
  ),
)

steps-IsClient_example :
    (next : Client) × (steps toy start_client events ≡ some next)
    × IsClient toy IsSeen next
    × AreCaughtUp toy start_client events
steps-IsClient_example =
    steps-IsClient seen_free events start_client start_valid admitted (omega (arith, start_safe.1))

-- The coins of the initial offering.
offered : (st : State) → new_state toy owner ≡ st → total st.states ≤ 100
unfolding new_state total insert
offered st e = subst (λ (x : State). total x.states ≤ 100) e (omega arith)

start_funded : IsFundedClient 100 start_client
unfolding initial new_miner
start_funded = record {
  bounded = λ k st h. offered st (get-insert_nil (genesis_hash toy) (new_state toy owner) k h).1;
  buffers = (tt, (tt, tt));
  batch = tt;
  queue = (((((tt, tt), omega arith)), tt), tt);
}

steps-IsFundedClient_example :
    (next : Client) × (steps toy start_client events ≡ some next) × IsFundedClient 100 next
steps-IsFundedClient_example =
    steps-IsFundedClient seen_free 100 events start_client start_valid admitted
      (omega (arith, start_safe.1)) start_funded ((tt, tt), (tt, (tt, (tt, (tt, tt)))))
