-- ===== src/Client/Run.antt =====
-- Every run of the threads on one node, whatever the order of their rounds.
use bitcoin_client.Prelude.{
  ℕ, ◌+◌, ◌≤◌, ◌<◌, ◌≡◌, ◌≢◌, refl, sym, ap, ◌∙◌, List, [], ◌∷◌, ◌++◌, Option, none, some, ◌>>=◌,
  length, length-append, All, All-append, All-imp, u32_mod, arith,
}
use mathlib.Core.Path.{subst}
use bitcoin_client.Prelude.HashMap.{get}
use bitcoin_client.Types.Hash.{H256, h256_eq}
use bitcoin_client.Types.Block.{Header, Block}
use bitcoin_client.Types.Address.{Address}
use bitcoin_client.Types.Transaction.{SignedTransaction, State}
use bitcoin_client.Types.Crypto.{Crypto}
use bitcoin_client.Blockchain.{Blockchain}
use bitcoin_client.Node.{Node}
use bitcoin_client.Network.Message.{Message}
use bitcoin_client.Network.Worker.Safe.{IsCollisionFree, IsStored}
use bitcoin_client.Network.Worker.Run.{carried}
use bitcoin_client.Control.{Received, disconnected}
use bitcoin_client.Miner.Worker.{on_finished-IsSafe}
use bitcoin_client.Client.{
  Client, Event, message, mining, finished, generating, set, sent, take_finished, step, steps,
}
use bitcoin_client.Client.Safe.{IsQueued, handle-Received, same_chain-IsSafe}
use bitcoin_client.Client.Rounds.{mining_total, generating_total}
use bitcoin_client.Client.Invariant.{
  IsClient, held, brought, IsAdmitted, AreAdmitted, all_brought, Stepped, All-set, All-get,
  count-set, get-set, AreCaughtUp,
}

module _ {c : Crypto} {Seen : Header → Type 0} (free : IsCollisionFree c Seen) (client : Client)
    (w : IsClient c Seen client) where
  -- The queue of the miner on a node that has at least the blocks of the client's.
  IsQueued-later :
      (node : Node) (queue : List Block)
      → ((k : H256) → IsStored client.node.blockchain.blocks k → IsStored node.blockchain.blocks k)
      → All (IsQueued c Seen client.node) queue
      → All (IsQueued c Seen node) queue
  IsQueued-later node queue kept =
      All-imp
        (λ b q. record {
          mined_on = q.mined_on;
          used = q.used;
          mined = q.mined;
          seen = q.seen;
          other = q.other;
          parent = kept b.head.parent q.parent;
        })
        queue

  message_total :
      (i : ℕ) (m : Message)
      → IsAdmitted c Seen client (message i m)
      → w.safe.chain.top + held client + length (carried m) < u32_mod
      → Stepped c Seen client (message i m) (w.safe.chain.top + held client + length (carried m))
  unfolding step
  message_total i m ((b, at_i), seen) room =
      let split = count-set client.buffers i [] at_i in
      let r =
        handle-Received free client.node b m w.safe
          (All-get _ client.buffers i w.buffers_worked at_i) seen (omega (arith, split)) in
      record {
        next = record client {
          node = r.outcome.node;
          buffers = set client.buffers i r.outcome.orphan_blocks;
        };
        returns = rw (at_i, ◌>>=◌, r.returns, ◌>>=◌);
        valid = record {
          safe = r.safe;
          buffers_worked =
              All-set _ client.buffers i r.outcome.orphan_blocks w.buffers_worked r.worked;
          batch = w.batch;
          queued = IsQueued-later r.outcome.node client.finished_blocks r.kept w.queued;
        };
        caught_up = λ b' h.
            subst
              (All (λ o.
                IsStored r.outcome.node.blockchain.blocks o.head.parent
                → IsStored client.node.blockchain.blocks o.head.parent))
              (get-set client.buffers i r.outcome.orphan_blocks h) r.caught_up;
        height_le =
            omega
              (arith, r.height_le, split, count-set client.buffers i r.outcome.orphan_blocks at_i);
      }

  finished_total :
      (queue : List Block)
      → client.finished_blocks ≡ queue
      → w.safe.chain.top + held client < u32_mod
      → (next : Client) × (take_finished c client queue ≡ some next)
        × (v : IsClient c Seen next) × (v.safe.chain.top + held next
            ≤ w.safe.chain.top + held client)
  unfolding take_finished
  finished_total [] e room = (client, refl, w, omega arith)
  finished_total (block ∷ rest) e room =
      let (q, queue) : IsQueued c Seen client.node block × All (IsQueued c Seen client.node) rest =
        rw e at w.queued in
      let size : length client.finished_blocks ≡ length rest + 1 =
        ap (length {A = Block}) e ∙ omega arith in
      let t =
        on_finished-IsSafe free client.node w.safe q.used q.mined_on block q.mined q.seen q.other
          q.parent (omega (arith, size)) in
      (
        record client { node = t.node'; finished_blocks = rest },
        rw (t.returns, ◌>>=◌),
        record {
          safe = t.safe;
          buffers_worked = w.buffers_worked;
          batch = w.batch;
          queued = IsQueued-later t.node' rest t.kept queue;
        },
        omega (arith, size, t.top_le),
      )

  mining_step :
      (received : Received) (entries : List (H256 × SignedTransaction)) (nonce time : ℕ)
      → IsAdmitted c Seen client (mining received entries nonce time)
      → Stepped c Seen client
          (mining received entries nonce time)
          (w.safe.chain.top + held client + 1)
  unfolding step
  mining_step received entries nonce time (n, keyed, seen) =
      let (r, run, m) =
        mining_total c client.node entries nonce time received client.miner n keyed w.batch in
      let (safe, top) = same_chain-IsSafe m.chain m.states w.safe in
      let kept : (k : H256)
          → IsStored client.node.blockchain.blocks k
          → IsStored r.node.blockchain.blocks k =
        λ k h. subst (λ (b : Blockchain). IsStored b.blocks k) (sym m.chain) h in
      let (queue, size) = sent_queued r.node r.finished (λ block h.
        let (used, made) = m.mined block h in
        let (s, o) = seen r block run h in
        record {
          mined_on = client.node;
          used = used;
          mined = made;
          seen = s;
          other = o;
          parent = kept block.head.parent (
            (w.safe.chain.tip_block, w.safe.chain.top),
            ap (get client.node.blockchain.blocks) made.parent ∙ w.safe.chain.tip_stored,
          );
        }) in
      record {
        next = record client {
          node = r.node;
          miner = r.miner;
          finished_blocks = client.finished_blocks ++ sent r.finished;
        };
        returns = rw (run, ◌>>=◌);
        valid = record {
          safe = safe;
          buffers_worked = w.buffers_worked;
          batch = m.batch;
          queued =
              All-append _ client.finished_blocks (sent r.finished)
                (IsQueued-later r.node client.finished_blocks kept w.queued) queue;
        };
        caught_up = tt;
        height_le =
            omega (arith, top, size, length-append client.finished_blocks (sent r.finished));
      }
    where
      sent_queued :
          (node : Node) (f : Option Block)
          → ((block : Block) → f ≡ some block → IsQueued c Seen node block)
          → All (IsQueued c Seen node) (sent f) × (length (sent f) ≤ 1)
      sent_queued node none q = (tt, omega arith)
      sent_queued node (some block) q = ((q block refl, tt), omega arith)

  generating_step :
      (received : Received) (order : State → List ((H256 × ℕ) × (ℕ × Address)))
      → received ≢ disconnected
      → Stepped c Seen client (generating received order) (w.safe.chain.top + held client)
  unfolding step
  generating_step received order n =
      let (r, run, k) = generating_total client.node w.safe order received client.gene n in
      let (safe, top) = same_chain-IsSafe k.chain k.states w.safe in
      record {
        next = record client { node = r.node; gene = r.gene };
        returns = rw (run, ◌>>=◌);
        valid = record {
          safe = safe;
          buffers_worked = w.buffers_worked;
          batch = w.batch;
          queued =
              IsQueued-later r.node client.finished_blocks
                (λ h. subst (λ (b : Blockchain). IsStored b.blocks h) (sym k.chain)) w.queued;
        };
        caught_up = tt;
        height_le = omega (arith, top);
      }

  step_total :
      (e : Event)
      → IsAdmitted c Seen client e
      → w.safe.chain.top + held client + brought e < u32_mod
      → Stepped c Seen client e (w.safe.chain.top + held client + brought e)
  unfolding step
  step_total (message i m) a room = message_total i m a room
  step_total (mining received entries nonce time) a room = mining_step received entries nonce time a
  step_total finished a room =
      let (next, run, v, le) = finished_total client.finished_blocks refl (omega (arith, room)) in
      record {
        next = next;
        returns = run;
        valid = v;
        caught_up = tt;
        height_le = omega (arith, le);
      }
  step_total (generating received order) a room =
      let s = generating_step received order a in
      record {
        next = s.next;
        returns = s.returns;
        valid = s.valid;
        caught_up = tt;
        height_le = omega (arith, s.height_le);
      }

-- Whatever the order in which the network's workers, the miner, the miner's worker and the
-- generator have their rounds on one node: no round panics, the client stays in order, so its node
-- stays safe, and after each round of a network's worker no orphan is left in its buffer whose
-- parent that round has stored. The worker of a message exists, no control channel
-- loses its sender, the mempool is iterated with each transaction under its hash, the headers that
-- arrive or are mined are of a set without collisions and not the genesis block's if mined, and the
-- height, the blocks held and those brought are together below 2 ^ 32.
pub steps-IsClient :
    {c : Crypto} {Seen : Header → Type 0}
    → IsCollisionFree c Seen
    → (events : List Event) (client : Client) (w : IsClient c Seen client)
    → AreAdmitted c Seen client events
    → w.safe.chain.top + held client + all_brought events < u32_mod
    → (next : Client) × (steps c client events ≡ some next)
      × IsClient c Seen next
      × AreCaughtUp c client events
unfolding steps
steps-IsClient free [] client w a room = (client, refl, w, tt)
steps-IsClient free (e ∷ events) client w a room =
    let s = step_total free client w e a.0 (omega (arith, room)) in
    let (next, run, valid, caught_up) =
      steps-IsClient free events s.next s.valid (a.1 s.next s.returns)
        (omega (arith, room, s.height_le)) in
    (next, rw (s.returns, ◌>>=◌) run, valid, (s.next, s.returns, s.caught_up, caught_up))
