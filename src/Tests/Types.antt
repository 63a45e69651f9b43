-- ===== src/Tests/Types.antt =====
-- Hashes, Merkle trees, frames and parameters.
use bitcoin_client.Prelude.{
  nat_eq, ℕ, Option, ◌≢◌, ◌*◌, ◌/◌, ◌<◌, ◌≡◌, ◌≢◌, ◌↔◌, ◌⊎◌, refl, eq_refl, List, [], ◌∷◌, ◌++◌,
  some, All, length, leb, if◌then◌else◌, compare, arith,
}
use bitcoin_client.Prelude.Bytes.{u32_to_be_bytes}
use bitcoin_client.Types.Hash.{H256, h256_eq, IsH256, cmp, zeros}
use bitcoin_client.Types.Hash.Order.{value, cmp-eq-compare}
use bitcoin_client.Types.Hash.Display.{display, length-display, to_string-injective}
use bitcoin_client.Types.Crypto.{hash_h256, digest-IsH256}
use bitcoin_client.Types.Merkle
use bitcoin_client.Types.Merkle.{MerkleTree, combine}
use bitcoin_client.Types.Merkle.Proof.{Verifies, verify-proof}
use bitcoin_client.Types.Merkle.Binding.{Collision, folded, verify_binding}
use bitcoin_client.Blockchain.{genesis_difficulty}
use bitcoin_client.Network.Frame.{frame, write_all, receive}
use bitcoin_client.Network.Frame.Stream.{receive-write_all}
use bitcoin_client.Api.{u64_mod, ok, start_miner, miner_start, respond}
use bitcoin_client.Node.{initial}
use bitcoin_client.Api.Parse.{unsigned, IsDigit, decimal, miner_start_iff}
use bitcoin_client.Prelude.HashMap.{contains_key}
use bitcoin_client.Network.Message.{ping}
use bitcoin_client.Network.Server.{
  Handle, Dispatched, connect_new_peer, get_new_peer, broadcast_message, dropped_peer,
  dispatch_control,
}
use bitcoin_client.Network.Server.Peers.{connected, dispatch_control-connected}
use bitcoin_client.Tests.Toy.{toy, toy-IsCrypto, owner}

zeros-IsH256 : IsH256 zeros
zeros-IsH256 = record { size = refl; all_bytes = omega arith }

difficulty-IsH256 : IsH256 genesis_difficulty
difficulty-IsH256 = record { size = refl; all_bytes = omega arith }

cmp-eq-compare_example :
    cmp zeros genesis_difficulty ≡ compare (value zeros) (value genesis_difficulty)
cmp-eq-compare_example = cmp-eq-compare zeros genesis_difficulty zeros-IsH256 difficulty-IsH256

length-display_example :
    length (display (some 10) genesis_difficulty) ≡ (if leb 64 10 then 64 else 2 * (10 / 2))
length-display_example = length-display 10 genesis_difficulty difficulty-IsH256

to_string-injective_example : genesis_difficulty ≡ genesis_difficulty
to_string-injective_example =
    to_string-injective genesis_difficulty genesis_difficulty difficulty-IsH256 difficulty-IsH256
      refl

abbrev leaves : List H256
leaves = zeros ∷ genesis_difficulty ∷ zeros ∷ []

verify-proof_example : Verifies toy (hash_h256 toy) leaves 2 zeros
verify-proof_example = verify-proof toy (hash_h256 toy) leaves 2 refl

abbrev left : H256
left = hash_h256 toy zeros

abbrev right : H256
right = hash_h256 toy genesis_difficulty

abbrev two_leaves : MerkleTree
two_leaves = record { tree_list = (left ∷ right ∷ []) ∷ (combine toy left right ∷ []) ∷ [] }

verify_binding_example :
    (left ≡ hash_h256 toy zeros)
    ⊎ ((q : List H256) × (Merkle.proof two_leaves 0 ≡ some q)
        × Collision toy (folded toy left 0 (right ∷ [])) (folded toy left 0 q))
unfolding Merkle.new Merkle.root Merkle.verify Merkle.fold_proof Merkle.next_level combine hash_h256
verify_binding_example =
    verify_binding toy (hash_h256 toy) (zeros ∷ genesis_difficulty ∷ []) 0 {t = two_leaves} left
      (right ∷ []) toy-IsCrypto (λ h. digest-IsH256 toy toy-IsCrypto h.bytes) refl refl refl
      (digest-IsH256 toy toy-IsCrypto zeros.bytes)
      (digest-IsH256 toy toy-IsCrypto genesis_difficulty.bytes, tt) refl
      (eq_refl (combine toy left right))

receive-write_all_example :
    receive (write_all ((1 ∷ 2 ∷ 3 ∷ []) ∷ (7 ∷ []) ∷ []) ++ 0 ∷ 0 ∷ 0 ∷ 2 ∷ 9 ∷ [])
    ≡ (1 ∷ 2 ∷ 3 ∷ []) ∷ (7 ∷ []) ∷ []
unfolding frame u32_to_be_bytes
receive-write_all_example =
    receive-write_all ((1 ∷ 2 ∷ 3 ∷ []) ∷ (7 ∷ []) ∷ []) (9 ∷ 9 ∷ []) (0 ∷ 0 ∷ 0 ∷ 2 ∷ 9 ∷ [])
      (9 ∷ []) (omega arith, (omega arith, tt)) (omega arith) refl (omega arith)

-- "+12"
miner_start_iff_example :
    (respond toy (initial toy owner) miner_start (some (43 ∷ 49 ∷ 50 ∷ []))
      ≡ some (ok, start_miner 12))
    ↔ ((bs : List ℕ) × (◌≡◌ {A = Option (List ℕ)} (some (43 ∷ 49 ∷ 50 ∷ [])) (some bs))
        × (unsigned bs ≢ [])
        × All IsDigit (unsigned bs)
        × (decimal 0 (unsigned bs) ≡ 12)
        × (12 < u64_mod))
miner_start_iff_example = miner_start_iff toy (initial toy owner) (some (43 ∷ 49 ∷ 50 ∷ [])) 12

-- Two peers connect, there is a broadcast, and the first one is dropped.
dispatch_control-connected_example :
    (d : Dispatched ℕ) × (dispatch_control [] (
        connect_new_peer 7 (some 7)
        ∷ get_new_peer (some 8)
        ∷ broadcast_message (ping "hello")
        ∷ dropped_peer 7
        ∷ [])
      ≡ some d)
    × (contains_key d.peers 8
        ≡ connected {Addr = ℕ} 8 (contains_key {K = ℕ} {V = Handle ℕ} [] 8) (
            connect_new_peer 7 (some 7)
            ∷ get_new_peer (some 8)
            ∷ broadcast_message (ping "hello")
            ∷ dropped_peer 7
            ∷ []))
dispatch_control-connected_example =
    dispatch_control-connected
      (connect_new_peer 7 (some 7)
        ∷ get_new_peer (some 8)
        ∷ broadcast_message (ping "hello")
        ∷ dropped_peer 7
        ∷ [])
      [] 8 (tt, (tt, (tt, (tt, tt))))
