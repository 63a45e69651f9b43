-- ===== src/Api.antt =====
-- The routes of the server of src/api/mod.rs. What the crates `url` and `tiny_http` do is not
-- modelled: the route of the path and the value of the parameter that it reads, as bytes, are
-- arguments, and an answer stands for its JSON text.
pub mod Parse
pub mod Routes
pub mod Commands
use bitcoin_client.Prelude.{
  ℕ, zero, suc, ◌+◌, ◌-◌, ◌*◌, Bool, true, false, List, [], ◌∷◌, ◌++◌, map, reverse, Option, none,
  some, ◌>>=◌, ◌&&◌, ◌=?◌, ltb, leb, if◌then◌else◌, u32_mod,
}
use bitcoin_client.Prelude.HashMap.{HashMap, get}
use bitcoin_client.Types.Hash.{H256, h256_eq}
use bitcoin_client.Types.Hash.Display.{to_string}
use bitcoin_client.Types.Block.{Block}
use bitcoin_client.Types.Transaction.{SignedTransaction, State}
use bitcoin_client.Types.Crypto.{Crypto, hash_signed}
use bitcoin_client.Blockchain.{Blockchain, all_blocks_in_longest_chain}
use bitcoin_client.Node.{Node}
use bitcoin_client.Network.Message.{Message, ping}

abbrev pub u64_mod : ℕ
u64_mod = 18446744073709551616

-- `match url.path()`
pub data Route : Type 0 where
  miner_start : Route
  tx_generator_start : Route
  network_ping : Route
  longest_chain : Route
  longest_chain_tx : Route
  longest_chain_tx_count : Route
  blockchain_state : Route
  other : Route

-- `respond_result` and `respond_json`. The errors' texts are constructors.
pub data Response : Type 0 where
  ok : Response  -- "ok"
  ok_started : Response  -- "ok!"
  missing : Response
  parse_error : Response
  unimplemented : Response
  not_found : Response
  hashes : List (List ℕ) → Response
  hash_lists : List (List (List ℕ)) → Response
  entries : State → Response

-- What a request makes the other parts do.
pub data Command : Type 0 where
  idle : Command
  start_miner : ℕ → Command
  start_generator : ℕ → Command
  broadcast : Message → Command

-- The digits of `parse`, with its checks for overflow.
unfoldable pub parse_digits : ℕ → ℕ → List ℕ → Option ℕ
parse_digits limit acc [] = some acc
parse_digits limit acc (b ∷ bs) =
    let rest = parse_digits limit (acc * 10 + (b - 48)) bs in
    if leb 48 b && leb b 57 && ltb (acc * 10 + (b - 48)) limit then rest else none

unfoldable pub parse_unsigned : ℕ → List ℕ → Option ℕ
unfolding parse_digits
parse_unsigned limit [] = none
parse_unsigned limit (b ∷ bs) = parse_digits limit 0 (b ∷ bs)

-- `str::parse` for an unsigned integer type: one `+` may stand in front of the digits.
unfoldable pub parse_uint : ℕ → List ℕ → Option ℕ
unfolding parse_unsigned
parse_uint limit [] = none
parse_uint limit (b ∷ bs) =
    if b =? 43 then parse_unsigned limit bs else parse_unsigned limit (b ∷ bs)

-- `match ..parse()`
unfoldable pub on_parsed :
    Option ℕ → (ℕ → Option (Response × Command)) → Option (Response × Command)
on_parsed none next = some (parse_error, idle)
on_parsed (some n) next = next n

-- `match params.get(..)`
unfoldable pub with_param :
    ℕ → Option (List ℕ) → (ℕ → Option (Response × Command)) → Option (Response × Command)
unfolding on_parsed
with_param limit none next = some (missing, idle)
with_param limit (some bytes) next = on_parsed (parse_uint limit bytes) next

-- The `while` loop of "/blockchain/state".
unfoldable pub state_loop : HashMap H256 (Block × ℕ) → ℕ → ℕ → H256 → Block → Option H256
state_loop blocks block_index zero next_hash block = some next_hash
state_loop blocks block_index (suc height) next_hash block =
    if ltb block_index (suc height)
    then (get blocks block.head.parent >>= λ entry.
        state_loop blocks block_index height block.head.parent entry.0)
    else some next_hash

-- The state that "/blockchain/state" prints.
unfoldable pub state_at : Node → ℕ → Option State
unfolding state_loop
state_at node block_index = get node.blockchain.blocks node.blockchain.tip >>= λ entry.
    state_loop node.blockchain.blocks block_index entry.1 node.blockchain.tip entry.0
    >>= λ next_hash. get node.block_state next_hash

module _ (c : Crypto) where
  -- `block.cont.st.into_iter().map(|t| t.hash().to_string()).collect()`
  unfoldable pub listing : Block → List (List ℕ)
  listing block = map (λ (t : SignedTransaction). to_string (hash_signed c t)) block.cont.st

  -- The `while` loop of "/blockchain/longest-chain-tx".
  unfoldable pub tx_loop :
      HashMap H256 (Block × ℕ) → ℕ → H256 → List (List (List ℕ)) → Option (List (List (List ℕ)))
  unfolding listing
  tx_loop blocks zero next_hash hashes_string = some hashes_string
  tx_loop blocks (suc height) next_hash hashes_string = get blocks next_hash >>= λ entry.
      tx_loop blocks height entry.0.head.parent (hashes_string ++ listing entry.0 ∷ [])

  unfoldable pub chain_txs : Blockchain → Option (List (List (List ℕ)))
  unfolding tx_loop
  chain_txs chain = get chain.blocks chain.tip >>= λ entry.
      tx_loop chain.blocks entry.1 entry.0.head.parent (listing entry.0 ∷ []) >>= λ hashes_string.
      some (reverse hashes_string)

  -- The `match` on the path: the answer, and what it makes the other parts do.
  unfoldable pub respond : Node → Route → Option (List ℕ) → Option (Response × Command)
  unfolding with_param
  respond node miner_start param =
      with_param u64_mod param (λ lambda. some (ok, start_miner lambda))
  respond node tx_generator_start param =
      with_param u64_mod param (λ theta. some (ok_started, start_generator theta))
  respond node network_ping param = some (ok, broadcast (ping "Test ping"))
  respond node longest_chain param =
      all_blocks_in_longest_chain node.blockchain >>= λ v. some (hashes (map to_string v), idle)
  respond node longest_chain_tx param =
      chain_txs node.blockchain >>= λ lists. some (hash_lists lists, idle)
  respond node longest_chain_tx_count param = some (unimplemented, idle)
  respond node blockchain_state param =
      with_param u32_mod param
        (λ block_index. state_at node block_index >>= λ state. some (entries state, idle))
  respond node other param = some (not_found, idle)
