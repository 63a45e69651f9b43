-- ===== src/Lib.antt =====
-- A Bitcoin client: nodes that keep a chain of blocks with proof of work, check and spread blocks
-- and transactions, mine, and generate payments among three hard-coded key pairs.
--
-- The parts and where they are modelled, by the repository's paths:
-- - Types (src/types): `Types.Hash` is `H256` of hash.rs with its order and its printing,
--   `Types.Address` is address.rs, `Types.Transaction` and `Types.Block` are the data of
--   transaction.rs and block.rs, `Types.Crypto` is what the client takes from the crates `ring`
--   and `bincode` with the `hash`, `sign` and `verify` that call them, `Types.Merkle` is merkle.rs.
-- - `Blockchain` (src/blockchain/mod.rs): `Blockchain` with `new`, `insert` and
--   `all_blocks_in_longest_chain`; `tip()` is the field `tip`.
-- - `Ledger`: `check_tx_state`, which src/network/worker.rs and src/miner/worker.rs have in the same
--   text, and `State::new` and `State::update` of src/types/transaction.rs.
-- - `Node`: what src/main.rs shares among its threads.
-- - `Network` (src/network): `Network.Message` is message.rs; `Network.Worker` is the handler of
--   every message in `worker_loop` of worker.rs, and `Network.Worker.Run` the loop; `Network.Sync`
--   lets the workers of two nodes answer each other; `Network.Server` is `dispatch_control` of
--   server.rs, and `Network.Frame` the framing of the two tasks that `register` starts for a peer;
--   `Network.Peer` is `Handle::write` of peer.rs, with `bincode` on messages as a parameter;
--   `Network.KnownPeers` is the thread of src/main.rs that connects to the known peers.
-- - `Control` and `Miner` (src/miner): the control signals and the rounds of `miner_loop`,
--   `tx_exist_check`, and in `Miner.Worker` the loop of src/miner/worker.rs.
-- - `Generator` (src/generator/tx_generator.rs): the set-up and the rounds of `generator_loop`.
-- - `Api` (src/api/mod.rs): the routes; `Api.Commands` follows a request to start the miner or the
--   generator through `Handle::start` and the channel to the loop.
-- - `Client` (src/main.rs): the threads on one node, as rounds in any order. The workers, the miner,
--   its worker and the generator share the node; the miner's blocks go through a channel.
--   `Client.Start` is what `main` sets up, and `Client.Index` how it takes a key by its address and
--   ends on a bad command line; the parser of socket addresses is a parameter.
-- - `Threads` (src/main.rs and the loops it starts): the same threads lock by lock. A thread is a
--   program that takes one mutex after the other; `Threads.run` lets them take turns in the order of
--   a schedule. `Threads.Worker` has the handlers of src/network/worker.rs, `Threads.Others` the
--   generator, the miner, its worker and the routes; `Threads.Calm` says what a thread relies on the
--   others for and owes them, and `Threads.System` puts all of them together. `Threads.Alone` and
--   `Threads.Serial` compare the programs with the handlers and rounds of the other modules.
-- - `Prelude` has what these share, and models what the program uses of Rust's standard library.
-- - `Tests` has cryptography that can be computed, and runs on it.
--
-- How the program is read:
-- - A function that may panic returns an `Option`: `none` is an `unwrap` of `None`, an index out of
--   bounds or `unimplemented!`. An early `return false` is a value.
-- - Integers are natural numbers. Sums of `u32` and the height of a block wrap around, as they do
--   in a release build; the casts to `u8` and `u32` are written out.
-- - A `HashMap` is an association list with `get`, `insert` and `remove`; where the code iterates
--   over a map, the sequence of entries it sees is an argument.
-- - SHA-256, Ed25519 and the serialization are the fields of a record `Crypto`, a parameter. The
--   hypothesis `IsCrypto` says that a digest has 32 bytes and that the signature of a key pair
--   verifies. No theorem assumes that SHA-256 has no collisions: where one matters, the theorem
--   names the headers at hand as a set without collisions, or gives the collision.
-- - In `Network`, `Miner`, `Generator`, `Api` and `Client` a handler or a round is one step on the
--   node. In `Threads` a step is the use of one mutex: each `lock()` of the source is held for an
--   expression or a block that takes no other, so that a turn is a change of one shared value. The
--   nonce, the time and what a channel gives are arguments.
-- - A loop of the code is recursion on the list or the height it goes through. Some have fuel:
--   `build` of the Merkle tree (the number of leaves: a level is longer than the next), `unorphan`
--   and `unorphan_program` (new hashes and orphans together: a round uses up a hash, and a new hash
--   an orphan), and `read_loop` (the bytes of the stream: a frame has four or more). Theorems of
--   their callers show that the fuel is enough. The loop over the known peers has as many attempts
--   as the outside needs: its fuel is a bound that depends on the answers.
--
-- Not modelled: the crate clap, which takes the command line apart, the logging and the start of
-- the threads (src/main.rs); the sockets and the executor of src/network/server.rs; the HTTP server,
-- the parsing of URLs and the JSON text of src/api/mod.rs; random keys (src/types/key_pair.rs) and
-- random blocks for tests; the code under `cfg(test)`.
pub mod Prelude
pub mod Types
pub mod Blockchain
pub mod Ledger
pub mod Node
pub mod Network
pub mod Control
pub mod Miner
pub mod Generator
pub mod Api
pub mod Client
pub mod Threads
pub mod Tests
