-- ===== src/Tests.antt =====
-- Runs of the model on concrete inputs.
pub mod Toy
pub mod Chain
pub mod Node
pub mod Ledger
pub mod Types
pub mod Traffic
pub mod Client
pub mod Commands
pub mod Threads
pub mod Peers
pub mod Lost
pub mod Sync
