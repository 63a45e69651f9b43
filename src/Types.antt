-- ===== src/Types.antt =====
-- The data types of the client: `src/types`.
pub mod Hash
pub mod Address
pub mod Transaction
pub mod Block
pub mod Crypto
pub mod Merkle
