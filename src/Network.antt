-- ===== src/Network.antt =====
-- `src/network`: messages, the worker that handles them, the server of peers and its frames.
pub mod Message
pub mod Worker
pub mod Frame
pub mod Server
pub mod KnownPeers
pub mod Sync
pub mod Peer
