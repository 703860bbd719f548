-- ===== src/P2p.antt =====
-- The peer-to-peer crate (crates/eth2077-p2p).
pub mod Codec
pub mod Gossip
pub mod Peers
pub mod Sync
pub mod Node
