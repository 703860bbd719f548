-- ===== src/Consensus.antt =====
-- The out-of-band consensus crate (crates/eth2077-oob-consensus).
pub mod Validator
pub mod FastPath
pub mod RoundState
pub mod Engine
pub mod Backend
