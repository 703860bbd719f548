-- ===== src/Devnet.antt =====
-- The engine lane of the development node, eth2077-devnetd.rs: payload headers and envelopes with
-- their timeliness (EIP-7732), and frozen inclusion lists (EIP-7805).
pub mod Payloads
pub mod Timeliness
pub mod InclusionList
pub mod NewPayload
pub mod Calls
