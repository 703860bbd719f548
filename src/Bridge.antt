-- ===== src/Bridge.antt =====
-- crates/eth2077-bridge/src: the side of the node that speaks the engine API.
pub mod Hex
pub mod Payload
pub mod Forkchoice
