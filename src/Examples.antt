-- ===== src/Examples.antt =====
-- The properties of the library at concrete inputs.
mod Voting
mod Engine
mod Pool
mod Chain
mod Inputs
mod Network
mod Traffic
mod Payloads
mod Bridge
mod Backend
