-- ===== src/Execution.antt =====
-- crates/eth2077-execution: the transaction pool and the execution of blocks.
pub mod Mempool
pub mod Canonical
pub mod State
pub mod Executor
pub mod Roots
pub mod Blocks
pub mod StateAccess
pub mod Rollup
pub mod Authorization
pub mod AccessList
pub mod Custody
pub mod Lanes
