-- ===== src/Lib.antt =====
-- A model of the core of ETH2077: the consensus engine of a height, the execution of blocks, the
-- protocols between peers, the engine lane of the development node, and the conversion of blocks to
-- payloads.
--
-- Parts, files and sources (the crates are under crates/):
-- * Consensus.Validator models eth2077-oob-consensus/src/validator.rs: `ValidatorSet` with its
--   quorum weight and leader rotation.
-- * Consensus.FastPath models fast_path.rs there (with the records of types.rs): the accumulator
--   of a round's attestations. `add_attestation` is split where the code returns early: `add_started`
--   behind the conflict flag, `push_new` for a new attester, `settle` for the thresholds.
-- * Consensus.RoundState and Consensus.Engine model consensus.rs there: the votes, the tallies, the
--   lock, and `on_message` and `on_timeout` of `ConsensusEngine`. A method that takes `&mut self`
--   returns the new engine with its events. The engine calls the validator set for weights and
--   leaders and the fast path for each stored prevote.
-- * Execution.Mempool models eth2077-execution/src/ingress.rs: admission, eviction, draining.
-- * Execution.Canonical, State, Executor, Roots and Blocks model canonical.rs of eth2077-types and
--   state.rs, executor.rs, block_builder.rs and block_validator.rs of eth2077-execution: the
--   builder executes the pending transactions and seals a block; the validator executes it again
--   and compares.
-- * Execution.Custody and Lanes model eip8070.rs and eip8142.rs of eth2077-execution: the cells that
--   a node keeps, and the assignment of transactions to lanes.
-- * Execution.StateAccess, Rollup, Authorization and AccessList model eip7864.rs, eip8079.rs,
--   eip7702.rs and eip7928.rs of eth2077-execution: the checks of state access requests, of the
--   inputs of the EXECUTE precompile, of authorization lists and of block access lists, which are
--   also merged.
-- * P2p.Codec, Gossip, Peers and Sync model codec.rs, gossip.rs, peer.rs and sync_protocol.rs of
--   eth2077-p2p. The sync engine makes the codec's `GetBlocks` messages, the gossip engine its
--   `NewBlock` and `NewTransaction`.
-- * P2p.Node models node.rs there. `Node.Dispatch` is the body of `spawn_dispatch_loop`, one function
--   for each arm, `Node.Connection` the loop of `spawn_connection_task`; a task is a function of the
--   messages that it receives, and what it writes to channels is a list of effects. The node calls
--   the gossip engine, the peer table and the sync engine.
-- * Devnet models the engine lane of eth2077-node/src/bin/eth2077-devnetd.rs: `Devnet.Payloads` the
--   registration of headers and envelopes, `Devnet.Timeliness` the status of a slot, its penalty and
--   the windows of slots, `Devnet.InclusionList` the inclusion list with its frozen view,
--   `Devnet.NewPayload` the checks of a payload, and `Devnet.Calls` any sequence of these calls. A
--   call takes the fields that its JSON request was read to; a response is a value of a data type.
-- * Consensus.Backend models mock.rs of eth2077-oob-consensus: commitments, polls and what they
--   finalize; calls from several threads are one sequence, in the order in which they take the lock.
-- * Bridge models eth2077-bridge: `Bridge.Hex` and `Bridge.Payload` are payload_converter.rs, the
--   texts of bytes and numbers and the conversion of a block to an execution payload and back;
--   `Bridge.Forkchoice` is forkchoice.rs. A string is the list of its code points; `trim`, UTF-8,
--   `{:x}` and `from_str_radix` of std are written out.
-- * Prelude holds the shared tests, lists, machine words, maps, sorting and membership.
-- * Examples applies the properties at concrete inputs.
--
-- Conventions: a hash, an address or a 256-bit word is the number that its bytes spell, and in the
-- bridge, which reads and writes them as texts, the list of its bytes. A `u64` or `u32` is a natural
-- number and its saturating operations are written out; `u64_max` and `u32_max` are their bounds. A
-- hash map is an association list; where the code iterates one, the order of the visit is a
-- parameter; only the list of orphan envelopes of a slot stands in the order of the association
-- list, and of it nothing but its emptiness is read.
--
-- Every loop is a structural recursion on the list that it consumes; only `hex_digits` takes fuel, for
-- which 16 digits of a `u64` and 32 of a `u128` are enough. The eviction loops of the gossip engine
-- and of the relay cache can spin on a malformed memory, which their model returns as `none`.
--
-- Parameters: revm (`Revm`), the nonces and balances of the development node's database, Keccak,
-- RLP and bloom filters (`Alloy`), SHA-256, and `serde_json` (`Json`, which reads what it wrote,
-- `ReadsBack`; `Serde` in the node).
--
-- Not modelled: sockets, the accept and dial tasks of node.rs and transport.rs; the RPC servers of
-- eth2077-bridge, whose engine service answers with constants; the hash commitments and the
-- floating-point statistics of eth2077-execution, and of it eip8007.rs, blob_sidecar.rs and
-- genesis.rs; the protocol studies of eth2077-types, which no block passes through; benchmarks; and
-- the rest of the development node (its JSON readers, accounts, market and queries).
pub mod Prelude
pub mod Bridge
pub mod Consensus
pub mod Execution
pub mod P2p
pub mod Devnet
pub mod Examples
