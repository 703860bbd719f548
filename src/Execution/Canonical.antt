-- ===== src/Execution/Canonical.antt =====
-- crates/eth2077-types/src/canonical.rs: blocks, transactions and receipts. Hashes, addresses and
-- 256-bit words are numbers, a bloom filter is the number that its 256 bytes spell, and `Bytes` is
-- a list. The RLP encoding of a header and `keccak256` are parameters.
use eth.Prelude.{ℕ, Bool, Option, List}

pub record Header : Type 0 where
  pub parent_hash : ℕ
  pub ommers_hash : ℕ
  pub beneficiary : ℕ
  pub state_root : ℕ
  pub transactions_root : ℕ
  pub receipts_root : ℕ
  pub logs_bloom : ℕ
  pub difficulty : ℕ
  pub number : ℕ
  pub gas_limit : ℕ
  pub gas_used : ℕ
  pub timestamp : ℕ
  pub extra_data : List ℕ
  pub mix_hash : ℕ
  pub nonce : ℕ
  pub base_fee_per_gas : Option ℕ
  pub blob_gas_used : Option ℕ
  pub excess_blob_gas : Option ℕ
  pub parent_beacon_block_root : Option ℕ

pub record Transaction : Type 0 where
  pub hash : ℕ
  pub nonce : ℕ
  pub from : ℕ
  pub to : Option ℕ
  pub value : ℕ
  pub gas_limit : ℕ
  pub max_fee_per_gas : ℕ
  pub max_priority_fee_per_gas : ℕ
  pub input : List ℕ
  pub chain_id : ℕ
  pub signature_r : ℕ
  pub signature_s : ℕ
  pub signature_v : ℕ

pub record Block : Type 0 where
  pub header : Header
  pub transactions : List Transaction
  pub ommers : List Header

pub record Log : Type 0 where
  pub address : ℕ
  pub topics : List ℕ
  pub «data» : List ℕ

pub record Receipt : Type 0 where
  pub tx_hash : ℕ
  pub status : Bool
  pub cumulative_gas_used : ℕ
  pub logs_bloom : ℕ
  pub logs : List Log

-- `alloy_primitives` and `alloy_rlp`: Keccak-256, a header's RLP, the filter of a list of logs, and
-- the union of two filters.
pub record Alloy : Type 0 where
  pub keccak256 : List ℕ → ℕ
  pub encode : Header → List ℕ
  pub logs_bloom : List Log → ℕ
  pub accrue_bloom : ℕ → ℕ → ℕ

abbrev pub header_hash : Alloy → Header → ℕ
header_hash alloy h = alloy.keccak256 (alloy.encode h)

abbrev pub block_hash : Alloy → Block → ℕ
block_hash alloy b = header_hash alloy b.header
