-- ===== src/Execution/Blocks.antt =====
-- crates/eth2077-execution/src/block_builder.rs and block_validator.rs: blocks built from pending
-- transactions, and checked by executing them again.
pub mod Agreement
pub mod Extension
pub mod Failures
pub mod Loop
use eth.Prelude.{
  ℕ, ◌+◌, Bool, true, false, not, ◌==◌, Option, none, some, List, [], ◌∷◌, ◌++◌, if◌then◌else◌,
  sat_add64,
}
use eth.Execution.Canonical.{Header, Transaction, Block, Receipt, Alloy, header_hash, block_hash}
use eth.Execution.State.{InMemoryStateDb, insert_block_hash}
use eth.Execution.Executor.{Execution, executed, rejected, ExecutionError, Revm, execute_tx}
use eth.Execution.Roots.{
  compute_state_root, compute_transactions_root, compute_receipts_root, empty_ommers_hash,
}

pub record BlockBuilderConfig : Type 0 where
  pub beneficiary : ℕ
  pub timestamp : Option ℕ
  pub gas_limit : Option ℕ

unfoldable pub default_config : BlockBuilderConfig
default_config = record { beneficiary = 0; timestamp = none; gas_limit = none }

pub record BuiltBlock : Type 0 where
  pub block : Block
  pub receipts : List Receipt
  pub state : InMemoryStateDb

-- What both loops compute: the state after all transactions, their receipts, the gas and the bloom.
pub record Totals : Type 0 where
  pub state : InMemoryStateDb
  pub receipts : List Receipt
  pub gas_used : ℕ
  pub logs_bloom : ℕ

pub data Executed : Type 0 where
  completed : Totals → Executed
  stopped : (index tx_hash : ℕ) (source : ExecutionError) → Executed

pub data BlockBuildError : Type 0 where
  build_transaction_failed : (index tx_hash : ℕ) (source : ExecutionError) → BlockBuildError

pub data BuildResult : Type 0 where
  ok_block : BuiltBlock → BuildResult
  err_block : BlockBuildError → BuildResult

pub data ValidationError : Type 0 where
  transaction_execution_failed : (index tx_hash : ℕ) (source : ExecutionError) → ValidationError
  state_root_mismatch transactions_root_mismatch receipts_root_mismatch :
      (expected actual : ℕ) → ValidationError
  gas_used_mismatch logs_bloom_mismatch : (expected actual : ℕ) → ValidationError

pub data Validity : Type 0 where
  valid : Validity
  invalid : ValidationError → Validity

abbrev or_value : Option ℕ → ℕ → ℕ
or_value none d = d
or_value (some n) d = n

module _ {Bytecode : Type 0} (revm : Revm Bytecode) (alloy : Alloy) (visit : List ℕ → List ℕ) where
  -- The body of the loops after a successful execution.
  abbrev pub add_receipt : Totals → InMemoryStateDb → Receipt → Totals
  add_receipt t state receipt = record {
    state = state;
    receipts = t.receipts ++ receipt ∷ [];
    gas_used = sat_add64 t.gas_used receipt.cumulative_gas_used;
    logs_bloom = alloy.accrue_bloom t.logs_bloom receipt.logs_bloom;
  }

  -- The loop of `build_block`, which `validate_block` repeats.
  unfoldable pub execute_all : ℕ → Totals → List Transaction → Executed
  execute_all index t [] = completed t
  execute_all index t (tx ∷ txs) = elim (execute_tx revm alloy visit t.state tx) [
    | executed state receipt ↦ execute_all (index + 1) (add_receipt t state receipt) txs
    | rejected _ source ↦ stopped index tx.hash source
  ]

  abbrev pub start : InMemoryStateDb → Totals
  start state = record { state = state; receipts = []; gas_used = 0; logs_bloom = 0 }

  unfoldable pub seal : BlockBuilderConfig → Header → List Transaction → Totals → BuiltBlock
  seal config parent txs t =
      let block : Block = record {
        header = record {
          parent_hash = header_hash alloy parent;
          ommers_hash = empty_ommers_hash alloy;
          beneficiary = config.beneficiary;
          state_root = compute_state_root alloy t.state;
          transactions_root = compute_transactions_root alloy txs;
          receipts_root = compute_receipts_root alloy t.receipts;
          logs_bloom = t.logs_bloom;
          difficulty = parent.difficulty;
          number = sat_add64 parent.number 1;
          gas_limit = or_value config.gas_limit parent.gas_limit;
          gas_used = t.gas_used;
          timestamp = or_value config.timestamp (sat_add64 parent.timestamp 12);
          extra_data = [];
          mix_hash = 0;
          nonce = 0;
          base_fee_per_gas = parent.base_fee_per_gas;
          blob_gas_used = none;
          excess_blob_gas = none;
          parent_beacon_block_root = none;
        };
        transactions = txs;
        ommers = [];
      } in
      record {
        block = block;
        receipts = t.receipts;
        state = insert_block_hash t.state block.header.number (block_hash alloy block);
      }

  unfoldable pub build_block :
      BlockBuilderConfig → Header → List Transaction → InMemoryStateDb → BuildResult
  unfolding seal
  build_block config parent txs state = elim (execute_all 0 (start state) txs) [
    | completed t ↦ ok_block (seal config parent txs t)
    | stopped index hash source ↦ err_block (build_transaction_failed index hash source)
  ]

  -- The comparisons of `validate_block`, in its order.
  unfoldable pub compare_header : Block → Totals → Validity
  compare_header block t =
      let h = block.header in
      let state_root = compute_state_root alloy t.state in
      let transactions_root = compute_transactions_root alloy block.transactions in
      let receipts_root = compute_receipts_root alloy t.receipts in
      if not (state_root == h.state_root)
      then invalid (state_root_mismatch h.state_root state_root)
      else if not (transactions_root == h.transactions_root)
      then invalid (transactions_root_mismatch h.transactions_root transactions_root)
      else if not (receipts_root == h.receipts_root)
      then invalid (receipts_root_mismatch h.receipts_root receipts_root)
      else if not (t.gas_used == h.gas_used)
      then invalid (gas_used_mismatch h.gas_used t.gas_used)
      else if not (t.logs_bloom == h.logs_bloom)
      then invalid (logs_bloom_mismatch h.logs_bloom t.logs_bloom)
      else valid

  unfoldable pub validate_block : Block → InMemoryStateDb → Validity
  unfolding compare_header
  validate_block block pre_state = elim (execute_all 0 (start pre_state) block.transactions) [
    | completed t ↦ compare_header block t
    | stopped index hash source ↦ invalid (transaction_execution_failed index hash source)
  ]
