-- ===== src/Execution/Rollup.antt =====
-- crates/eth2077-execution/src/eip8079.rs: inputs of the EXECUTE precompile. SHA-256 is a
-- parameter; a root is the number that its 32 bytes spell.
pub mod Inputs
use eth.Prelude.{
  ℕ, ◌*◌, ◌/◌, ◌%◌, min, Bool, true, false, not, ◌==◌, ltb, List, [], ◌∷◌, ◌++◌, length,
  if◌then◌else◌, u64_max, sat_mul64,
}
use eth.Execution.Roots.{be_bytes}

pub record RollupAnchor : Type 0 where
  pub l1_state_root : ℕ
  pub message_root : ℕ
  pub rolling_hash : ℕ
  pub l1_block_number : ℕ

pub record NativeRollupConfig : Type 0 where
  pub rollup_id : ℕ
  pub anchor_frequency : ℕ
  pub max_gas_per_execution : ℕ
  pub precompile_address : ℕ

pub record ExecutePrecompileInput : Type 0 where
  pub pre_state_root : ℕ
  pub transactions : List (List ℕ)
  pub anchor : RollupAnchor

pub record ExecutePrecompileOutput : Type 0 where
  pub post_state_root : ℕ
  pub gas_used : ℕ
  pub success : Bool

pub data NativeRollupError : Type 0 where
  invalid_anchor : (reason : List ℕ) → NativeRollupError
  exceeds_gas_limit : (used limit : ℕ) → NativeRollupError
  empty_transactions invalid_pre_state_root : NativeRollupError
  anchor_frequency_violation : (expected_block actual_block : ℕ) → NativeRollupError
  rollup_id_mismatch : (expected actual : ℕ) → NativeRollupError

pub data Executed : Type 0 where
  ok : ExecutePrecompileOutput → Executed
  err : NativeRollupError → Executed

-- `EXECUTE_PRECOMPILE_ADDRESS` is the number 32.
unfoldable pub default_rollup_config : ℕ → NativeRollupConfig
default_rollup_config rollup_id = record {
  rollup_id = rollup_id;
  anchor_frequency = 32;
  max_gas_per_execution = 30000000;
  precompile_address = 32;
}

abbrev pub no_transactions : List (List ℕ) → Bool
no_transactions [] = true
no_transactions (_ ∷ _) = false

unfoldable pub frequency_errors : ℕ → ℕ → List NativeRollupError
frequency_errors frequency number =
    if frequency == 0
    then anchor_frequency_violation 0 number ∷ []
    else if not (number % frequency == 0)
    then anchor_frequency_violation (number / frequency * frequency) number ∷ []
    else []

-- The errors in the order in which they are pushed; no error is `Ok`.
unfoldable pub validate_execute_input :
    ExecutePrecompileInput → NativeRollupConfig → List NativeRollupError
unfolding frequency_errors
validate_execute_input i c =
    (if no_transactions i.transactions then empty_transactions ∷ [] else [])
    ++ (if i.pre_state_root == 0 then invalid_pre_state_root ∷ [] else [])
    ++ frequency_errors c.anchor_frequency i.anchor.l1_block_number

-- `u64::try_from(len).unwrap_or(u64::MAX)`
abbrev pub tx_count : ExecutePrecompileInput → ℕ
tx_count i = min u64_max (length i.transactions)

-- The output of an execution that is not refused.
unfoldable pub executed_output : (List ℕ → ℕ) → ExecutePrecompileInput → ExecutePrecompileOutput
unfolding be_bytes
executed_output sha256 i = record {
  post_state_root = sha256 (
      be_bytes 32 i.pre_state_root
      ++ be_bytes 32 i.anchor.l1_state_root
      ++ be_bytes 8 (tx_count i));
  gas_used = sat_mul64 21000 (tx_count i);
  success = true;
}

unfoldable pub mock_execute : (List ℕ → ℕ) → ExecutePrecompileInput → NativeRollupConfig → Executed
unfolding executed_output
mock_execute sha256 i c =
    let gas_used = sat_mul64 21000 (tx_count i) in
    if no_transactions i.transactions
    then err empty_transactions
    else if i.pre_state_root == 0
    then err invalid_pre_state_root
    else if ltb c.max_gas_per_execution gas_used
    then err (exceeds_gas_limit gas_used c.max_gas_per_execution)
    else ok (executed_output sha256 i)

unfoldable pub compute_anchor_hash : (List ℕ → ℕ) → RollupAnchor → ℕ
unfolding be_bytes
compute_anchor_hash sha256 a = sha256 (
    be_bytes 32 a.l1_state_root
    ++ be_bytes 32 a.message_root
    ++ be_bytes 32 a.rolling_hash
    ++ be_bytes 8 a.l1_block_number)
