-- ===== src/Execution/StateAccess.antt =====
-- crates/eth2077-execution/src/eip7864.rs: requests for state values with a proof. Addresses and
-- slots are numbers, a proof is its list of bytes.
pub mod Checks
use eth.Prelude.{
  ℕ, ◌-◌, ◌%◌, Bool, true, false, not, ◌||◌, ◌==◌, ltb, Option, none, some, List, [], length,
  if◌then◌else◌, sat_add64, sat_mul64,
}

pub data StateAccessType : Type 0 where
  account_balance storage_slot_value code_hash account_nonce : StateAccessType

pub record StateAccessRequest : Type 0 where
  pub access_type : StateAccessType
  pub target_address : ℕ
  pub storage_slot : Option ℕ
  pub block_number : ℕ
  pub proof_data : List ℕ

pub data StateAccessError : Type 0 where
  invalid_proof_encoding storage_slot_required_for_type storage_slot_not_allowed_for_type :
      StateAccessError
  block_too_old : (requested oldest_allowed : ℕ) → StateAccessError
  block_in_future : (requested current : ℕ) → StateAccessError
  proof_too_large : (size max : ℕ) → StateAccessError

pub data Checked : Type 0 where
  ok : Checked
  err : StateAccessError → Checked

-- The match on the type: a slot belongs to a request for a storage slot, and to no other.
unfoldable pub check_slot : StateAccessType → Option ℕ → Checked → Checked
check_slot storage_slot_value none rest = err storage_slot_required_for_type
check_slot storage_slot_value (some slot) rest = rest
check_slot access_type none rest = rest
check_slot access_type (some slot) rest = err storage_slot_not_allowed_for_type

unfoldable pub check_proof : ℕ → ℕ → Checked
check_proof proof_size max_proof_size =
    if ltb max_proof_size proof_size
    then err (proof_too_large proof_size max_proof_size)
    else if proof_size == 0 || not (proof_size % 32 == 0)
    then err invalid_proof_encoding
    else ok

unfoldable pub validate_state_access_request : StateAccessRequest → ℕ → ℕ → ℕ → Checked
unfolding check_slot check_proof
validate_state_access_request r current_block lookback_window max_proof_size =
    let oldest_allowed = current_block - lookback_window in
    if ltb current_block r.block_number
    then err (block_in_future r.block_number current_block)
    else if ltb r.block_number oldest_allowed
    then err (block_too_old r.block_number oldest_allowed)
    else check_slot r.access_type r.storage_slot (check_proof (length r.proof_data) max_proof_size)

unfoldable pub estimate_gas_cost : StateAccessRequest → ℕ
estimate_gas_cost r = sat_add64 3000 (sat_mul64 (length r.proof_data) 16)
