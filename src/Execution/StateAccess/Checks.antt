-- ===== src/Execution/StateAccess/Checks.antt =====
-- Which requests eip7864.rs accepts.
use eth.Prelude.{ℕ, ◌+◌, ◌*◌, ◌/◌, ◌≤◌, ◌<◌, ◌≡◌, refl, ◌↔◌, Option, none, some, length, arith}
use eth.Execution.StateAccess.{
  StateAccessType, StateAccessRequest, Checked, ok, account_balance, storage_slot_value, code_hash,
  account_nonce, check_slot, check_proof, validate_state_access_request,
}

-- A slot is given exactly where the type asks for one.
abbrev pub SlotFits : StateAccessType → Option ℕ → Type 0
SlotFits storage_slot_value slot = (s : ℕ) × (slot ≡ some s)
SlotFits access_type slot = slot ≡ none

-- The description of an acceptable request: its block is in the window, its slot fits its type, and
-- its proof is a positive number of 32-byte nodes within the limit.
abbrev pub IsAcceptable : StateAccessRequest → ℕ → ℕ → ℕ → Type 0
IsAcceptable r current lookback max_proof_size =
    (r.block_number ≤ current)
    × (current ≤ r.block_number + lookback)
    × SlotFits r.access_type r.storage_slot
    × ((nodes : ℕ) × (0 < nodes) × (length r.proof_data ≡ 32 * nodes))
    × (length r.proof_data ≤ max_proof_size)

check_slot_iff :
    (t : StateAccessType) (slot : Option ℕ) (rest : Checked)
    → (check_slot t slot rest ≡ ok) ↔ (SlotFits t slot × (rest ≡ ok))
unfolding check_slot
check_slot_iff storage_slot_value none rest =
    (λ e. absurd (ground (arith, e)), λ (f, _). absurd (ground (arith, f.1)))
check_slot_iff storage_slot_value (some s) rest = (λ e. ((s, refl), e), λ (_, e). e)
check_slot_iff account_balance none rest = (λ e. (refl, e), λ (_, e). e)
check_slot_iff account_balance (some s) rest =
    (λ e. absurd (ground (arith, e)), λ (f, _). absurd (ground (arith, f)))
check_slot_iff code_hash none rest = (λ e. (refl, e), λ (_, e). e)
check_slot_iff code_hash (some s) rest =
    (λ e. absurd (ground (arith, e)), λ (f, _). absurd (ground (arith, f)))
check_slot_iff account_nonce none rest = (λ e. (refl, e), λ (_, e). e)
check_slot_iff account_nonce (some s) rest =
    (λ e. absurd (ground (arith, e)), λ (f, _). absurd (ground (arith, f)))

check_proof_iff :
    (size limit : ℕ)
    → (check_proof size limit ≡ ok)
      ↔ (((nodes : ℕ) × (0 < nodes) × (size ≡ 32 * nodes)) × (size ≤ limit))
unfolding check_proof
check_proof_iff size limit = (
  λ e. ((size / 32, ground (arith, e), ground (arith, e)), ground (arith, e)),
  λ ((nodes, pos, same), fits). ground (arith, pos, same, fits),
)

-- A request is accepted exactly when its block is within the window that ends at the current one,
-- it names a slot if and only if it asks for a storage slot, and its proof is a positive number of
-- 32-byte nodes within the limit.
pub validate_state_access_request_iff :
    (r : StateAccessRequest) (current lookback max_proof_size : ℕ)
    → (validate_state_access_request r current lookback max_proof_size ≡ ok)
      ↔ IsAcceptable r current lookback max_proof_size
unfolding validate_state_access_request
validate_state_access_request_iff r current lookback max_proof_size =
    let slot =
      check_slot_iff r.access_type r.storage_slot
        (check_proof (length r.proof_data) max_proof_size) in
    let proof = check_proof_iff (length r.proof_data) max_proof_size in
    (
      λ e.
          let reached : check_slot r.access_type r.storage_slot
                (check_proof (length r.proof_data) max_proof_size)
              ≡ ok =
            ground (arith, e) in
          let (fits, rest) = slot.0 reached in
          let (nodes, small) = proof.0 rest in
          (ground (arith, e), ground (arith, e), fits, nodes, small),
      λ (past, recent, fits, nodes, small).
          ground (arith, slot.1 (fits, proof.1 (nodes, small)), past, recent),
    )
