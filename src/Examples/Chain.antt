-- ===== src/Examples/Chain.antt =====
-- Building and checking blocks, with an execution that moves one slot and burns 21000 gas.
use eth.Prelude.{
  ℕ, ◌+◌, ◌≡◌, refl, ◌↔◌, ◌==◌, true, false, if◌then◌else◌, some, none, List, [], ◌∷◌, length,
}
use eth.Execution.Canonical.{Header, Transaction, Alloy}
use eth.Execution.State
use eth.Execution.State.{
  InMemoryStateDb, set_storage, get_storage, remove_account, account_exists, get_account,
  default_account, clear_storage,
}
use eth.Execution.Executor.{
  Revm, Account, built, finished, invalid_transaction, gas_limit_is_zero, apply_account_change,
  execute_tx,
}
use eth.Execution.Executor.Changes.{last_write, slot_before, apply_account_change_slots}
use eth.Execution.Roots.{compute_state_root, compute_transactions_root, compute_receipts_root}
use eth.Execution.Blocks.{
  BuiltBlock, Totals, default_config, valid, execute_all, start, seal, build_block, validate_block,
  completed,
}
use eth.Execution.Blocks.Agreement.{built_block_validates, validate_block_iff}
use eth.Execution.Blocks.Failures.{StopsAt, build_block_fails_first}

abbrev sum : List ℕ → ℕ
sum [] = 1
sum (n ∷ ns) = n + sum ns

abbrev alloy : Alloy
alloy = record {
  keccak256 = sum;
  encode = λ h. h.number ∷ h.state_root ∷ [];
  logs_bloom = λ logs. length logs;
  accrue_bloom = λ a b. a + b;
}

abbrev moved : Account (List ℕ)
moved = record {
  info = record { balance = 5; nonce = 1; code_hash = 0; account_id = none; code = none };
  is_selfdestructed = false;
  is_created = false;
  changed_storage_slots = (1, 8) ∷ (1, 9) ∷ [];
}

abbrev revm : Revm (List ℕ)
revm = record {
  new_raw = λ raw. raw;
  original_bytes = λ code. code;
  empty_code = [];
  build = λ env. built env;
  transact = λ db env. finished true 21000 [] ((env.caller, moved) ∷ []);
}

abbrev in_order : List ℕ → List ℕ
in_order l = l

abbrev transaction : ℕ → ℕ → Transaction
transaction hash gas_limit = record {
  hash = hash;
  nonce = 0;
  from = 3;
  to = some 4;
  value = 1;
  gas_limit = gas_limit;
  max_fee_per_gas = 10;
  max_priority_fee_per_gas = 2;
  input = [];
  chain_id = 2077;
  signature_r = 0;
  signature_s = 0;
  signature_v = 0;
}

abbrev parent : Header
parent = record {
  parent_hash = 0;
  ommers_hash = 0;
  beneficiary = 0;
  state_root = 0;
  transactions_root = 0;
  receipts_root = 0;
  logs_bloom = 0;
  difficulty = 0;
  number = 41;
  gas_limit = 30000000;
  gas_used = 0;
  timestamp = 1000;
  extra_data = [];
  mix_hash = 0;
  nonce = 0;
  base_fee_per_gas = none;
  blob_gas_used = none;
  excess_blob_gas = none;
  parent_beacon_block_root = none;
}

abbrev pending : List Transaction
pending = transaction 70 21000 ∷ transaction 71 21000 ∷ []

abbrev totals : Totals
totals = elim (execute_all revm alloy in_order 0 (start revm alloy in_order State.new) pending) [
  | completed t ↦ t
  | _ ↦ start revm alloy in_order State.new
]

abbrev block : BuiltBlock
block = seal revm alloy in_order default_config parent pending totals

built_block_validates_example : validate_block revm alloy in_order block.block State.new ≡ valid
unfolding build_block execute_all execute_tx
built_block_validates_example =
    built_block_validates revm alloy in_order default_config parent pending State.new block refl

validate_block_iff_example : (validate_block revm alloy in_order block.block State.new ≡ valid) ↔ (
    (t : Totals) × (execute_all revm alloy in_order 0
        (start revm alloy in_order State.new)
        block.block.transactions
      ≡ completed t)
    × (compute_state_root alloy t.state ≡ block.block.header.state_root)
    × (compute_transactions_root alloy block.block.transactions
        ≡ block.block.header.transactions_root)
    × (compute_receipts_root alloy t.receipts ≡ block.block.header.receipts_root)
    × (t.gas_used ≡ block.block.header.gas_used)
    × (t.logs_bloom ≡ block.block.header.logs_bloom))
validate_block_iff_example = validate_block_iff revm alloy in_order block.block State.new

build_block_fails_first_example :
    StopsAt revm alloy in_order 0
      (start revm alloy in_order State.new)
      (transaction 70 21000 ∷ transaction 71 0 ∷ [])
      1
      71
      (invalid_transaction gas_limit_is_zero)
unfolding build_block execute_all execute_tx
build_block_fails_first_example =
    build_block_fails_first revm alloy in_order default_config parent
      (transaction 70 21000 ∷ transaction 71 0 ∷ []) State.new 1 71
      (invalid_transaction gas_limit_is_zero) refl

abbrev one_slot : InMemoryStateDb
one_slot = set_storage State.new 3 1 7

apply_account_change_slots_example :
    get_storage (apply_account_change revm one_slot 3 moved) 3 1 ≡ (
      if 3 == 3
      then if moved.is_selfdestructed
        then 0
        else last_write 1 (slot_before revm one_slot moved 3 1) moved.changed_storage_slots
      else get_storage one_slot 3 1)
apply_account_change_slots_example = apply_account_change_slots revm one_slot 3 3 1 moved
