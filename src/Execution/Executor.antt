-- ===== src/Execution/Executor.antt =====
-- crates/eth2077-execution/src/executor.rs: transactions executed by revm over the in-memory
-- state. Revm is the parameter `Revm`: its bytecode, the check of the builder of a `TxEnv`, and
-- `transact`, which reads the state through the four methods of a `Database`. A message of an error
-- names the text that the code formats.
pub mod Changes
use eth.Prelude.{
  ℕ, ◌+◌, Bool, true, false, ◌==◌, ltb, Option, none, some, List, [], ◌∷◌, map, if◌then◌else◌,
}
use eth.Execution.Canonical.{Transaction, Receipt, Log, Alloy}
use eth.Execution.State.{
  AccountInfo, InMemoryStateDb, insert_account, get_account, set_storage, get_storage,
  get_block_hash, account_exists, remove_account, clear_storage, accounts,
}

pub data Message : Type 0 where
  priority_fee_exceeds_max_fee gas_limit_is_zero : Message
  builder_error transact_error halted_for : List ℕ → Message

pub data ExecutionError : Type 0 where
  evm_error invalid_transaction : Message → ExecutionError

pub data TxKind : Type 0 where
  call : ℕ → TxKind
  create : TxKind

pub record TxEnv : Type 0 where
  pub caller : ℕ
  pub gas_limit : ℕ
  pub max_fee_per_gas : ℕ
  pub gas_priority_fee : Option ℕ
  pub kind : TxKind
  pub value : ℕ
  pub input : List ℕ
  pub nonce : ℕ
  pub chain_id : Option ℕ

-- revm's `AccountInfo`, `Account` and `Database`.
pub record RevmAccountInfo (Bytecode : Type 0) : Type 0 where
  pub balance : ℕ
  pub nonce : ℕ
  pub code_hash : ℕ
  pub account_id : Option ℕ
  pub code : Option Bytecode

pub record Account (Bytecode : Type 0) : Type 0 where
  pub info : RevmAccountInfo Bytecode
  pub is_selfdestructed : Bool
  pub is_created : Bool
  pub changed_storage_slots : List (ℕ × ℕ)

pub record Database (Bytecode : Type 0) : Type 0 where
  pub basic : ℕ → Option (RevmAccountInfo Bytecode)
  pub code_by_hash : ℕ → Bytecode
  pub storage : ℕ → ℕ → ℕ
  pub block_hash : ℕ → ℕ

pub data Built : Type 0 where
  built : TxEnv → Built
  not_built : List ℕ → Built

-- What `transact` returns: an error, a halt, or a result (success or revert) with the accounts
-- that it changed.
pub data Transacted (Bytecode : Type 0) : Type 0 where
  failed halted : List ℕ → Transacted Bytecode
  finished :
      (is_success : Bool) (gas_used : ℕ) (logs : List Log) (changes : List (ℕ × Account Bytecode))
      → Transacted Bytecode

pub record Revm (Bytecode : Type 0) : Type 0 where
  pub new_raw : List ℕ → Bytecode
  pub original_bytes : Bytecode → List ℕ
  pub empty_code : Bytecode
  pub build : TxEnv → Built
  pub transact : Database Bytecode → TxEnv → Transacted Bytecode

pub data Execution : Type 0 where
  executed : InMemoryStateDb → Receipt → Execution
  rejected : InMemoryStateDb → ExecutionError → Execution

module _ {Bytecode : Type 0} (revm : Revm Bytecode) where
  abbrev pub raw_code : Option (List ℕ) → Option Bytecode
  raw_code none = none
  raw_code (some raw) = some (revm.new_raw raw)

  unfoldable pub basic : InMemoryStateDb → ℕ → Option (RevmAccountInfo Bytecode)
  basic s address =
      let account = get_account s address in
      if account_exists s address
      then some (record {
        balance = account.balance;
        nonce = account.nonce;
        code_hash = account.code_hash;
        account_id = none;
        code = raw_code account.code;
      })
      else none

  -- `account.code` of an account that has the hash, or the search goes on.
  abbrev code_or : Option (List ℕ) → Bytecode → Bytecode
  code_or none rest = rest
  code_or (some code) rest = revm.new_raw code

  unfoldable pub code_among : InMemoryStateDb → ℕ → List ℕ → Bytecode
  code_among s code_hash [] = revm.empty_code
  code_among s code_hash (address ∷ addresses) =
      let rest = code_among s code_hash addresses in
      let account = get_account s address in
      if account.code_hash == code_hash then code_or account.code rest else rest

  -- The accounts are searched in the order in which std iterates the map, `visit`.
  unfoldable pub code_by_hash : (List ℕ → List ℕ) → InMemoryStateDb → ℕ → Bytecode
  unfolding code_among
  code_by_hash visit s code_hash = code_among s code_hash (visit (accounts s))

  unfoldable pub database : (List ℕ → List ℕ) → InMemoryStateDb → Database Bytecode
  unfolding basic code_by_hash
  database visit s = record {
    basic = basic s;
    code_by_hash = code_by_hash visit s;
    storage = get_storage s;
    block_hash = get_block_hash s;
  }

  abbrev pub stored_code : Option Bytecode → Option (List ℕ)
  stored_code none = none
  stored_code (some bytecode) = some (revm.original_bytes bytecode)

  unfoldable pub set_slots : InMemoryStateDb → ℕ → List (ℕ × ℕ) → InMemoryStateDb
  set_slots s address [] = s
  set_slots s address ((slot, value) ∷ slots) =
      set_slots (set_storage s address slot value) address slots

  unfoldable pub apply_account_change : InMemoryStateDb → ℕ → Account Bytecode → InMemoryStateDb
  apply_account_change s address account =
      let info = account.info in
      let s' = insert_account s address (record {
        balance = info.balance;
        nonce = info.nonce;
        code_hash = info.code_hash;
        code = stored_code info.code;
      }) in
      if account.is_selfdestructed
      then remove_account s address
      else set_slots (if account.is_created then clear_storage s' address else s') address
          account.changed_storage_slots

  unfoldable pub apply_state_changes :
      InMemoryStateDb → List (ℕ × Account Bytecode) → InMemoryStateDb
  apply_state_changes s [] = s
  apply_state_changes s ((address, account) ∷ changes) =
      apply_state_changes (apply_account_change s address account) changes

  abbrev kind_of : Option ℕ → TxKind
  kind_of none = create
  kind_of (some to) = call to

  unfoldable pub tx_env : Transaction → TxEnv
  tx_env tx = record {
    caller = tx.from;
    gas_limit = tx.gas_limit;
    max_fee_per_gas = tx.max_fee_per_gas;
    gas_priority_fee = some tx.max_priority_fee_per_gas;
    kind = kind_of tx.to;
    value = tx.value;
    input = tx.input;
    nonce = tx.nonce;
    chain_id = some tx.chain_id;
  }

  -- `execute_tx` from the result of `transact` on.
  unfoldable pub conclude : Alloy → InMemoryStateDb → Transaction → Transacted Bytecode → Execution
  conclude alloy s tx (failed reason) = rejected s (evm_error (transact_error reason))
  conclude alloy s tx (halted reason) = rejected s (evm_error (halted_for reason))
  conclude alloy s tx (finished is_success gas_used logs changes) =
      executed (apply_state_changes s changes) (record {
        tx_hash = tx.hash;
        status = is_success;
        cumulative_gas_used = gas_used;
        logs_bloom = alloy.logs_bloom logs;
        logs = logs;
      })

  unfoldable pub execute_tx : Alloy → (List ℕ → List ℕ) → InMemoryStateDb → Transaction → Execution
  unfolding conclude tx_env
  execute_tx alloy visit s tx =
      if ltb tx.max_fee_per_gas tx.max_priority_fee_per_gas
      then rejected s (invalid_transaction priority_fee_exceeds_max_fee)
      else if tx.gas_limit == 0
      then rejected s (invalid_transaction gas_limit_is_zero)
      else elim (revm.build (tx_env tx)) [
        | not_built reason ↦ rejected s (invalid_transaction (builder_error reason))
        | built env ↦ conclude alloy s tx (revm.transact (database visit s) env)
      ]
