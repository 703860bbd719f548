-- ===== src/Execution/Roots.antt =====
-- The commitments of crates/eth2077-execution/src/block_builder.rs to the state, the transactions
-- and the receipts: the Keccak hash of a payload of bytes.
use eth.Prelude.{
  ℕ, zero, suc, ◌/◌, ◌%◌, Bool, true, false, leb, Option, none, some, List, [], ◌∷◌, ◌++◌, length,
}
use eth.Prelude.Sort.{sort_by}
use eth.Execution.Canonical.{Transaction, Receipt, Log, Alloy}
use eth.Execution.State.{AccountInfo, InMemoryStateDb, get_account, accounts}

-- The last bytes of a number, big end first: `to_be_bytes`, and the bytes of a fixed-size hash.
unfoldable pub be_bytes : ℕ → ℕ → List ℕ
be_bytes zero n = []
be_bytes (suc k) n = be_bytes k (n / 256) ++ (n % 256) ∷ []

abbrev pub u64_bytes : ℕ → List ℕ
u64_bytes = be_bytes 8

abbrev pub concat_map : {A : Type 0} → (A → List ℕ) → List A → List ℕ
concat_map f [] = []
concat_map f (x ∷ xs) = f x ++ concat_map f xs

abbrev code_bytes : Option (List ℕ) → List ℕ
code_bytes none = 0 ∷ []
code_bytes (some code) = 1 ∷ u64_bytes (length code) ++ code

abbrev account_bytes : ℕ → AccountInfo → List ℕ
account_bytes address account =
    be_bytes 20 address
    ++ u64_bytes account.nonce
    ++ be_bytes 32 account.balance
    ++ be_bytes 32 account.code_hash
    ++ code_bytes account.code

abbrev pub state_payload : InMemoryStateDb → List ℕ → List ℕ
state_payload state addresses =
    u64_bytes (length addresses)
    ++ concat_map (λ address. account_bytes address (get_account state address)) addresses

unfoldable pub compute_state_root : Alloy → InMemoryStateDb → ℕ
unfolding be_bytes
compute_state_root alloy state =
    alloy.keccak256 (state_payload state (sort_by leb (accounts state)))

unfoldable pub compute_transactions_root : Alloy → List Transaction → ℕ
unfolding be_bytes
compute_transactions_root alloy transactions =
    alloy.keccak256
      (u64_bytes (length transactions) ++ concat_map (λ tx. be_bytes 32 tx.hash) transactions)

abbrev log_bytes : Log → List ℕ
log_bytes log =
    be_bytes 20 log.address
    ++ u64_bytes (length log.topics)
    ++ concat_map (be_bytes 32) log.topics
    ++ u64_bytes (length log.«data»)
    ++ log.«data»

abbrev status_byte : Bool → ℕ
status_byte true = 1
status_byte false = 0

unfoldable pub encode_receipt : Receipt → List ℕ
unfolding be_bytes
encode_receipt receipt =
    be_bytes 32 receipt.tx_hash
    ++ (status_byte receipt.status ∷ [])
    ++ u64_bytes receipt.cumulative_gas_used
    ++ be_bytes 256 receipt.logs_bloom
    ++ u64_bytes (length receipt.logs)
    ++ concat_map log_bytes receipt.logs

unfoldable pub compute_receipts_root : Alloy → List Receipt → ℕ
unfolding encode_receipt
compute_receipts_root alloy receipts = alloy.keccak256 (
    u64_bytes (length receipts)
    ++ concat_map (λ receipt. be_bytes 32 (alloy.keccak256 (encode_receipt receipt))) receipts)

unfoldable pub empty_ommers_hash : Alloy → ℕ
empty_ommers_hash alloy = alloy.keccak256 (192 ∷ [])
