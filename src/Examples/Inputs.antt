-- ===== src/Examples/Inputs.antt =====
-- The checks of requests and of rollup inputs, at small inputs.
use eth.Prelude.{
  ℕ, ◌%◌, ◌<◌, ◌≡◌, ◌≢◌, refl, ◌↔◌, some, List, [], ◌∷◌, ◌++◌, length, none, ◌+◌, arith,
}
use eth.Execution.StateAccess.{
  StateAccessRequest, storage_slot_value, validate_state_access_request, ok,
}
use eth.Execution.Authorization.{AuthorizationEntry, secp256k1_n_div_2, validate_authorization_list}
use eth.Execution.Authorization.Checks.{
  HasWords, AllAcceptable, half-IsWord, validate_authorization_list_iff,
}
use eth.Execution.Rollup.{
  ExecutePrecompileInput, default_rollup_config, validate_execute_input, frequency_errors,
}
use eth.Execution.Rollup.Inputs.{Executes, validated_input-Executes}
use eth.Execution.AccessList
use eth.Prelude.Maps
use eth.Execution.AccessList.{BlockAccessList, validate_block_access_list, merge_access_lists}
use eth.Execution.AccessList.Merging.{merge_access_lists_validates}
use eth.Execution.Custody.Requests.{OwnsCells, assignment-OwnsCells}
use eth.Execution.Lanes
use eth.Execution.Lanes.{LaneAssignment, transfer, de_fi, default_lane_config, assign_to_lanes}
use eth.Execution.Lanes.Accepted.{IsAssignment, assign_to_lanes-IsAssignment}

abbrev eight_bytes : List ℕ
eight_bytes = 1 ∷ 2 ∷ 3 ∷ 4 ∷ 5 ∷ 6 ∷ 7 ∷ 8 ∷ []

abbrev request : StateAccessRequest
request = record {
  access_type = storage_slot_value;
  target_address = 5;
  storage_slot = some 9;
  block_number = 98;
  proof_data = eight_bytes ++ eight_bytes ++ eight_bytes ++ eight_bytes;
}

accepted_request : validate_state_access_request request 100 10 4096 ≡ ok
unfolding validate_state_access_request
accepted_request = refl

abbrev input : ExecutePrecompileInput
input = record {
  pre_state_root = 7;
  transactions = (1 ∷ []) ∷ (2 ∷ []) ∷ [];
  anchor = record { l1_state_root = 1; message_root = 2; rolling_hash = 3; l1_block_number = 96 };
}

abbrev digest : List ℕ → ℕ
digest bytes = length bytes

validated_input-Executes_example :
    (0 < 32) × (96 % 32 ≡ 0) × Executes digest input (default_rollup_config 1)
unfolding default_rollup_config validate_execute_input frequency_errors
validated_input-Executes_example =
    validated_input-Executes digest input (default_rollup_config 1) refl

abbrev entry : ℕ → AuthorizationEntry
entry address = record {
  chain_id = 2077;
  address = address;
  nonce = 0;
  y_parity = 1;
  r = secp256k1_n_div_2;
  s = secp256k1_n_div_2;
}

abbrev entries : List AuthorizationEntry
entries = entry 5 ∷ entry 6 ∷ []

half_words : HasWords (entry 5)
half_words = (half-IsWord, half-IsWord)

validate_authorization_list_iff_example :
    (validate_authorization_list entries 2077 ≡ [])
    ↔ ((entries ≢ []) × AllAcceptable 2077 [] entries)
validate_authorization_list_iff_example =
    validate_authorization_list_iff entries 2077 (half_words, (half_words, tt))

-- Two lists that touch one account, the second one without an account.
abbrev read_list : BlockAccessList
read_list = record {
  block_number = 6;
  accessed_accounts =
      record {
        address = 3;
        storage_keys = 9 ∷ 9 ∷ [];
        post_balance = some 5;
        post_nonce = none;
        post_code_hash = none;
      }
      ∷ [];
  storage_accesses = [];
}

abbrev write_list : BlockAccessList
write_list = record {
  block_number = 7;
  accessed_accounts = [];
  storage_accesses = (3, record { key = 9; pre_value = 0; post_value = 1 }) ∷ [];
}

merge_access_lists_validates_example :
    validate_block_access_list (merge_access_lists (read_list ∷ write_list ∷ [])) ≡ []
unfolding merge_access_lists AccessList.merge_all AccessList.merge_accounts
    AccessList.merge_accesses AccessList.upsert
merge_access_lists_validates_example =
    merge_access_lists_validates (read_list ∷ write_list ∷ []) (λ e. cc e)

-- The node 9 in one of 8 groups.
assignment-OwnsCells_example : OwnsCells (λ id. id + 4) 9 8 0
assignment-OwnsCells_example = assignment-OwnsCells (λ id. id + 4) 9 8 0 (omega arith) (omega arith)

-- Three transactions in two lanes.
abbrev three_txs : List LaneAssignment
three_txs =
    record {
      tx_hash = 1;
      assigned_lane = transfer;
      state_keys_accessed = 5 ∷ [];
      conflict_set = [];
      gas_estimate = 21000;
    }
    ∷ record {
      tx_hash = 2;
      assigned_lane = transfer;
      state_keys_accessed = 6 ∷ [];
      conflict_set = 7 ∷ [];
      gas_estimate = 21000;
    }
    ∷ record {
      tx_hash = 3;
      assigned_lane = de_fi;
      state_keys_accessed = 5 ∷ [];
      conflict_set = [];
      gas_estimate = 90000;
    }
    ∷ []

abbrev as_listed : List ℕ → List ℕ
as_listed keys = keys

assign_to_lanes-IsAssignment_example :
    IsAssignment as_listed
      (λ l k. refl)
      default_lane_config
      three_txs
      (assign_to_lanes as_listed default_lane_config three_txs).0
unfolding assign_to_lanes Lanes.assign_all Lanes.assign_one Lanes.normalize_keys Lanes.place
    Lanes.claim_keys default_lane_config AccessList.to_set Maps.get Maps.insert
assign_to_lanes-IsAssignment_example =
    assign_to_lanes-IsAssignment as_listed (λ l k. refl) default_lane_config three_txs refl
