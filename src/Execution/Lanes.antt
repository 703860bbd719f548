-- ===== src/Execution/Lanes.antt =====
-- crates/eth2077-execution/src/eip8142.rs: the assignment of transactions to lanes. A map by lanes
-- has their discriminants as keys, and the order in which std iterates a set of keys is `visit`.
pub mod Keys
pub mod Placement
pub mod Accepted
use eth.Prelude.{
  ℕ, ◌+◌, Bool, true, false, not, ◌&&◌, ◌||◌, ◌==◌, ltb, Option, none, some, List, [], ◌∷◌, ◌++◌,
  length, any, if◌then◌else◌, sat_add64,
}
use eth.Prelude.Maps
use eth.Prelude.Maps.{nat_eq}
use eth.Execution.AccessList.{has, to_set}

pub data LaneId : Type 0 where
  transfer token_ops de_fi state_heavy system_ops blob_carrying uncategorized : LaneId

abbrev pub lane_discriminant : LaneId → ℕ
lane_discriminant transfer = 0
lane_discriminant token_ops = 1
lane_discriminant de_fi = 2
lane_discriminant state_heavy = 3
lane_discriminant system_ops = 4
lane_discriminant blob_carrying = 5
lane_discriminant uncategorized = 6

pub record LaneAssignment : Type 0 where
  pub tx_hash : ℕ
  pub assigned_lane : LaneId
  pub state_keys_accessed : List ℕ
  pub conflict_set : List ℕ
  pub gas_estimate : ℕ

pub data LaneAssignmentError : Type 0 where
  empty_transaction : LaneAssignmentError
  conflict_detected : (tx_a tx_b conflicting_key : ℕ) → LaneAssignmentError
  lane_capacity_exceeded : (lane : LaneId) (current max : ℕ) → LaneAssignmentError
  invalid_state_keys : LaneAssignmentError

pub record LaneConfig : Type 0 where
  pub max_txs_per_lane : ℕ
  pub max_total_gas_per_lane : ℕ
  pub enable_conflict_detection : Bool
  pub parallel_lanes : ℕ

unfoldable pub default_lane_config : LaneConfig
default_lane_config = record {
  max_txs_per_lane = 128;
  max_total_gas_per_lane = 15000000;
  enable_conflict_detection = true;
  parallel_lanes = 4;
}

abbrev pub all_keys : LaneAssignment → List ℕ
all_keys a = a.state_keys_accessed ++ a.conflict_set

unfoldable pub normalize_keys : LaneAssignment → Option (List ℕ)
normalize_keys a = if any (λ k. k == 0) (all_keys a) then none else some (to_set (all_keys a))

abbrev pub Owners : Type 0
Owners = List (ℕ × ℕ)

pub record Lanes : Type 0 where
  pub grouped : List (ℕ × List ℕ)
  pub lane_gas : List (ℕ × ℕ)
  pub lane_keys : List (ℕ × Owners)
  pub errors : List LaneAssignmentError

abbrev pub or_default : {V : Type 0} → V → Option V → V
or_default d none = d
or_default d (some v) = v

abbrev pub entries_of : Lanes → ℕ → List ℕ
entries_of s lane = or_default [] (Maps.get lane s.grouped)

abbrev pub gas_of : Lanes → ℕ → ℕ
gas_of s lane = or_default 0 (Maps.get lane s.lane_gas)

abbrev pub owners_of : Lanes → ℕ → Owners
owners_of s lane = or_default [] (Maps.get lane s.lane_keys)

abbrev pub error_if : Bool → LaneAssignmentError → List LaneAssignmentError
error_if true e = e ∷ []
error_if false e = []

-- The loop over the keys: a key without an owner goes to the transaction.
unfoldable pub claim_keys : (tx_hash : ℕ) → Owners → List ℕ → Owners × List LaneAssignmentError
claim_keys tx_hash m [] = (m, [])
claim_keys tx_hash m (k ∷ keys) = elim (Maps.get k m) [
  | some existing_tx ↦
      let (m', later) = claim_keys tx_hash m keys in
      (
        m',
        error_if (not (existing_tx == tx_hash)) (conflict_detected existing_tx tx_hash k) ++ later,
      )
  | none ↦ claim_keys tx_hash (Maps.insert k tx_hash m) keys
]

abbrev pub push_error : Lanes → LaneAssignmentError → Lanes
push_error s e = record s { errors = s.errors ++ e ∷ [] }

module _ (visit : List ℕ → List ℕ) (config : LaneConfig) where
  -- A transaction with valid keys.
  unfoldable pub place : Lanes → (index : ℕ) → LaneAssignment → (keys : List ℕ) → Lanes
  place s index a keys =
      let lane = lane_discriminant a.assigned_lane in
      let entries = entries_of s lane in
      let next_count = length entries + 1 in
      let next_gas = sat_add64 (gas_of s lane) a.gas_estimate in
      let (owners, conflicts) = claim_keys a.tx_hash (owners_of s lane) (visit keys) in
      let detect = config.enable_conflict_detection in
      record {
        grouped = Maps.insert lane (entries ++ index ∷ []) s.grouped;
        lane_gas = Maps.insert lane next_gas s.lane_gas;
        lane_keys = if detect then Maps.insert lane owners s.lane_keys else s.lane_keys;
        errors =
            s.errors
            ++ (error_if (ltb config.max_txs_per_lane next_count)
                  (lane_capacity_exceeded a.assigned_lane next_count config.max_txs_per_lane)
                ++ (error_if (ltb config.max_total_gas_per_lane next_gas) (
                      lane_capacity_exceeded a.assigned_lane next_gas config.max_total_gas_per_lane)
                    ++ (if detect then conflicts else [])));
      }

  unfoldable pub assign_one : Lanes → (index : ℕ) → LaneAssignment → Lanes
  assign_one s index a =
      if a.tx_hash == 0 then push_error s empty_transaction else (elim (normalize_keys a) [
        | none ↦ push_error s invalid_state_keys
        | some keys ↦ place s index a keys
      ])

  unfoldable pub assign_all : Lanes → (index : ℕ) → List LaneAssignment → Lanes
  assign_all s index [] = s
  assign_all s index (a ∷ assignments) = assign_all (assign_one s index a) (index + 1) assignments

  -- The groups, with the errors; no errors is `Ok`.
  unfoldable pub assign_to_lanes :
      List LaneAssignment → List (ℕ × List ℕ) × List LaneAssignmentError
  unfolding assign_all
  assign_to_lanes assignments =
      let s =
        assign_all (record { grouped = []; lane_gas = []; lane_keys = []; errors = [] }) 0
          assignments in
      (s.grouped, s.errors)
