-- ===== src/Devnet/Timeliness.antt =====
-- crates/eth2077-node/src/bin/eth2077-devnetd.rs: the timeliness of a slot and its penalty. A list
-- that the code collects from a hash map stands in the order of the association list.
pub mod Reports
pub mod Penalties
pub mod Windows
use eth.Prelude.{
  ℕ, zero, suc, ◌+◌, ◌-◌, min, Bool, true, false, not, ◌&&◌, ◌||◌, ◌==◌, ltb, leb, Option, none,
  some, List, [], ◌∷◌, length, filter, map, if◌then◌else◌, u64_max, sat_add64, sat_mul64,
}
use eth.Prelude.Maps
use eth.Prelude.Maps.{nat_eq}
use eth.Devnet.Payloads.{
  Engine7732EnvelopeRecord, Engine7732PenaltyRecord, TimelinessStatus, unknown, orphan_envelope,
  late_reveal, revealed, withheld, partial_withhold, header_only, partial_reveal, PenaltyState,
  active, recovered, PenaltyReason, NodeState, roots_at,
}

unfoldable pub engine_7732_is_timeliness_violation : TimelinessStatus → Bool
engine_7732_is_timeliness_violation withheld = true
engine_7732_is_timeliness_violation partial_withhold = true
engine_7732_is_timeliness_violation late_reveal = true
engine_7732_is_timeliness_violation _ = false

abbrev pub is_active : PenaltyState → Bool
is_active active = true
is_active recovered = false

-- The record of a slot in violation: activation keeps its instant while the penalty is active.
abbrev pub violated :
    Option Engine7732PenaltyRecord
    → (slot : ℕ) → TimelinessStatus
    → PenaltyReason
    → (current_unix_s : ℕ) → Engine7732PenaltyRecord
violated none slot status reason current_unix_s = record {
  slot = slot;
  state = active;
  reason = reason;
  last_status = status;
  activated_at_unix_s = current_unix_s;
  recovered_at_unix_s = none;
}
violated (some r) slot status reason current_unix_s = record {
  slot = r.slot;
  state = active;
  reason = reason;
  last_status = status;
  activated_at_unix_s = if is_active r.state then r.activated_at_unix_s else current_unix_s;
  recovered_at_unix_s = if is_active r.state then r.recovered_at_unix_s else none;
}

abbrev pub relieved :
    Engine7732PenaltyRecord
    → TimelinessStatus
    → PenaltyReason
    → (current_unix_s : ℕ) → Engine7732PenaltyRecord
relieved r status reason current_unix_s =
    if is_active r.state
    then record r {
      state = recovered;
      reason = reason;
      last_status = status;
      recovered_at_unix_s = some current_unix_s;
    }
    else record r { last_status = status }

abbrev pub with_penalty : NodeState → ℕ → Engine7732PenaltyRecord → NodeState
with_penalty s slot r = record s {
  engine_7732_penalties_by_slot = Maps.insert slot r s.engine_7732_penalties_by_slot;
}

unfoldable pub engine_7732_update_penalty_state :
    NodeState
    → (slot : ℕ) → TimelinessStatus
    → PenaltyReason
    → (current_unix_s : ℕ) → NodeState × Option Engine7732PenaltyRecord
engine_7732_update_penalty_state s slot status reason current_unix_s =
    let known = Maps.get slot s.engine_7732_penalties_by_slot in
    let r = violated known slot status reason current_unix_s in
    if engine_7732_is_timeliness_violation status
    then (with_penalty s slot r, some r)
    else (elim known [
      | none ↦ (s, none)
      | some existing ↦
          let r' = relieved existing status reason current_unix_s in
          (with_penalty s slot r', some r')
    ])

unfoldable pub engine_7732_slot_deadline_unix_s : NodeState → ℕ → ℕ
engine_7732_slot_deadline_unix_s s slot =
    sat_add64 (sat_add64 s.started_at_unix_s (sat_mul64 slot 12)) 12

-- The three lists that the loop over the roots of a slot fills.
pub record Reveals : Type 0 where
  pub on_time : List ℕ
  pub late : List ℕ
  pub pending : List ℕ

abbrev pub sorted_in : ℕ → ℕ → Option Engine7732EnvelopeRecord → Reveals → Reveals
sorted_in deadline root none r = record r { pending = root ∷ r.pending }
sorted_in deadline root (some env) r =
    if leb env.revealed_at_unix_s deadline
    then record r { on_time = root ∷ r.on_time }
    else record r { late = root ∷ r.late }

unfoldable pub reveals : List (ℕ × Engine7732EnvelopeRecord) → ℕ → List ℕ → Reveals
reveals envelopes deadline [] = record { on_time = []; late = []; pending = [] }
reveals envelopes deadline (root ∷ roots) =
    sorted_in deadline root (Maps.get root envelopes) (reveals envelopes deadline roots)

abbrev pub known : {V : Type 0} → Option V → Bool
known none = false
known (some _) = true

unfoldable pub orphan_roots : NodeState → ℕ → List ℕ
orphan_roots s slot =
    map (λ e. e.0)
      (filter
        (λ e.
          e.1.slot == slot
          && not (known (Maps.get e.1.payload_header_root s.engine_7732_headers_by_root)))
        s.engine_7732_envelopes_by_root)

abbrev pub is_empty : List ℕ → Bool
is_empty [] = true
is_empty (_ ∷ _) = false

unfoldable pub aggregate_status :
    (header_roots orphans : List ℕ) → Reveals → (deadline_passed : Bool) → TimelinessStatus
aggregate_status header_roots orphans r deadline_passed =
    if is_empty header_roots && is_empty orphans
    then unknown
    else if is_empty header_roots && not (is_empty orphans)
    then orphan_envelope
    else if is_empty r.pending && not (is_empty r.late)
    then late_reveal
    else if is_empty r.pending
    then revealed
    else if deadline_passed && (is_empty r.on_time && is_empty r.late)
    then withheld
    else if deadline_passed
    then partial_withhold
    else if is_empty r.on_time
    then header_only
    else partial_reveal

abbrev pub is_late : ℕ → Option Engine7732EnvelopeRecord → Bool
is_late deadline none = false
is_late deadline (some env) = ltb deadline env.revealed_at_unix_s

pub record SlotStatus : Type 0 where
  pub slot : ℕ
  pub aggregate : TimelinessStatus
  pub header_roots : List ℕ
  pub reveals : Reveals
  pub orphan_envelopes : List ℕ
  pub header_count : ℕ
  pub revealed_count : ℕ
  pub late_reveal_count : ℕ
  pub deadline_unix_s : ℕ
  pub current_unix_s : ℕ
  pub deadline_passed : Bool
  pub penalty : Option Engine7732PenaltyRecord

unfoldable pub engine_7732_slot_status_response : NodeState → ℕ → ℕ → SlotStatus
engine_7732_slot_status_response s slot current_unix_s =
    let header_roots = roots_at s slot in
    let deadline = engine_7732_slot_deadline_unix_s s slot in
    let deadline_passed = ltb deadline current_unix_s in
    let envelopes = s.engine_7732_envelopes_by_root in
    let r = reveals envelopes deadline header_roots in
    let orphans = orphan_roots s slot in
    record {
      slot = slot;
      aggregate = aggregate_status header_roots orphans r deadline_passed;
      header_roots = header_roots;
      reveals = r;
      orphan_envelopes = orphans;
      header_count = length header_roots;
      revealed_count = length (filter (λ root. known (Maps.get root envelopes)) header_roots);
      late_reveal_count =
          length (filter (λ root. is_late deadline (Maps.get root envelopes)) header_roots);
      deadline_unix_s = deadline;
      current_unix_s = current_unix_s;
      deadline_passed = deadline_passed;
      penalty = Maps.get slot s.engine_7732_penalties_by_slot;
    }

-- The answer to a range of slots, over the answer to one.
pub record Window (R : Type 0) : Type 0 where
  pub start_slot : ℕ
  pub end_slot : ℕ
  pub effective_end_slot : ℕ
  pub requested_slots : ℕ
  pub slot_count : ℕ
  pub window_clamped : Bool
  pub slots : List R

abbrev pub max_slot_window : ℕ
max_slot_window = 256

-- `start..=start + n - 1`.
unfoldable pub slots_from : ℕ → ℕ → List ℕ
slots_from start zero = []
slots_from start (suc n) = start ∷ slots_from (start + 1) n

unfoldable pub slot_window : {R : Type 0} → (ℕ → R) → ℕ → ℕ → Option (Window R)
slot_window snapshot start_slot end_slot =
    let requested_slots = sat_add64 (end_slot - start_slot) 1 in
    let slot_count = min requested_slots max_slot_window in
    let effective_end_slot = sat_add64 start_slot (slot_count - 1) in
    if ltb end_slot start_slot
    then none
    else some (record {
      start_slot = start_slot;
      end_slot = end_slot;
      effective_end_slot = effective_end_slot;
      requested_slots = requested_slots;
      slot_count = slot_count;
      window_clamped = ltb slot_count requested_slots;
      slots = map snapshot (slots_from start_slot (effective_end_slot + 1 - start_slot));
    })

unfoldable pub engine_7732_get_payload_timeliness_by_range_response :
    NodeState → (start_slot end_slot current_unix_s : ℕ) → Option (Window SlotStatus)
engine_7732_get_payload_timeliness_by_range_response s start_slot end_slot current_unix_s =
    slot_window (λ slot. engine_7732_slot_status_response s slot current_unix_s) start_slot end_slot

pub record PenaltySnapshot : Type 0 where
  pub slot : ℕ
  pub penalty : Option Engine7732PenaltyRecord
  pub timeliness : SlotStatus

unfoldable pub engine_7732_penalty_slot_snapshot : NodeState → ℕ → ℕ → PenaltySnapshot
engine_7732_penalty_slot_snapshot s slot current_unix_s = record {
  slot = slot;
  penalty = Maps.get slot s.engine_7732_penalties_by_slot;
  timeliness = engine_7732_slot_status_response s slot current_unix_s;
}

unfoldable pub engine_7732_get_payload_penalties_by_range_response :
    NodeState → (start_slot end_slot current_unix_s : ℕ) → Option (Window PenaltySnapshot)
engine_7732_get_payload_penalties_by_range_response s start_slot end_slot current_unix_s =
    slot_window (λ slot. engine_7732_penalty_slot_snapshot s slot current_unix_s) start_slot
      end_slot
