-- ===== src/Devnet/InclusionList.antt =====
-- crates/eth2077-node/src/bin/eth2077-devnetd.rs: the calls of the engine API that read, set and
-- enforce the inclusion list of a slot. A call takes the fields that its JSON request was read to.
pub mod Freeze
use eth.Prelude.{
  ℕ, ◌+◌, ◌*◌, ◌-◌, ◌%◌, ◌^◌, Bool, true, false, not, ◌&&◌, ◌==◌, ltb, opt_beq, Option, none, some,
  List, [], ◌∷◌, ◌++◌, length, filter, any, map, if◌then◌else◌, u64_max, sat_add64,
}
use eth.Prelude.Maps
use eth.Prelude.Maps.{nat_eq}
use eth.P2p.Gossip.{contains}
use eth.Devnet.Payloads.{
  EngineTxMeta, NodeState, Engine7732PenaltyRecord, TimelinessStatus, PenaltyReason, violation,
  timeliness_recovered,
}
use eth.Devnet.Timeliness.{
  SlotStatus, engine_7732_is_timeliness_violation, engine_7732_update_penalty_state,
  engine_7732_slot_status_response, is_empty, known,
}

abbrev pub first : Option ℕ → Option ℕ → ℕ → ℕ
first (some slot) il_slot next = slot
first none (some slot) next = slot
first none none next = next

-- `slot.or(state.engine_required_il_slot).unwrap_or(state.current_height.saturating_add(1))`.
unfoldable pub slot_or_required : Option ℕ → NodeState → ℕ
slot_or_required slot s = first slot s.engine_required_il_slot (sat_add64 s.current_height 1)

pub record Focil : Type 0 where
  pub required_transactions : ℕ
  pub slot : Option ℕ
  pub view_id : Option ℕ
  pub view_frozen : Bool
  pub committee_size : ℕ
  pub frozen_inclusion_list_root : Option ℕ

unfoldable pub focil : NodeState → Focil
focil s = record {
  required_transactions = length s.engine_required_il_txs;
  slot = s.engine_required_il_slot;
  view_id = s.engine_focil_view_id;
  view_frozen = s.engine_focil_view_frozen;
  committee_size = length s.engine_focil_committee;
  frozen_inclusion_list_root = s.engine_focil_frozen_il_root;
}

pub record ForkchoiceRequest : Type 0 where
  pub slot : Option ℕ
  pub view_id : Option ℕ
  pub current_unix_s : ℕ
  -- none where the attributes hold no list; the hashes of a list are distinct.
  pub inclusion_list : Option (List EngineTxMeta)
  pub committee : List ℕ
  pub now_unix_s : ℕ

pub data ForkchoiceResponse : Type 0 where
  untimely : SlotStatus → Option Engine7732PenaltyRecord → ForkchoiceResponse
  frozen_list : Focil → ForkchoiceResponse
  updated : SlotStatus → Option Engine7732PenaltyRecord → Focil → ForkchoiceResponse

pub record InclusionList : Type 0 where
  pub slot : ℕ
  pub transactions : List ℕ
  pub transaction_details : List EngineTxMeta
  pub committee : List ℕ
  pub view_id : Option ℕ
  pub frozen : Bool
  pub frozen_slot : Option ℕ
  pub inclusion_list_root : Option ℕ

abbrev pub tx_hash : EngineTxMeta → ℕ
tx_hash entry = entry.hash

unfoldable pub details : List (ℕ × EngineTxMeta) → List ℕ → List EngineTxMeta
details meta [] = []
details meta (h ∷ hashes) = elim (Maps.get h meta) [
  | none ↦ details meta hashes
  | some entry ↦ entry ∷ details meta hashes
]

-- `HashMap::insert` of each entry under its hash, in order.
unfoldable pub meta_of : List (ℕ × EngineTxMeta) → List EngineTxMeta → List (ℕ × EngineTxMeta)
meta_of meta [] = meta
meta_of meta (entry ∷ entries) = meta_of (Maps.insert entry.hash entry meta) entries

abbrev pub or_some : Option ℕ → ℕ → Option ℕ
or_some none b = some b
or_some (some a) b = some a

-- Leaving the frozen slot thaws the view.
unfoldable pub thawed : NodeState → ℕ → NodeState
thawed s fc_slot =
    if s.engine_focil_view_frozen && not (opt_beq s.engine_focil_frozen_slot (some fc_slot))
    then record s {
      engine_focil_view_frozen = false;
      engine_focil_frozen_slot = none;
      engine_focil_frozen_il_root = none;
    }
    else s

unfoldable pub with_view : NodeState → List ℕ → Option ℕ → NodeState
with_view s committee view_id = record s {
  engine_focil_committee = if is_empty committee then s.engine_focil_committee else committee;
  engine_focil_view_id = view_id;
}

abbrev pub with_list : NodeState → ℕ → ℕ → Option (List EngineTxMeta) → NodeState
with_list s fc_slot now none = s
with_list s fc_slot now (some entries) = record s {
  engine_required_il_txs = map tx_hash entries;
  engine_required_il_meta = meta_of [] entries;
  engine_required_il_slot = some fc_slot;
  engine_required_il_updated_at_unix_s = some now;
}

-- Keccak-256 of the hashes joined by commas.
module _ (engine_inclusion_list_root : List ℕ → ℕ) where
  -- What the reading of the required list at its slot records.
  unfoldable pub freeze : NodeState → ℕ → NodeState
  freeze s requested_slot =
      if opt_beq s.engine_required_il_slot (some requested_slot)
      then record s {
        engine_focil_view_frozen = true;
        engine_focil_frozen_slot = some requested_slot;
        engine_focil_frozen_il_root = some (engine_inclusion_list_root s.engine_required_il_txs);
        engine_focil_view_id = or_some s.engine_focil_view_id requested_slot;
      }
      else s

  unfoldable pub engine_get_inclusion_list_response :
      NodeState → Option ℕ → NodeState × InclusionList
  unfolding freeze
  engine_get_inclusion_list_response s slot =
      let requested_slot = slot_or_required slot s in
      let s' = freeze s requested_slot in
      (
        s',
        record {
          slot = requested_slot;
          transactions = s'.engine_required_il_txs;
          transaction_details = details s'.engine_required_il_meta s'.engine_required_il_txs;
          committee = s'.engine_focil_committee;
          view_id = s'.engine_focil_view_id;
          frozen = s'.engine_focil_view_frozen;
          frozen_slot = s'.engine_focil_frozen_slot;
          inclusion_list_root = s'.engine_focil_frozen_il_root;
        },
      )

  abbrev pub changes_list : Option ℕ → Option (List EngineTxMeta) → Bool
  changes_list root none = false
  changes_list root (some entries) =
      not (opt_beq (some (engine_inclusion_list_root (map tx_hash entries))) root)

  -- The test of an update against a frozen list.
  unfoldable pub breaks_freeze : NodeState → ℕ → Option (List EngineTxMeta) → Bool
  breaks_freeze s fc_slot inclusion_list =
      s.engine_focil_view_frozen
      && (opt_beq s.engine_focil_frozen_slot (some fc_slot)
          && changes_list s.engine_focil_frozen_il_root inclusion_list)

  unfoldable pub apply_forkchoice : NodeState → ℕ → ForkchoiceRequest → NodeState
  apply_forkchoice s fc_slot r =
      with_list (with_view (thawed s fc_slot) r.committee (or_some r.view_id fc_slot)) fc_slot
        r.now_unix_s r.inclusion_list

  -- What follows the update of the penalty.
  unfoldable pub decide_update :
      (violating : Bool)
      → NodeState
      → (fc_slot : ℕ) → ForkchoiceRequest
      → SlotStatus
      → Option Engine7732PenaltyRecord
      → NodeState × ForkchoiceResponse
  decide_update violating s fc_slot r timeliness penalty =
      let last = apply_forkchoice s fc_slot r in
      if violating
      then (s, untimely timeliness penalty)
      else if breaks_freeze s fc_slot r.inclusion_list
      then (s, frozen_list (focil s))
      else (last, updated timeliness penalty (focil last))

  unfoldable pub engine_forkchoice_updated_response :
      NodeState → ForkchoiceRequest → NodeState × ForkchoiceResponse
  engine_forkchoice_updated_response s r =
      let fc_slot = slot_or_required r.slot s in
      let timeliness = engine_7732_slot_status_response s fc_slot r.current_unix_s in
      let status = timeliness.aggregate in
      let violating = engine_7732_is_timeliness_violation status in
      let (s', penalty) =
        engine_7732_update_penalty_state s fc_slot status
          (if violating then violation fc_slot status else timeliness_recovered) r.current_unix_s in
      decide_update violating s' fc_slot r timeliness penalty
