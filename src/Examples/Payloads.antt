-- ===== src/Examples/Payloads.antt =====
-- The engine lane of the development node, at one slot with a header and its envelope.
use eth.Prelude.{
  ℕ, ◌≡◌, ◌↔◌, refl, true, false, Option, none, some, List, [], ◌∷◌, length, arith, inr,
}
use eth.Prelude.Maps
use eth.Devnet.Payloads.{
  Engine7732HeaderRecord, Engine7732EnvelopeRecord, EngineTxMeta, NodeState, initial_state, read,
}
use eth.Devnet.Payloads.History.{Keeps, OrderMatters, slot_check_misses_orphans}
use eth.Devnet.Timeliness
use eth.Devnet.Timeliness.{
  Window, slot_window, engine_7732_is_timeliness_violation, engine_7732_slot_status_response,
}
use eth.Devnet.Timeliness.Reports.{Overdue, timeliness_violation_iff}
use eth.Devnet.Timeliness.Windows.{Covers, slot_window-Covers}
use eth.Devnet.InclusionList
use eth.Devnet.InclusionList.{
  ForkchoiceRequest, tx_hash, slot_or_required, engine_forkchoice_updated_response,
}
use eth.Devnet.InclusionList.Freeze.{StaysFrozen}
use eth.Devnet.NewPayload
use eth.Devnet.NewPayload.{PayloadRequest, valid, engine_new_payload_response}
use eth.Devnet.NewPayload.Validity.{Satisfies, valid_payload-Satisfies}
use eth.Devnet.Calls.{
  EngineCall, register_payload_header, register_payload_envelope, get_inclusion_list,
  forkchoice_updated, new_payload, handle_calls,
}
use eth.Devnet.Calls.Lane.{IsLane, reachable-IsLane, handle_calls-Keeps}
use eth.Devnet.Calls.Frozen.{frozen_list_stays}
use eth.Devnet.Calls.Thawed.{frozen_list_replaced}

abbrev header : ℕ → ℕ → Engine7732HeaderRecord
header slot root = record {
  slot = slot;
  payload_header_root = root;
  parent_beacon_block_root = none;
  execution_block_hash = none;
  proposer = some 9;
  bid_value_wei = some 100;
  view_id = none;
  received_at_unix_s = 1001;
}

abbrev envelope : ℕ → ℕ → ℕ → Engine7732EnvelopeRecord
envelope slot root revealed_at = record {
  slot = slot;
  payload_header_root = root;
  execution_block_hash = none;
  payload_body_hash = none;
  signer = some 9;
  data_available = true;
  revealed_at_unix_s = revealed_at;
}

abbrev listed_tx : EngineTxMeta
listed_tx = record {
  hash = 70;
  from = some 3;
  nonce = some 5;
  gas_limit = some 21000;
  gas_price = some 1;
  value = some 2;
}

abbrev update : ℕ → Option (List EngineTxMeta) → ForkchoiceRequest
update slot list = record {
  slot = some slot;
  view_id = none;
  current_unix_s = 1005;
  inclusion_list = list;
  committee = [];
  now_unix_s = 1005;
}

abbrev payload : PayloadRequest
payload = record {
  slot = some 1;
  current_unix_s = 1005;
  transactions = listed_tx ∷ [];
  block_hash = none;
}

abbrev sum : List ℕ → ℕ
sum l = length l

abbrev addressed : ℕ → Option ℕ
addressed a = some a

abbrev nonces : ℕ → ℕ
nonces a = 5

abbrev balances : ℕ → ℕ
balances a = 1000000

-- A frozen view of slot 1 with one listed transaction.
abbrev frozen : NodeState
frozen = record (initial_state 1000) {
  engine_required_il_txs = 70 ∷ [];
  engine_required_il_meta = (70, listed_tx) ∷ [];
  engine_required_il_slot = some 1;
  engine_focil_view_frozen = true;
  engine_focil_frozen_slot = some 1;
  engine_focil_frozen_il_root = some 1;
  engine_focil_view_id = some 1;
}

abbrev one_header : NodeState
one_header = record (initial_state 1000) {
  engine_7732_headers_by_slot = (1, 40 ∷ []) ∷ [];
  engine_7732_headers_by_root = (40, header 1 40) ∷ [];
}

abbrev calls : List EngineCall
calls =
    register_payload_header (read (header 1 40))
    ∷ forkchoice_updated (update 1 (some (listed_tx ∷ [])))
    ∷ get_inclusion_list none
    ∷ new_payload payload
    ∷ register_payload_envelope (read (envelope 1 40 1010))
    ∷ []

reachable-IsLane_example :
    IsLane sum (handle_calls sum addressed nonces balances (initial_state 1000) calls)
reachable-IsLane_example = reachable-IsLane sum addressed nonces balances 1000 calls

handle_calls-Keeps_example :
    Keeps one_header (handle_calls sum addressed nonces balances one_header calls)
handle_calls-Keeps_example = handle_calls-Keeps sum addressed nonces balances one_header calls

slot_check_misses_orphans_example :
    OrderMatters (initial_state 1000) (header 1 40) (envelope 2 40 1010)
unfolding initial_state Maps.get
slot_check_misses_orphans_example =
    slot_check_misses_orphans (initial_state 1000) (header 1 40) (envelope 2 40 1010) refl refl refl
      (λ e. omega (arith, e))

timeliness_violation_iff_example :
    (engine_7732_is_timeliness_violation
        (engine_7732_slot_status_response one_header 1 1030).aggregate
      ≡ true)
    ↔ Overdue one_header 1 1030
timeliness_violation_iff_example = timeliness_violation_iff one_header 1 1030

slot_window-Covers_example :
    (w : Window ℕ) × (slot_window (λ slot. slot) 10 500 ≡ some w) × Covers (λ slot. slot) 10 500 w
slot_window-Covers_example = slot_window-Covers (λ slot. slot) 10 500 (omega arith) (omega arith)

frozen_list_stays_example :
    StaysFrozen sum frozen 1 (handle_calls sum addressed nonces balances frozen calls)
unfolding initial_state
frozen_list_stays_example =
    frozen_list_stays sum addressed nonces balances 1 frozen calls (refl, refl, refl, refl)
      (tt, (inr refl, (tt, (tt, (tt, tt)))))

frozen_list_replaced_example :
    (engine_forkchoice_updated_response sum
      (engine_forkchoice_updated_response sum frozen (update 2 none)).0
      (update 1 (some []))).0.engine_required_il_txs
    ≡ []
unfolding initial_state Maps.get engine_7732_slot_status_response
    engine_7732_is_timeliness_violation Timeliness.reveals Timeliness.orphan_roots
    Timeliness.aggregate_status
frozen_list_replaced_example =
    frozen_list_replaced sum frozen 1 2 (update 2 none) (update 1 (some [])) []
      (refl, refl, refl, refl) (λ e. omega (arith, e)) refl refl refl refl refl refl

valid_payload-Satisfies_example :
    (engine_7732_is_timeliness_violation (engine_7732_slot_status_response frozen 1 1005).aggregate
      ≡ false)
    × Satisfies addressed nonces balances frozen (listed_tx ∷ []) 1
unfolding slot_or_required initial_state Maps.get Maps.insert engine_7732_slot_status_response
    engine_7732_is_timeliness_violation Timeliness.reveals Timeliness.orphan_roots
    Timeliness.aggregate_status engine_new_payload_response NewPayload.payload_status
    NewPayload.payload_checks NewPayload.missing_from NewPayload.check_required
    NewPayload.check_meta NewPayload.check_field NewPayload.simulate NewPayload.simulate_one
    NewPayload.simulate_listed NewPayload.charge NewPayload.required_wei InclusionList.meta_of
    Timeliness.engine_7732_update_penalty_state
valid_payload-Satisfies_example =
    valid_payload-Satisfies addressed nonces balances frozen payload refl
