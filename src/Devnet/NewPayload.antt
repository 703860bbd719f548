-- ===== src/Devnet/NewPayload.antt =====
-- crates/eth2077-node/src/bin/eth2077-devnetd.rs: `engine_new_payload_response`, which holds a payload
-- against the required inclusion list and simulates the nonces and balances of the listed senders.
pub mod Matching
pub mod Simulating
pub mod Validity
use eth.Prelude.{
  ℕ, ◌+◌, ◌*◌, ◌-◌, ◌%◌, ◌^◌, Bool, true, false, not, ◌&&◌, ◌==◌, ltb, opt_beq, Option, none, some,
  List, [], ◌∷◌, ◌++◌, length, filter, any, map, if◌then◌else◌, sat_add64,
}
use eth.Prelude.Maps
use eth.Prelude.Maps.{nat_eq}
use eth.P2p.Gossip.{contains}
use eth.Devnet.Payloads.{
  EngineTxMeta, NodeState, Engine7732PenaltyRecord, TimelinessStatus, PenaltyReason, violation,
  timeliness_recovered,
}
use eth.Devnet.Timeliness.{
  SlotStatus, engine_7732_is_timeliness_violation, engine_7732_update_penalty_state,
  engine_7732_slot_status_response, is_empty,
}
use eth.Devnet.InclusionList.{slot_or_required, tx_hash, meta_of}

abbrev pub engine_block_gas_limit : ℕ
engine_block_gas_limit = 30000000

pub data MetaField : Type 0 where
  sender_field nonce_field gas_field gas_price_field value_field : MetaField

-- The texts that the code collects, by their cause.
pub data Check : Type 0 where
  mismatch : (hash : ℕ) → MetaField → (required got : ℕ) → Check
  missing : (hash : ℕ) → MetaField → Check
  invalid_sender : (hash : ℕ) → Check
  unexpected_nonce : (hash nonce expected : ℕ) → Check
  gas_above_block_limit : (hash gas_limit : ℕ) → Check
  insufficient_balance : (hash need have : ℕ) → Check
  payload_gas_above_block_limit : (total : ℕ) → Check

-- One comparison of a required field with the payload's.
unfoldable pub check_field : ℕ → MetaField → Option ℕ → Option ℕ → List Check
check_field hash field none got = []
check_field hash field (some required) none = missing hash field ∷ []
check_field hash field (some required) (some got) =
    if got == required then [] else mismatch hash field required got ∷ []

unfoldable pub check_meta : ℕ → EngineTxMeta → EngineTxMeta → List Check
check_meta hash required payload =
    check_field hash sender_field required.from payload.from
    ++ (check_field hash nonce_field required.nonce payload.nonce
        ++ (check_field hash gas_field required.gas_limit payload.gas_limit
            ++ (check_field hash gas_price_field required.gas_price payload.gas_price
                ++ check_field hash value_field required.value payload.value)))

abbrev pub check_known : ℕ → Option EngineTxMeta → Option EngineTxMeta → List Check
check_known hash none payload = []
check_known hash (some required) none = []
check_known hash (some required) (some payload) = check_meta hash required payload

unfoldable pub check_required :
    List (ℕ × EngineTxMeta) → List (ℕ × EngineTxMeta) → List ℕ → List Check
check_required required_meta payload_meta [] = []
check_required required_meta payload_meta (h ∷ hashes) =
    check_known h (Maps.get h required_meta) (Maps.get h payload_meta)
    ++ check_required required_meta payload_meta hashes

pub record Simulation : Type 0 where
  pub simulated_nonce : List (ℕ × ℕ)
  pub simulated_balance : List (ℕ × ℕ)
  pub total_known_gas : ℕ
  pub unknown_gas_count : ℕ
  pub checks : List Check

abbrev pub or_value : Option ℕ → ℕ → ℕ
or_value none d = d
or_value (some v) d = v

abbrev pub flag : Simulation → List Check → Simulation
flag sim found = record sim { checks = sim.checks ++ found }

abbrev pub count_gas : Simulation → Option ℕ → Simulation
count_gas sim none = record sim { unknown_gas_count = sim.unknown_gas_count + 1 }
count_gas sim (some gas_limit) = record sim {
  total_known_gas = sat_add64 sim.total_known_gas gas_limit;
}

abbrev pub check_gas : ℕ → Option ℕ → List Check
check_gas hash none = []
check_gas hash (some gas_limit) =
    if ltb engine_block_gas_limit gas_limit then gas_above_block_limit hash gas_limit ∷ [] else []

abbrev pub has_nonce : Option ℕ → ℕ → Bool
has_nonce none expected = true
has_nonce (some nonce) expected = nonce == expected

-- `U256` arithmetic wraps.
unfoldable pub required_wei : (gas_limit gas_price value : ℕ) → ℕ
required_wei gas_limit gas_price value = (gas_limit * gas_price + value) % 2 ^ 256

unfoldable pub charge : Simulation → ℕ → (from balance need : ℕ) → Simulation
charge sim hash from balance need =
    let held = record sim { simulated_balance = Maps.insert from balance sim.simulated_balance } in
    if ltb balance need
    then flag held (insufficient_balance hash need balance ∷ [])
    else record sim { simulated_balance = Maps.insert from (balance - need) sim.simulated_balance }

abbrev pub advance_nonce : Simulation → ℕ → ℕ → Option ℕ → Simulation
advance_nonce sim from expected none = sim
advance_nonce sim from expected (some nonce) = record sim {
  simulated_nonce = Maps.insert from (sat_add64 expected 1) sim.simulated_nonce;
}

pub record PayloadRequest : Type 0 where
  pub slot : Option ℕ
  pub current_unix_s : ℕ
  -- The hashes are distinct.
  pub transactions : List EngineTxMeta
  pub block_hash : Option ℕ

pub data PayloadStatus : Type 0 where
  untimely valid : PayloadStatus
  missing_transactions : List ℕ → PayloadStatus
  wrong_slot : (frozen_slot payload_slot : ℕ) → PayloadStatus
  failed_checks : List Check → PayloadStatus

pub record PayloadResponse : Type 0 where
  pub status : PayloadStatus
  pub latest_valid_hash : Option ℕ
  pub timeliness : SlotStatus
  pub penalty : Option Engine7732PenaltyRecord

abbrev pub payload_gas :
    Simulation → (entries : List EngineTxMeta) → (required : List ℕ) → List Check
payload_gas sim entries required =
    if (sim.unknown_gas_count == 0)
      && (not (is_empty (map tx_hash entries))
          && (ltb engine_block_gas_limit sim.total_known_gas && not (is_empty required)))
    then payload_gas_above_block_limit sim.total_known_gas ∷ []
    else []

abbrev pub judged : List Check → PayloadStatus
judged [] = valid
judged (check ∷ checks) = failed_checks (check ∷ checks)

abbrev pub frozen_elsewhere : Bool → Option ℕ → ℕ → Option ℕ
frozen_elsewhere false frozen_slot payload_slot = none
frozen_elsewhere true none payload_slot = none
frozen_elsewhere true (some frozen_slot) payload_slot =
    if payload_slot == frozen_slot then none else some frozen_slot

unfoldable pub missing_from : List ℕ → List EngineTxMeta → List ℕ
missing_from required entries = filter (λ tx. not (contains tx (map tx_hash entries))) required

-- Reading an address, and the nonce and balance of one in the database of revm.
module _ (address_from_hex : ℕ → Option ℕ) (account_nonce account_balance : ℕ → ℕ) where
  abbrev pub pay : Simulation → EngineTxMeta → (from address : ℕ) → Simulation
  pay sim entry from address = elim entry.gas_limit [
    | none ↦ sim
    | some gas_limit ↦ elim entry.gas_price [
      | none ↦ sim
      | some gas_price ↦ elim entry.value [
        | none ↦ sim
        | some value ↦
            charge sim entry.hash from
              (or_value (Maps.get from sim.simulated_balance) (account_balance address))
              (required_wei gas_limit gas_price value)
      ]
    ]
  ]

  abbrev pub nonce_mismatch : Simulation → EngineTxMeta → ℕ → Simulation
  nonce_mismatch sim entry expected =
      flag sim (unexpected_nonce entry.hash (or_value entry.nonce 0) expected ∷ [])

  -- A listed transaction whose sender is an address.
  unfoldable pub simulate_listed : Simulation → EngineTxMeta → (from address : ℕ) → Simulation
  simulate_listed sim entry from address =
      let expected = or_value (Maps.get from sim.simulated_nonce) (account_nonce address) in
      let entered = record sim {
        simulated_nonce = Maps.insert from expected sim.simulated_nonce;
      } in
      let paid = pay (flag entered (check_gas entry.hash entry.gas_limit)) entry from address in
      if has_nonce entry.nonce expected
      then advance_nonce paid from expected entry.nonce
      else nonce_mismatch entered entry expected

  unfoldable pub simulate_one : List ℕ → Simulation → EngineTxMeta → Simulation
  simulate_one required sim entry =
      let counted = count_gas sim entry.gas_limit in
      if not (contains entry.hash required) then counted else (elim entry.from [
        | none ↦ counted
        | some from ↦ elim (address_from_hex from) [
          | none ↦ flag counted (invalid_sender entry.hash ∷ [])
          | some address ↦ simulate_listed counted entry from address
        ]
      ])

  unfoldable pub simulate : List ℕ → Simulation → List EngineTxMeta → Simulation
  simulate required sim [] = sim
  simulate required sim (entry ∷ entries) =
      simulate required (simulate_one required sim entry) entries

  -- All checks of a payload that holds the whole list, in their order.
  unfoldable pub payload_checks : NodeState → List EngineTxMeta → List Check
  payload_checks s entries =
      let required = s.engine_required_il_txs in
      let sim =
        simulate required
          (record {
            simulated_nonce = [];
            simulated_balance = [];
            total_known_gas = 0;
            unknown_gas_count = 0;
            checks = check_required s.engine_required_il_meta (meta_of [] entries) required;
          })
          entries in
      sim.checks ++ payload_gas sim entries required

  -- The tests after the timeliness of the slot.
  unfoldable pub payload_status : NodeState → List EngineTxMeta → ℕ → PayloadStatus
  payload_status s entries payload_slot =
      let missing = missing_from s.engine_required_il_txs entries in
      if not (is_empty missing)
      then missing_transactions missing
      else (elim (frozen_elsewhere s.engine_focil_view_frozen s.engine_focil_frozen_slot
          payload_slot) [
            | some frozen_slot ↦ wrong_slot frozen_slot payload_slot
            | none ↦ judged (payload_checks s entries)
          ])

  unfoldable pub engine_new_payload_response :
      NodeState → PayloadRequest → NodeState × PayloadResponse
  unfolding payload_status
  engine_new_payload_response s r =
      let payload_slot = slot_or_required r.slot s in
      let timeliness = engine_7732_slot_status_response s payload_slot r.current_unix_s in
      let aggregate = timeliness.aggregate in
      let violating = engine_7732_is_timeliness_violation aggregate in
      let (s', penalty) =
        engine_7732_update_penalty_state s payload_slot aggregate
          (if violating then violation payload_slot aggregate else timeliness_recovered)
          r.current_unix_s in
      (
        s',
        record {
          status = if violating then untimely else payload_status s' r.transactions payload_slot;
          latest_valid_hash = r.block_hash;
          timeliness = timeliness;
          penalty = penalty;
        },
      )
