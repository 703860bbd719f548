-- ===== src/Devnet/Payloads.antt =====
-- crates/eth2077-node/src/bin/eth2077-devnetd.rs: the registration of payload headers and envelopes.
-- A call takes the record that its JSON request was read to, or the error of reading it. A 32-byte
-- hash, an address and a transaction hash are the numbers that their normalized texts spell.
pub mod Slots
pub mod Registry
pub mod History
use eth.Prelude.{
  ℕ, Bool, true, false, not, ◌&&◌, ◌||◌, ◌==◌, opt_beq, Option, none, some, List, [], ◌∷◌, ◌++◌,
  length, if◌then◌else◌,
}
use eth.Prelude.Maps
use eth.Prelude.Maps.{nat_eq}
use eth.P2p.Gossip.{contains}

pub record Engine7732HeaderRecord : Type 0 where
  pub slot : ℕ
  pub payload_header_root : ℕ
  pub parent_beacon_block_root : Option ℕ
  pub execution_block_hash : Option ℕ
  pub proposer : Option ℕ
  pub bid_value_wei : Option ℕ
  pub view_id : Option ℕ
  pub received_at_unix_s : ℕ

pub record Engine7732EnvelopeRecord : Type 0 where
  pub slot : ℕ
  pub payload_header_root : ℕ
  pub execution_block_hash : Option ℕ
  pub payload_body_hash : Option ℕ
  pub signer : Option ℕ
  pub data_available : Bool
  pub revealed_at_unix_s : ℕ

pub data TimelinessStatus : Type 0 where
  unknown orphan_envelope late_reveal revealed withheld partial_withhold : TimelinessStatus
  header_only partial_reveal : TimelinessStatus

pub data PenaltyState : Type 0 where
  active recovered : PenaltyState

-- The text of a reason is fixed by the status that it reports, or says that timeliness recovered.
pub data PenaltyReason : Type 0 where
  violation : (slot : ℕ) → TimelinessStatus → PenaltyReason
  timeliness_recovered : PenaltyReason

pub record Engine7732PenaltyRecord : Type 0 where
  pub slot : ℕ
  pub state : PenaltyState
  pub reason : PenaltyReason
  pub last_status : TimelinessStatus
  pub activated_at_unix_s : ℕ
  pub recovered_at_unix_s : Option ℕ

pub record EngineTxMeta : Type 0 where
  pub hash : ℕ
  pub from : Option ℕ
  pub nonce : Option ℕ
  pub gas_limit : Option ℕ
  pub gas_price : Option ℕ
  pub value : Option ℕ

-- The fields of the node that the engine lane reads or writes.
pub record NodeState : Type 0 where
  pub started_at_unix_s : ℕ
  pub current_height : ℕ
  pub engine_required_il_txs : List ℕ
  pub engine_required_il_meta : List (ℕ × EngineTxMeta)
  pub engine_required_il_slot : Option ℕ
  pub engine_required_il_updated_at_unix_s : Option ℕ
  pub engine_focil_committee : List ℕ
  pub engine_focil_view_frozen : Bool
  pub engine_focil_frozen_slot : Option ℕ
  pub engine_focil_frozen_il_root : Option ℕ
  pub engine_focil_view_id : Option ℕ
  pub engine_7732_headers_by_slot : List (ℕ × List ℕ)
  pub engine_7732_headers_by_root : List (ℕ × Engine7732HeaderRecord)
  pub engine_7732_envelopes_by_root : List (ℕ × Engine7732EnvelopeRecord)
  pub engine_7732_penalties_by_slot : List (ℕ × Engine7732PenaltyRecord)

-- The engine's fields when the node starts.
unfoldable pub initial_state : (started_at_unix_s : ℕ) → NodeState
initial_state started_at_unix_s = record {
  started_at_unix_s = started_at_unix_s;
  current_height = 0;
  engine_required_il_txs = [];
  engine_required_il_meta = [];
  engine_required_il_slot = none;
  engine_required_il_updated_at_unix_s = none;
  engine_focil_committee = [];
  engine_focil_view_frozen = false;
  engine_focil_frozen_slot = none;
  engine_focil_frozen_il_root = none;
  engine_focil_view_id = none;
  engine_7732_headers_by_slot = [];
  engine_7732_headers_by_root = [];
  engine_7732_envelopes_by_root = [];
  engine_7732_penalties_by_slot = [];
}

abbrev pub bool_beq : Bool → Bool → Bool
bool_beq true b = b
bool_beq false b = not b

unfoldable pub engine_7732_header_conflicts : Engine7732HeaderRecord → Engine7732HeaderRecord → Bool
engine_7732_header_conflicts existing incoming =
    not (existing.slot == incoming.slot)
    || (not (existing.payload_header_root == incoming.payload_header_root)
        || (not (opt_beq existing.parent_beacon_block_root incoming.parent_beacon_block_root)
            || (not (opt_beq existing.execution_block_hash incoming.execution_block_hash)
                || (not (opt_beq existing.proposer incoming.proposer)
                    || (not (opt_beq existing.bid_value_wei incoming.bid_value_wei)
                        || not (opt_beq existing.view_id incoming.view_id))))))

unfoldable pub engine_7732_envelope_conflicts :
    Engine7732EnvelopeRecord → Engine7732EnvelopeRecord → Bool
engine_7732_envelope_conflicts existing incoming =
    not (existing.slot == incoming.slot)
    || (not (existing.payload_header_root == incoming.payload_header_root)
        || (not (opt_beq existing.execution_block_hash incoming.execution_block_hash)
            || (not (opt_beq existing.payload_body_hash incoming.payload_body_hash)
                || (not (opt_beq existing.signer incoming.signer)
                    || not (bool_beq existing.data_available incoming.data_available)))))

pub data Parsed (R : Type 0) : Type 0 where
  unreadable : Parsed R
  read : R → Parsed R

pub data Replay : Type 0 where
  new duplicate : Replay

pub data HeaderResponse : Type 0 where
  missing_header : HeaderResponse
  conflicting_header : (root : ℕ) (existing incoming : Engine7732HeaderRecord) → HeaderResponse
  accepted_header :
      Replay
      → (slot root known_headers_at_slot : ℕ) (header : Engine7732HeaderRecord) → HeaderResponse

abbrev pub or_default : Option (List ℕ) → List ℕ
or_default none = []
or_default (some roots) = roots

-- `entry(slot).or_default()`, and the push of a root that is not there.
unfoldable pub slot_roots_with : ℕ → List ℕ → List ℕ
slot_roots_with root roots = if contains root roots then roots else roots ++ root ∷ []

abbrev pub roots_at : NodeState → ℕ → List ℕ
roots_at s slot = or_default (Maps.get slot s.engine_7732_headers_by_slot)

-- The state and the number of roots at the slot after the push.
abbrev pub with_slot_root : NodeState → ℕ → ℕ → NodeState × ℕ
with_slot_root s slot root =
    let roots = slot_roots_with root (roots_at s slot) in
    (
      record s {
        engine_7732_headers_by_slot = Maps.insert slot roots s.engine_7732_headers_by_slot;
      },
      length roots,
    )

unfoldable pub replayed_header :
    NodeState → ℕ → Engine7732HeaderRecord → Engine7732HeaderRecord → NodeState × HeaderResponse
replayed_header s root existing header =
    let (s', known) = with_slot_root s existing.slot root in
    if engine_7732_header_conflicts existing header
    then (s, conflicting_header root existing header)
    else (s', accepted_header duplicate existing.slot root known existing)

unfoldable pub new_header : NodeState → ℕ → Engine7732HeaderRecord → NodeState × HeaderResponse
new_header s root header =
    let stored = record s {
      engine_7732_headers_by_root = Maps.insert root header s.engine_7732_headers_by_root;
    } in
    let (s', known) = with_slot_root stored header.slot root in
    (s', accepted_header new header.slot root known header)

unfoldable pub engine_7732_register_payload_header_response :
    NodeState → Parsed Engine7732HeaderRecord → NodeState × HeaderResponse
engine_7732_register_payload_header_response s unreadable = (s, missing_header)
engine_7732_register_payload_header_response s (read header) =
    elim (Maps.get header.payload_header_root s.engine_7732_headers_by_root) [
      | some existing ↦ replayed_header s header.payload_header_root existing header
      | none ↦ new_header s header.payload_header_root header
    ]

pub data Linkage : Type 0 where
  linked orphan : Linkage

pub data EnvelopeResponse : Type 0 where
  missing_envelope : EnvelopeResponse
  slot_mismatch : (root header_slot envelope_slot : ℕ) → EnvelopeResponse
  conflicting_envelope :
      (root : ℕ) (existing incoming : Engine7732EnvelopeRecord) → EnvelopeResponse
  accepted_envelope :
      Replay → (slot root : ℕ) → Linkage → (envelope : Engine7732EnvelopeRecord) → EnvelopeResponse

-- After the test of the slot against a known header.
unfoldable pub register_envelope :
    NodeState → ℕ → Linkage → Engine7732EnvelopeRecord → NodeState × EnvelopeResponse
register_envelope s root linkage envelope = elim (Maps.get root s.engine_7732_envelopes_by_root) [
  | some existing ↦
      if engine_7732_envelope_conflicts existing envelope
      then (s, conflicting_envelope root existing envelope)
      else (s, accepted_envelope duplicate existing.slot root linkage existing)
  | none ↦ (
    record s {
      engine_7732_envelopes_by_root = Maps.insert root envelope s.engine_7732_envelopes_by_root;
    },
    accepted_envelope new envelope.slot root linkage envelope,
  )
]

unfoldable pub engine_7732_register_payload_envelope_response :
    NodeState → Parsed Engine7732EnvelopeRecord → NodeState × EnvelopeResponse
engine_7732_register_payload_envelope_response s unreadable = (s, missing_envelope)
engine_7732_register_payload_envelope_response s (read envelope) =
    let root = envelope.payload_header_root in
    elim (Maps.get root s.engine_7732_headers_by_root) [
      | none ↦ register_envelope s root orphan envelope
      | some header ↦
          let registered = register_envelope s root linked envelope in
          if header.slot == envelope.slot
          then registered
          else (s, slot_mismatch root header.slot envelope.slot)
    ]
