-- ===== src/Devnet/Calls/Frames.antt =====
-- eth2077-devnetd.rs: which fields of the node each engine call leaves alone.
use eth.Prelude.{
  ℕ, ◌≡◌, refl, ap, not, ◌&&◌, opt_beq, ◌==◌, Option, none, some, List, Bool-cases, Option-cases,
  inl, inr,
}
use eth.Prelude.Maps
use eth.Prelude.Maps.{nat_eq}
use eth.Devnet.Payloads.{
  Engine7732HeaderRecord, Engine7732EnvelopeRecord, EngineTxMeta, NodeState, Parsed, unreadable,
  read, Linkage, linked, orphan, engine_7732_header_conflicts, engine_7732_envelope_conflicts,
  replayed_header, new_header, register_envelope, engine_7732_register_payload_header_response,
  engine_7732_register_payload_envelope_response,
}
use eth.Devnet.InclusionList.{
  ForkchoiceRequest, thawed, with_view, with_list, freeze, or_some, apply_forkchoice,
}

-- One state with the inclusion-list fields, or the registered tables, of another.
abbrev pub with_focil : NodeState → NodeState → NodeState
with_focil s t = record s {
  engine_required_il_txs = t.engine_required_il_txs;
  engine_required_il_meta = t.engine_required_il_meta;
  engine_required_il_slot = t.engine_required_il_slot;
  engine_required_il_updated_at_unix_s = t.engine_required_il_updated_at_unix_s;
  engine_focil_committee = t.engine_focil_committee;
  engine_focil_view_frozen = t.engine_focil_view_frozen;
  engine_focil_frozen_slot = t.engine_focil_frozen_slot;
  engine_focil_frozen_il_root = t.engine_focil_frozen_il_root;
  engine_focil_view_id = t.engine_focil_view_id;
}

abbrev pub with_tables : NodeState → NodeState → NodeState
with_tables s t = record s {
  engine_7732_headers_by_slot = t.engine_7732_headers_by_slot;
  engine_7732_headers_by_root = t.engine_7732_headers_by_root;
  engine_7732_envelopes_by_root = t.engine_7732_envelopes_by_root;
}

thawed_rest : (s : NodeState) (fc_slot : ℕ) → thawed s fc_slot ≡ with_focil s (thawed s fc_slot)
unfolding thawed
thawed_rest s fc_slot =
    elim (Bool-cases
      (s.engine_focil_view_frozen && not (opt_beq s.engine_focil_frozen_slot (some fc_slot)))) [
        | inl leaves ↦ rw leaves refl
        | inr stays ↦ rw stays refl
      ]

updated_rest :
    (s t : NodeState) (committee : List ℕ) (view_id : Option ℕ) (slot now : ℕ)
    (list : Option (List EngineTxMeta))
    → t ≡ with_focil s t
    → with_list (with_view t committee view_id) slot now list
      ≡ with_focil s (with_list (with_view t committee view_id) slot now list)
unfolding with_view
updated_rest s t committee view_id slot now none e =
    ap (λ x. with_list (with_view x committee view_id) slot now none) e
updated_rest s t committee view_id slot now (some entries) e =
    ap (λ x. with_list (with_view x committee view_id) slot now (some entries)) e

module _ (engine_inclusion_list_root : List ℕ → ℕ) where
  pub freeze_rest :
      (s : NodeState) (slot : ℕ)
      → freeze engine_inclusion_list_root s slot
        ≡ with_focil s (freeze engine_inclusion_list_root s slot)
  unfolding freeze
  freeze_rest s slot = elim (Bool-cases (opt_beq s.engine_required_il_slot (some slot))) [
    | inl at ↦ rw at refl
    | inr other ↦ rw other refl
  ]

  pub apply_rest :
      (s : NodeState) (fc_slot : ℕ) (r : ForkchoiceRequest)
      → apply_forkchoice engine_inclusion_list_root s fc_slot r
        ≡ with_focil s (apply_forkchoice engine_inclusion_list_root s fc_slot r)
  unfolding apply_forkchoice
  apply_rest s fc_slot r =
      updated_rest s (thawed s fc_slot) r.committee (or_some r.view_id fc_slot) fc_slot r.now_unix_s
        r.inclusion_list (thawed_rest s fc_slot)

replayed_rest :
    (s : NodeState) (existing header : Engine7732HeaderRecord) (root : ℕ)
    → (replayed_header s root existing header).0
      ≡ with_tables s (replayed_header s root existing header).0
unfolding replayed_header
replayed_rest s existing header root =
    elim (Bool-cases (engine_7732_header_conflicts existing header)) [
      | inl conflict ↦ rw conflict refl
      | inr agrees ↦ rw agrees refl
    ]

pub register_header_rest :
    (s : NodeState) (p : Parsed Engine7732HeaderRecord)
    → (engine_7732_register_payload_header_response s p).0
      ≡ with_tables s (engine_7732_register_payload_header_response s p).0
unfolding engine_7732_register_payload_header_response new_header
register_header_rest s unreadable = refl
register_header_rest s (read h) =
    elim (Option-cases (Maps.get h.payload_header_root s.engine_7732_headers_by_root)) [
      | inl free ↦ rw (engine_7732_register_payload_header_response, free) refl
      | inr (existing, at) ↦
          rw (engine_7732_register_payload_header_response, at)
            (replayed_rest s existing h h.payload_header_root)
    ]

register_envelope_rest :
    (s : NodeState) (root : ℕ) (linkage : Linkage) (e : Engine7732EnvelopeRecord)
    → (register_envelope s root linkage e).0 ≡ with_tables s (register_envelope s root linkage e).0
unfolding register_envelope
register_envelope_rest s root linkage e =
    elim (Option-cases (Maps.get root s.engine_7732_envelopes_by_root)) [
      | inl free ↦ rw (register_envelope, free) refl
      | inr (existing, at) ↦ elim (Bool-cases (engine_7732_envelope_conflicts existing e)) [
        | inl conflict ↦ rw (register_envelope, at, conflict) refl
        | inr agrees ↦ rw (register_envelope, at, agrees) refl
      ]
    ]

pub register_payload_envelope_rest :
    (s : NodeState) (p : Parsed Engine7732EnvelopeRecord)
    → (engine_7732_register_payload_envelope_response s p).0
      ≡ with_tables s (engine_7732_register_payload_envelope_response s p).0
unfolding engine_7732_register_payload_envelope_response
register_payload_envelope_rest s unreadable = refl
register_payload_envelope_rest s (read e) =
    elim (Option-cases (Maps.get e.payload_header_root s.engine_7732_headers_by_root)) [
      | inl free ↦
          rw (engine_7732_register_payload_envelope_response, free)
            (register_envelope_rest s e.payload_header_root orphan e)
      | inr (header, at) ↦ elim (Bool-cases (header.slot == e.slot)) [
        | inl same ↦
            rw (engine_7732_register_payload_envelope_response, at, same)
              (register_envelope_rest s e.payload_header_root linked e)
        | inr other ↦ rw (engine_7732_register_payload_envelope_response, at, other) refl
      ]
    ]
