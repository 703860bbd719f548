-- ===== src/Devnet/Calls/Thawed.antt =====
-- eth2077-devnetd.rs: an update of the fork choice for another slot lifts the freeze of a list.
use eth.Prelude.{
  ℕ, ◌≡◌, ◌≢◌, refl, sym, ap, ◌∙◌, subst, Bool, false, Option, none, some, List, map, if◌then◌else◌,
  arith,
}
use eth.Devnet.Payloads.{
  Engine7732PenaltyRecord, NodeState, EngineTxMeta, PenaltyReason, violation, timeliness_recovered,
}
use eth.Devnet.Timeliness.{
  SlotStatus, orphan_roots, engine_7732_slot_deadline_unix_s, engine_7732_is_timeliness_violation,
  engine_7732_slot_status_response,
}
use eth.Devnet.Timeliness.Penalties.{update_penalty_rest}
use eth.Devnet.InclusionList.{
  ForkchoiceRequest, slot_or_required, tx_hash, apply_forkchoice, with_view, breaks_freeze,
  decide_update, engine_forkchoice_updated_response,
}
use eth.Devnet.InclusionList.Freeze.{Penalties, penalized, IsOpen, FrozenAt, apply_elsewhere-IsOpen}
use eth.Devnet.Calls.Frames.{with_focil, apply_rest}

abbrev Timely : NodeState → (slot now : ℕ) → Type 0
Timely s slot now =
    engine_7732_is_timeliness_violation (engine_7732_slot_status_response s slot now).aggregate
    ≡ false

-- The status reads the tables and the start of the node alone.
with_focil-Timely :
    (s t : NodeState) (m : Penalties) (slot now : ℕ)
    → Timely s slot now
    → Timely (with_focil (penalized s m) t) slot now
unfolding engine_7732_slot_status_response orphan_roots engine_7732_slot_deadline_unix_s
with_focil-Timely s t m slot now e = e

module _ (engine_inclusion_list_root : List ℕ → ℕ) where
  abbrev updated_by : NodeState → ForkchoiceRequest → NodeState
  updated_by s r = (engine_forkchoice_updated_response engine_inclusion_list_root s r).0

  decided :
      (bad : Bool) (s u : NodeState) (m : Penalties) (fc_slot : ℕ) (r : ForkchoiceRequest)
      (t : SlotStatus) (p : Option Engine7732PenaltyRecord)
      → bad ≡ false
      → u ≡ penalized s m
      → breaks_freeze engine_inclusion_list_root s fc_slot r.inclusion_list ≡ false
      → (decide_update engine_inclusion_list_root bad u fc_slot r t p).0
        ≡ apply_forkchoice engine_inclusion_list_root (penalized s m) fc_slot r
  unfolding decide_update breaks_freeze
  decided bad s u m fc_slot r t p timely e kept =
      ap (λ x. (decide_update engine_inclusion_list_root bad x fc_slot r t p).0) e
      ∙ rw (decide_update, timely, kept) refl

  -- A timely update that breaks no freeze is applied.
  applied :
      (s : NodeState) (r : ForkchoiceRequest) (fc_slot : ℕ)
      → slot_or_required r.slot s ≡ fc_slot
      → Timely s fc_slot r.current_unix_s
      → breaks_freeze engine_inclusion_list_root s fc_slot r.inclusion_list ≡ false
      → (m : Penalties) × (updated_by s r
          ≡ apply_forkchoice engine_inclusion_list_root (penalized s m) fc_slot r)
  unfolding engine_forkchoice_updated_response
  applied s r fc_slot at timely kept =
      let slot = slot_or_required r.slot s in
      let t = engine_7732_slot_status_response s slot r.current_unix_s in
      let bad = engine_7732_is_timeliness_violation t.aggregate in
      let reason : PenaltyReason =
        if bad then violation slot t.aggregate else timeliness_recovered in
      let (m, e) = update_penalty_rest s slot r.current_unix_s t.aggregate reason in
      (
        m,
        decided bad s _ m slot r t _ (subst (λ x. Timely s x r.current_unix_s) (sym at) timely) e (
              subst (λ x. breaks_freeze engine_inclusion_list_root s x r.inclusion_list ≡ false)
                (sym at) kept)
            ∙ ap (λ x. apply_forkchoice engine_inclusion_list_root (penalized s m) x r) at,
      )

  applied_list :
      (s : NodeState) (fc_slot : ℕ) (r : ForkchoiceRequest) (entries : List EngineTxMeta)
      → r.inclusion_list ≡ some entries
      → (apply_forkchoice engine_inclusion_list_root s fc_slot r).engine_required_il_txs
        ≡ map tx_hash entries
  unfolding apply_forkchoice with_view
  applied_list s fc_slot r entries e = rw e refl

  -- The list of a frozen view is replaced by two updates of the fork choice, where neither slot is
  -- in violation of timeliness: one that names another slot and brings no list, and then one for
  -- the frozen slot, whatever list it brings.
  pub frozen_list_replaced :
      (s : NodeState) (slot other : ℕ) (r q : ForkchoiceRequest) (entries : List EngineTxMeta)
      → FrozenAt engine_inclusion_list_root s slot
      → slot ≢ other
      → r.slot ≡ some other
      → r.inclusion_list ≡ none
      → q.slot ≡ some slot
      → q.inclusion_list ≡ some entries
      → engine_7732_is_timeliness_violation
          (engine_7732_slot_status_response s other r.current_unix_s).aggregate
        ≡ false
      → engine_7732_is_timeliness_violation
          (engine_7732_slot_status_response s slot q.current_unix_s).aggregate
        ≡ false
      → (updated_by (updated_by s r) q).engine_required_il_txs ≡ map tx_hash entries
  unfolding slot_or_required breaks_freeze
  frozen_list_replaced s slot other r q entries v ne r_slot r_list q_slot q_list timely timely' =
      let (m, e) = applied s r other (rw r_slot refl) timely (ground (arith, v.1, ne)) in
      let t = apply_forkchoice engine_inclusion_list_root (penalized s m) other r in
      let open_view : IsOpen t =
        apply_elsewhere-IsOpen engine_inclusion_list_root (penalized s m) slot other r v ne in
      let later : Timely t slot q.current_unix_s =
        subst (λ x. Timely x slot q.current_unix_s)
          (sym (apply_rest engine_inclusion_list_root (penalized s m) other r))
          (with_focil-Timely s t m slot q.current_unix_s timely') in
      let (m', e') = applied t q slot (rw q_slot refl) later (ground (arith, open_view.0)) in
      ap (λ x. (updated_by x q).engine_required_il_txs) e
      ∙ ap (λ x. x.engine_required_il_txs) e'
      ∙ applied_list (penalized t m') slot q entries q_list
