-- ===== src/Devnet/InclusionList/Freeze.antt =====
-- eth2077-devnetd.rs: the frozen view of an inclusion list, and what thaws it.
use eth.Prelude.{
  ℕ, ◌≡◌, ◌≢◌, ◌⊎◌, refl, sym, ap, ◌∙◌, subst, Bool, true, false, not, ◌&&◌, ◌==◌, ==_iff, ==_refl,
  opt_beq, Option, none, some, List, map, if◌then◌else◌, arith, Bool-cases, inl, inr,
}
use eth.Devnet.Payloads.{
  Engine7732PenaltyRecord, EngineTxMeta, NodeState, PenaltyReason, violation, timeliness_recovered,
}
use eth.Devnet.Timeliness.{
  SlotStatus, engine_7732_is_timeliness_violation, engine_7732_slot_status_response,
  engine_7732_update_penalty_state,
}
use eth.Devnet.Timeliness.Penalties.{ArePenalties, update_penalty-ArePenalties, update_penalty_rest}
use eth.Devnet.InclusionList.{
  ForkchoiceRequest, decide_update, tx_hash, or_some, slot_or_required, thawed, with_view,
  with_list, freeze, changes_list, breaks_freeze, apply_forkchoice,
  engine_forkchoice_updated_response,
}

abbrev pub Penalties : Type 0
Penalties = List (ℕ × Engine7732PenaltyRecord)

abbrev pub penalized : NodeState → Penalties → NodeState
penalized s m = record s { engine_7732_penalties_by_slot = m }

abbrev pub IsOpen : NodeState → Type 0
IsOpen s =
    (s.engine_focil_view_frozen ≡ false)
    × (s.engine_focil_frozen_slot ≡ none)
    × (s.engine_focil_frozen_il_root ≡ none)

opt_beq-some : (o : Option ℕ) (b : ℕ) → opt_beq o (some b) ≡ true → o ≡ some b
opt_beq-some none b e = cc e
opt_beq-some (some a) b e = ap (λ x. some x) ((==_iff a b).0 e)

module _ (engine_inclusion_list_root : List ℕ → ℕ) where
  -- The view is frozen at the slot of the required list, with the root of that list.
  abbrev pub FrozenAt : NodeState → ℕ → Type 0
  FrozenAt s slot =
      (s.engine_focil_view_frozen ≡ true)
      × (s.engine_focil_frozen_slot ≡ some slot)
      × (s.engine_required_il_slot ≡ some slot)
      × (s.engine_focil_frozen_il_root ≡ some (engine_inclusion_list_root s.engine_required_il_txs))

  abbrev pub IsView : NodeState → Type 0
  IsView s = IsOpen s ⊎ ((slot : ℕ) × FrozenAt s slot)

  -- Reading a list freezes the view, leaves it frozen where it was, or does nothing.
  pub freeze-IsView :
      (s : NodeState) (slot : ℕ) → IsView s → IsView (freeze engine_inclusion_list_root s slot)
  unfolding freeze
  freeze-IsView s slot v = elim (Bool-cases (opt_beq s.engine_required_il_slot (some slot))) [
    | inl at ↦
        rw at (inr (slot, (refl, refl, opt_beq-some s.engine_required_il_slot slot at, refl)))
    | inr other ↦ rw other v
  ]

  -- An update stops after the penalty, or is applied to a view that it does not break.
  abbrev pub Applied : NodeState → ℕ → ForkchoiceRequest → NodeState → Type 0
  Applied s fc_slot r last =
      (last ≡ s)
      ⊎ ((breaks_freeze engine_inclusion_list_root s fc_slot r.inclusion_list ≡ false)
          × (last ≡ apply_forkchoice engine_inclusion_list_root s fc_slot r))

  decide_update-Applied :
      (bad : Bool) (s : NodeState) (fc_slot : ℕ) (r : ForkchoiceRequest) (t : SlotStatus)
      (p : Option Engine7732PenaltyRecord)
      → Applied s fc_slot r (decide_update engine_inclusion_list_root bad s fc_slot r t p).0
  unfolding decide_update
  decide_update-Applied true s fc_slot r t p = inl refl
  decide_update-Applied false s fc_slot r t p =
      elim (Bool-cases (breaks_freeze engine_inclusion_list_root s fc_slot r.inclusion_list)) [
        | inl broken ↦ inl (rw broken refl)
        | inr kept ↦ inr (kept, rw kept refl)
      ]

  pub forkchoice-Applied :
      (s : NodeState) (r : ForkchoiceRequest)
      → (m : Penalties) × (ArePenalties s → ArePenalties (penalized s m))
        × Applied
            (penalized s m)
            (slot_or_required r.slot s)
            r
            (engine_forkchoice_updated_response engine_inclusion_list_root s r).0
  unfolding engine_forkchoice_updated_response
  forkchoice-Applied s r =
      let fc_slot = slot_or_required r.slot s in
      let t = engine_7732_slot_status_response s fc_slot r.current_unix_s in
      let bad = engine_7732_is_timeliness_violation t.aggregate in
      let reason : PenaltyReason =
        if bad then violation fc_slot t.aggregate else timeliness_recovered in
      let u = engine_7732_update_penalty_state s fc_slot t.aggregate reason r.current_unix_s in
      let last = (decide_update engine_inclusion_list_root bad u.0 fc_slot r t u.1).0 in
      let (m, e) = update_penalty_rest s fc_slot r.current_unix_s t.aggregate reason in
      (
        m,
        (λ v.
            subst ArePenalties e
              (update_penalty-ArePenalties s fc_slot r.current_unix_s t.aggregate reason v)),
        subst (λ x. Applied x fc_slot r last) e (decide_update-Applied bad u.0 fc_slot r t u.1),
      )

  thawed_if :
      (s : NodeState) (fc_slot : ℕ)
      → (s.engine_focil_view_frozen && not (opt_beq s.engine_focil_frozen_slot (some fc_slot)))
        ≡ false
      → thawed s fc_slot ≡ s
  unfolding thawed
  thawed_if s fc_slot test = rw test refl

  thawed_elsewhere :
      (s : NodeState) (fc_slot : ℕ)
      → (s.engine_focil_view_frozen && not (opt_beq s.engine_focil_frozen_slot (some fc_slot)))
        ≡ true
      → IsOpen (thawed s fc_slot)
  unfolding thawed
  thawed_elsewhere s fc_slot test = rw test (refl, refl, refl)

  updated-IsOpen :
      (s : NodeState) (committee : List ℕ) (view_id : Option ℕ) (fc_slot now : ℕ)
      (list : Option (List EngineTxMeta))
      → IsOpen s
      → IsOpen (with_list (with_view s committee view_id) fc_slot now list)
  unfolding with_view
  updated-IsOpen s committee view_id fc_slot now none v = v
  updated-IsOpen s committee view_id fc_slot now (some entries) v = v

  apply-IsOpen :
      (s : NodeState) (fc_slot : ℕ) (r : ForkchoiceRequest)
      → IsOpen s
      → IsOpen (apply_forkchoice engine_inclusion_list_root s fc_slot r)
  unfolding apply_forkchoice
  apply-IsOpen s fc_slot r v =
      updated-IsOpen (thawed s fc_slot) r.committee (or_some r.view_id fc_slot) fc_slot r.now_unix_s
        r.inclusion_list (subst IsOpen (sym (thawed_if s fc_slot (ground (arith, v.0)))) v)

  pub apply_elsewhere-IsOpen :
      (s : NodeState) (slot fc_slot : ℕ) (r : ForkchoiceRequest)
      → FrozenAt s slot
      → slot ≢ fc_slot
      → IsOpen (apply_forkchoice engine_inclusion_list_root s fc_slot r)
  unfolding apply_forkchoice
  apply_elsewhere-IsOpen s slot fc_slot r v other =
      updated-IsOpen (thawed s fc_slot) r.committee (or_some r.view_id fc_slot) fc_slot r.now_unix_s
        r.inclusion_list (thawed_elsewhere s fc_slot (ground (arith, v.0, v.1, other)))

  -- The view stays frozen at its slot, on a list of the same root.
  abbrev pub StaysFrozen : NodeState → ℕ → NodeState → Type 0
  StaysFrozen s slot last =
      FrozenAt last slot
      × (engine_inclusion_list_root last.engine_required_il_txs
          ≡ engine_inclusion_list_root s.engine_required_il_txs)

  kept_root : (a : ℕ) (o : Option ℕ) (b : ℕ) → o ≡ some b → not (opt_beq (some a) o) ≡ false → a ≡ b
  kept_root a none b e test = cc e
  kept_root a (some c) b e test = ground (arith, e, test)

  updated-StaysFrozen :
      (s : NodeState) (slot now : ℕ) (committee : List ℕ) (view_id : Option ℕ)
      (list : Option (List EngineTxMeta))
      → FrozenAt s slot
      → changes_list engine_inclusion_list_root s.engine_focil_frozen_il_root list ≡ false
      → StaysFrozen s slot (with_list (with_view s committee view_id) slot now list)
  unfolding with_view
  updated-StaysFrozen s slot now committee view_id none v kept = (v, refl)
  updated-StaysFrozen s slot now committee view_id (some entries) v kept =
      let same : engine_inclusion_list_root (map tx_hash entries)
          ≡ engine_inclusion_list_root s.engine_required_il_txs =
        kept_root _ s.engine_focil_frozen_il_root _ v.3 kept in
      ((v.0, v.1, refl, v.3 ∙ ap (λ x. some x) (sym same)), same)

  pub apply_same-StaysFrozen :
      (s : NodeState) (slot : ℕ) (r : ForkchoiceRequest)
      → FrozenAt s slot
      → breaks_freeze engine_inclusion_list_root s slot r.inclusion_list ≡ false
      → StaysFrozen s slot (apply_forkchoice engine_inclusion_list_root s slot r)
  unfolding apply_forkchoice breaks_freeze
  apply_same-StaysFrozen s slot r v kept =
      let at : opt_beq s.engine_focil_frozen_slot (some slot) ≡ true =
        ground (arith, v.1, ==_refl slot) in
      let same = thawed_if s slot (ground (arith, v.0, at)) in
      subst
        (λ x. StaysFrozen s slot (
          with_list (with_view x r.committee (or_some r.view_id slot)) slot r.now_unix_s
            r.inclusion_list))
        (sym same)
        (updated-StaysFrozen s slot r.now_unix_s r.committee (or_some r.view_id slot)
          r.inclusion_list v (ground (arith, v.0, at, kept)))

  apply-IsView :
      (s : NodeState) (fc_slot : ℕ) (r : ForkchoiceRequest)
      → breaks_freeze engine_inclusion_list_root s fc_slot r.inclusion_list ≡ false
      → IsView s
      → IsView (apply_forkchoice engine_inclusion_list_root s fc_slot r)
  apply-IsView s fc_slot r kept (inl v) = inl (apply-IsOpen s fc_slot r v)
  apply-IsView s fc_slot r kept (inr (slot, v)) = elim (Bool-cases (slot == fc_slot)) [
    | inl same ↦
        let e : fc_slot ≡ slot = sym ((==_iff slot fc_slot).0 same) in
        inr (fc_slot, (apply_same-StaysFrozen s fc_slot r (subst (FrozenAt s) (sym e) v) kept).0)
    | inr other ↦ inl (apply_elsewhere-IsOpen s slot fc_slot r v (λ e. ground (arith, other, e)))
  ]

  pub forkchoice-IsView :
      (s : NodeState) (r : ForkchoiceRequest)
      → IsView s
      → IsView (engine_forkchoice_updated_response engine_inclusion_list_root s r).0
  forkchoice-IsView s r v =
      let fc_slot = slot_or_required r.slot s in
      let (m, coherent, applied) = forkchoice-Applied s r in
      elim applied [
        | inl same ↦ subst IsView (sym same) v
        | inr (kept, e) ↦ subst IsView (sym e) (apply-IsView (penalized s m) fc_slot r kept v)
      ]
