-- ===== src/Devnet/Calls/Lane.antt =====
-- eth2077-devnetd.rs: what every sequence of engine calls preserves.
use eth.Prelude.{ℕ, ◌≡◌, refl, sym, ◌∙◌, subst, Option, List, [], ◌∷◌, if◌then◌else◌, inl, inr}
use eth.Prelude.Maps
use eth.Prelude.Maps.{nat_eq}
use eth.Devnet.Payloads.{
  NodeState, initial_state, TimelinessStatus, PenaltyReason, violation, timeliness_recovered,
}
use eth.Devnet.Payloads.Slots.{IsRegistry}
use eth.Devnet.Payloads.Registry.{
  register_header-IsRegistry, register_payload_envelope-IsRegistry, initial_state-IsRegistry,
}
use eth.Devnet.Payloads.History.{
  Keeps, Keeps-refl, Keeps-trans, register_header-Keeps, register_payload_envelope-Keeps,
}
use eth.Devnet.Timeliness.{engine_7732_is_timeliness_violation, engine_7732_slot_status_response}
use eth.Devnet.Timeliness.Penalties.{ArePenalties, update_penalty-ArePenalties, update_penalty_rest}
use eth.Devnet.InclusionList.{
  ForkchoiceRequest, slot_or_required, freeze, apply_forkchoice, engine_get_inclusion_list_response,
  engine_forkchoice_updated_response,
}
use eth.Devnet.InclusionList.Freeze.{
  Penalties, penalized, IsView, freeze-IsView, forkchoice-IsView, forkchoice-Applied,
}
use eth.Devnet.NewPayload.{PayloadRequest, engine_new_payload_response}
use eth.Devnet.Calls.{
  EngineCall, register_payload_header, register_payload_envelope, get_inclusion_list,
  forkchoice_updated, new_payload, handle_call, handle_calls,
}
use eth.Devnet.Calls.Frames.{
  with_focil, freeze_rest, apply_rest, register_header_rest, register_payload_envelope_rest,
}

-- The invariant of the engine lane: the registered tables agree, the penalties are coherent, and a
-- frozen view is the one of the required list.
pub record IsLane (engine_inclusion_list_root : List ℕ → ℕ) (s : NodeState) : Type 0 where
  pub registry : IsRegistry s
  pub penalties : ArePenalties s
  pub view : IsView engine_inclusion_list_root s

with_focil-IsRegistry : (s t : NodeState) → IsRegistry s → IsRegistry (with_focil s t)
with_focil-IsRegistry s t v = record {
  listed = v.listed;
  stored = v.stored;
  distinct = v.distinct;
  header_root = v.header_root;
  envelope_root = v.envelope_root;
}

penalized-IsRegistry : (s : NodeState) (m : Penalties) → IsRegistry s → IsRegistry (penalized s m)
penalized-IsRegistry s m v = record {
  listed = v.listed;
  stored = v.stored;
  distinct = v.distinct;
  header_root = v.header_root;
  envelope_root = v.envelope_root;
}

with_focil-Keeps : (s t : NodeState) → Keeps s (with_focil s t)
with_focil-Keeps s t = record { headers = λ r h e. e; envelopes = λ r x e. e }

penalized-Keeps : (s : NodeState) (m : Penalties) → Keeps s (penalized s m)
penalized-Keeps s m = record { headers = λ r h e. e; envelopes = λ r x e. e }

abbrev reason_for : ℕ → TimelinessStatus → PenaltyReason
reason_for slot status =
    if engine_7732_is_timeliness_violation status
    then violation slot status
    else timeliness_recovered

module _ (engine_inclusion_list_root : List ℕ → ℕ) where
  -- An update of the fork choice keeps the invariant and the tables.
  forkchoice-IsLane :
      (s : NodeState) (r : ForkchoiceRequest)
      → IsLane engine_inclusion_list_root s
      → IsLane engine_inclusion_list_root
          (engine_forkchoice_updated_response engine_inclusion_list_root s r).0
  forkchoice-IsLane s r v =
      let (m, coherent, applied) = forkchoice-Applied engine_inclusion_list_root s r in
      let registry = penalized-IsRegistry s m v.registry in
      let view = forkchoice-IsView engine_inclusion_list_root s r v.view in
      let a =
        apply_forkchoice engine_inclusion_list_root (penalized s m) (slot_or_required r.slot s) r in
      let rest =
        apply_rest engine_inclusion_list_root (penalized s m) (slot_or_required r.slot s) r in
      elim applied [
        | inl same ↦ record {
          registry = subst IsRegistry (sym same) registry;
          penalties = subst ArePenalties (sym same) (coherent v.penalties);
          view = view;
        }
        | inr (kept, e) ↦ record {
          registry =
              subst IsRegistry (sym (e ∙ rest)) (with_focil-IsRegistry (penalized s m) a registry);
          penalties = subst ArePenalties (sym (e ∙ rest)) (coherent v.penalties);
          view = view;
        }
      ]

  forkchoice-Keeps :
      (s : NodeState) (r : ForkchoiceRequest)
      → Keeps s (engine_forkchoice_updated_response engine_inclusion_list_root s r).0
  forkchoice-Keeps s r =
      let (m, coherent, applied) = forkchoice-Applied engine_inclusion_list_root s r in
      let a =
        apply_forkchoice engine_inclusion_list_root (penalized s m) (slot_or_required r.slot s) r in
      let rest =
        apply_rest engine_inclusion_list_root (penalized s m) (slot_or_required r.slot s) r in
      elim applied [
        | inl same ↦ subst (Keeps s) (sym same) (penalized-Keeps s m)
        | inr (kept, e) ↦ subst (Keeps s) (sym (e ∙ rest)) (
            Keeps-trans s (penalized s m) (with_focil (penalized s m) a) (penalized-Keeps s m)
              (with_focil-Keeps (penalized s m) a))
      ]

  module _ (address_from_hex : ℕ → Option ℕ) (account_nonce account_balance : ℕ → ℕ) where
    -- A payload changes the penalties alone.
    pub new_payload_rest :
        (s : NodeState) (r : PayloadRequest)
        → (m : Penalties) × (ArePenalties s → ArePenalties (penalized s m))
          × ((engine_new_payload_response address_from_hex account_nonce account_balance s r).0
              ≡ penalized s m)
    unfolding engine_new_payload_response
    new_payload_rest s r =
        let slot = slot_or_required r.slot s in
        let status = (engine_7732_slot_status_response s slot r.current_unix_s).aggregate in
        let (m, e) = update_penalty_rest s slot r.current_unix_s status (reason_for slot status) in
        (
          m,
          (λ v. subst ArePenalties e (
              update_penalty-ArePenalties s slot r.current_unix_s status (reason_for slot status)
                v)),
          e,
        )

    handle_call-IsLane :
        (s : NodeState) (c : EngineCall)
        → IsLane engine_inclusion_list_root s
        → IsLane engine_inclusion_list_root (
            handle_call engine_inclusion_list_root address_from_hex account_nonce account_balance s
              c)
    unfolding handle_call engine_get_inclusion_list_response
    handle_call-IsLane s (register_payload_header p) v =
        let rest = register_header_rest s p in
        record {
          registry = register_header-IsRegistry s p v.registry;
          penalties = subst ArePenalties (sym rest) v.penalties;
          view = subst (IsView engine_inclusion_list_root) (sym rest) v.view;
        }
    handle_call-IsLane s (register_payload_envelope p) v =
        let rest = register_payload_envelope_rest s p in
        record {
          registry = register_payload_envelope-IsRegistry s p v.registry;
          penalties = subst ArePenalties (sym rest) v.penalties;
          view = subst (IsView engine_inclusion_list_root) (sym rest) v.view;
        }
    handle_call-IsLane s (get_inclusion_list slot) v =
        let requested = slot_or_required slot s in
        let rest = freeze_rest engine_inclusion_list_root s requested in
        record {
          registry =
              subst IsRegistry (sym rest) (
                with_focil-IsRegistry s (freeze engine_inclusion_list_root s requested) v.registry);
          penalties = subst ArePenalties (sym rest) v.penalties;
          view = freeze-IsView engine_inclusion_list_root s requested v.view;
        }
    handle_call-IsLane s (forkchoice_updated r) v = forkchoice-IsLane s r v
    handle_call-IsLane s (new_payload r) v =
        let (m, coherent, e) = new_payload_rest s r in
        record {
          registry = subst IsRegistry (sym e) (penalized-IsRegistry s m v.registry);
          penalties = subst ArePenalties (sym e) (coherent v.penalties);
          view = subst (IsView engine_inclusion_list_root) (sym e) v.view;
        }

    handle_call-Keeps :
        (s : NodeState) (c : EngineCall)
        → Keeps s (
            handle_call engine_inclusion_list_root address_from_hex account_nonce account_balance s
              c)
    unfolding handle_call engine_get_inclusion_list_response
    handle_call-Keeps s (register_payload_header p) = register_header-Keeps s p
    handle_call-Keeps s (register_payload_envelope p) = register_payload_envelope-Keeps s p
    handle_call-Keeps s (get_inclusion_list slot) =
        let requested = slot_or_required slot s in
        subst (Keeps s) (sym (freeze_rest engine_inclusion_list_root s requested))
          (with_focil-Keeps s (freeze engine_inclusion_list_root s requested))
    handle_call-Keeps s (forkchoice_updated r) = forkchoice-Keeps s r
    handle_call-Keeps s (new_payload r) =
        let (m, coherent, e) = new_payload_rest s r in subst (Keeps s) (sym e) (penalized-Keeps s m)

    abbrev after : NodeState → EngineCall → NodeState
    after = handle_call engine_inclusion_list_root address_from_hex account_nonce account_balance

    calls-IsLane :
        (s : NodeState) (cs : List EngineCall)
        → IsLane engine_inclusion_list_root s
        → IsLane engine_inclusion_list_root (
            handle_calls engine_inclusion_list_root address_from_hex account_nonce account_balance s
              cs)
    unfolding handle_calls
    calls-IsLane s [] v = v
    calls-IsLane s (c ∷ cs) v = calls-IsLane (after s c) cs (handle_call-IsLane s c v)

    initial_state-IsLane : (started : ℕ) → IsLane engine_inclusion_list_root (initial_state started)
    unfolding initial_state Maps.get
    initial_state-IsLane started = record {
      registry = initial_state-IsRegistry started;
      penalties = λ slot r e. cc e;
      view = inl (refl, refl, refl);
    }

    -- After any calls of the engine API to a started node: a root is listed at a slot, once,
    -- exactly when its stored header has that slot, and records stand under their own roots; a
    -- penalty is active exactly while its last status is a violation, and has an instant of
    -- recovery exactly otherwise; and the view is either open, or frozen at the slot of the
    -- required list with the root of that list.
    pub reachable-IsLane :
        (started : ℕ) (cs : List EngineCall)
        → IsLane engine_inclusion_list_root (
            handle_calls engine_inclusion_list_root address_from_hex account_nonce account_balance
              (initial_state started)
              cs)
    reachable-IsLane started cs =
        calls-IsLane (initial_state started) cs (initial_state-IsLane started)

    -- Whatever calls follow, a registered header or envelope is never replaced or lost.
    pub handle_calls-Keeps :
        (s : NodeState) (cs : List EngineCall)
        → Keeps s (
            handle_calls engine_inclusion_list_root address_from_hex account_nonce account_balance s
              cs)
    unfolding handle_calls
    handle_calls-Keeps s [] = Keeps-refl s
    handle_calls-Keeps s (c ∷ cs) =
        Keeps-trans s (after s c) _ (handle_call-Keeps s c) (handle_calls-Keeps (after s c) cs)
