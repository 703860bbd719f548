-- ===== src/Devnet/Calls/Frozen.antt =====
-- eth2077-devnetd.rs: how long a frozen inclusion list stays, and how it is replaced.
use eth.Prelude.{
  ℕ, ◌≡◌, ◌⊎◌, refl, sym, ap, ◌∙◌, subst, opt_beq, Option, none, some, List, [], ◌∷◌, All, arith,
  Bool-cases, inl, inr,
}
use eth.Devnet.Payloads.{NodeState}
use eth.Devnet.InclusionList.{
  ForkchoiceRequest, slot_or_required, freeze, engine_get_inclusion_list_response,
  engine_forkchoice_updated_response,
}
use eth.Devnet.InclusionList.Freeze.{
  penalized, Applied, FrozenAt, StaysFrozen, forkchoice-Applied, apply_same-StaysFrozen,
}
use eth.Devnet.Calls.{
  EngineCall, register_payload_header, register_payload_envelope, get_inclusion_list,
  forkchoice_updated, new_payload, handle_call, handle_calls,
}
use eth.Devnet.Calls.Frames.{register_header_rest, register_payload_envelope_rest}
use eth.Devnet.Calls.Lane.{new_payload_rest}

-- Every call but an update of the fork choice for another slot.
abbrev pub Targets : ℕ → EngineCall → Type 0
Targets slot (forkchoice_updated r) = (r.slot ≡ none) ⊎ (r.slot ≡ some slot)
Targets slot _ = Unit {0}

slot_of_frozen :
    (s : NodeState) (slot : ℕ) (o : Option ℕ)
    → s.engine_required_il_slot ≡ some slot
    → (o ≡ none) ⊎ (o ≡ some slot)
    → slot_or_required o s ≡ slot
unfolding slot_or_required
slot_of_frozen s slot o at (inl unsaid) = rw (unsaid, at) refl
slot_of_frozen s slot o at (inr said) = rw said refl

module _ (engine_inclusion_list_root : List ℕ → ℕ) where
  freeze-StaysFrozen :
      (s : NodeState) (slot requested : ℕ)
      → FrozenAt engine_inclusion_list_root s slot
      → StaysFrozen engine_inclusion_list_root s slot
          (freeze engine_inclusion_list_root s requested)
  unfolding freeze
  freeze-StaysFrozen s slot requested v =
      elim (Bool-cases (opt_beq s.engine_required_il_slot (some requested))) [
        | inl at ↦
            let same : requested ≡ slot = ground (arith, at, v.2) in
            rw at ((refl, ap (λ x. some x) same, v.2, refl), refl)
        | inr other ↦ rw other (v, refl)
      ]

  forkchoice-StaysFrozen :
      (s : NodeState) (slot : ℕ) (r : ForkchoiceRequest)
      → FrozenAt engine_inclusion_list_root s slot
      → slot_or_required r.slot s ≡ slot
      → StaysFrozen engine_inclusion_list_root s slot
          (engine_forkchoice_updated_response engine_inclusion_list_root s r).0
  forkchoice-StaysFrozen s slot r v at =
      let (m, coherent, applied) = forkchoice-Applied engine_inclusion_list_root s r in
      elim (subst
        (λ x.
          Applied engine_inclusion_list_root (penalized s m) x r
            (engine_forkchoice_updated_response engine_inclusion_list_root s r).0)
        at applied) [
          | inl same ↦ subst (StaysFrozen engine_inclusion_list_root s slot) (sym same) (v, refl)
          | inr (kept, e) ↦
              subst (StaysFrozen engine_inclusion_list_root s slot) (sym e)
                (apply_same-StaysFrozen engine_inclusion_list_root (penalized s m) slot r v kept)
        ]

  module _ (address_from_hex : ℕ → Option ℕ) (account_nonce account_balance : ℕ → ℕ) where
    abbrev after : NodeState → EngineCall → NodeState
    after = handle_call engine_inclusion_list_root address_from_hex account_nonce account_balance

    handle_call-StaysFrozen :
        (s : NodeState) (slot : ℕ) (c : EngineCall)
        → FrozenAt engine_inclusion_list_root s slot
        → Targets slot c
        → StaysFrozen engine_inclusion_list_root s slot (after s c)
    unfolding handle_call engine_get_inclusion_list_response
    handle_call-StaysFrozen s slot (register_payload_header p) v t =
        subst (StaysFrozen engine_inclusion_list_root s slot) (sym (register_header_rest s p))
          (v, refl)
    handle_call-StaysFrozen s slot (register_payload_envelope p) v t =
        subst (StaysFrozen engine_inclusion_list_root s slot)
          (sym (register_payload_envelope_rest s p)) (v, refl)
    handle_call-StaysFrozen s slot (get_inclusion_list o) v t =
        freeze-StaysFrozen s slot (slot_or_required o s) v
    handle_call-StaysFrozen s slot (forkchoice_updated r) v t =
        forkchoice-StaysFrozen s slot r v (slot_of_frozen s slot r.slot v.2 t)
    handle_call-StaysFrozen s slot (new_payload r) v t =
        let (m, coherent, e) =
          new_payload_rest engine_inclusion_list_root address_from_hex account_nonce account_balance
            s r in
        subst (StaysFrozen engine_inclusion_list_root s slot) (sym e) (v, refl)

    -- While no update of the fork choice names another slot, a frozen view stays frozen at its
    -- slot, and its inclusion list keeps its root, whatever calls arrive.
    pub frozen_list_stays :
        (slot : ℕ) (s : NodeState) (cs : List EngineCall)
        → FrozenAt engine_inclusion_list_root s slot
        → All (Targets slot) cs
        → StaysFrozen engine_inclusion_list_root s slot (
            handle_calls engine_inclusion_list_root address_from_hex account_nonce account_balance s
              cs)
    unfolding handle_calls
    frozen_list_stays slot s [] v t = (v, refl)
    frozen_list_stays slot s (c ∷ cs) v t =
        let (v', same) = handle_call-StaysFrozen s slot c v t.0 in
        let (last, kept) = frozen_list_stays slot (after s c) cs v' t.1 in (last, kept ∙ same)
