-- ===== src/Devnet/NewPayload/Validity.antt =====
-- eth2077-devnetd.rs: what a payload that is answered VALID has gone through.
use mathlib.Core.List.{Memᴰ}
use eth.Prelude.{
  ℕ, ◌≡◌, refl, subst, Bool, true, false, Option, none, some, List, [], ◌∷◌, All, map,
  if◌then◌else◌, arith, Bool-cases, Option-cases, inl, inr,
}
use eth.Prelude.Maps
use eth.Prelude.Maps.{nat_eq, get-insert}
use eth.P2p.Gossip.{contains}
use eth.Devnet.Payloads.{
  EngineTxMeta, NodeState, Engine7732PenaltyRecord, PenaltyReason, violation, timeliness_recovered,
}
use eth.Devnet.Timeliness.{
  engine_7732_is_timeliness_violation, engine_7732_slot_status_response,
  engine_7732_update_penalty_state, is_empty,
}
use eth.Devnet.Timeliness.Penalties.{update_penalty_rest}
use eth.Devnet.InclusionList.{slot_or_required, tx_hash, meta_of}
use eth.Devnet.NewPayload.{
  Check, PayloadRequest, untimely, valid, payload_checks, judged, frozen_elsewhere, missing_from,
  payload_status, engine_new_payload_response,
}
use eth.Devnet.NewPayload.Matching.{
  Agrees, append_nil, meta_found, check_required-Agrees, missing_none,
}
use eth.Devnet.NewPayload.Simulating.{SenderFits, simulate-SenderFits}

module _ (address_from_hex : ℕ → Option ℕ) (account_nonce account_balance : ℕ → ℕ) where
  -- The payload holds every listed transaction, as the list describes it, and it is for the frozen slot.
  pub record Satisfies (s : NodeState) (entries : List EngineTxMeta) (payload_slot : ℕ)
      : Type 0 where
    pub included :
        (h : ℕ) (required : EngineTxMeta)
        → contains h s.engine_required_il_txs ≡ true
        → Maps.get h s.engine_required_il_meta ≡ some required
        → (entry : EngineTxMeta) × Memᴰ entry entries × (entry.hash ≡ h) × Agrees required entry
    pub senders :
        All
          (SenderFits address_from_hex account_nonce account_balance s.engine_required_il_txs)
          entries
    pub all_listed :
        (h : ℕ)
        → contains h s.engine_required_il_txs ≡ true
        → contains h (map tx_hash entries) ≡ true
    pub at_frozen_slot :
        (k : ℕ)
        → s.engine_focil_view_frozen ≡ true
        → s.engine_focil_frozen_slot ≡ some k
        → payload_slot ≡ k

  judged_valid : (checks : List Check) → judged checks ≡ valid → checks ≡ []
  judged_valid [] e = refl
  judged_valid (c ∷ checks) e = cc e

  elsewhere_slot :
      (frozen : Bool) (frozen_slot : Option ℕ) (slot k : ℕ)
      → frozen_elsewhere frozen frozen_slot slot ≡ none
      → frozen ≡ true
      → frozen_slot ≡ some k
      → slot ≡ k
  elsewhere_slot false o slot k e f at = cc f
  elsewhere_slot true none slot k e f at = cc at
  elsewhere_slot true (some x) slot k e f at = ground (arith, e, at)

  checked-Satisfies :
      (s : NodeState) (entries : List EngineTxMeta) (slot : ℕ)
      → payload_checks address_from_hex account_nonce account_balance s entries ≡ []
      → is_empty (missing_from s.engine_required_il_txs entries) ≡ true
      → frozen_elsewhere s.engine_focil_view_frozen s.engine_focil_frozen_slot slot ≡ none
      → Satisfies s entries slot
  unfolding payload_checks
  checked-Satisfies s entries slot e complete here =
      let required = s.engine_required_il_txs in
      let (simulated, gas) = append_nil _ _ e in
      let (compared, fits) =
        simulate-SenderFits address_from_hex account_nonce account_balance required _ entries
          simulated in
      let listed = missing_none required entries complete in
      record {
        included = λ h m c at.
            let (entry, found, mem, same) = meta_found h [] entries (listed h c) in
            (
              entry,
              mem,
              same,
              check_required-Agrees h s.engine_required_il_meta (meta_of [] entries) required m
                  entry compared c at found,
            );
        senders = fits;
        all_listed = listed;
        at_frozen_slot =
            λ k. elsewhere_slot s.engine_focil_view_frozen s.engine_focil_frozen_slot slot k here;
      }

  valid-Satisfies :
      (s : NodeState) (entries : List EngineTxMeta) (slot : ℕ)
      → payload_status address_from_hex account_nonce account_balance s entries slot ≡ valid
      → Satisfies s entries slot
  unfolding payload_status
  valid-Satisfies s entries slot e =
      elim (Bool-cases (is_empty (missing_from s.engine_required_il_txs entries))) [
        | inr missing ↦ cc (rw missing at e)
        | inl complete ↦
            elim (Option-cases
              (frozen_elsewhere s.engine_focil_view_frozen s.engine_focil_frozen_slot slot)) [
                | inr (k, elsewhere) ↦ cc (rw (complete, elsewhere) at e)
                | inl here ↦
                    checked-Satisfies s entries slot (judged_valid _ (rw (complete, here) at e))
                      complete here
              ]
      ]

  concluded :
      (bad : Bool) (s : NodeState) (entries : List EngineTxMeta) (slot : ℕ)
      → (if bad
          then untimely
          else payload_status address_from_hex account_nonce account_balance s entries slot)
        ≡ valid
      → (bad ≡ false) × Satisfies s entries slot
  concluded true s entries slot e = cc e
  concluded false s entries slot e = (refl, valid-Satisfies s entries slot e)

  unpenalized :
      (s : NodeState) (m : List (ℕ × Engine7732PenaltyRecord)) (entries : List EngineTxMeta)
      (slot : ℕ)
      → Satisfies (record s { engine_7732_penalties_by_slot = m }) entries slot
      → Satisfies s entries slot
  unpenalized s m entries slot v = record {
    included = v.included;
    senders = v.senders;
    all_listed = v.all_listed;
    at_frozen_slot = v.at_frozen_slot;
  }

  -- A payload is answered VALID only when its slot is not in violation of timeliness, it holds every
  -- transaction of the inclusion list with the sender, nonce, gas, price and value that the list
  -- fixes, each listed transaction that names a sender names an address and stays within the gas
  -- of a block, and, where the view is frozen, the payload is for the frozen slot.
  pub valid_payload-Satisfies :
      (s : NodeState) (r : PayloadRequest)
      → (engine_new_payload_response address_from_hex account_nonce account_balance s r).1.status
        ≡ valid
      → (engine_7732_is_timeliness_violation
            (engine_7732_slot_status_response s
              (slot_or_required r.slot s)
              r.current_unix_s).aggregate
          ≡ false)
        × Satisfies s r.transactions (slot_or_required r.slot s)
  unfolding engine_new_payload_response
  valid_payload-Satisfies s r e =
      let slot = slot_or_required r.slot s in
      let status = (engine_7732_slot_status_response s slot r.current_unix_s).aggregate in
      let bad = engine_7732_is_timeliness_violation status in
      let reason : PenaltyReason = if bad then violation slot status else timeliness_recovered in
      let (m, rest) = update_penalty_rest s slot r.current_unix_s status reason in
      let (timely, sat) =
        concluded bad (engine_7732_update_penalty_state s slot status reason r.current_unix_s).0
          r.transactions slot e in
      (
        timely,
        unpenalized s m r.transactions slot (subst (λ x. Satisfies x r.transactions slot) rest sat),
      )
