-- ===== src/Devnet/Timeliness/Penalties.antt =====
-- eth2077-devnetd.rs: the penalties of slots are coherent records.
use eth.Prelude.{
  ℕ, ◌≡◌, refl, sym, ◌∙◌, subst, true, false, not, ◌==◌, ==_iff, Option, none, some, List, arith,
  Bool-cases, Option-cases, inl, inr,
}
use eth.Prelude.Maps
use eth.Prelude.Maps.{nat_eq, get-insert}
use eth.Devnet.Payloads.{Engine7732PenaltyRecord, TimelinessStatus, PenaltyReason, NodeState}
use eth.Devnet.Timeliness.{
  is_active, known, violated, relieved, with_penalty, engine_7732_is_timeliness_violation,
  engine_7732_update_penalty_state,
}

-- A penalty is active exactly while the last status is a violation, and exactly then it has no
-- instant of recovery.
pub record IsPenalty (slot : ℕ) (r : Engine7732PenaltyRecord) : Type 0 where
  pub of_slot : r.slot ≡ slot
  pub current : is_active r.state ≡ engine_7732_is_timeliness_violation r.last_status
  pub recovery : known r.recovered_at_unix_s ≡ not (is_active r.state)

abbrev pub ArePenalties : NodeState → Type 0
ArePenalties s =
    (slot : ℕ) (r : Engine7732PenaltyRecord)
    → Maps.get slot s.engine_7732_penalties_by_slot ≡ some r
    → IsPenalty slot r

with_penalty-ArePenalties :
    (s : NodeState) (slot : ℕ) (r : Engine7732PenaltyRecord)
    → ArePenalties s
    → IsPenalty slot r
    → ArePenalties (with_penalty s slot r)
with_penalty-ArePenalties s slot r v p slot' r' e =
    let m = s.engine_7732_penalties_by_slot in
    elim (Bool-cases (slot == slot')) [
      | inl same ↦
          let x : some r ≡ some r' = ground (arith, get-insert slot slot' r m, same, e) in
          let y : r ≡ r' = cc x in
          subst (λ z. IsPenalty z r') ((==_iff slot slot').0 same) (subst (IsPenalty slot) y p)
      | inr other ↦ v slot' r' (ground (arith, get-insert slot slot' r m, other, e))
    ]

violated-IsPenalty :
    (slot now : ℕ) (status : TimelinessStatus) (reason : PenaltyReason)
    (before : Option Engine7732PenaltyRecord)
    → engine_7732_is_timeliness_violation status ≡ true
    → ((r : Engine7732PenaltyRecord) → before ≡ some r → IsPenalty slot r)
    → IsPenalty slot (violated before slot status reason now)
violated-IsPenalty slot now status reason none bad v = record {
  of_slot = refl;
  current = sym bad;
  recovery = refl;
}
violated-IsPenalty slot now status reason (some r) bad v = record {
  of_slot = (v r refl).of_slot;
  current = sym bad;
  recovery = ground (arith, (v r refl).recovery, Bool-cases (is_active r.state));
}

relieved-IsPenalty :
    (slot now : ℕ) (status : TimelinessStatus) (reason : PenaltyReason)
    (r : Engine7732PenaltyRecord)
    → engine_7732_is_timeliness_violation status ≡ false
    → IsPenalty slot r
    → IsPenalty slot (relieved r status reason now)
relieved-IsPenalty slot now status reason r good v = elim (Bool-cases (is_active r.state)) [
  | inl on ↦ rw on (record { of_slot = v.of_slot; current = sym good; recovery = refl })
  | inr off ↦
      rw off (record { of_slot = v.of_slot; current = off ∙ sym good; recovery = v.recovery })
]

pub update_penalty-ArePenalties :
    (s : NodeState) (slot now : ℕ) (status : TimelinessStatus) (reason : PenaltyReason)
    → ArePenalties s
    → ArePenalties (engine_7732_update_penalty_state s slot status reason now).0
unfolding engine_7732_update_penalty_state
update_penalty-ArePenalties s slot now status reason v =
    let before = Maps.get slot s.engine_7732_penalties_by_slot in
    elim (Bool-cases (engine_7732_is_timeliness_violation status)) [
      | inl bad ↦ rw bad (
          with_penalty-ArePenalties s slot (violated before slot status reason now) v
            (violated-IsPenalty slot now status reason before bad (v slot)))
      | inr good ↦ elim (Option-cases before) [
        | inl no_record ↦ rw (engine_7732_update_penalty_state, good, no_record) v
        | inr (r, at) ↦
            rw (engine_7732_update_penalty_state, good, at)
              (with_penalty-ArePenalties s slot (relieved r status reason now) v
                (relieved-IsPenalty slot now status reason r good (v slot r at)))
      ]
    ]

-- Nothing else of the node changes.
pub update_penalty_rest :
    (s : NodeState) (slot now : ℕ) (status : TimelinessStatus) (reason : PenaltyReason)
    → (m : List (ℕ × Engine7732PenaltyRecord)) × ((engine_7732_update_penalty_state s slot status
          reason now).0
        ≡ record s { engine_7732_penalties_by_slot = m })
unfolding engine_7732_update_penalty_state
update_penalty_rest s slot now status reason =
    let before = Maps.get slot s.engine_7732_penalties_by_slot in
    let written : Engine7732PenaltyRecord → List (ℕ × Engine7732PenaltyRecord) =
      λ r. Maps.insert slot r s.engine_7732_penalties_by_slot in
    elim (Bool-cases (engine_7732_is_timeliness_violation status)) [
      | inl bad ↦ (written (violated before slot status reason now), rw bad refl)
      | inr good ↦ elim (Option-cases before) [
        | inl no_record ↦ (
          s.engine_7732_penalties_by_slot,
          rw (engine_7732_update_penalty_state, good, no_record) refl,
        )
        | inr (r, at) ↦ (
          written (relieved r status reason now),
          rw (engine_7732_update_penalty_state, good, at) refl,
        )
      ]
    ]
