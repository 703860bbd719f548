-- ===== src/Consensus/Engine/Certificates.antt =====
-- What a finalized block of consensus.rs rests on: a quorum of precommits or a fast path proof.
use eth.Prelude.{
  ℕ, ◌≤◌, ◌≡◌, refl, sym, subst, true, Option, none, some, [], ◌∷◌, ◌⊎◌, arith, Bool-cases, inl,
  inr, Option-cases,
}
use eth.Prelude.Maps
use eth.Prelude.Maps.{nat_eq, pair_eq}
use eth.Consensus.Validator.{quorum_weight}
use eth.Consensus.FastPath.{
  FastPathOutcome, FinalityProof, fast_finalized, slow_path, timeout, conflict, add_attestation,
}
use eth.Consensus.FastPath.Invariant.{IsValid}
use eth.Consensus.FastPath.Outcomes.{Justifies, fast_finalized_justified}
use eth.Consensus.RoundState.{
  Tally, committed, tally_precommits, quorum_hash, insert_prevote, insert_precommit, voted,
}
use eth.Consensus.RoundState.Tally.{Visits, weight_for, tally_quorum_reached}
use eth.Consensus.Engine.{
  ConsensusEngine, ConsensusMessage, Result, block_finalized, proposal, prevote_msg, precommit_msg,
  is_committed, is_fast, is_stale, prevote_attestation, on_proposal, on_prevote, on_precommit,
  dispatch, on_message, count_prevote, count_precommit, tally_and_lock, lock_on,
}

-- The evidence in an engine for a block that it finalized in a round.
abbrev pub Certified : ConsensusEngine → ℕ → ℕ → Type 0
Certified e round hash =
    (quorum_weight e.validator_set ≤ weight_for e.validator_set round hash e.state.precommits)
    ⊎ ((voter : ℕ) × (p : FinalityProof) × Justifies e.fast_path (prevote_attestation e hash voter)
          p)

-- One step: if its events are one finalized block, it is of the engine's height and round, the
-- engine is now committed, and the evidence is in it.
abbrev pub Backs : ConsensusEngine → Result → Type 0
Backs e r =
    (height hash round : ℕ)
    → r.1 ≡ block_finalized height hash round ∷ []
    → (height ≡ e.state.height)
      × (round ≡ e.state.round)
      × (r.0.state.step ≡ committed)
      × Certified r.0 round hash

is_fast_proof :
    (o : Option FastPathOutcome)
    → is_fast o ≡ true
    → (p : FinalityProof) × (o ≡ some (fast_finalized p))
is_fast_proof none h = cc
is_fast_proof (some (fast_finalized p)) h = (p, refl)
is_fast_proof (some slow_path) h = cc
is_fast_proof (some timeout) h = cc
is_fast_proof (some conflict) h = cc

module _ (visit : Tally → Tally) (visits : Visits visit) where
  count_precommit-Backs :
      (e : ConsensusEngine) → Backs e (count_precommit visit e e.state.height e.state.round)
  unfolding count_precommit tally_precommits
  count_precommit-Backs e height hash round ev =
      elim (Option-cases (
        quorum_hash visit (tally_precommits e.state e.state.round e.validator_set)
          (quorum_weight e.validator_set))) [
            | inl missing ↦ absurd (ground (arith, missing, ev))
            | inr (q, found) ↦
                let same : q ≡ hash = ground (arith, found, ev) in
                let at_height : height ≡ e.state.height = ground (arith, found, ev) in
                let at_round : round ≡ e.state.round = ground (arith, found, ev) in
                let reached =
                  tally_quorum_reached visit visits e.validator_set e.state.round
                    (quorum_weight e.validator_set) q e.state.precommits found in
                rw (found, count_precommit)
                  (at_height, at_round, refl, inl (rw (← same, at_round) reached))
          ]

  count_prevote-Backs :
      (e : ConsensusEngine) (b : Option ℕ) (voter : ℕ)
      → IsValid e.fast_path
      → Backs e (count_prevote visit e e.state.height e.state.round b voter)
  unfolding count_prevote tally_and_lock lock_on
  count_prevote-Backs e none voter v height hash round ev = ground arith
  count_prevote-Backs e (some b) voter v height hash round ev =
      elim (Bool-cases (is_fast (add_attestation e.fast_path (prevote_attestation e b voter)).1)) [
        | inl fast ↦
            let same : b ≡ hash = ground (arith, fast, ev) in
            let at_height : height ≡ e.state.height = ground (arith, fast, ev) in
            let at_round : round ≡ e.state.round = ground (arith, fast, ev) in
            let (p, made) = is_fast_proof _ fast in
            let (just, _) =
              fast_finalized_justified e.fast_path (prevote_attestation e b voter) p v made in
            rw (fast, count_prevote)
              (
                at_height,
                at_round,
                refl,
                inr (
                  voter,
                  p,
                  subst
                      (λ x.
                        Justifies (add_attestation e.fast_path (prevote_attestation e b voter)).0
                          (prevote_attestation e x voter) p)
                      same just,
                ),
              )
        | inr slow ↦ absurd (ground (arith, slow, ev))
      ]

  on_precommit-Backs :
      (e : ConsensusEngine) (h r : ℕ) (b : Option ℕ) (voter : ℕ)
      → Backs e (on_precommit visit e h r b voter)
  unfolding on_precommit insert_precommit
  on_precommit-Backs e h r b voter height hash round ev = elim (Bool-cases (is_stale e h r)) [
    | inl stale ↦ absurd (ground (arith, stale, ev))
    | inr fresh ↦ elim (Bool-cases (voted r voter e.state.precommits)) [
      | inl old ↦ absurd (ground (arith, fresh, old, ev))
      | inr new ↦
          let stored = Maps.insert (r, voter) b e.state.precommits in
          let e' = record e { state = record e.state { precommits = stored } } in
          let same : on_precommit visit e h r b voter
              ≡ count_precommit visit e' e.state.height e.state.round =
            ground (arith, fresh, new) in
          subst (λ q. Backs e q) (sym same) (count_precommit-Backs e') height hash round ev
    ]
  ]

  on_prevote-Backs :
      (e : ConsensusEngine) (h r : ℕ) (b : Option ℕ) (voter : ℕ)
      → IsValid e.fast_path
      → Backs e (on_prevote visit e h r b voter)
  unfolding on_prevote insert_prevote
  on_prevote-Backs e h r b voter v height hash round ev = elim (Bool-cases (is_stale e h r)) [
    | inl stale ↦ absurd (ground (arith, stale, ev))
    | inr fresh ↦ elim (Bool-cases (voted r voter e.state.prevotes)) [
      | inl old ↦ absurd (ground (arith, fresh, old, ev))
      | inr new ↦
          let stored = Maps.insert (r, voter) b e.state.prevotes in
          let e' = record e { state = record e.state { prevotes = stored } } in
          let same : on_prevote visit e h r b voter
              ≡ count_prevote visit e' e.state.height e.state.round b voter =
            ground (arith, fresh, new) in
          subst (λ q. Backs e q) (sym same) (count_prevote-Backs e' b voter v) height hash round ev
    ]
  ]

  dispatch-Backs :
      (e : ConsensusEngine) (msg : ConsensusMessage)
      → IsValid e.fast_path
      → Backs e (dispatch visit e msg)
  unfolding dispatch on_proposal
  dispatch-Backs e (proposal h r b p) v height hash round ev = absurd (ground (arith, ev))
  dispatch-Backs e (prevote_msg h r b voter) v height hash round ev =
      on_prevote-Backs e h r b voter v height hash round ev
  dispatch-Backs e (precommit_msg h r b voter) v height hash round ev =
      on_precommit-Backs e h r b voter height hash round ev

  -- From a valid fast path, a block that a message finalizes is of the engine's height and round, the engine is committed
  -- from then on, and it holds precommits of the quorum's weight for the hash, or a fast path proof
  -- of `optimistic_threshold` distinct attesters for it.
  pub finalization-Certified :
      (e : ConsensusEngine) (msg : ConsensusMessage) (height hash round : ℕ)
      → IsValid e.fast_path
      → (on_message visit e msg).1 ≡ block_finalized height hash round ∷ []
      → (height ≡ e.state.height)
        × (round ≡ e.state.round)
        × ((on_message visit e msg).0.state.step ≡ committed)
        × Certified (on_message visit e msg).0 round hash
  unfolding on_message dispatch
  finalization-Certified e msg height hash round v ev =
      elim (Bool-cases (is_committed e.state.step)) [
        | inl done ↦ absurd (ground (arith, done, ev))
        | inr live ↦
            let same : on_message visit e msg ≡ dispatch visit e msg = rw (live, on_message) in
            subst (λ q. Backs e q) (sym same) (dispatch-Backs e msg v) height hash round ev
      ]
