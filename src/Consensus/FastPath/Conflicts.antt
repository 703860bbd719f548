-- ===== src/Consensus/FastPath/Conflicts.antt =====
-- When `add_attestation` (fast_path.rs) answers with a conflict.
use eth.Prelude.{◌≡◌, ◌≢◌, refl, false, ◌↔◌, some, arith}
use eth.Consensus.FastPath.{
  FastPathAttestation, FastPathAccumulator, conflict, is_timed_out, settle, add_attestation,
  start_clock,
}
use eth.Consensus.FastPath.Invariant.{IsClean, IsValid, Recorded, Disagrees}
use eth.Consensus.FastPath.Outcomes.{add_started_cases, add_unflagged}

compatible_agrees :
    (acc : FastPathAccumulator) (att : FastPathAttestation) (r : FastPathAccumulator)
    → Recorded (start_clock acc att.received_at_ms) att r
    → ¬ Disagrees acc att
compatible_agrees acc att r rec (h, e, n) = ground (arith, rec.compatible, n)

settle_ne_conflict :
    (r : FastPathAccumulator) (att : FastPathAttestation) → (settle r att).1 ≢ some conflict
unfolding settle
settle_ne_conflict r att e = ground arith

-- On a valid accumulator without conflict and in time, an attestation is answered with `conflict` exactly
-- when the round already has another hash.
pub conflict_iff :
    (acc : FastPathAccumulator) (att : FastPathAttestation)
    → IsValid acc
    → acc.conflict_detected ≡ false
    → is_timed_out (start_clock acc att.received_at_ms) att.received_at_ms ≡ false
    → ((add_attestation acc att).1 ≡ some conflict) ↔ Disagrees acc att
conflict_iff acc att v c t =
    let clean = v c in
    let started : IsClean (start_clock acc att.received_at_ms) = record {
      distinct = clean.distinct;
      agree = clean.agree;
    } in
    rw (add_unflagged acc att c) (
      add_started_cases (λ q. (q.1 ≡ some conflict) ↔ Disagrees acc att)
        (start_clock acc att.received_at_ms) att started (λ late. cc)
        (λ _ r rec. (
          λ e. absurd (settle_ne_conflict r att e),
          λ d. absurd (compatible_agrees acc att r rec d),
        ))
        (λ _ d. (λ _. d, λ _. refl)))
