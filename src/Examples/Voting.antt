-- ===== src/Examples/Voting.antt =====
-- Validators and the fast path, at four validators of weight 1.
use eth.Prelude.{ℕ, ◌+◌, ◌-◌, ◌%◌, ◌≤◌, ◌≡◌, refl, false, ◌&&◌, ltb, List, [], ◌∷◌, arith}
use eth.Consensus.Validator
use eth.Consensus.Validator.{
  Validator, ValidatorSet, quorum_weight, leader_for_round, leader_position, fold_weight,
}
use eth.Consensus.Validator.Quorum.{weight_by, max_faulty, quorums_overlap}
use eth.Consensus.FastPath
use eth.Consensus.FastPath.{
  FastPathAccumulator, FastPathAttestation, FastPathConfig, FastPathOutcome, fast_finalized,
  conflict, add_attestation, add_started, push_new, settle, is_timed_out, start_clock,
  build_fast_proof, agreement_count, count_for, has_quorum,
}
use eth.Consensus.FastPath.Invariant.{IsValid, new-IsValid}
use eth.Consensus.FastPath.Outcomes.{Justifies, add_attestation-IsValid, fast_finalized_justified}

abbrev validator : ℕ → Validator
validator i = record { index = i; weight = 1; public_key = [] }

abbrev four : List Validator
four = validator 0 ∷ validator 1 ∷ validator 2 ∷ validator 3 ∷ []

quorums_overlap_example :
    max_faulty (Validator.new four) + 1
    ≤ weight_by (λ i. ltb i 3 && ltb 0 i) four + ((Validator.new four).total_weight - 1) % 3
unfolding Validator.new fold_weight quorum_weight
quorums_overlap_example =
    quorums_overlap four (λ i. ltb i 3) (λ i. ltb 0 i) (ground arith) (ground arith) (ground arith)

abbrev fast_config : FastPathConfig
fast_config = record { quorum_threshold = 2; timeout_ms = 100; optimistic_threshold = 2 }

abbrev attest : ℕ → ℕ → ℕ → FastPathAttestation
attest hash i at = record {
  block_hash = hash;
  attester_index = i;
  signature = [];
  received_at_ms = at;
}

abbrev one_vote : FastPathAccumulator
one_vote = (add_attestation (FastPath.new fast_config) (attest 7 0 10)).0

one_vote-IsValid : IsValid one_vote
one_vote-IsValid =
    add_attestation-IsValid (FastPath.new fast_config) (attest 7 0 10) (new-IsValid fast_config)

abbrev two_votes : FastPathAccumulator
two_votes = (add_attestation one_vote (attest 7 1 20)).0

fast_finalized_justified_example :
    Justifies two_votes (attest 7 1 20) (build_fast_proof two_votes 7 20)
    × (two_votes.conflict_detected ≡ false)
unfolding add_attestation add_started push_new settle is_timed_out agreement_count count_for
    FastPath.new
fast_finalized_justified_example =
    fast_finalized_justified one_vote (attest 7 1 20) (build_fast_proof two_votes 7 20)
      one_vote-IsValid refl
