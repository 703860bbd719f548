-- ===== src/Examples/Backend.antt =====
-- A backend with a delay of two polls, which two commitments are submitted to.
use eth.Prelude.{ℕ, ◌≡◌, refl, some, List, [], ◌∷◌, arith}
use eth.Consensus.FastPath.{CommitmentEnvelope}
use eth.Consensus.Backend.{
  MockState, answer, finalized, pending, new_backend, submit_commitment, last_commitment,
  poll_finality, proof_of, Call, submitting, polling, run_calls,
}
use eth.Consensus.Backend.Finality.{Known, enough_polls_finalize, polls_of}
use eth.Consensus.Backend.Counts.{IsCounted, reachable-IsCounted}

abbrev commitment : ℕ → CommitmentEnvelope
commitment block_hash = record {
  block_hash = block_hash;
  block_number = 1;
  state_root = 5;
  timestamp = 9;
  signature = 1 ∷ [];
  proposer_index = 0;
}

abbrev submitted : MockState
submitted = submit_commitment (new_backend 2) (commitment 7)

submitted-Known : Known 7 submitted
unfolding submit_commitment new_backend last_commitment
submitted-Known = (commitment 7, refl)

abbrev calls : List Call
calls = polling 8 ∷ submitting (commitment 8) ∷ polling 7 ∷ polling 8 ∷ []

enough_polls_finalize_example :
    (c : CommitmentEnvelope) × (last_commitment 7 (run_calls submitted calls).commitments ≡ some c)
    × (c.block_hash ≡ 7)
    × ((poll_finality (run_calls submitted calls) 7).1
        ≡ answer (finalized (proof_of (run_calls submitted calls) c)))
unfolding polls_of submit_commitment new_backend
enough_polls_finalize_example =
    enough_polls_finalize submitted 7 calls submitted-Known (omega arith)

reachable-IsCounted_example :
    IsCounted (run_calls (new_backend 2) (submitting (commitment 7) ∷ calls))
reachable-IsCounted_example = reachable-IsCounted 2 (submitting (commitment 7) ∷ calls)

first_poll_waits : (poll_finality submitted 7).1 ≡ answer pending
unfolding poll_finality submit_commitment new_backend
first_poll_waits = refl
