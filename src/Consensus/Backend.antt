-- ===== src/Consensus/Backend.antt =====
-- crates/eth2077-oob-consensus/src/mock.rs: the backend that finalizes a commitment once it was
-- polled often enough. The lock makes every call atomic and no call panics under it, so the error
-- `BackendUnavailable` of a poisoned lock does not occur. The counters are unbounded. The records of types.rs stand in FastPath.
pub mod Counts
pub mod Finality
use eth.Prelude.{
  ℕ, ◌+◌, Bool, true, false, ◌==◌, ltb, Option, none, some, List, [], ◌∷◌, ◌++◌, all, if◌then◌else◌,
}
use eth.Prelude.Maps.{nat_eq, get, insert}
use eth.Execution.AccessList.{has}
use eth.Consensus.FastPath.{CommitmentEnvelope, FinalityProof}

pub data OobError : Type 0 where
  network_error invalid_commitment verification_failed timed_out backend_unavailable : OobError

pub data FinalityStatus : Type 0 where
  pending : FinalityStatus
  finalized : FinalityProof → FinalityStatus
  failed : OobError → FinalityStatus

-- What a poll answers.
pub data Polled : Type 0 where
  answer : FinalityStatus → Polled
  error : OobError → Polled

pub record MockState : Type 0 where
  pub commitments : List CommitmentEnvelope
  pub finalized_block_hashes : List ℕ
  pub poll_counts : List (ℕ × ℕ)
  pub finality_delay : ℕ
  pub latest_finalized : Option FinalityProof

unfoldable pub new_backend : ℕ → MockState
new_backend finality_delay = record {
  commitments = [];
  finalized_block_hashes = [];
  poll_counts = [];
  finality_delay = finality_delay;
  latest_finalized = none;
}

unfoldable pub submit_commitment : MockState → CommitmentEnvelope → MockState
submit_commitment s c = record s { commitments = s.commitments ++ (c ∷ []) }

-- `commitments.iter().rev().find(…)`: the last commitment to the hash.
abbrev pub earlier : Option CommitmentEnvelope → ℕ → CommitmentEnvelope → Option CommitmentEnvelope
earlier (some later) block_hash c = some later
earlier none block_hash c = if c.block_hash == block_hash then some c else none

unfoldable pub last_commitment : ℕ → List CommitmentEnvelope → Option CommitmentEnvelope
last_commitment block_hash [] = none
last_commitment block_hash (c ∷ cs) = earlier (last_commitment block_hash cs) block_hash c

abbrev pub count_of : Option ℕ → ℕ
count_of none = 0
count_of (some n) = n

abbrev pub polls : MockState → ℕ → ℕ
polls s block_hash = count_of (get block_hash s.poll_counts)

abbrev pub add_hash : ℕ → List ℕ → List ℕ
add_hash h hs = if has h hs then hs else hs ++ (h ∷ [])

-- "MOCK"
abbrev pub proof_of : MockState → CommitmentEnvelope → FinalityProof
proof_of s c = record {
  commitment = c;
  proof_data = 0x4d ∷ 0x4f ∷ 0x43 ∷ 0x4b ∷ [];
  finalized_at = s.finality_delay;
}

-- The poll of a known hash: `count` is the new value of its counter.
unfoldable pub poll_known : MockState → ℕ → CommitmentEnvelope → ℕ → MockState × Polled
unfolding insert
poll_known s block_hash c count =
    let counted = record s { poll_counts = insert block_hash count s.poll_counts } in
    if ltb count s.finality_delay then (counted, answer pending) else (
      record counted {
        finalized_block_hashes = add_hash block_hash s.finalized_block_hashes;
        latest_finalized = some (proof_of s c);
      },
      answer (finalized (proof_of s c)),
    )

unfoldable pub poll_finality : MockState → ℕ → MockState × Polled
unfolding last_commitment poll_known get
poll_finality s block_hash = elim (last_commitment block_hash s.commitments) [
  | none ↦ (s, error invalid_commitment)
  | some c ↦ poll_known s block_hash c (polls s block_hash + 1)
]

abbrev pub get_latest_finalized : MockState → Option FinalityProof
get_latest_finalized s = s.latest_finalized

-- `MockOobVerifier`: only a signature of zeros is refused.
unfoldable pub verify_commitment : CommitmentEnvelope → Option OobError
verify_commitment c = if all (λ b. b == 0) c.signature then some verification_failed else none

-- Calls from any threads, in the order in which they take the lock.
pub data Call : Type 0 where
  submitting : CommitmentEnvelope → Call
  polling : ℕ → Call

unfoldable pub run_call : MockState → Call → MockState
unfolding submit_commitment poll_finality
run_call s (submitting c) = submit_commitment s c
run_call s (polling h) = (poll_finality s h).0

unfoldable pub run_calls : MockState → List Call → MockState
unfolding run_call
run_calls s [] = s
run_calls s (call ∷ calls) = run_calls (run_call s call) calls
