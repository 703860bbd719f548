-- ===== src/Consensus/FastPath.antt =====
-- crates/eth2077-oob-consensus/src/fast_path.rs: the optimistic fast path of one round, with the
-- envelope and the proof of types.rs. A hash is the number that its 32 bytes spell, big end
-- first; a signature is a list of bytes.
pub mod Conflicts
pub mod Invariant
pub mod Outcomes
use eth.Prelude.{
  ℕ, zero, suc, ◌-◌, ◌/◌, ◌%◌, Bool, true, false, not, ◌&&◌, ◌==◌, ltb, leb, Option, none, some,
  List, [], ◌∷◌, ◌++◌, length, find?, filter, if◌then◌else◌,
}

pub record FastPathConfig : Type 0 where
  pub quorum_threshold : ℕ
  pub timeout_ms : ℕ
  pub optimistic_threshold : ℕ

pub record FastPathAttestation : Type 0 where
  pub block_hash : ℕ
  pub attester_index : ℕ
  pub signature : List ℕ
  pub received_at_ms : ℕ

pub record CommitmentEnvelope : Type 0 where
  pub block_hash : ℕ
  pub block_number : ℕ
  pub state_root : ℕ
  pub timestamp : ℕ
  pub signature : List ℕ
  pub proposer_index : ℕ

pub record FinalityProof : Type 0 where
  pub commitment : CommitmentEnvelope
  pub proof_data : List ℕ
  pub finalized_at : ℕ

pub data FastPathOutcome : Type 0 where
  fast_finalized : FinalityProof → FastPathOutcome
  slow_path timeout conflict : FastPathOutcome

pub record FastPathAccumulator : Type 0 where
  pub config : FastPathConfig
  pub attestations : List FastPathAttestation
  pub round_block_hash : Option ℕ
  pub round_start_ms : Option ℕ
  pub conflict_detected : Bool

unfoldable pub new : FastPathConfig → FastPathAccumulator
new c = record {
  config = c;
  attestations = [];
  round_block_hash = none;
  round_start_ms = none;
  conflict_detected = false;
}

unfoldable pub reset : FastPathAccumulator → FastPathAccumulator
reset acc = record acc {
  attestations = [];
  round_block_hash = none;
  round_start_ms = none;
  conflict_detected = false;
}

unfoldable pub count_for : ℕ → List FastPathAttestation → ℕ
count_for h atts = length (filter (λ a. a.block_hash == h) atts)

unfoldable pub agreement_count : FastPathAccumulator → ℕ
unfolding count_for
agreement_count acc = elim acc.round_block_hash [ none ↦ 0 | some h ↦ count_for h acc.attestations ]

unfoldable pub has_quorum : FastPathAccumulator → Bool
unfolding agreement_count
has_quorum acc = not acc.conflict_detected && leb acc.config.quorum_threshold (agreement_count acc)

-- `saturating_sub` is `-` on ℕ.
unfoldable pub is_timed_out : FastPathAccumulator → ℕ → Bool
is_timed_out acc now = elim acc.round_start_ms [
  | none ↦ false
  | some start ↦ ltb acc.config.timeout_ms (now - start)
]

-- `u64::to_le_bytes`: the first count of bytes, least significant first.
unfoldable pub le_bytes : ℕ → ℕ → List ℕ
le_bytes zero n = []
le_bytes (suc k) n = (n % 256) ∷ le_bytes k (n / 256)

-- The loop of `build_fast_proof` over the attestations for the hash.
unfoldable pub collect : List FastPathAttestation → List ℕ → List ℕ → List ℕ × List ℕ
unfolding le_bytes
collect [] first bytes = (first, bytes)
collect (a ∷ atts) first bytes =
    collect atts (elim first [ [] ↦ a.signature | x ∷ xs ↦ x ∷ xs ])
      (bytes ++ le_bytes 8 a.attester_index)

unfoldable pub build_fast_proof : FastPathAccumulator → ℕ → ℕ → FinalityProof
unfolding collect
build_fast_proof acc h at =
    let (first_signature, proof_data) =
      collect (filter (λ a. a.block_hash == h) acc.attestations) [] [] in
    record {
      commitment = record {
        block_hash = h;
        block_number = 0;
        state_root = 0;
        timestamp = at;
        signature = first_signature;
        proposer_index = 0;
      };
      proof_data = proof_data;
      finalized_at = at;
    }

-- `*existing = attestation.clone()`, at the first entry of the attester.
unfoldable pub replace_first :
    FastPathAttestation → List FastPathAttestation → List FastPathAttestation
replace_first att [] = []
replace_first att (a ∷ atts) =
    if a.attester_index == att.attester_index then att ∷ atts else a ∷ replace_first att atts

abbrev pub with_conflict :
    FastPathAccumulator → FastPathAttestation → FastPathAccumulator × Option FastPathOutcome
with_conflict acc att = (
  record acc { attestations = acc.attestations ++ att ∷ []; conflict_detected = true },
  some conflict,
)

abbrev hash_or : Option ℕ → ℕ → ℕ
hash_or none h = h
hash_or (some r) h = r

-- The thresholds, after the attestation has been recorded.
unfoldable pub settle :
    FastPathAccumulator → FastPathAttestation → FastPathAccumulator × Option FastPathOutcome
unfolding agreement_count has_quorum build_fast_proof
settle acc att =
    if ltb 0 acc.config.optimistic_threshold
      && leb acc.config.optimistic_threshold (agreement_count acc)
    then (
      acc,
      some (
          fast_finalized (
            build_fast_proof acc (hash_or acc.round_block_hash att.block_hash) att.received_at_ms)),
    )
    else (acc, if has_quorum acc then some slow_path else none)

abbrev pub start_clock : FastPathAccumulator → ℕ → FastPathAccumulator
start_clock acc now = record acc { round_start_ms = some (hash_or acc.round_start_ms now) }

-- A first attestation of its attester.
unfoldable pub push_new :
    FastPathAccumulator → FastPathAttestation → FastPathAccumulator × Option FastPathOutcome
unfolding settle
push_new acc att = elim acc.round_block_hash [
  | none ↦
      settle
        (record acc {
          round_block_hash = some att.block_hash;
          attestations = acc.attestations ++ att ∷ [];
        })
        att
  | some round_hash ↦
      if round_hash == att.block_hash
      then settle (record acc { attestations = acc.attestations ++ att ∷ [] }) att
      else with_conflict acc att
]

-- The part of `add_attestation` behind its first guard and the start of the round's clock.
unfoldable pub add_started :
    FastPathAccumulator → FastPathAttestation → FastPathAccumulator × Option FastPathOutcome
unfolding is_timed_out replace_first settle push_new
add_started acc att =
    if is_timed_out acc att.received_at_ms
    then (acc, some timeout)
    else elim (find? (λ a. a.attester_index == att.attester_index) acc.attestations) [
      | none ↦ push_new acc att
      | some existing ↦
          if existing.block_hash == att.block_hash
          then settle (record acc { attestations = replace_first att acc.attestations }) att
          else with_conflict acc att
    ]

unfoldable pub add_attestation :
    FastPathAccumulator → FastPathAttestation → FastPathAccumulator × Option FastPathOutcome
unfolding add_started
add_attestation acc att =
    if acc.conflict_detected
    then (acc, some conflict)
    else add_started (start_clock acc att.received_at_ms) att
