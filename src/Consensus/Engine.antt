-- ===== src/Consensus/Engine.antt =====
-- `ConsensusEngine` of crates/eth2077-oob-consensus/src/consensus.rs. A method that changes the
-- engine returns the new engine with the events; `visit` is the order in which std iterates a
-- tally.
pub mod Runs
pub mod Certificates
pub mod Agreement
pub mod Proposals
pub mod Votes
pub mod Cases
pub mod Locks
pub mod Timeouts
use eth.Prelude.{
  ℕ, ◌+◌, Bool, true, false, not, ◌&&◌, ◌||◌, ◌==◌, opt_beq, Option, none, some, List, [], ◌∷◌,
  if◌then◌else◌, sat_add64, sat_mul64,
}
use eth.Prelude.Maps
use eth.Prelude.Maps.{nat_eq}
use eth.Consensus.Validator.{ValidatorSet, leader_for_round, quorum_weight}
use eth.Consensus.FastPath
use eth.Consensus.FastPath.{
  FastPathAccumulator, FastPathAttestation, FastPathConfig, FastPathOutcome, fast_finalized,
  add_attestation,
}
use eth.Consensus.RoundState
use eth.Consensus.RoundState.{
  RoundState, Step, Tally, propose, prevote, precommit, committed, reset_for_height, advance_round,
  insert_prevote, insert_precommit, tally_prevotes, tally_precommits, quorum_hash,
}

pub data ConsensusMessage : Type 0 where
  proposal : (height round block_hash proposer : ℕ) → ConsensusMessage
  prevote_msg precommit_msg :
      (height round : ℕ) (block_hash : Option ℕ) (voter : ℕ) → ConsensusMessage

pub data ConsensusEvent : Type 0 where
  block_finalized : (height block_hash round : ℕ) → ConsensusEvent
  round_timeout : (height round : ℕ) → ConsensusEvent
  need_proposal : (height round leader : ℕ) → ConsensusEvent
  send_prevote send_precommit : (height round : ℕ) (block_hash : Option ℕ) → ConsensusEvent

pub record ConsensusEngine : Type 0 where
  pub validator_set : ValidatorSet
  pub state : RoundState
  pub fast_path : FastPathAccumulator

abbrev pub Result : Type 0
Result = ConsensusEngine × List ConsensusEvent

unfoldable pub new : ValidatorSet → FastPathConfig → ConsensusEngine
new vs c = record { validator_set = vs; state = RoundState.new; fast_path = FastPath.new c }

unfoldable pub start_height : ConsensusEngine → ℕ → Result
start_height e height = (
  record e { state = reset_for_height e.state height; fast_path = FastPath.reset e.fast_path },
  need_proposal height 0 (leader_for_round e.validator_set height 0) ∷ [],
)

-- `height != self.state.height || round != self.state.round`
abbrev pub is_stale : ConsensusEngine → ℕ → ℕ → Bool
is_stale e height round = not (height == e.state.height) || not (round == e.state.round)

-- `self.state.locked_hash.or(Some(block_hash))`
abbrev pub or_else : Option ℕ → ℕ → Option ℕ
or_else none h = some h
or_else (some l) h = some l

unfoldable pub on_proposal : ConsensusEngine → ℕ → ℕ → ℕ → ℕ → Result
on_proposal e height round block_hash proposer =
    if is_stale e height round
    then (e, [])
    else if proposer == leader_for_round e.validator_set height round
    then (
      record e {
        state = record e.state {
          proposals = Maps.insert round block_hash e.state.proposals;
          step = prevote;
        };
      },
      send_prevote height round (or_else e.state.locked_hash block_hash) ∷ [],
    )
    else (e, [])

abbrev is_precommit : Step → Bool
is_precommit precommit = true
is_precommit _ = false

abbrev pub is_committed : Step → Bool
is_committed committed = true
is_committed _ = false

-- The lock and the precommit, once a quorum of prevotes for a hash is there.
unfoldable pub lock_on : ConsensusEngine → ℕ → ℕ → ℕ → Result
lock_on e height round hash = (
  record e {
    state = record e.state { locked_round = some round; locked_hash = some hash; step = precommit };
  },
  if not (is_precommit e.state.step)
        || not (opt_beq e.state.locked_hash (some hash))
        || not (opt_beq e.state.locked_round (some round))
      then send_precommit height round (some hash) ∷ []
      else [],
)

-- The slow path of `on_prevote`: the tally of the round and the lock.
unfoldable pub tally_and_lock : (Tally → Tally) → ConsensusEngine → ℕ → ℕ → Result
unfolding lock_on
tally_and_lock visit e height round =
    elim (quorum_hash visit (tally_prevotes e.state round e.validator_set)
      (quorum_weight e.validator_set)) [ none ↦ (e, []) | some hash ↦ lock_on e height round hash ]

abbrev pub prevote_attestation : ConsensusEngine → ℕ → ℕ → FastPathAttestation
prevote_attestation e hash voter = record {
  block_hash = hash;
  attester_index = voter;
  signature = [];
  received_at_ms = sat_add64 (sat_mul64 e.state.height 1000) e.state.round;
}

abbrev pub is_fast : Option FastPathOutcome → Bool
is_fast (some (fast_finalized _)) = true
is_fast (some _) = false
is_fast none = false

-- `on_prevote` once the prevote is stored.
unfoldable pub count_prevote : (Tally → Tally) → ConsensusEngine → ℕ → ℕ → Option ℕ → ℕ → Result
unfolding tally_and_lock
count_prevote visit e height round none voter = tally_and_lock visit e height round
count_prevote visit e height round (some hash) voter =
    let (fast_path, outcome) = add_attestation e.fast_path (prevote_attestation e hash voter) in
    if is_fast outcome
    then (
      record e { fast_path = fast_path; state = record e.state { step = committed } },
      block_finalized height hash round ∷ [],
    )
    else tally_and_lock visit (record e { fast_path = fast_path }) height round

unfoldable pub on_prevote : (Tally → Tally) → ConsensusEngine → ℕ → ℕ → Option ℕ → ℕ → Result
unfolding insert_prevote count_prevote
on_prevote visit e height round block_hash voter =
    if is_stale e height round
    then (e, [])
    else let (state, inserted) = insert_prevote e.state round voter block_hash in
      if inserted
      then count_prevote visit (record e { state = state }) height round block_hash voter
      else (e, [])

-- `on_precommit` once the precommit is stored.
unfoldable pub count_precommit : (Tally → Tally) → ConsensusEngine → ℕ → ℕ → Result
count_precommit visit e height round =
    elim (quorum_hash visit (tally_precommits e.state round e.validator_set)
      (quorum_weight e.validator_set)) [
        | none ↦ (e, [])
        | some hash ↦ (
          record e { state = record e.state { step = committed } },
          block_finalized height hash round ∷ [],
        )
      ]

unfoldable pub on_precommit : (Tally → Tally) → ConsensusEngine → ℕ → ℕ → Option ℕ → ℕ → Result
unfolding insert_precommit count_precommit
on_precommit visit e height round block_hash voter =
    if is_stale e height round
    then (e, [])
    else let (state, inserted) = insert_precommit e.state round voter block_hash in
      if inserted then count_precommit visit (record e { state = state }) height round else (e, [])

unfoldable pub dispatch : (Tally → Tally) → ConsensusEngine → ConsensusMessage → Result
unfolding on_proposal on_prevote on_precommit
dispatch visit e (proposal height round block_hash proposer) =
    on_proposal e height round block_hash proposer
dispatch visit e (prevote_msg height round block_hash voter) =
    on_prevote visit e height round block_hash voter
dispatch visit e (precommit_msg height round block_hash voter) =
    on_precommit visit e height round block_hash voter

unfoldable pub on_message : (Tally → Tally) → ConsensusEngine → ConsensusMessage → Result
unfolding dispatch
on_message visit e msg = if is_committed e.state.step then (e, []) else dispatch visit e msg

unfoldable pub on_timeout : ConsensusEngine → Result
on_timeout e =
    let state = advance_round e.state in
    if is_committed e.state.step then (e, []) else (
      record e { state = state; fast_path = FastPath.reset e.fast_path },
      round_timeout state.height e.state.round
          ∷ need_proposal state.height state.round
              (leader_for_round e.validator_set state.height state.round)
          ∷ [],
    )

abbrev pub current_height : ConsensusEngine → ℕ
current_height e = e.state.height

abbrev pub current_round : ConsensusEngine → ℕ
current_round e = e.state.round
