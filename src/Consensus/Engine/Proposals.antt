-- ===== src/Consensus/Engine/Proposals.antt =====
-- Which messages make the engine of consensus.rs send a prevote, and what proposals leave behind.
use eth.Prelude.{
  ℕ, ◌≡◌, Bool, ◌&&◌, ◌==◌, Option, none, some, List, [], ◌∷◌, map, filter, any, if◌then◌else◌,
}
use eth.Prelude.Maps
use eth.Prelude.Maps.{nat_eq}
use eth.Consensus.Validator.{leader_for_round}
use eth.Consensus.RoundState.{prevote}
use eth.Consensus.Engine.{ConsensusEngine, ConsensusEvent, Result, send_prevote, proposal}
use eth.Consensus.Engine.Runs.{Input, message, step}

-- A `Proposal` message.
pub record Proposal : Type 0 where
  pub height : ℕ
  pub round : ℕ
  pub block_hash : ℕ
  pub proposer : ℕ

abbrev pub propose : Proposal → Input
propose p = message (proposal p.height p.round p.block_hash p.proposer)

-- The specification: a proposal of the leader for the engine's height and round.
abbrev pub is_accepted : ConsensusEngine → Proposal → Bool
is_accepted e p =
    (p.height == e.state.height)
    && (p.round == e.state.round)
    && (p.proposer == leader_for_round e.validator_set e.state.height e.state.round)

-- The locked block goes before the proposed one.
abbrev pub block_to_vote : Option ℕ → ℕ → ℕ
block_to_vote none proposed = proposed
block_to_vote (some locked) proposed = locked

abbrev pub answer_to : ConsensusEngine → Proposal → ConsensusEvent
answer_to e p =
    send_prevote e.state.height e.state.round
      (some (block_to_vote e.state.locked_hash p.block_hash))

unfoldable pub last_block : Option ℕ → List Proposal → Option ℕ
last_block b [] = b
last_block b (p ∷ ps) = last_block (some p.block_hash) ps

-- What an engine has done with a list of proposals.
pub record Answered (e : ConsensusEngine) (ps : List Proposal) (r : Result) : Type 0 where
  pub prevotes : r.1 ≡ map (answer_to e) (filter (is_accepted e) ps)
  pub moved : r.0.state.step ≡ (if any (is_accepted e) ps then prevote else e.state.step)
  pub recorded :
      Maps.get e.state.round r.0.state.proposals
      ≡ last_block (Maps.get e.state.round e.state.proposals) (filter (is_accepted e) ps)
  pub unmoved :
      (r.0.state.height ≡ e.state.height)
      × (r.0.state.round ≡ e.state.round)
      × (r.0.state.locked_hash ≡ e.state.locked_hash)
      × (r.0.state.locked_round ≡ e.state.locked_round)
      × (r.0.state.prevotes ≡ e.state.prevotes)
      × (r.0.state.precommits ≡ e.state.precommits)
      × (r.0.validator_set ≡ e.validator_set)
      × (r.0.fast_path ≡ e.fast_path)

-- The engine with the proposal of its round recorded.
abbrev taken : ConsensusEngine → ℕ → ConsensusEngine
taken e b = record e {
  state = record e.state {
    proposals = Maps.insert e.state.round b e.state.proposals;
    step = prevote;
  };
}
