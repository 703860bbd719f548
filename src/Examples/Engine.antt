-- ===== src/Examples/Engine.antt =====
-- The engine of one height, at four validators of weight 1.
use eth.Prelude.{
  ℕ, ◌+◌, ◌-◌, ◌%◌, ◌≤◌, ◌<◌, ◌≡◌, refl, ◌&&◌, some, List, [], ◌∷◌, length, map, arith,
}
use mathlib.Core.List.Perm
use eth.Prelude.Maps
use eth.Consensus.Validator
use eth.Consensus.Validator.{Validator, ValidatorSet, quorum_weight}
use eth.Consensus.Validator.Quorum.{weight_by, max_faulty}
use eth.Consensus.FastPath.{FastPathConfig}
use eth.Consensus.RoundState
use eth.Consensus.RoundState.{Votes, Tally, committed, tally_from, quorum_hash}
use eth.Consensus.RoundState.Tally.{Visits}
use eth.Consensus.Engine
use eth.Consensus.Engine.{
  ConsensusEngine, ConsensusMessage, proposal, prevote_msg, precommit_msg, send_prevote,
  round_timeout, need_proposal, start_height, on_message, on_proposal, on_timeout,
}
use eth.Consensus.Engine.Runs
use eth.Consensus.Engine.Runs.{
  Input, message, timeout, step, run, finalizations, finalizes_once, committed_absorbs,
}
use eth.Consensus.Engine.Certificates.{Certified, finalization-Certified}
use eth.Consensus.Engine.Agreement.{voted_for, equivocation_needed}
use eth.Consensus.Engine.Proposals.{Proposal, propose}
use eth.Consensus.Engine.Locks.{IsSound, MovesLock, reachable-IsSound, lock_needs_quorum}
use eth.Consensus.Engine.Timeouts.{timeouts, timeouts_reach_leader}

abbrev validator : ℕ → Validator
validator i = record { index = i; weight = 1; public_key = [] }

abbrev four : List Validator
four = validator 0 ∷ validator 1 ∷ validator 2 ∷ validator 3 ∷ []

abbrev in_order : Tally → Tally
in_order t = t

abbrev in_order-Visits : Visits in_order
in_order-Visits t = Perm.refl t

-- Three votes for the hash 7 in round 0, and one for the hash 8.
abbrev votes : Votes
votes = ((0, 0), some 7) ∷ ((0, 1), some 8) ∷ ((0, 2), some 7) ∷ ((0, 3), some 7) ∷ []

abbrev slow_config : FastPathConfig
slow_config = record { quorum_threshold = 3; timeout_ms = 1000; optimistic_threshold = 0 }

abbrev idle_engine : ConsensusEngine
idle_engine = Engine.new (Validator.new four) slow_config

abbrev started : ConsensusEngine
started = (start_height idle_engine 1).0

abbrev precommits_for : ℕ → List ℕ → List Input
precommits_for hash [] = []
precommits_for hash (v ∷ vs) = message (precommit_msg 1 0 (some hash) v) ∷ precommits_for hash vs

finalizes_once_example :
    finalizations (run in_order started (precommits_for 7 (0 ∷ 1 ∷ 2 ∷ 3 ∷ []))).1 ≤ 1
finalizes_once_example =
    finalizes_once in_order idle_engine 1 (precommits_for 7 (0 ∷ 1 ∷ 2 ∷ 3 ∷ []))

abbrev done : ConsensusEngine
done = (run in_order started (precommits_for 7 (0 ∷ 1 ∷ 2 ∷ []))).0

abbrev two_precommits : ConsensusEngine
two_precommits = (run in_order started (precommits_for 7 (0 ∷ 1 ∷ []))).0

two_precommits-IsSound : IsSound two_precommits
two_precommits-IsSound = reachable-IsSound in_order idle_engine 1 (precommits_for 7 (0 ∷ 1 ∷ []))

finalization-Certified_example :
    let r = on_message in_order two_precommits (precommit_msg 1 0 (some 7) 2) in
    (1 ≡ two_precommits.state.height)
    × (0 ≡ two_precommits.state.round)
    × (r.0.state.step ≡ committed)
    × Certified r.0 0 7
unfolding run Runs.step start_height RoundState.reset_for_height Maps.get quorum_hash
    RoundState.tally_precommits Maps.insert Validator.weight_of Engine.new Validator.new
    quorum_weight on_message
finalization-Certified_example =
    finalization-Certified in_order in_order-Visits two_precommits (precommit_msg 1 0 (some 7) 2) 1
      7 0 two_precommits-IsSound.fast refl

abbrev other : ConsensusEngine
other = (run in_order started (precommits_for 8 (1 ∷ 2 ∷ 3 ∷ []))).0

done-IsSound : IsSound done
done-IsSound = reachable-IsSound in_order idle_engine 1 (precommits_for 7 (0 ∷ 1 ∷ 2 ∷ []))

other-IsSound : IsSound other
other-IsSound = reachable-IsSound in_order idle_engine 1 (precommits_for 8 (1 ∷ 2 ∷ 3 ∷ []))

equivocation_needed_example :
    max_faulty (Validator.new four) + 1
    ≤ weight_by
        (λ i. voted_for done.state.precommits 0 7 i && voted_for other.state.precommits 0 8 i)
        four
      + ((Validator.new four).total_weight - 1) % 3
unfolding run Runs.step start_height RoundState.reset_for_height Maps.get quorum_hash
    RoundState.tally_precommits Maps.insert Validator.weight_of Engine.new Validator.new
    quorum_weight on_message
equivocation_needed_example =
    equivocation_needed four done other 0 7 8 (omega arith) done-IsSound.precommits
      other-IsSound.precommits (omega arith) (omega arith)

-- Two proposals of the leader, between one of another validator and one for another round.
abbrev proposals : List Proposal
proposals =
    record { height = 1; round = 0; block_hash = 7; proposer = 1 }
    ∷ record { height = 1; round = 0; block_hash = 9; proposer = 2 }
    ∷ record { height = 1; round = 1; block_hash = 9; proposer = 2 }
    ∷ record { height = 1; round = 0; block_hash = 8; proposer = 1 }
    ∷ []

two_prevotes_sent :
    (run in_order started (map propose proposals)).1
    ≡ send_prevote 1 0 (some 7) ∷ send_prevote 1 0 (some 8) ∷ []
unfolding run step on_message on_proposal start_height RoundState.reset_for_height
    Validator.leader_for_round Engine.new Validator.new
two_prevotes_sent = refl

abbrev prevotes_for : ℕ → List ℕ → List Input
prevotes_for hash [] = []
prevotes_for hash (v ∷ vs) = message (prevote_msg 1 0 (some hash) v) ∷ prevotes_for hash vs

reachable-IsSound_example :
    IsSound (run in_order started (timeout ∷ prevotes_for 7 (0 ∷ 1 ∷ 2 ∷ []))).0
reachable-IsSound_example =
    reachable-IsSound in_order idle_engine 1 (timeout ∷ prevotes_for 7 (0 ∷ 1 ∷ 2 ∷ []))

abbrev two_prevotes : ConsensusEngine
two_prevotes = (run in_order started (prevotes_for 7 (0 ∷ 1 ∷ []))).0

lock_needs_quorum_example :
    MovesLock two_prevotes (on_message in_order two_prevotes (prevote_msg 1 0 (some 7) 2)).0
lock_needs_quorum_example =
    lock_needs_quorum in_order in_order-Visits two_prevotes (prevote_msg 1 0 (some 7) 2)

timeouts_reach_leader_example :
    (n : ℕ) × (n < length four)
    × ((on_timeout (run in_order started (timeouts n)).0).1
        ≡ round_timeout 1 (0 + n) ∷ need_proposal 1 (0 + n + 1) 3 ∷ [])
unfolding start_height RoundState.reset_for_height Engine.new Validator.new
timeouts_reach_leader_example =
    timeouts_reach_leader in_order started 3 (validator 3) refl refl (omega arith) (omega arith)
      (omega arith)
