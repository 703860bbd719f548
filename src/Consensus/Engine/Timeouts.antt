-- ===== src/Consensus/Engine/Timeouts.antt =====
-- Progress by timeouts in consensus.rs: every validator gets its turn as leader.
use eth.Prelude.{
  ℕ, zero, suc, ◌+◌, ◌≤◌, ◌<◌, ◌≡◌, refl, ◌∙◌, false, some, List, [], ◌∷◌, u32_max, u64_max,
  sat_add64, arith, length, get_elem?,
}
use eth.Consensus.Validator.{ValidatorSet, Validator, leader_for_round, leader_position}
use eth.Consensus.Validator.Leader.{leader_rotates}
use eth.Consensus.RoundState.{Tally, advance_round}
use eth.Consensus.Engine.{ConsensusEngine, need_proposal, round_timeout, is_committed, on_timeout}
use eth.Consensus.Engine.Runs.{Input, timeout, step, run}

abbrev pub timeouts : ℕ → List Input
timeouts zero = []
timeouts (suc n) = timeout ∷ timeouts n

-- An engine that has only moved on by a number of rounds.
pub record Moved (e : ConsensusEngine) (n : ℕ) (e' : ConsensusEngine) : Type 0 where
  pub same_height : e'.state.height ≡ e.state.height
  pub moved_round : e'.state.round ≡ e.state.round + n
  pub same_set : e'.validator_set ≡ e.validator_set
  pub live : is_committed e'.state.step ≡ false

on_timeout-Moved :
    (e : ConsensusEngine)
    → is_committed e.state.step ≡ false
    → e.state.round + 1 ≤ u32_max
    → Moved e 1 (on_timeout e).0
unfolding on_timeout advance_round
on_timeout-Moved e live fits = ground arith

Moved-trans :
    (e e' e'' : ConsensusEngine) (m n k : ℕ)
    → Moved e m e'
    → Moved e' n e''
    → k ≡ m + n
    → Moved e k e''
Moved-trans e e' e'' m n k a b h = record {
  same_height = b.same_height ∙ a.same_height;
  moved_round = omega (arith, a.moved_round, b.moved_round);
  same_set = b.same_set ∙ a.same_set;
  live = b.live;
}

-- Each timeout of a live engine moves it on by one round.
pub timeouts-Moved :
    (visit : Tally → Tally) (e : ConsensusEngine) (n : ℕ)
    → is_committed e.state.step ≡ false
    → e.state.round + n ≤ u32_max
    → Moved e n (run visit e (timeouts n)).0
unfolding run step
timeouts-Moved visit e zero live fits = record {
  same_height = refl;
  moved_round = omega arith;
  same_set = refl;
  live = live;
}
timeouts-Moved visit e (suc n) live fits =
    let one = on_timeout-Moved e live (omega arith) in
    Moved-trans e (on_timeout e).0 _ 1 n (suc n) one
      (timeouts-Moved visit (on_timeout e).0 n one.live (omega (arith, one.moved_round)))
      (omega arith)

leader_shift :
    (s : ValidatorSet) (height round k : ℕ)
    → height + (round + k) ≤ u64_max
    → leader_for_round s (height + round) k ≡ leader_for_round s height (round + k)
unfolding leader_for_round leader_position
leader_shift s height round k fits =
    let same : sat_add64 (height + round) k ≡ sat_add64 height (round + k) = omega arith in rw same

next_leader :
    (e : ConsensusEngine)
    → is_committed e.state.step ≡ false
    → e.state.round + 1 ≤ u32_max
    → (on_timeout e).1
      ≡ round_timeout e.state.height e.state.round
        ∷ need_proposal e.state.height
            (e.state.round + 1)
            (leader_for_round e.validator_set e.state.height (e.state.round + 1))
        ∷ []
unfolding on_timeout advance_round
next_leader e live fits = ground arith

events_of_Moved :
    (e e' : ConsensusEngine) (n leader : ℕ)
    → Moved e n e'
    → e.state.round + n + 1 ≤ u32_max
    → e.state.height + (e.state.round + 1 + n) ≤ u64_max
    → leader_for_round e.validator_set (e.state.height + (e.state.round + 1)) n ≡ leader
    → (on_timeout e').1
      ≡ round_timeout e.state.height (e.state.round + n)
        ∷ need_proposal e.state.height (e.state.round + n + 1) leader
        ∷ []
events_of_Moved e e' n leader m fits32 fits64 leads =
    let at : e.state.round + 1 + n ≡ e'.state.round + 1 = omega (arith, m.moved_round) in
    let shifted = leader_shift e.validator_set e.state.height (e.state.round + 1) n fits64 in
    let events = next_leader e' m.live (omega (arith, m.moved_round)) in
    ground (arith, m.same_height, m.moved_round, m.same_set, at, shifted, events, leads)

-- From any live engine, fewer than `len` timeouts lead to one more after which a given validator is
-- asked for a proposal, as long as rounds and heights do not saturate.
pub timeouts_reach_leader :
    (visit : Tally → Tally) (e : ConsensusEngine) (i : ℕ) (v : Validator)
    → is_committed e.state.step ≡ false
    → get_elem? e.validator_set.validators i ≡ some v
    → i < length e.validator_set.validators
    → e.state.round + length e.validator_set.validators < u32_max
    → e.state.height + e.state.round + length e.validator_set.validators < u64_max
    → (n : ℕ) × (n < length e.validator_set.validators)
      × ((on_timeout (run visit e (timeouts n)).0).1
          ≡ round_timeout e.state.height (e.state.round + n)
            ∷ need_proposal e.state.height (e.state.round + n + 1) v.index
            ∷ [])
timeouts_reach_leader visit e i v live at lt fits32 fits64 =
    let height = e.state.height in
    let round = e.state.round in
    let (n, small, leads) =
      leader_rotates e.validator_set (height + (round + 1)) i v at lt (omega arith) in
    let e' = (run visit e (timeouts n)).0 in
    (
      n,
      small,
      events_of_Moved e e' n v.index (timeouts-Moved visit e n live (omega arith)) (omega arith)
          (omega arith) leads,
    )
