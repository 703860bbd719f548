-- ===== src/Consensus/RoundState.antt =====
-- `RoundState` of crates/eth2077-oob-consensus/src/consensus.rs: the votes of a height, the lock,
-- and the tallies. A `HashMap` is an association list; the order in which std iterates a tally is
-- the parameter `visit` of `quorum_hash`.
pub mod Tally
use eth.Prelude.{
  ℕ, Bool, true, false, ◌==◌, leb, Option, none, some, List, [], ◌∷◌, find?, if◌then◌else◌,
  sat_add64, sat_add32,
}
use eth.Prelude.Maps
use eth.Prelude.Maps.{nat_eq, pair_eq}
use eth.Consensus.Validator.{ValidatorSet, weight_of}

pub data Step : Type 0 where
  propose prevote precommit committed : Step

-- (round, voter) ↦ the hash voted for, or nil
abbrev pub Votes : Type 0
Votes = List ((ℕ × ℕ) × Option ℕ)

-- hash ↦ weight
abbrev pub Tally : Type 0
Tally = List (ℕ × ℕ)

pub record RoundState : Type 0 where
  pub height : ℕ
  pub round : ℕ
  pub step : Step
  pub proposals : List (ℕ × ℕ)
  pub prevotes : Votes
  pub precommits : Votes
  pub locked_round : Option ℕ
  pub locked_hash : Option ℕ

unfoldable pub new : RoundState
new = record {
  height = 0;
  round = 0;
  step = propose;
  proposals = [];
  prevotes = [];
  precommits = [];
  locked_round = none;
  locked_hash = none;
}

unfoldable pub reset_for_height : RoundState → ℕ → RoundState
reset_for_height s height = record {
  height = height;
  round = 0;
  step = propose;
  proposals = [];
  prevotes = [];
  precommits = [];
  locked_round = none;
  locked_hash = none;
}

unfoldable pub advance_round : RoundState → RoundState
advance_round s = record s { round = sat_add32 s.round 1; step = propose }

-- `contains_key`
abbrev pub voted : ℕ → ℕ → Votes → Bool
voted round voter vs = elim (Maps.get (round, voter) vs) [ none ↦ false | some _ ↦ true ]

unfoldable pub insert_prevote : RoundState → ℕ → ℕ → Option ℕ → RoundState × Bool
insert_prevote s round voter block_hash =
    if voted round voter s.prevotes
    then (s, false)
    else (record s { prevotes = Maps.insert (round, voter) block_hash s.prevotes }, true)

unfoldable pub insert_precommit : RoundState → ℕ → ℕ → Option ℕ → RoundState × Bool
insert_precommit s round voter block_hash =
    if voted round voter s.precommits
    then (s, false)
    else (record s { precommits = Maps.insert (round, voter) block_hash s.precommits }, true)

abbrev pub value_or_zero : Option ℕ → ℕ
value_or_zero none = 0
value_or_zero (some n) = n

-- `*entry = (*entry).saturating_add(weight)` on the entry of the hash, 0 where it is new.
unfoldable pub add_weight : ℕ → ℕ → Tally → Tally
add_weight hash weight t = Maps.insert hash (sat_add64 (value_or_zero (Maps.get hash t)) weight) t

-- The body of the loops: votes of another round, nil votes and voters without weight are skipped.
unfoldable pub tally_vote : ValidatorSet → ℕ → ℕ → ℕ → Option ℕ → Tally → Tally
unfolding add_weight
tally_vote vs round vote_round voter none t = t
tally_vote vs round vote_round voter (some hash) t =
    if vote_round == round
    then if weight_of vs voter == 0 then t else add_weight hash (weight_of vs voter) t
    else t

unfoldable pub tally_from : ValidatorSet → ℕ → Tally → Votes → Tally
unfolding tally_vote
tally_from vs round t [] = t
tally_from vs round t (((vote_round, voter), block_hash) ∷ votes) =
    tally_from vs round (tally_vote vs round vote_round voter block_hash t) votes

unfoldable pub tally_prevotes : RoundState → ℕ → ValidatorSet → Tally
unfolding tally_from
tally_prevotes s round vs = tally_from vs round [] s.prevotes

unfoldable pub tally_precommits : RoundState → ℕ → ValidatorSet → Tally
unfolding tally_from
tally_precommits s round vs = tally_from vs round [] s.precommits

abbrev pub hash_of : Option (ℕ × ℕ) → Option ℕ
hash_of none = none
hash_of (some (h, w)) = some h

-- `find_map` over the tally, in the order in which the map is visited.
unfoldable pub quorum_hash : (Tally → Tally) → Tally → ℕ → Option ℕ
quorum_hash visit t quorum = hash_of (find? (λ e. leb quorum e.1) (visit t))
