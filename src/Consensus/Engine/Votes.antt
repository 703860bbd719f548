-- ===== src/Consensus/Engine/Votes.antt =====
-- How consensus.rs treats repeated votes.
use eth.Prelude.{
  ℕ, ◌≡◌, true, false, ==_refl, Option, none, some, List, [], arith, Bool-cases, ◌⊎◌, inl, inr,
}
use eth.Prelude.Maps
use eth.Prelude.Maps.{nat_eq, pair_eq, get-insert}
use eth.Consensus.RoundState.{Tally, insert_prevote, insert_precommit, voted}
use eth.Consensus.Engine.{
  ConsensusEngine, ConsensusMessage, prevote_msg, precommit_msg, is_committed, is_stale, on_prevote,
  on_precommit, dispatch, on_message, count_prevote, count_precommit, tally_and_lock, lock_on,
}

abbrev pub SameVotes : ConsensusEngine → ConsensusEngine → Type 0
SameVotes e e' =
    (e'.state.height ≡ e.state.height)
    × (e'.state.round ≡ e.state.round)
    × (e'.state.prevotes ≡ e.state.prevotes)
    × (e'.state.precommits ≡ e.state.precommits)

tally_and_lock-SameVotes :
    (visit : Tally → Tally) (e : ConsensusEngine) (h r : ℕ)
    → SameVotes e (tally_and_lock visit e h r).0
unfolding tally_and_lock lock_on
tally_and_lock-SameVotes visit e h r = ground arith

count_prevote-SameVotes :
    (visit : Tally → Tally) (e : ConsensusEngine) (h r : ℕ) (b : Option ℕ) (v : ℕ)
    → SameVotes e (count_prevote visit e h r b v).0
unfolding count_prevote
count_prevote-SameVotes visit e h r none v = tally_and_lock-SameVotes visit e h r
count_prevote-SameVotes visit e h r (some b) v = ground arith

count_precommit-SameVotes :
    (visit : Tally → Tally) (e : ConsensusEngine) (h r : ℕ)
    → SameVotes e (count_precommit visit e h r).0
unfolding count_precommit
count_precommit-SameVotes visit e h r = ground arith

voted-insert :
    (r v : ℕ) (b : Option ℕ) (votes : List ((ℕ × ℕ) × Option ℕ))
    → voted r v (Maps.insert (r, v) b votes) ≡ true
voted-insert r v b votes = ground (arith, get-insert (r, v) (r, v) b votes, ==_refl r, ==_refl v)

-- A prevote or precommit that the engine will not look at again.
abbrev Closed : ConsensusEngine → List ((ℕ × ℕ) × Option ℕ) → ℕ → ℕ → ℕ → Type 0
Closed e votes h r v = (is_stale e h r ≡ true) ⊎ (voted r v votes ≡ true)

prevote_Closed :
    (visit : Tally → Tally) (e : ConsensusEngine) (h r : ℕ) (b : Option ℕ) (v : ℕ)
    → let e' = (on_prevote visit e h r b v).0 in Closed e' e'.state.prevotes h r v
unfolding on_prevote insert_prevote
prevote_Closed visit e h r b v =
    let stored = Maps.insert (r, v) b e.state.prevotes in
    let e' = record e { state = record e.state { prevotes = stored } } in
    ground (arith, count_prevote-SameVotes visit e' h r b v, voted-insert r v b e.state.prevotes)

precommit_Closed :
    (visit : Tally → Tally) (e : ConsensusEngine) (h r : ℕ) (b : Option ℕ) (v : ℕ)
    → let e' = (on_precommit visit e h r b v).0 in Closed e' e'.state.precommits h r v
unfolding on_precommit insert_precommit
precommit_Closed visit e h r b v =
    let stored = Maps.insert (r, v) b e.state.precommits in
    let e' = record e { state = record e.state { precommits = stored } } in
    ground (arith, count_precommit-SameVotes visit e' h r, voted-insert r v b e.state.precommits)

Closed-prevote_ignored :
    (visit : Tally → Tally) (e : ConsensusEngine) (h r : ℕ) (b : Option ℕ) (v : ℕ)
    → Closed e e.state.prevotes h r v
    → on_message visit e (prevote_msg h r b v) ≡ (e, [])
unfolding on_message dispatch on_prevote insert_prevote
Closed-prevote_ignored visit e h r b v c = ground arith

Closed-precommit_ignored :
    (visit : Tally → Tally) (e : ConsensusEngine) (h r : ℕ) (b : Option ℕ) (v : ℕ)
    → Closed e e.state.precommits h r v
    → on_message visit e (precommit_msg h r b v) ≡ (e, [])
unfolding on_message dispatch on_precommit insert_precommit
Closed-precommit_ignored visit e h r b v c = ground arith

on_message_done :
    (visit : Tally → Tally) (e : ConsensusEngine) (m : ConsensusMessage)
    → is_committed e.state.step ≡ true
    → on_message visit e m ≡ (e, [])
unfolding on_message
on_message_done visit e m c = ground arith

on_message_live :
    (visit : Tally → Tally) (e : ConsensusEngine) (m : ConsensusMessage)
    → is_committed e.state.step ≡ false
    → on_message visit e m ≡ dispatch visit e m
unfolding on_message
on_message_live visit e m c = ground arith

-- A voter has one prevote in a round: whatever hash a second one names, it changes nothing and
-- causes no event.
pub second_prevote_ignored :
    (visit : Tally → Tally) (e : ConsensusEngine) (h r : ℕ) (b b' : Option ℕ) (v : ℕ)
    → let e' = (on_message visit e (prevote_msg h r b v)).0 in
      on_message visit e' (prevote_msg h r b' v) ≡ (e', [])
unfolding dispatch
second_prevote_ignored visit e h r b b' v = elim (Bool-cases (is_committed e.state.step)) [
  | inl done ↦
      rw (on_message_done visit e (prevote_msg h r b v) done)
        (on_message_done visit e (prevote_msg h r b' v) done)
  | inr live ↦ rw (on_message_live visit e (prevote_msg h r b v) live) (
      Closed-prevote_ignored visit (on_prevote visit e h r b v).0 h r b' v
        (prevote_Closed visit e h r b v))
]

-- A voter has one precommit in a round: a second one changes nothing and causes no event.
pub second_precommit_ignored :
    (visit : Tally → Tally) (e : ConsensusEngine) (h r : ℕ) (b b' : Option ℕ) (v : ℕ)
    → let e' = (on_message visit e (precommit_msg h r b v)).0 in
      on_message visit e' (precommit_msg h r b' v) ≡ (e', [])
unfolding dispatch
second_precommit_ignored visit e h r b b' v = elim (Bool-cases (is_committed e.state.step)) [
  | inl done ↦
      rw (on_message_done visit e (precommit_msg h r b v) done)
        (on_message_done visit e (precommit_msg h r b' v) done)
  | inr live ↦ rw (on_message_live visit e (precommit_msg h r b v) live) (
      Closed-precommit_ignored visit (on_precommit visit e h r b v).0 h r b' v
        (precommit_Closed visit e h r b v))
]
