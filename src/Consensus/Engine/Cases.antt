-- ===== src/Consensus/Engine/Cases.antt =====
-- The ways through the handlers of consensus.rs, as rules for a predicate on the new engine.
use eth.Prelude.{ℕ, ◌≡◌, ◌==◌, Option, none, some, [], arith, Bool-cases, Option-cases, inl, inr}
use eth.Prelude.Maps
use eth.Prelude.Maps.{nat_eq, pair_eq, get-insert}
use eth.Consensus.Validator.{leader_for_round, quorum_weight}
use eth.Consensus.FastPath.{FastPathAccumulator, add_attestation}
use eth.Consensus.FastPath.Invariant.{IsValid}
use eth.Consensus.FastPath.Outcomes.{add_attestation-IsValid}
use eth.Consensus.RoundState.{
  Tally, committed, prevote, insert_prevote, insert_precommit, voted, quorum_hash, tally_prevotes,
  tally_precommits,
}
use eth.Consensus.Engine.{
  ConsensusEngine, ConsensusMessage, proposal, prevote_msg, precommit_msg, is_committed, is_fast,
  is_stale, prevote_attestation, on_proposal, on_prevote, on_precommit, dispatch, on_message,
  count_prevote, count_precommit, tally_and_lock, lock_on,
}

-- What `lock_on` changes, and when: a rule for the three callers.
module _ (visit : Tally → Tally) (P : ConsensusEngine → Type 0) where
  pub tally_and_lock_cases :
      (e : ConsensusEngine) (height round : ℕ)
      → P e
      → ((hash : ℕ)
          → quorum_hash visit
              (tally_prevotes e.state round e.validator_set)
              (quorum_weight e.validator_set)
            ≡ some hash
          → P (lock_on e height round hash).0)
      → P (tally_and_lock visit e height round).0
  unfolding tally_and_lock
  tally_and_lock_cases e height round skip locks =
      elim (Option-cases (
        quorum_hash visit (tally_prevotes e.state round e.validator_set)
          (quorum_weight e.validator_set))) [
            | inl missing ↦ rw (missing, tally_and_lock) skip
            | inr (hash, found) ↦ rw (found, tally_and_lock) (locks hash found)
          ]

  pub count_prevote_cases :
      (e : ConsensusEngine) (height round : ℕ) (b : Option ℕ) (voter : ℕ)
      → ((acc : FastPathAccumulator)
          → (IsValid e.fast_path → IsValid acc)
          → P (tally_and_lock visit (record e { fast_path = acc }) height round).0
            × P (record e { fast_path = acc; state = record e.state { step = committed } }))
      → P (count_prevote visit e height round b voter).0
  unfolding count_prevote
  count_prevote_cases e height round none voter next = (next e.fast_path (λ v. v)).0
  count_prevote_cases e height round (some b) voter next =
      let acc = add_attestation e.fast_path (prevote_attestation e b voter) in
      let both = next acc.0 (add_attestation-IsValid e.fast_path (prevote_attestation e b voter)) in
      elim (Bool-cases (is_fast acc.1)) [
        | inl fast ↦ rw (fast, count_prevote) both.1
        | inr slow ↦ rw (slow, count_prevote) both.0
      ]

-- Rules for a prevote and a precommit that are handled: nothing, or the vote is stored first.
module _ (visit : Tally → Tally) (P : ConsensusEngine → Type 0) where
  on_prevote_cases :
      (e : ConsensusEngine) (height round : ℕ) (b : Option ℕ) (voter : ℕ)
      → P e
      → (let votes = Maps.insert (e.state.round, voter) b e.state.prevotes in
          P
            (count_prevote visit
              (record e { state = record e.state { prevotes = votes } })
              e.state.height
              e.state.round
              b
              voter).0)
      → P (on_prevote visit e height round b voter).0
  unfolding on_prevote insert_prevote
  on_prevote_cases e height round b voter skip store = elim (Bool-cases (is_stale e height round)) [
    | inl stale ↦ rw (stale, on_prevote) skip
    | inr fresh ↦
        let at_h : height ≡ e.state.height = ground (arith, fresh) in
        let at_r : round ≡ e.state.round = ground (arith, fresh) in
        elim (Bool-cases (voted round voter e.state.prevotes)) [
          | inl old ↦
              let same : on_prevote visit e height round b voter ≡ (e, []) =
                ground (arith, fresh, old) in
              rw same skip
          | inr new ↦
              let stored = Maps.insert (e.state.round, voter) b e.state.prevotes in
              let e' = record e { state = record e.state { prevotes = stored } } in
              let same : on_prevote visit e height round b voter
                  ≡ count_prevote visit e' e.state.height e.state.round b voter =
                ground (arith, fresh, new) in
              rw same store
        ]
  ]

  on_precommit_cases :
      (e : ConsensusEngine) (height round : ℕ) (b : Option ℕ) (voter : ℕ)
      → P e
      → (let votes = Maps.insert (e.state.round, voter) b e.state.precommits in
          P (record e { state = record e.state { precommits = votes } })
          × P (record e { state = record e.state { precommits = votes; step = committed } }))
      → P (on_precommit visit e height round b voter).0
  unfolding on_precommit insert_precommit count_precommit
  on_precommit_cases e height round b voter skip store =
      let stored = Maps.insert (e.state.round, voter) b e.state.precommits in
      let e' = record e { state = record e.state { precommits = stored } } in
      let found =
        quorum_hash visit (tally_precommits e'.state e.state.round e.validator_set)
          (quorum_weight e.validator_set) in
      elim (Bool-cases (is_stale e height round)) [
        | inl stale ↦ rw (stale, on_precommit) skip
        | inr fresh ↦ elim (Bool-cases (voted round voter e.state.precommits)) [
          | inl old ↦
              let same : on_precommit visit e height round b voter ≡ (e, []) =
                ground (arith, fresh, old) in
              rw same skip
          | inr new ↦
              let same : on_precommit visit e height round b voter
                  ≡ count_precommit visit e' e.state.height e.state.round =
                ground (arith, fresh, new) in
              rw same (elim (Option-cases found) [
                | inl missing ↦ rw (missing, count_precommit) store.0
                | inr (h, at) ↦ rw (at, count_precommit) store.1
              ])
        ]
      ]

  on_proposal_cases :
      (e : ConsensusEngine) (height round hash proposer : ℕ)
      → P e
      → P (record e {
        state = record e.state {
          proposals = Maps.insert e.state.round hash e.state.proposals;
          step = prevote;
        };
      })
      → P (on_proposal e height round hash proposer).0
  unfolding on_proposal
  on_proposal_cases e height round hash proposer skip proposed =
      elim (Bool-cases (is_stale e height round)) [
        | inl stale ↦ rw (stale, on_proposal) skip
        | inr fresh ↦
            let at_r : round ≡ e.state.round = ground (arith, fresh) in
            elim (Bool-cases (proposer == leader_for_round e.validator_set height round)) [
              | inr other ↦ rw (fresh, other, on_proposal) skip
              | inl leads ↦
                  let target = record e {
                    state = record e.state {
                      proposals = Maps.insert e.state.round hash e.state.proposals;
                      step = prevote;
                    };
                  } in
                  let same : (on_proposal e height round hash proposer).0 ≡ target =
                    ground (arith, fresh, leads) in
                  rw same proposed
            ]
      ]

  dispatch_cases :
      (e : ConsensusEngine) (msg : ConsensusMessage)
      → P e
      → ((hash : ℕ)
          → P (record e {
            state = record e.state {
              proposals = Maps.insert e.state.round hash e.state.proposals;
              step = prevote;
            };
          }))
      → ((b : Option ℕ) (voter : ℕ)
          → (let votes = Maps.insert (e.state.round, voter) b e.state.prevotes in
              P
                (count_prevote visit
                  (record e { state = record e.state { prevotes = votes } })
                  e.state.height
                  e.state.round
                  b
                  voter).0))
      → ((b : Option ℕ) (voter : ℕ)
          → (let votes = Maps.insert (e.state.round, voter) b e.state.precommits in
              P (record e { state = record e.state { precommits = votes } })
              × P (record e { state = record e.state { precommits = votes; step = committed } })))
      → P (dispatch visit e msg).0
  unfolding dispatch
  dispatch_cases e (proposal h r b p) skip proposed prevoted precommitted =
      on_proposal_cases e h r b p skip (proposed b)
  dispatch_cases e (prevote_msg h r b v) skip proposed prevoted precommitted =
      on_prevote_cases e h r b v skip (prevoted b v)
  dispatch_cases e (precommit_msg h r b v) skip proposed prevoted precommitted =
      on_precommit_cases e h r b v skip (precommitted b v)

  -- Every message: it is ignored, or sets the proposal, or stores a vote and counts.
  pub on_message_cases :
      (e : ConsensusEngine) (msg : ConsensusMessage)
      → P e
      → ((hash : ℕ)
          → P (record e {
            state = record e.state {
              proposals = Maps.insert e.state.round hash e.state.proposals;
              step = prevote;
            };
          }))
      → ((b : Option ℕ) (voter : ℕ)
          → (let votes = Maps.insert (e.state.round, voter) b e.state.prevotes in
              P
                (count_prevote visit
                  (record e { state = record e.state { prevotes = votes } })
                  e.state.height
                  e.state.round
                  b
                  voter).0))
      → ((b : Option ℕ) (voter : ℕ)
          → (let votes = Maps.insert (e.state.round, voter) b e.state.precommits in
              P (record e { state = record e.state { precommits = votes } })
              × P (record e { state = record e.state { precommits = votes; step = committed } })))
      → P (on_message visit e msg).0
  unfolding on_message
  on_message_cases e msg skip proposed prevoted precommitted =
      elim (Bool-cases (is_committed e.state.step)) [
        | inl done ↦ rw (done, on_message) skip
        | inr live ↦
            rw (live, on_message) (dispatch_cases e msg skip proposed prevoted precommitted)
      ]
