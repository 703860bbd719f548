-- ===== src/Consensus/Engine/Locks.antt =====
-- The invariant of the engine of consensus.rs, what moves its lock, and what a timeout does.
use eth.Prelude.{
  ℕ, ◌≤◌, ◌≡◌, refl, sym, ap, Option, none, some, List, [], ◌∷◌, u32_max, arith, Bool-cases, ◌⊎◌,
  inl, inr,
}
use eth.Prelude.Maps
use eth.Prelude.Maps.{nat_eq, pair_eq, get-insert}
use eth.Prelude.Members.{UniqueKeys, insert-UniqueKeys}
use eth.Consensus.Validator.{quorum_weight}
use eth.Consensus.FastPath.Invariant.{IsValid, reset-IsValid}
use eth.Consensus.RoundState.{Tally, quorum_hash, tally_prevotes, reset_for_height, advance_round}
use eth.Consensus.RoundState.Tally.{Visits, weight_for, tally_quorum_reached}
use eth.Consensus.Engine.{
  ConsensusEngine, ConsensusMessage, is_committed, on_message, on_timeout, count_prevote, lock_on,
  start_height,
}
use eth.Consensus.Engine.Cases.{tally_and_lock_cases, count_prevote_cases, on_message_cases}
use eth.Consensus.Engine.Runs.{Input, message, timeout, step, run}

-- A lock has a round if and only if it has a hash, and its round is not in the future.
abbrev pub IsLock : Option ℕ → Option ℕ → ℕ → Type 0
IsLock none none round = Unit {0}
IsLock none (some h) round = ⊥
IsLock (some r) none round = ⊥
IsLock (some r) (some h) round = r ≤ round

pub record IsSound (e : ConsensusEngine) : Type 0 where
  pub fast : IsValid e.fast_path
  pub prevotes : UniqueKeys e.state.prevotes
  pub precommits : UniqueKeys e.state.precommits
  pub lock : IsLock e.state.locked_round e.state.locked_hash e.state.round
  pub round_u32 : e.state.round ≤ u32_max

pub start_height-IsSound : (e : ConsensusEngine) (h : ℕ) → IsSound (start_height e h).0
unfolding start_height reset_for_height
start_height-IsSound e h = record {
  fast = reset-IsValid e.fast_path;
  prevotes = tt;
  precommits = tt;
  lock = tt;
  round_u32 = omega arith;
}

IsLock-mono : (r h : Option ℕ) (a b : ℕ) → a ≤ b → IsLock r h a → IsLock r h b
IsLock-mono none none a b le l = tt
IsLock-mono none (some h) a b le l = l
IsLock-mono (some r) none a b le l = l
IsLock-mono (some r) (some h) a b le l = omega arith

on_timeout-IsSound : (e : ConsensusEngine) → IsSound e → IsSound (on_timeout e).0
unfolding on_timeout advance_round
on_timeout-IsSound e s = elim (Bool-cases (is_committed e.state.step)) [
  | inl done ↦ rw (done, on_timeout) s
  | inr live ↦ simp live (record {
    fast = reset-IsValid e.fast_path;
    prevotes = s.prevotes;
    precommits = s.precommits;
    lock =
        IsLock-mono e.state.locked_round e.state.locked_hash e.state.round _
          (ground (arith, s.round_u32)) s.lock;
    round_u32 = omega arith;
  })
]

module _ (visit : Tally → Tally) where
  lock_on-IsSound :
      (e : ConsensusEngine) (height hash : ℕ)
      → IsSound e
      → IsSound (lock_on e height e.state.round hash).0
  unfolding lock_on
  lock_on-IsSound e height hash s = record {
    fast = s.fast;
    prevotes = s.prevotes;
    precommits = s.precommits;
    lock = omega arith;
    round_u32 = s.round_u32;
  }

  count_prevote-IsSound :
      (e : ConsensusEngine) (height : ℕ) (b : Option ℕ) (voter : ℕ)
      → IsSound e
      → IsSound (count_prevote visit e height e.state.round b voter).0
  count_prevote-IsSound e height b voter s =
      count_prevote_cases visit IsSound e height e.state.round b voter λ acc keeps.
        let fast : IsSound (record e { fast_path = acc }) = record {
          fast = keeps s.fast;
          prevotes = s.prevotes;
          precommits = s.precommits;
          lock = s.lock;
          round_u32 = s.round_u32;
        } in
        (
          tally_and_lock_cases visit IsSound (record e { fast_path = acc }) height e.state.round
              fast (λ hash _. lock_on-IsSound (record e { fast_path = acc }) height hash fast),
          record {
            fast = keeps s.fast;
            prevotes = s.prevotes;
            precommits = s.precommits;
            lock = s.lock;
            round_u32 = s.round_u32;
          },
        )

  on_message-IsSound :
      (e : ConsensusEngine) (msg : ConsensusMessage)
      → IsSound e
      → IsSound (on_message visit e msg).0
  on_message-IsSound e msg s =
      on_message_cases visit IsSound e msg s
        (λ hash. record {
          fast = s.fast;
          prevotes = s.prevotes;
          precommits = s.precommits;
          lock = s.lock;
          round_u32 = s.round_u32;
        })
        (λ b voter. count_prevote-IsSound _ e.state.height b voter (record {
          fast = s.fast;
          prevotes = insert-UniqueKeys (e.state.round, voter) b e.state.prevotes s.prevotes;
          precommits = s.precommits;
          lock = s.lock;
          round_u32 = s.round_u32;
        }))
        (λ b voter.
          let unique = insert-UniqueKeys (e.state.round, voter) b e.state.precommits s.precommits in
          (
            record {
              fast = s.fast;
              prevotes = s.prevotes;
              precommits = unique;
              lock = s.lock;
              round_u32 = s.round_u32;
            },
            record {
              fast = s.fast;
              prevotes = s.prevotes;
              precommits = unique;
              lock = s.lock;
              round_u32 = s.round_u32;
            },
          ))

  run-IsSound : (e : ConsensusEngine) (is : List Input) → IsSound e → IsSound (run visit e is).0
  unfolding run step
  run-IsSound e [] s = s
  run-IsSound e (message m ∷ is) s =
      run-IsSound (on_message visit e m).0 is (on_message-IsSound e m s)
  run-IsSound e (timeout ∷ is) s = run-IsSound (on_timeout e).0 is (on_timeout-IsSound e s)

  -- After the start of a height and any messages and timeouts, the fast path is valid, no voter has
  -- two prevotes or two precommits in a round, the lock has a round exactly when it has a hash, that
  -- round is not after the engine's, and the engine's round fits in 32 bits.
  pub reachable-IsSound :
      (e : ConsensusEngine) (height : ℕ) (is : List Input)
      → IsSound (run visit (start_height e height).0 is).0
  reachable-IsSound e height is =
      run-IsSound (start_height e height).0 is (start_height-IsSound e height)

-- The lock, as a pair of a round and a hash.
abbrev pub HasLock : ConsensusEngine → ℕ → ℕ → Type 0
HasLock e round hash = (e.state.locked_round ≡ some round) × (e.state.locked_hash ≡ some hash)

-- The lock of an engine is the earlier one's, or it was set to a hash that has prevotes of the
-- quorum's weight in the current round.
abbrev pub MovesLock : ConsensusEngine → ConsensusEngine → Type 0
MovesLock e e' =
    ((e'.state.locked_round ≡ e.state.locked_round) × (e'.state.locked_hash ≡ e.state.locked_hash))
    ⊎ ((hash : ℕ) × HasLock e' e.state.round hash
        × (quorum_weight e'.validator_set
            ≤ weight_for e'.validator_set e.state.round hash e'.state.prevotes))

module _ (visit : Tally → Tally) (visits : Visits visit) where
  lock_on-MovesLock :
      (o e : ConsensusEngine) (height hash : ℕ)
      → o.state.round ≡ e.state.round
      → quorum_hash visit
          (tally_prevotes e.state e.state.round e.validator_set)
          (quorum_weight e.validator_set)
        ≡ some hash
      → MovesLock o (lock_on e height e.state.round hash).0
  unfolding lock_on tally_prevotes
  lock_on-MovesLock o e height hash r found = inr (
    hash,
    (ap some (sym r), refl),
    rw r (
        tally_quorum_reached visit visits e.validator_set e.state.round
          (quorum_weight e.validator_set) hash e.state.prevotes found),
  )

  -- A message moves the lock only to a hash that has prevotes of the quorum's weight in the
  -- current round.
  pub lock_needs_quorum :
      (e : ConsensusEngine) (msg : ConsensusMessage) → MovesLock e (on_message visit e msg).0
  lock_needs_quorum e msg =
      on_message_cases visit (MovesLock e) e msg (inl (refl, refl)) (λ _. inl (refl, refl))
        (λ b voter.
          let stored = Maps.insert (e.state.round, voter) b e.state.prevotes in
          let e' = record e { state = record e.state { prevotes = stored } } in
          count_prevote_cases visit (MovesLock e) e' e.state.height e.state.round b voter λ acc _. (
            tally_and_lock_cases visit (MovesLock e) (record e' { fast_path = acc }) e.state.height
                e.state.round (inl (refl, refl))
                (λ hash found.
                  lock_on-MovesLock e (record e' { fast_path = acc }) e.state.height hash refl
                    found),
            inl (refl, refl),
          ))
        (λ b voter. (inl (refl, refl), inl (refl, refl)))
