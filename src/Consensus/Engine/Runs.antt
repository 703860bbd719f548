-- ===== src/Consensus/Engine/Runs.antt =====
-- Sequences of messages and timeouts at one height of consensus.rs, and what they finalize.
use eth.Prelude.{
  ℕ, ◌+◌, ◌≤◌, ◌≡◌, refl, Option, none, some, List, [], ◌∷◌, ◌++◌, if◌then◌else◌, arith,
}
use eth.Consensus.RoundState.{Tally, committed, insert_prevote, insert_precommit}
use eth.Consensus.Engine.{
  ConsensusEngine, ConsensusEvent, ConsensusMessage, Result, block_finalized, proposal, prevote_msg,
  precommit_msg, is_committed, start_height, on_proposal, on_prevote, on_precommit, dispatch,
  on_message, on_timeout, count_prevote, count_precommit, tally_and_lock, lock_on,
}

-- What an engine is fed at one height.
pub data Input : Type 0 where
  message : ConsensusMessage → Input
  timeout : Input

unfoldable pub step : (Tally → Tally) → ConsensusEngine → Input → Result
step visit e (message m) = on_message visit e m
step visit e timeout = on_timeout e

-- The engine after a list of inputs, with all its events in order.
unfoldable pub run : (Tally → Tally) → ConsensusEngine → List Input → Result
run visit e [] = (e, [])
run visit e (i ∷ is) =
    let (e', events) = step visit e i in
    let (last, later) = run visit e' is in (last, events ++ later)

-- The number of blocks that a list of events finalizes.
abbrev pub is_final : ConsensusEvent → ℕ
is_final (block_finalized _ _ _) = 1
is_final _ = 0

abbrev pub finalizations : List ConsensusEvent → ℕ
finalizations [] = 0
finalizations (x ∷ xs) = is_final x + finalizations xs

abbrev pub committed_count : ConsensusEngine → ℕ
committed_count e = if is_committed e.state.step then 1 else 0

-- An event list pays for its finalizations by the move to `committed`.
abbrev pub Pays : ℕ → Result → Type 0
Pays n r = n + finalizations r.1 ≤ committed_count r.0

tally_and_lock-Pays :
    (visit : Tally → Tally) (e : ConsensusEngine) (h r : ℕ) → Pays 0 (tally_and_lock visit e h r)
unfolding tally_and_lock lock_on
tally_and_lock-Pays visit e h r = ground arith

count_prevote-Pays :
    (visit : Tally → Tally) (e : ConsensusEngine) (h r : ℕ) (b : Option ℕ) (v : ℕ)
    → Pays 0 (count_prevote visit e h r b v)
unfolding count_prevote
count_prevote-Pays visit e h r none v = tally_and_lock-Pays visit e h r
count_prevote-Pays visit e h r (some b) v = ground arith

count_precommit-Pays :
    (visit : Tally → Tally) (e : ConsensusEngine) (h r : ℕ) → Pays 0 (count_precommit visit e h r)
unfolding count_precommit
count_precommit-Pays visit e h r = ground arith

dispatch-Pays :
    (visit : Tally → Tally) (e : ConsensusEngine) (m : ConsensusMessage)
    → Pays 0 (dispatch visit e m)
unfolding dispatch on_proposal on_prevote on_precommit
dispatch-Pays visit e (proposal h r b p) = ground arith
dispatch-Pays visit e (prevote_msg h r b v) = ground (
  arith,
  count_prevote-Pays visit (record e { state = (insert_prevote e.state r v b).0 }) h r b v,
)
dispatch-Pays visit e (precommit_msg h r b v) = ground (
  arith,
  count_precommit-Pays visit (record e { state = (insert_precommit e.state r v b).0 }) h r,
)

step-Pays :
    (visit : Tally → Tally) (e : ConsensusEngine) (i : Input)
    → Pays (committed_count e) (step visit e i)
unfolding step on_message on_timeout
step-Pays visit e (message m) = ground (arith, dispatch-Pays visit e m)
step-Pays visit e timeout = ground arith

finalizations-append :
    (xs ys : List ConsensusEvent) → finalizations (xs ++ ys) ≡ finalizations xs + finalizations ys
finalizations-append [] ys = omega arith
finalizations-append (x ∷ xs) ys = omega (arith, finalizations-append xs ys)

run-Pays :
    (visit : Tally → Tally) (e : ConsensusEngine) (is : List Input)
    → Pays (committed_count e) (run visit e is)
unfolding run
run-Pays visit e [] = omega arith
run-Pays visit e (i ∷ is) = omega (
  arith,
  step-Pays visit e i,
  run-Pays visit (step visit e i).0 is,
  finalizations-append (step visit e i).1 (run visit (step visit e i).0 is).1,
)

committed_count_bound : (e : ConsensusEngine) → committed_count e ≤ 1
committed_count_bound e = ground arith

-- Whatever messages and timeouts follow the start of a height, in any order, at most one block is
-- finalized there.
pub finalizes_once :
    (visit : Tally → Tally) (e : ConsensusEngine) (height : ℕ) (is : List Input)
    → finalizations (run visit (start_height e height).0 is).1 ≤ 1
finalizes_once visit e height is =
    let s = (start_height e height).0 in
    omega (arith, run-Pays visit s is, committed_count_bound (run visit s is).0)

committed-step :
    (visit : Tally → Tally) (e : ConsensusEngine) (i : Input)
    → e.state.step ≡ committed
    → step visit e i ≡ (e, [])
unfolding step on_message on_timeout
committed-step visit e (message m) c = ground arith
committed-step visit e timeout c = ground arith

-- Once a block is finalized, no input changes the engine or makes it emit anything.
pub committed_absorbs :
    (visit : Tally → Tally) (e : ConsensusEngine) (is : List Input)
    → e.state.step ≡ committed
    → run visit e is ≡ (e, [])
unfolding run
committed_absorbs visit e [] c = refl
committed_absorbs visit e (i ∷ is) c =
    rw (committed-step visit e i c) (rw (committed_absorbs visit e is c))
