-- ===== src/Bridge/Forkchoice.antt =====
-- crates/eth2077-bridge/src/forkchoice.rs: the three block hashes that the fork choice names. The
-- lock makes every call atomic, so calls from several threads are one sequence of calls.
use eth.Prelude.{ℕ, zero, suc, ◌≡◌, refl, List, [], ◌∷◌}

-- `zero_hex` of engine_api.rs: `00` so many times behind `0x`.
unfoldable pub zero_pairs : ℕ → List ℕ
zero_pairs zero = []
zero_pairs (suc n) = b'0' ∷ b'0' ∷ zero_pairs n

unfoldable pub zero_hex : ℕ → List ℕ
unfolding zero_pairs
zero_hex bytes = b'0' ∷ b'x' ∷ zero_pairs bytes

pub record ForkchoiceState : Type 0 where
  pub head : List ℕ
  pub safe : List ℕ
  pub finalized : List ℕ

pub record ForkchoiceStateV1 : Type 0 where
  pub head_block_hash : List ℕ
  pub safe_block_hash : List ℕ
  pub finalized_block_hash : List ℕ

-- `Bytes32::default` three times.
unfoldable pub new_manager : ForkchoiceState
unfolding zero_hex
new_manager = record { head = zero_hex 32; safe = zero_hex 32; finalized = zero_hex 32 }

unfoldable pub update_head : ForkchoiceState → List ℕ → ForkchoiceState
update_head state head_block_hash = record state { head = head_block_hash }

unfoldable pub mark_safe : ForkchoiceState → List ℕ → ForkchoiceState
mark_safe state safe_block_hash = record state { safe = safe_block_hash }

unfoldable pub mark_finalized : ForkchoiceState → List ℕ → ForkchoiceState
mark_finalized state finalized_block_hash = record state { finalized = finalized_block_hash }

unfoldable pub get_state : ForkchoiceState → ForkchoiceStateV1
get_state state = record {
  head_block_hash = state.head;
  safe_block_hash = state.safe;
  finalized_block_hash = state.finalized;
}

-- The calls that write, as a sequence.
pub data Update : Type 0 where
  head_is safe_is finalized_is : List ℕ → Update

unfoldable pub run_update : ForkchoiceState → Update → ForkchoiceState
unfolding update_head mark_safe mark_finalized
run_update state (head_is h) = update_head state h
run_update state (safe_is h) = mark_safe state h
run_update state (finalized_is h) = mark_finalized state h

unfoldable pub run_updates : ForkchoiceState → List Update → ForkchoiceState
unfolding run_update
run_updates state [] = state
run_updates state (u ∷ us) = run_updates (run_update state u) us

-- The specification: what was written to each name, in order.
pub heads : List Update → List (List ℕ)
heads [] = []
heads (head_is h ∷ us) = h ∷ heads us
heads (_ ∷ us) = heads us

pub safes : List Update → List (List ℕ)
safes [] = []
safes (safe_is h ∷ us) = h ∷ safes us
safes (_ ∷ us) = safes us

pub finals : List Update → List (List ℕ)
finals [] = []
finals (finalized_is h ∷ us) = h ∷ finals us
finals (_ ∷ us) = finals us

pub last_or : List ℕ → List (List ℕ) → List ℕ
last_or d [] = d
last_or d (h ∷ hs) = last_or h hs

run_updates-last :
    (s : ForkchoiceState) (us : List Update)
    → run_updates s us ≡ record {
      head = last_or s.head (heads us);
      safe = last_or s.safe (safes us);
      finalized = last_or s.finalized (finals us);
    }
unfolding run_updates heads safes finals last_or
run_updates-last s [] = refl
run_updates-last s (head_is h ∷ us) = run_updates-last (record s { head = h }) us
run_updates-last s (safe_is h ∷ us) = run_updates-last (record s { safe = h }) us
run_updates-last s (finalized_is h ∷ us) = run_updates-last (record s { finalized = h }) us

-- After any calls on a new manager, `get_state` answers with the last hash written to each of the
-- three names, and with the zero hash for a name that was never written.
pub get_state_refines :
    (us : List Update)
    → get_state (run_updates new_manager us) ≡ record {
      head_block_hash = last_or (zero_hex 32) (heads us);
      safe_block_hash = last_or (zero_hex 32) (safes us);
      finalized_block_hash = last_or (zero_hex 32) (finals us);
    }
unfolding get_state new_manager
get_state_refines us = rw (run_updates-last new_manager us) refl
