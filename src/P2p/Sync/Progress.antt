-- ===== src/P2p/Sync/Progress.antt =====
-- sync_protocol.rs: where a syncing engine stands.
use eth.Prelude.{ℕ, ◌≤◌, ◌<◌, max, ◌≡◌, List, [], ◌∷◌, arith}
use eth.P2p.Sync.{
  SyncState, SyncEngine, idle, syncing, synced, start_sync, highest, advance, on_blocks_received,
}

-- While it is syncing, the engine stands at its local height, below the target.
abbrev pub IsBehind : SyncState → ℕ → Type 0
IsBehind idle local = Unit {0}
IsBehind (syncing target current) local = (current ≡ local) × (local < target)
IsBehind synced local = Unit {0}

abbrev pub IsSync : SyncEngine → Type 0
IsSync s = IsBehind s.state s.local_height

advance-IsBehind : (st : SyncState) (local height : ℕ) → IsBehind (advance st height) height
advance-IsBehind idle local height = tt
advance-IsBehind (syncing target current) local height = ground arith
advance-IsBehind synced local height = tt

-- `start_sync` and `on_blocks_received` keep the invariant that a syncing engine stands at its
-- local height, below its target; and no batch lowers the local height.
pub on_blocks_received-IsSync :
    (s : SyncEngine) (target : ℕ) (ns : List ℕ)
    → IsSync s
    → IsSync (start_sync s target)
      × IsSync (on_blocks_received s ns)
      × (s.local_height ≤ (on_blocks_received s ns).local_height)
unfolding start_sync on_blocks_received
on_blocks_received-IsSync s target [] h = (ground arith, h, omega arith)
on_blocks_received-IsSync s target (n ∷ ns) h = (
  ground arith,
  advance-IsBehind s.state s.local_height (max s.local_height (highest n ns)),
  omega arith,
)
