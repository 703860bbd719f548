-- ===== src/P2p/Sync.antt =====
-- crates/eth2077-p2p/src/sync_protocol.rs: catching up with the network. Of a received block only
-- the number is read, so a batch is the list of its numbers.
pub mod Calls
pub mod Progress
use eth.Prelude.{
  ℕ, zero, suc, ◌+◌, max, Bool, true, false, ltb, leb, Option, none, some, List, [], ◌∷◌,
  if◌then◌else◌, sat_add64,
}
use eth.P2p.Codec.{WireMessage, get_blocks}

pub data SyncState : Type 0 where
  idle : SyncState
  syncing : (target_height current_height : ℕ) → SyncState
  synced : SyncState

pub record SyncEngine : Type 0 where
  pub local_height : ℕ
  pub state : SyncState
  pub batch_size : ℕ

unfoldable pub new : ℕ → SyncEngine
new local_height = record { local_height = local_height; state = idle; batch_size = 64 }

unfoldable pub needs_sync : SyncEngine → ℕ → Bool
needs_sync s network_best_height = ltb s.local_height network_best_height

unfoldable pub start_sync : SyncEngine → ℕ → SyncEngine
start_sync s target =
    if leb target s.local_height
    then record s { state = synced }
    else record s { state = syncing target s.local_height }

abbrev pub request_in : SyncState → ℕ → Option WireMessage
request_in idle batch = none
request_in (syncing target current) batch =
    if ltb current target then some (get_blocks (sat_add64 current 1) batch) else none
request_in synced batch = none

unfoldable pub next_request : SyncEngine → Option WireMessage
next_request s = request_in s.state s.batch_size

-- `blocks.iter().map(Block::number).max()`, of a batch that is not empty.
abbrev pub highest : ℕ → List ℕ → ℕ
highest n [] = n
highest n (m ∷ ms) = highest (max n m) ms

abbrev pub advance : SyncState → ℕ → SyncState
advance idle height = idle
advance (syncing target current) height =
    if leb target height then synced else syncing target height
advance synced height = synced

unfoldable pub receive : SyncEngine → ℕ → SyncEngine
receive s best =
    let height = max s.local_height best in
    record s { local_height = height; state = advance s.state height }

unfoldable pub on_blocks_received : SyncEngine → List ℕ → SyncEngine
unfolding receive
on_blocks_received s [] = s
on_blocks_received s (n ∷ ns) = receive s (highest n ns)

abbrev pub progress_in : SyncState → ℕ → ℕ × ℕ
progress_in idle local = (local, local)
progress_in (syncing target current) local = (current, target)
progress_in synced local = (local, local)

unfoldable pub sync_progress : SyncEngine → ℕ × ℕ
sync_progress s = progress_in s.state s.local_height
