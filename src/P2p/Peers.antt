-- ===== src/P2p/Peers.antt =====
-- crates/eth2077-p2p/src/peer.rs: the table of peers. Addresses and instants are numbers; the
-- present instant is an argument, and the order in which std iterates the table is `visit`.
pub mod Table
use eth.Prelude.{
  ℕ, zero, suc, ◌+◌, ◌≡◌, Bool, true, false, leb, Option, none, some, List, [], ◌∷◌, ◌++◌, length,
  filter, map, if◌then◌else◌,
}
use eth.Prelude.Maps
use eth.Prelude.Maps.{nat_eq}

pub data PeerState : Type 0 where
  connecting handshaking connected disconnected : PeerState

pub record PeerInfo : Type 0 where
  pub peer_id : ℕ
  pub addr : ℕ
  pub state : PeerState
  pub best_height : ℕ
  pub best_hash : ℕ
  pub connected_at : ℕ
  pub last_seen : ℕ

unfoldable pub new_peer : ℕ → ℕ → PeerState → ℕ → PeerInfo
new_peer peer_id addr state now = record {
  peer_id = peer_id;
  addr = addr;
  state = state;
  best_height = 0;
  best_hash = 0;
  connected_at = now;
  last_seen = now;
}

abbrev pub Table : Type 0
Table = List (ℕ × PeerInfo)

pub record PeerManager : Type 0 where
  pub peers : Table
  pub max_peers : ℕ

unfoldable pub new : ℕ → PeerManager
new max_peers = record { peers = []; max_peers = max_peers }

-- A known peer is replaced whatever the capacity; a new one is added below the capacity only.
unfoldable pub add_peer : PeerManager → PeerInfo → PeerManager × Bool
add_peer m peer =
    let at_capacity = leb m.max_peers (length m.peers) in
    let added = record m { peers = Maps.insert peer.peer_id peer m.peers } in
    elim (Maps.get peer.peer_id m.peers) [
      | some _ ↦ (added, true)
      | none ↦ if at_capacity then (m, false) else (added, true)
    ]

unfoldable pub remove_peer : PeerManager → ℕ → PeerManager × Option PeerInfo
remove_peer m id = (record m { peers = Maps.remove id m.peers }, Maps.get id m.peers)

unfoldable pub get_peer : PeerManager → ℕ → Option PeerInfo
get_peer m id = Maps.get id m.peers

unfoldable pub update_best_height : PeerManager → ℕ → ℕ → ℕ → ℕ → PeerManager
update_best_height m id height hash now = elim (Maps.get id m.peers) [
  | none ↦ m
  | some p ↦ record m {
    peers =
        Maps.insert id (record p { best_height = height; best_hash = hash; last_seen = now })
          m.peers;
  }
]

unfoldable pub touch_peer : PeerManager → ℕ → ℕ → PeerManager
touch_peer m id now = elim (Maps.get id m.peers) [
  | none ↦ m
  | some p ↦ record m { peers = Maps.insert id (record p { last_seen = now }) m.peers }
]

abbrev pub is_connected : PeerInfo → Bool
is_connected p = elim p.state [ connected ↦ true | _ ↦ false ]

unfoldable pub connected_peers : (Table → Table) → PeerManager → List PeerInfo
connected_peers visit m = filter is_connected (map (λ e. e.1) (visit m.peers))

-- `max_by_key` keeps the later one of two peers with the same key.
unfoldable pub max_by_height : Option PeerInfo → List PeerInfo → Option PeerInfo
max_by_height best [] = best
max_by_height none (p ∷ ps) = max_by_height (some p) ps
max_by_height (some b) (p ∷ ps) =
    max_by_height (some (if leb b.best_height p.best_height then p else b)) ps

unfoldable pub best_peer : (Table → Table) → PeerManager → Option PeerInfo
unfolding connected_peers max_by_height
best_peer visit m = max_by_height none (connected_peers visit m)
