-- ===== src/P2p/Node.antt =====
-- crates/eth2077-p2p/src/node.rs: what a node does with the messages of its peers. A task of tokio
-- becomes a function of what it receives; a channel is a number, and a write to it, or to the
-- receiver of events, is an effect in order. The order in which std iterates the senders is `visit`.
pub mod Dispatch
pub mod Connection
pub mod Caches
pub mod Invariant
pub mod Runs
pub mod Effects
pub mod Relay
pub mod Serving
pub mod Stalling
use eth.Prelude.{
  ℕ, ◌+◌, Bool, true, false, not, ◌&&◌, ◌==◌, ltb, Option, none, some, List, [], ◌∷◌, ◌++◌, map,
  if◌then◌else◌,
}
use eth.Prelude.Maps
use eth.Prelude.Maps.{nat_eq}
use eth.Execution.Canonical.{Block, Transaction, Alloy, block_hash}
use eth.Consensus.Engine.{ConsensusMessage}
use eth.P2p.Codec.{
  WireMessage, hello, new_block, new_transaction, consensus_msg, get_blocks, blocks, ping, pong,
}
use eth.P2p.Gossip
use eth.P2p.Gossip.{GossipEngine, evict_old, contains, on_new_block, on_new_tx}
use eth.P2p.Peers
use eth.P2p.Peers.{
  PeerInfo, PeerManager, connected, new_peer, add_peer, remove_peer, update_best_height, touch_peer,
}
use eth.P2p.Sync
use eth.P2p.Sync.{
  SyncEngine, SyncState, idle, syncing, synced, needs_sync, start_sync, next_request,
  on_blocks_received,
}

pub record P2pConfig : Type 0 where
  pub listen_addr : ℕ
  pub boot_peers : List ℕ
  pub peer_id : ℕ
  pub chain_id : ℕ
  pub max_peers : ℕ

pub data P2pEvent : Type 0 where
  block_received : (from_peer : ℕ) → Block → P2pEvent
  transaction_received : (from_peer : ℕ) → Transaction → P2pEvent
  consensus_message_received : (from_peer : ℕ) → ConsensusMessage → P2pEvent
  peer_connected peer_disconnected : (peer_id : ℕ) → P2pEvent
  sync_complete : (height : ℕ) → P2pEvent

pub data NodeInbound : Type 0 where
  peer_connected : (peer_id addr best_height best_hash sender : ℕ) → NodeInbound
  peer_disconnected : (peer_id : ℕ) → NodeInbound
  message : (from_peer : ℕ) → WireMessage → NodeInbound

-- A message for a peer, on its channel, or an event for the owner of the node.
pub data Effect : Type 0 where
  send : (peer channel : ℕ) → WireMessage → Effect
  emit : P2pEvent → Effect

-- `serde_json` at the types that the node reads and writes, and SHA-256.
pub record Serde : Type 0 where
  pub block_to_vec : Block → Option (List ℕ)
  pub block_from_slice : List ℕ → Option Block
  pub tx_to_vec : Transaction → Option (List ℕ)
  pub tx_from_slice : List ℕ → Option Transaction
  pub consensus_to_vec : ConsensusMessage → Option (List ℕ)
  pub consensus_from_slice : List ℕ → Option ConsensusMessage
  pub sha256 : List ℕ → ℕ

pub record ConsensusRelayCache : Type 0 where
  pub seen : List ℕ
  pub order : List ℕ
  pub max_size : ℕ

unfoldable pub new_cache : ℕ → ConsensusRelayCache
new_cache max_size = record { seen = []; order = []; max_size = max_size }

abbrev pub cached :
    ConsensusRelayCache → Option (List ℕ × List ℕ) → Option (ConsensusRelayCache × Bool)
cached c none = none
cached c (some (seen, order)) = some (record c { seen = seen; order = order }, true)

-- Its loop is the one of the gossip engine; none is the loop that spins for ever.
unfoldable pub should_relay : ConsensusRelayCache → ℕ → Option (ConsensusRelayCache × Bool)
should_relay c hash =
    if contains hash c.seen
    then some (c, false)
    else cached c (evict_old c.max_size (c.seen ++ hash ∷ []) (c.order ++ hash ∷ []))

abbrev pub Senders : Type 0
Senders = List (ℕ × ℕ)

pub record P2pNode : Type 0 where
  pub config : P2pConfig
  pub peer_manager : PeerManager
  pub gossip_engine : GossipEngine
  pub sync_engine : SyncEngine
  pub peer_senders : Senders
  pub consensus_cache : ConsensusRelayCache

unfoldable pub with_transport : P2pConfig → P2pNode
with_transport config = record {
  config = config;
  peer_manager = Peers.new config.max_peers;
  gossip_engine = Gossip.new Gossip.default_config;
  sync_engine = Sync.new 0;
  peer_senders = [];
  consensus_cache = new_cache 1024;
}

-- What a step returns: the node and its effects, or none where an eviction spins.
abbrev pub Outcome : Type 0
Outcome = Option (P2pNode × List Effect)

abbrev pub is_except : Option ℕ → ℕ → Bool
is_except none peer = false
is_except (some p) peer = p == peer

unfoldable pub broadcast_wire : Senders → WireMessage → Option ℕ → List Effect
broadcast_wire [] msg except_peer = []
broadcast_wire ((peer, channel) ∷ senders) msg except_peer =
    let rest = broadcast_wire senders msg except_peer in
    if is_except except_peer peer then rest else send peer channel msg ∷ rest

abbrev pub sent : Option ℕ → ℕ → WireMessage → List Effect
sent none peer msg = []
sent (some channel) peer msg = send peer channel msg ∷ []

unfoldable pub send_to_peer : Senders → ℕ → WireMessage → List Effect
send_to_peer senders peer msg = sent (Maps.get peer senders) peer msg

abbrev pub restart : SyncEngine → SyncState → ℕ → SyncEngine
restart s (syncing target current) best = if ltb target best then start_sync s best else s
restart s idle best = start_sync s best
restart s synced best = start_sync s best

-- The block that computes `sync_request` when a peer has connected.
unfoldable pub sync_on_connect : SyncEngine → ℕ → SyncEngine × Option WireMessage
sync_on_connect s best =
    let s' = restart s s.state best in
    if needs_sync s best then (s', next_request s') else (s, none)

abbrev pub requested : Option WireMessage → ℕ → ℕ → List Effect
requested none peer channel = []
requested (some request) peer channel = send peer channel request ∷ []

unfoldable pub on_peer_connected :
    ℕ → P2pNode → (peer_id addr best_height best_hash sender : ℕ) → P2pNode × List Effect
on_peer_connected now n peer_id addr best_height best_hash sender =
    let info = record (new_peer peer_id addr connected now) {
      best_height = best_height;
      best_hash = best_hash;
    } in
    let (peers, accepted) = add_peer n.peer_manager info in
    let (sync, request) = sync_on_connect n.sync_engine best_height in
    if accepted
    then (
      record n {
        peer_manager = peers;
        peer_senders = Maps.insert peer_id sender n.peer_senders;
        sync_engine = sync;
      },
      emit (P2pEvent.peer_connected peer_id) ∷ requested request peer_id sender,
    )
    else (record n { peer_manager = peers }, [])

unfoldable pub on_peer_disconnected : P2pNode → ℕ → P2pNode × List Effect
on_peer_disconnected n peer_id = (
  record n {
    peer_manager = (remove_peer n.peer_manager peer_id).0;
    peer_senders = Maps.remove peer_id n.peer_senders;
  },
  emit (P2pEvent.peer_disconnected peer_id) ∷ [],
)
