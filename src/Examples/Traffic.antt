-- ===== src/Examples/Traffic.antt =====
-- A node with a few peers, and what it does with a session of traffic.
use mathlib.Core.List.{Memᴰ}
use mathlib.Core.List.Perm
use eth.Prelude.{ℕ, ◌≡◌, ◌⊎◌, refl, sym, subst, none, some, List, [], ◌∷◌, All, length, arith}
use eth.Prelude.Maps
use eth.Execution.Canonical.{Alloy}
use eth.P2p.Codec.{WireMessage, hello, consensus_msg, blocks, get_blocks, ping}
use eth.P2p.Peers
use eth.P2p.Sync
use eth.P2p.Node
use eth.P2p.Node.{
  P2pConfig, P2pNode, NodeInbound, Effect, Serde, Senders, Outcome, with_transport, new_cache,
}
use eth.P2p.Node.Dispatch.{dispatch, dispatch_loop, on_message, on_blocks, decoded}
use eth.P2p.Node.Connection.{Link, IsSession, connection, connection-IsSession}
use eth.P2p.Node.Invariant.{IsNode}
use eth.P2p.Node.Runs.{Returns, dispatch_loop-Returns}
use eth.P2p.Node.Relay.{RelaysOnce, fresh_payload-RelaysOnce}
use eth.P2p.Node.Serving.{NotComplete}
use eth.P2p.Node.Stalling.{SentByNode, sync_never_advances}

abbrev config : P2pConfig
config = record { listen_addr = 1; boot_peers = []; peer_id = 7; chain_id = 2077; max_peers = 8 }

abbrev sum : List ℕ → ℕ
sum bytes = length bytes

abbrev serde : Serde
serde = record {
  block_to_vec = λ b. none;
  block_from_slice = λ bytes. none;
  tx_to_vec = λ t. none;
  tx_from_slice = λ bytes. none;
  consensus_to_vec = λ m. none;
  consensus_from_slice = λ bytes. none;
  sha256 = sum;
}

abbrev alloy : Alloy
alloy = record {
  keccak256 = sum;
  encode = λ h. h.number ∷ [];
  logs_bloom = λ logs. 0;
  accrue_bloom = λ a b. a;
}

abbrev in_order : Senders → Senders
in_order l = l

abbrev link : Link
link = record { chain_id = 2077; addr = 5; sender = 50 }

abbrev said : List WireMessage
said = ping 1 ∷ hello 3 2077 10 99 ∷ consensus_msg (1 ∷ 2 ∷ []) ∷ []

connection-IsSession_example :
    (connection link said ≡ []) ⊎ IsSession link said (connection link said)
connection-IsSession_example = connection-IsSession link said

abbrev traffic : List (ℕ × NodeInbound)
traffic =
    (100, NodeInbound.peer_connected 3 5 10 99 50)
    ∷ (101, NodeInbound.message 3 (consensus_msg (1 ∷ 2 ∷ [])))
    ∷ (102, NodeInbound.message 3 (get_blocks 0 4))
    ∷ []

dispatch_loop-Returns_example :
    Returns (dispatch_loop serde alloy in_order (with_transport config) traffic)
dispatch_loop-Returns_example = dispatch_loop-Returns serde alloy in_order config traffic

abbrev result : Outcome → P2pNode × List Effect
result none = (with_transport config, [])
result (some r) = r

-- A node with two peers, which is sent a payload by one of them.
abbrev connects : List (ℕ × NodeInbound)
connects =
    (100, NodeInbound.peer_connected 3 5 0 99 50)
    ∷ (101, NodeInbound.peer_connected 4 6 0 99 60)
    ∷ []

abbrev connects_run : Outcome
connects_run = dispatch_loop serde alloy in_order (with_transport config) connects

connected : P2pNode
connected = (result connects_run).0

connected-IsNode : IsNode connected
unfolding connected
connected-IsNode =
    let (n, effects, e, v) = dispatch_loop-Returns serde alloy in_order config connects in
    subst (λ o. IsNode (result o).0) (sym e) v

connected_to_both : connected.peer_senders ≡ (3, 50) ∷ (4, 60) ∷ []
unfolding connected with_transport dispatch_loop dispatch Node.on_peer_connected
    Node.sync_on_connect Peers.add_peer Maps.get Maps.insert Sync.needs_sync Sync.new Peers.new
    new_cache Peers.new_peer
connected_to_both = refl

fresh_payload-RelaysOnce_example : RelaysOnce serde alloy in_order connected 3 (1 ∷ 2 ∷ []) (
    dispatch serde alloy in_order 102 connected
      (NodeInbound.message 3 (consensus_msg (1 ∷ 2 ∷ []))))
unfolding connected with_transport dispatch_loop dispatch Node.on_peer_connected
    Node.sync_on_connect Peers.add_peer Maps.get Maps.insert Sync.needs_sync Sync.new Peers.new
    new_cache Peers.new_peer
fresh_payload-RelaysOnce_example =
    fresh_payload-RelaysOnce serde alloy in_order 102 connected 3 (1 ∷ 2 ∷ []) connected-IsNode
      (omega arith) (Perm.refl connected.peer_senders) refl

-- A node that is asked for blocks.
abbrev asked : List (ℕ × NodeInbound)
asked =
    (100, NodeInbound.peer_connected 3 5 0 99 50)
    ∷ (102, NodeInbound.message 3 (get_blocks 0 4))
    ∷ []

abbrev asked_run : Outcome
asked_run = dispatch_loop serde alloy in_order (with_transport config) asked

empty_batch-SentByNode : SentByNode (blocks [])
unfolding with_transport dispatch_loop dispatch on_message Node.on_peer_connected
    Node.sync_on_connect Peers.add_peer Maps.get Maps.insert Sync.needs_sync Sync.new Peers.new
    Node.send_to_peer Peers.touch_peer
empty_batch-SentByNode = (
  serde,
  alloy,
  in_order,
  config,
  asked,
  (result asked_run).0,
  (result asked_run).1,
  3,
  50,
  refl,
  Memᴰ.tail (Memᴰ.head refl),
)

abbrev served : List (ℕ × NodeInbound)
served =
    (100, NodeInbound.peer_connected 4 6 10 99 60) ∷ (103, NodeInbound.message 4 (blocks [])) ∷ []

abbrev served_run : Outcome
served_run = dispatch_loop serde alloy in_order (with_transport config) served

sync_never_advances_example :
    ((result served_run).0.sync_engine.local_height ≡ 0) × All NotComplete (result served_run).1
unfolding with_transport dispatch_loop dispatch on_message on_blocks Node.on_peer_connected
    Node.sync_on_connect Peers.add_peer Maps.get Maps.insert Sync.needs_sync Sync.new Peers.new
    Node.send_to_peer Peers.touch_peer Sync.start_sync Sync.next_request Sync.on_blocks_received
    decoded
sync_never_advances_example =
    sync_never_advances serde alloy in_order config served (result served_run).0
      (result served_run).1 (tt, (empty_batch-SentByNode, tt)) refl
