-- ===== src/P2p/Node/Stalling.antt =====
-- node.rs: a network of such nodes, in which no one catches up.
use mathlib.Core.List.{Memᴰ}
use eth.Prelude.{ℕ, ◌≡◌, subst, some, List, [], ◌∷◌, All}
use eth.Prelude.Maps.{nat_eq}
use eth.Prelude.Members.{All-Memᴰ}
use eth.Execution.Canonical.{Alloy}
use eth.P2p.Codec.{
  WireMessage, hello, new_block, new_transaction, consensus_msg, get_blocks, blocks, ping, pong,
}
use eth.P2p.Sync.{
  SyncEngine, SyncState, idle, syncing, synced, needs_sync, start_sync, next_request, request_in,
  on_blocks_received,
}
use eth.P2p.Sync
use eth.P2p.Node.{P2pConfig, P2pNode, NodeInbound, Effect, send, Serde, Senders, with_transport}
use eth.P2p.Node.Dispatch.{dispatch_loop}
use eth.P2p.Node.Effects.{Emits}
use eth.P2p.Node.Serving.{
  ServesNothing, NotComplete, BringsNothing, loop-ServesNothing, loop_stalls,
}

-- A message that some node of this kind has sent, after some traffic of its own.
abbrev pub SentByNode : WireMessage → Type 0
SentByNode m =
    (serde : Serde) × (alloy : Alloy) × (visit : Senders → Senders) × (config : P2pConfig)
    × (inbound : List (ℕ × NodeInbound)) × (n : P2pNode) × (effects : List Effect) × (p c : ℕ)
    × (dispatch_loop serde alloy visit (with_transport config) inbound ≡ some (n, effects))
    × Memᴰ (send p c m) effects

-- Traffic in which each batch of blocks comes from such a node; all else is free.
abbrev pub FromNodes : ℕ × NodeInbound → Type 0
FromNodes (now, NodeInbound.message p (blocks batch)) = SentByNode (blocks batch)
FromNodes (now, _) = Unit {0}

FromNodes-BringsNothing : (i : ℕ × NodeInbound) → FromNodes i → BringsNothing i
FromNodes-BringsNothing (now, NodeInbound.message p (blocks batch))
      (serde, alloy, visit, config, inbound, n, effects, q, c, ran, sent_it) =
    All-Memᴰ ServesNothing effects (send q c (blocks batch))
      (subst (Emits ServesNothing) ran
        (loop-ServesNothing serde alloy visit (with_transport config) inbound))
      sent_it
FromNodes-BringsNothing (now, NodeInbound.message p (hello i c h b)) f = tt
FromNodes-BringsNothing (now, NodeInbound.message p (new_block h b)) f = tt
FromNodes-BringsNothing (now, NodeInbound.message p (new_transaction t)) f = tt
FromNodes-BringsNothing (now, NodeInbound.message p (consensus_msg d)) f = tt
FromNodes-BringsNothing (now, NodeInbound.message p (get_blocks g k)) f = tt
FromNodes-BringsNothing (now, NodeInbound.message p (ping k)) f = tt
FromNodes-BringsNothing (now, NodeInbound.message p (pong k)) f = tt
FromNodes-BringsNothing (now, NodeInbound.peer_connected p a h b s) f = tt
FromNodes-BringsNothing (now, NodeInbound.peer_disconnected p) f = tt

traffic-BringsNothing : (is : List (ℕ × NodeInbound)) → All FromNodes is → All BringsNothing is
traffic-BringsNothing [] f = tt
traffic-BringsNothing (i ∷ is) f = (FromNodes-BringsNothing i f.0, traffic-BringsNothing is f.1)

-- In a network of these nodes no one catches up: when every batch of blocks that reaches a fresh
-- node was sent by such a node, whatever else arrives, its synchronised height stays 0, and no
-- effect reports a completed synchronisation.
pub sync_never_advances :
    (serde : Serde) (alloy : Alloy) (visit : Senders → Senders) (config : P2pConfig)
    (inbound : List (ℕ × NodeInbound)) (n : P2pNode) (effects : List Effect)
    → All FromNodes inbound
    → dispatch_loop serde alloy visit (with_transport config) inbound ≡ some (n, effects)
    → (n.sync_engine.local_height ≡ 0) × All NotComplete effects
unfolding with_transport Sync.new
sync_never_advances serde alloy visit config inbound n effects f e =
    loop_stalls serde alloy visit (with_transport config) inbound n effects
      (traffic-BringsNothing inbound f) e
