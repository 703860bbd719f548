-- ===== src/P2p/Node/Runs.antt =====
-- Every round of the dispatch loop of node.rs returns, and keeps the invariant.
use eth.Prelude.{
  ℕ, ◌≡◌, refl, sym, subst, Option, none, some, List, [], ◌∷◌, ◌++◌, if◌then◌else◌, arith,
  Option-cases, inl, inr,
}
use eth.Prelude.Maps
use eth.Prelude.Maps.{nat_eq, get-insert, get-remove}
use eth.Execution.Canonical.{Block, Transaction, Alloy, block_hash}
use eth.P2p.Codec.{
  WireMessage, hello, new_block, new_transaction, consensus_msg, get_blocks, blocks, ping, pong,
}
use eth.P2p.Gossip.{
  GossipEngine, evict_old, contains, on_new_block, on_new_tx, block_message, tx_message,
  should_relay_block, should_relay_tx,
}
use eth.P2p.Gossip
use eth.P2p.Gossip.Memory.{IsMemory, new-IsMemory}
use eth.P2p.Peers.{
  PeerInfo, PeerManager, add_peer, remove_peer, get_peer, update_best_height, touch_peer, new_peer,
  connected,
}
use eth.P2p.Peers
use eth.P2p.Sync
use eth.P2p.Sync.{
  SyncEngine, SyncState, idle, syncing, synced, needs_sync, start_sync, on_blocks_received,
}
use eth.P2p.Sync.Progress.{on_blocks_received-IsSync}
use eth.P2p.Node.{
  emit, P2pConfig, P2pNode, P2pEvent, NodeInbound, Effect, Serde, Senders, Outcome, new_cache,
  with_transport, on_peer_connected, on_peer_disconnected,
}
use eth.P2p.Node.Dispatch.{
  gossiped, on_block, on_transaction, consensus_relayed, on_consensus, on_blocks, on_message,
  dispatch, dispatch_loop, decoded, decoded_event, relayed, tx_hash,
}
use eth.P2p.Node.Caches.{should_relay-IsCache, on_new_block-IsMemory, on_new_tx-IsMemory}
use eth.P2p.Node.Invariant.{
  IsNode, touch-IsNode, update-IsNode, on_peer_connected-IsNode, on_peer_disconnected-IsNode,
}

-- A step that returns, with a node that is well formed again.
abbrev pub Returns : Outcome → Type 0
Returns o = (n : P2pNode) × (effects : List Effect) × (o ≡ some (n, effects)) × IsNode n

module _ (serde : Serde) (alloy : Alloy) (visit : Senders → Senders) where
  gossiped-Returns :
      (n : P2pNode) (from_peer : ℕ) (event : P2pEvent)
      (r : Option (GossipEngine × Option WireMessage)) (g : GossipEngine)
      (relay : Option WireMessage)
      → IsNode n
      → r ≡ some (g, relay)
      → IsMemory g
      → Returns (gossiped serde alloy visit n from_peer event r)
  gossiped-Returns n from_peer event r g relay v e v' =
      subst (λ x. Returns (gossiped serde alloy visit n from_peer event x)) (sym e)
        (
          record n { gossip_engine = g },
          relayed visit n relay (some from_peer) ++ emit event ∷ [],
          refl,
          record {
            gossip = v';
            cache = v.cache;
            sync = v.sync;
            within = v.within;
            keyed = v.keyed;
          },
        )

  on_block-Returns :
      (now : ℕ) (n : P2pNode) (from_peer : ℕ) (block : Block)
      → IsNode n
      → Returns (on_block serde alloy visit now n from_peer block)
  unfolding on_block
  on_block-Returns now n from_peer block v =
      let (g, relay, e, v') =
        on_new_block-IsMemory Block (block_hash alloy) serde.block_to_vec (λ b. b.header.number)
          n.gossip_engine block v.gossip in
      gossiped-Returns _ from_peer (P2pEvent.block_received from_peer block) _ g relay
        (update-IsNode n from_peer block.header.number (block_hash alloy block) now v) e v'

  on_transaction-Returns :
      (n : P2pNode) (from_peer : ℕ) (tx : Transaction)
      → IsNode n
      → Returns (on_transaction serde alloy visit n from_peer tx)
  unfolding on_transaction
  on_transaction-Returns n from_peer tx v =
      let (g, relay, e, v') =
        on_new_tx-IsMemory Transaction tx_hash serde.tx_to_vec n.gossip_engine tx v.gossip in
      gossiped-Returns n from_peer (P2pEvent.transaction_received from_peer tx) _ g relay v e v'

  on_consensus-Returns :
      (n : P2pNode) (from_peer : ℕ) (msg_data : List ℕ)
      → IsNode n
      → Returns (on_consensus serde alloy visit n from_peer msg_data)
  unfolding on_consensus
  on_consensus-Returns n from_peer msg_data v =
      let (c, fresh, e, v') =
        should_relay-IsCache n.consensus_cache (serde.sha256 msg_data) v.cache in
      subst (λ x. Returns (consensus_relayed serde alloy visit n from_peer msg_data x)) (sym e)
        (
          record n { consensus_cache = c },
          relayed visit n (if fresh then some (consensus_msg msg_data) else none) (some from_peer)
              ++ decoded_event serde alloy visit from_peer (serde.consensus_from_slice msg_data),
          refl,
          record {
            gossip = v.gossip;
            cache = v';
            sync = v.sync;
            within = v.within;
            keyed = v.keyed;
          },
        )

  on_blocks-IsNode :
      (n : P2pNode) (batch : List (List ℕ))
      → IsNode n
      → IsNode (on_blocks serde alloy visit n batch).0
  unfolding on_blocks
  on_blocks-IsNode n batch v = record {
    gossip = v.gossip;
    cache = v.cache;
    sync =
        (on_blocks_received-IsSync n.sync_engine 0 (decoded serde.block_from_slice batch) v.sync).1;
    within = v.within;
    keyed = v.keyed;
  }

  on_message-Returns :
      (now : ℕ) (n : P2pNode) (from_peer : ℕ) (m : WireMessage)
      → IsNode n
      → Returns (on_message serde alloy visit now n from_peer m)
  unfolding on_message
  on_message-Returns now n from_peer (hello i c h b) v = (n, [], refl, v)
  on_message-Returns now n from_peer (new_block height bytes) v =
      elim (Option-cases (serde.block_from_slice bytes)) [
        | inl bad ↦ rw (on_message, bad) (n, [], refl, v)
        | inr (block, e) ↦ rw (on_message, e) (on_block-Returns now n from_peer block v)
      ]
  on_message-Returns now n from_peer (new_transaction bytes) v =
      elim (Option-cases (serde.tx_from_slice bytes)) [
        | inl bad ↦ rw (on_message, bad) (n, [], refl, v)
        | inr (tx, e) ↦ rw (on_message, e) (on_transaction-Returns n from_peer tx v)
      ]
  on_message-Returns now n from_peer (consensus_msg bytes) v =
      on_consensus-Returns n from_peer bytes v
  on_message-Returns now n from_peer (get_blocks from_height count) v = (n, _, refl, v)
  on_message-Returns now n from_peer (blocks batch) v = (
    (on_blocks serde alloy visit n batch).0,
    (on_blocks serde alloy visit n batch).1,
    refl,
    on_blocks-IsNode n batch v,
  )
  on_message-Returns now n from_peer (ping nonce) v = (n, _, refl, v)
  on_message-Returns now n from_peer (pong nonce) v = (n, [], refl, v)

  pub dispatch-Returns :
      (now : ℕ) (n : P2pNode) (i : NodeInbound)
      → IsNode n
      → Returns (dispatch serde alloy visit now n i)
  unfolding dispatch
  dispatch-Returns now n (NodeInbound.peer_connected p addr h b sender) v = (
    (on_peer_connected now n p addr h b sender).0,
    (on_peer_connected now n p addr h b sender).1,
    refl,
    on_peer_connected-IsNode now n p addr h b sender v,
  )
  dispatch-Returns now n (NodeInbound.peer_disconnected p) v = (
    (on_peer_disconnected n p).0,
    (on_peer_disconnected n p).1,
    refl,
    on_peer_disconnected-IsNode n p v,
  )
  dispatch-Returns now n (NodeInbound.message p m) v =
      on_message-Returns now _ p m (touch-IsNode n p now v)

  loop-Returns :
      (n : P2pNode) (inbound : List (ℕ × NodeInbound))
      → IsNode n
      → Returns (dispatch_loop serde alloy visit n inbound)
  unfolding dispatch_loop
  loop-Returns n [] v = (n, [], refl, v)
  loop-Returns n ((now, i) ∷ rest) v =
      let (n', effects, e, v') = dispatch-Returns now n i v in
      let (last, later, e', w) = loop-Returns n' rest v' in
      (last, effects ++ later, rw (dispatch_loop, e, e') refl, w)

  pub with_transport-IsNode : (config : P2pConfig) → IsNode (with_transport config)
  unfolding with_transport Peers.new Sync.new new_cache Maps.get
  with_transport-IsNode config = record {
    gossip = new-IsMemory Gossip.default_config;
    cache = record { agree = refl; distinct = tt; bounded = omega arith };
    sync = tt;
    within = omega arith;
    keyed = λ p. refl;
  }

  -- A node that starts fresh handles any traffic: every round of its loop returns (no eviction
  -- spins), and in the end the seen-memories are consistent, duplicate-free and within their
  -- sizes, the table is within `max_peers`, the sync engine stands below its target, and a peer has
  -- a channel exactly when it is in the table.
  pub dispatch_loop-Returns :
      (config : P2pConfig) (inbound : List (ℕ × NodeInbound))
      → Returns (dispatch_loop serde alloy visit (with_transport config) inbound)
  dispatch_loop-Returns config inbound =
      loop-Returns (with_transport config) inbound (with_transport-IsNode config)
