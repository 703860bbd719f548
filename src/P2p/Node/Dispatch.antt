-- ===== src/P2p/Node/Dispatch.antt =====
-- The dispatch loop of node.rs, one function for each arm of its match.
use eth.Prelude.{
  ℕ, Bool, true, false, not, ◌&&◌, Option, none, some, List, [], ◌∷◌, ◌++◌, if◌then◌else◌,
}
use eth.Execution.Canonical.{Block, Transaction, Alloy, block_hash}
use eth.Consensus.Engine.{ConsensusMessage}
use eth.P2p.Codec.{
  WireMessage, hello, new_block, new_transaction, consensus_msg, get_blocks, blocks, ping, pong,
}
use eth.P2p.Gossip.{GossipEngine, on_new_block, on_new_tx}
use eth.P2p.Peers.{touch_peer, update_best_height}
use eth.P2p.Sync.{SyncState, synced, on_blocks_received}
use eth.P2p.Node.{
  P2pNode, P2pEvent, NodeInbound, Effect, Serde, Senders, Outcome, ConsensusRelayCache, emit,
  should_relay, broadcast_wire, send_to_peer, on_peer_connected, on_peer_disconnected,
}

abbrev pub is_synced : SyncState → Bool
is_synced synced = true
is_synced _ = false

abbrev pub tx_hash : Transaction → ℕ
tx_hash tx = tx.hash

-- A relay message goes to every peer but the one that it came from.
abbrev pub relayed : (Senders → Senders) → P2pNode → Option WireMessage → Option ℕ → List Effect
relayed visit n none except_peer = []
relayed visit n (some message) except_peer =
    broadcast_wire (visit n.peer_senders) message except_peer

-- The decoded blocks of a batch, as the numbers that the sync engine reads.
unfoldable pub decoded : (List ℕ → Option Block) → List (List ℕ) → List ℕ
decoded from_slice [] = []
decoded from_slice (bytes ∷ batch) = elim (from_slice bytes) [
  | none ↦ decoded from_slice batch
  | some block ↦ block.header.number ∷ decoded from_slice batch
]

module _ (serde : Serde) (alloy : Alloy) (visit : Senders → Senders) where
  -- What a decoded block or transaction does: the relay first, then the event.
  abbrev pub gossiped :
      P2pNode → ℕ → P2pEvent → Option (GossipEngine × Option WireMessage) → Outcome
  gossiped n from_peer event none = none
  gossiped n from_peer event (some (gossip, relay)) = some (
    record n { gossip_engine = gossip },
    relayed visit n relay (some from_peer) ++ emit event ∷ [],
  )

  unfoldable pub on_block : ℕ → P2pNode → ℕ → Block → Outcome
  on_block now n from_peer block =
      let seen_at = record n {
        peer_manager =
            update_best_height n.peer_manager from_peer block.header.number (block_hash alloy block)
              now;
      } in
      gossiped seen_at from_peer (P2pEvent.block_received from_peer block) (
        on_new_block Block (block_hash alloy) serde.block_to_vec (λ b. b.header.number)
          n.gossip_engine block)

  unfoldable pub on_transaction : P2pNode → ℕ → Transaction → Outcome
  on_transaction n from_peer tx =
      gossiped n from_peer (P2pEvent.transaction_received from_peer tx)
        (on_new_tx Transaction tx_hash serde.tx_to_vec n.gossip_engine tx)

  abbrev pub decoded_event : ℕ → Option ConsensusMessage → List Effect
  decoded_event from_peer none = []
  decoded_event from_peer (some msg) = emit (P2pEvent.consensus_message_received from_peer msg) ∷ []

  -- The payload is relayed before it is decoded, whether or not it can be.
  abbrev pub consensus_relayed :
      P2pNode → ℕ → List ℕ → Option (ConsensusRelayCache × Bool) → Outcome
  consensus_relayed n from_peer msg_data none = none
  consensus_relayed n from_peer msg_data (some (cache, fresh)) = some (
    record n { consensus_cache = cache },
    relayed visit n (if fresh then some (consensus_msg msg_data) else none) (some from_peer)
        ++ decoded_event from_peer (serde.consensus_from_slice msg_data),
  )

  unfoldable pub on_consensus : P2pNode → ℕ → List ℕ → Outcome
  on_consensus n from_peer msg_data =
      consensus_relayed n from_peer msg_data
        (should_relay n.consensus_cache (serde.sha256 msg_data))

  unfoldable pub on_blocks : P2pNode → List (List ℕ) → P2pNode × List Effect
  on_blocks n batch =
      let sync = on_blocks_received n.sync_engine (decoded serde.block_from_slice batch) in
      (
        record n { sync_engine = sync },
        if not (is_synced n.sync_engine.state) && is_synced sync.state
            then emit (P2pEvent.sync_complete sync.local_height) ∷ []
            else [],
      )

  -- The match on a message, from a peer that has been touched.
  unfoldable pub on_message : ℕ → P2pNode → ℕ → WireMessage → Outcome
  unfolding on_block on_transaction on_consensus on_blocks
  on_message now n from_peer (hello peer_id chain_id best_height best_hash) = some (n, [])
  on_message now n from_peer (new_block height block_data) =
      elim (serde.block_from_slice block_data) [
        | none ↦ some (n, [])
        | some block ↦ on_block now n from_peer block
      ]
  on_message now n from_peer (new_transaction tx_data) = elim (serde.tx_from_slice tx_data) [
    | none ↦ some (n, [])
    | some tx ↦ on_transaction n from_peer tx
  ]
  on_message now n from_peer (consensus_msg msg_data) = on_consensus n from_peer msg_data
  on_message now n from_peer (get_blocks from_height count) =
      some (n, send_to_peer n.peer_senders from_peer (blocks []))
  on_message now n from_peer (blocks batch) = some (on_blocks n batch)
  on_message now n from_peer (ping nonce) =
      some (n, send_to_peer n.peer_senders from_peer (pong nonce))
  on_message now n from_peer (pong nonce) = some (n, [])

  -- One round of the loop, at the instant `now`.
  unfoldable pub dispatch : ℕ → P2pNode → NodeInbound → Outcome
  unfolding on_message
  dispatch now n (NodeInbound.peer_connected peer_id addr best_height best_hash sender) =
      some (on_peer_connected now n peer_id addr best_height best_hash sender)
  dispatch now n (NodeInbound.peer_disconnected peer_id) = some (on_peer_disconnected n peer_id)
  dispatch now n (NodeInbound.message from_peer m) =
      on_message now (record n { peer_manager = touch_peer n.peer_manager from_peer now }) from_peer
        m

  abbrev pub then_later : List Effect → Outcome → Outcome
  then_later effects none = none
  then_later effects (some (n, later)) = some (n, effects ++ later)

  -- The loop, over the inbound messages with their instants.
  unfoldable pub dispatch_loop : P2pNode → List (ℕ × NodeInbound) → Outcome
  unfolding dispatch
  dispatch_loop n [] = some (n, [])
  dispatch_loop n ((now, inbound) ∷ rest) = elim (dispatch now n inbound) [
    | none ↦ none
    | some (n', effects) ↦ then_later effects (dispatch_loop n' rest)
  ]

  -- The three broadcasts of the node's owner.
  abbrev pub announced : P2pNode → Option (GossipEngine × Option WireMessage) → Outcome
  announced n none = none
  announced n (some (gossip, relay)) =
      some (record n { gossip_engine = gossip }, relayed visit n relay none)

  unfoldable pub broadcast_block : P2pNode → Block → Outcome
  broadcast_block n block = announced n (
      on_new_block Block (block_hash alloy) serde.block_to_vec (λ b. b.header.number)
        n.gossip_engine block)

  unfoldable pub broadcast_tx : P2pNode → Transaction → Outcome
  broadcast_tx n tx = announced n (on_new_tx Transaction tx_hash serde.tx_to_vec n.gossip_engine tx)

  abbrev pub consensus_announced : P2pNode → List ℕ → Option (ConsensusRelayCache × Bool) → Outcome
  consensus_announced n msg_data none = none
  consensus_announced n msg_data (some (cache, fresh)) = some (
    record n { consensus_cache = cache },
    relayed visit n (if fresh then some (consensus_msg msg_data) else none) none,
  )

  unfoldable pub broadcast_consensus_msg : P2pNode → ConsensusMessage → Outcome
  broadcast_consensus_msg n msg = elim (serde.consensus_to_vec msg) [
    | none ↦ some (n, [])
    | some msg_data ↦
        consensus_announced n msg_data (should_relay n.consensus_cache (serde.sha256 msg_data))
  ]
