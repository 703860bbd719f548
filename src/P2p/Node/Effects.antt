-- ===== src/P2p/Node/Effects.antt =====
-- The effects of each arm of the dispatch loop of node.rs.
use eth.Prelude.{
  ℕ, Bool, ◌==◌, ltb, Option, none, some, List, [], ◌∷◌, if◌then◌else◌, All, All-append, arith,
  Bool-cases, Option-cases, inl, inr,
}
use eth.Prelude.Maps
use eth.Prelude.Maps.{nat_eq}
use eth.Execution.Canonical.{Block, Transaction, Alloy, block_hash}
use eth.Consensus.Engine.{ConsensusMessage}
use eth.P2p.Codec.{
  WireMessage, hello, new_block, new_transaction, consensus_msg, get_blocks, blocks, ping, pong,
}
use eth.P2p.Gossip.{GossipEngine, on_new_block, on_new_tx}
use eth.P2p.Peers.{PeerInfo, new_peer, connected, touch_peer, add_peer, update_best_height}
use eth.P2p.Sync.{
  SyncEngine, SyncState, idle, syncing, synced, needs_sync, next_request, request_in,
}
use eth.P2p.Node.{
  P2pNode, P2pEvent, NodeInbound, Effect, send, emit, Serde, Senders, Outcome, ConsensusRelayCache,
  broadcast_wire, send_to_peer, sent, requested, on_peer_connected, on_peer_disconnected,
  sync_on_connect, restart,
}
use eth.P2p.Node.Dispatch.{
  relayed, decoded_event, gossiped, consensus_relayed, on_block, on_transaction, on_consensus,
  on_blocks, on_message, dispatch, tx_hash,
}

-- What holds of each effect of a step, and of the node that it leaves.
abbrev pub Emits : (Effect → Type 0) → Outcome → Type 0
Emits P none = Unit {0}
Emits P (some (n, effects)) = All P effects

broadcast-All :
    (P : Effect → Type 0) (senders : Senders) (m : WireMessage) (except : Option ℕ)
    → ((p c : ℕ) → P (send p c m))
    → All P (broadcast_wire senders m except)
unfolding broadcast_wire
broadcast-All P [] m except h = tt
broadcast-All P ((p, c) ∷ senders) m none h = (h p c, broadcast-All P senders m none h)
broadcast-All P ((p, c) ∷ senders) m (some q) h = elim (Bool-cases (q == p)) [
  | inl same ↦ rw same (broadcast-All P senders m (some q) h)
  | inr other ↦ rw other (h p c, broadcast-All P senders m (some q) h)
]

-- A step whose relay is a gossip message, so that a predicate of gossip messages and of the event
-- holds of its effects.
abbrev pub IsGossip : WireMessage → Type 0
IsGossip (new_block _ _) = Unit {0}
IsGossip (new_transaction _) = Unit {0}
IsGossip (consensus_msg _) = Unit {0}
IsGossip _ = ⊥

abbrev pub IsRelay : Option WireMessage → Type 0
IsRelay none = Unit {0}
IsRelay (some m) = IsGossip m

abbrev pub RelaysGossip : Option (GossipEngine × Option WireMessage) → Type 0
RelaysGossip none = Unit {0}
RelaysGossip (some (g, relay)) = IsRelay relay

on_new_block-RelaysGossip :
    (Item : Type 0) (hash : Item → ℕ) (to_vec : Item → Option (List ℕ)) (number : Item → ℕ)
    (g : GossipEngine) (b : Item)
    → RelaysGossip (on_new_block Item hash to_vec number g b)
unfolding on_new_block
on_new_block-RelaysGossip Item hash to_vec number g b = ground arith

on_new_tx-RelaysGossip :
    (Item : Type 0) (hash : Item → ℕ) (to_vec : Item → Option (List ℕ)) (g : GossipEngine)
    (t : Item)
    → RelaysGossip (on_new_tx Item hash to_vec g t)
unfolding on_new_tx
on_new_tx-RelaysGossip Item hash to_vec g t = ground arith

-- Every event but the completed synchronisation.
abbrev pub IsReception : P2pEvent → Type 0
IsReception (P2pEvent.sync_complete height) = ⊥
IsReception _ = Unit {0}

-- A predicate of effects that holds of everything but the report of `on_blocks`.
pub record Covers (P : Effect → Type 0) : Type 0 where
  pub gossip : (p c : ℕ) (m : WireMessage) → IsGossip m → P (send p c m)
  pub batch : (p c : ℕ) → P (send p c (blocks []))
  pub answer : (p c nonce : ℕ) → P (send p c (pong nonce))
  pub request : (p c from_height count : ℕ) → P (send p c (get_blocks from_height count))
  pub event : (e : P2pEvent) → IsReception e → P (emit e)

-- The report of `on_blocks`, where the message holds a batch.
abbrev pub Reports :
    Serde → Alloy → (Senders → Senders) → (Effect → Type 0) → P2pNode → WireMessage → Type 0
Reports serde alloy visit P n (blocks batch) = All P (on_blocks serde alloy visit n batch).1
Reports serde alloy visit P n _ = Unit {0}

request_in-All :
    (P : Effect → Type 0) (c : Covers P) (st : SyncState) (size p channel : ℕ)
    → All P (requested (request_in st size) p channel)
request_in-All P c idle size p channel = tt
request_in-All P c synced size p channel = tt
request_in-All P c (syncing target current) size p channel =
    elim (Bool-cases (ltb current target)) [
      | inl more ↦ rw more (c.request p channel _ size, tt)
      | inr done ↦ rw done tt
    ]

sent-All :
    (P : Effect → Type 0) (channel : Option ℕ) (p : ℕ) (m : WireMessage)
    → ((c : ℕ) → P (send p c m))
    → All P (sent channel p m)
sent-All P none p m h = tt
sent-All P (some c) p m h = (h c, tt)

sync_on_connect-All :
    (P : Effect → Type 0) (c : Covers P) (s : SyncEngine) (best p channel : ℕ)
    → All P (requested (sync_on_connect s best).1 p channel)
unfolding sync_on_connect next_request
sync_on_connect-All P c s best p channel = elim (Bool-cases (needs_sync s best)) [
  | inl needed ↦
      let s' = restart s s.state best in
      rw needed (request_in-All P c s'.state s'.batch_size p channel)
  | inr not_needed ↦ rw not_needed tt
]

on_peer_connected-All :
    (P : Effect → Type 0) (c : Covers P) (now : ℕ) (n : P2pNode) (p addr height hash sender : ℕ)
    → All P (on_peer_connected now n p addr height hash sender).1
unfolding on_peer_connected
on_peer_connected-All P c now n p addr height hash sender =
    let info : PeerInfo = record (new_peer p addr connected now) {
      best_height = height;
      best_hash = hash;
    } in
    elim (Bool-cases (add_peer n.peer_manager info).1) [
      | inl accepted ↦ rw accepted (
        c.event (P2pEvent.peer_connected p) tt,
        sync_on_connect-All P c n.sync_engine height p sender,
      )
      | inr refused ↦ rw refused tt
    ]

module _ (serde : Serde) (alloy : Alloy) (visit : Senders → Senders) (P : Effect → Type 0)
    (covers : Covers P) where
  relayed-All :
      (n : P2pNode) (relay : Option WireMessage) (except : Option ℕ)
      → IsRelay relay
      → All P (relayed visit n relay except)
  relayed-All n none except r = tt
  relayed-All n (some m) except r =
      broadcast-All P (visit n.peer_senders) m except (λ p c. covers.gossip p c m r)

  gossiped-Emits :
      (n : P2pNode) (from_peer : ℕ) (event : P2pEvent)
      (r : Option (GossipEngine × Option WireMessage))
      → RelaysGossip r
      → IsReception event
      → Emits P (gossiped serde alloy visit n from_peer event r)
  gossiped-Emits n from_peer event none r h = tt
  gossiped-Emits n from_peer event (some (g, relay)) r h =
      All-append P (relayed visit n relay (some from_peer)) (emit event ∷ [])
        (relayed-All n relay (some from_peer) r) (covers.event event h, tt)

  decoded_event-All :
      (p : ℕ) (m : Option ConsensusMessage) → All P (decoded_event serde alloy visit p m)
  decoded_event-All p none = tt
  decoded_event-All p (some m) = (covers.event (P2pEvent.consensus_message_received p m) tt, tt)

  consensus_relayed-Emits :
      (n : P2pNode) (p : ℕ) (bytes : List ℕ) (r : Option (ConsensusRelayCache × Bool))
      → Emits P (consensus_relayed serde alloy visit n p bytes r)
  consensus_relayed-Emits n p bytes none = tt
  consensus_relayed-Emits n p bytes (some (cache, fresh)) =
      All-append P (relayed visit n (if fresh then some (consensus_msg bytes) else none) (some p))
        (decoded_event serde alloy visit p (serde.consensus_from_slice bytes))
        (relayed-All n (if fresh then some (consensus_msg bytes) else none) (some p) (ground arith))
        (decoded_event-All p (serde.consensus_from_slice bytes))

  -- The node that has noted the height of a received block.
  abbrev seen_at : ℕ → P2pNode → ℕ → Block → P2pNode
  seen_at now n p block = record n {
    peer_manager =
        update_best_height n.peer_manager p block.header.number (block_hash alloy block) now;
  }

  on_message-Emits :
      (now : ℕ) (n : P2pNode) (p : ℕ) (m : WireMessage)
      → Reports serde alloy visit P n m
      → Emits P (on_message serde alloy visit now n p m)
  unfolding on_message on_block on_transaction on_consensus send_to_peer
  on_message-Emits now n p (hello i c h b) r = tt
  on_message-Emits now n p (new_block height bytes) r =
      elim (Option-cases (serde.block_from_slice bytes)) [
        | inl bad ↦ rw (on_message, bad) tt
        | inr (block, e) ↦
            rw (on_message, e)
              (gossiped-Emits (seen_at now n p block) p (P2pEvent.block_received p block) _
                (on_new_block-RelaysGossip Block (block_hash alloy) serde.block_to_vec
                  (λ b. b.header.number) n.gossip_engine block)
                tt)
      ]
  on_message-Emits now n p (new_transaction bytes) r =
      elim (Option-cases (serde.tx_from_slice bytes)) [
        | inl bad ↦ rw (on_message, bad) tt
        | inr (tx, e) ↦
            rw (on_message, e)
              (gossiped-Emits n p (P2pEvent.transaction_received p tx) _
                (on_new_tx-RelaysGossip Transaction tx_hash serde.tx_to_vec n.gossip_engine tx) tt)
      ]
  on_message-Emits now n p (consensus_msg bytes) r = consensus_relayed-Emits n p bytes _
  on_message-Emits now n p (get_blocks f k) r =
      sent-All P (Maps.get p n.peer_senders) p (blocks []) (λ c. covers.batch p c)
  on_message-Emits now n p (blocks batch) r = r
  on_message-Emits now n p (ping nonce) r =
      sent-All P (Maps.get p n.peer_senders) p (pong nonce) (λ c. covers.answer p c nonce)
  on_message-Emits now n p (pong nonce) r = tt

  abbrev pub InboundReports : ℕ → P2pNode → NodeInbound → Type 0
  InboundReports now n (NodeInbound.message p m) =
      Reports serde alloy visit P (record n { peer_manager = touch_peer n.peer_manager p now }) m
  InboundReports now n _ = Unit {0}

  pub dispatch-Emits :
      (now : ℕ) (n : P2pNode) (i : NodeInbound)
      → InboundReports now n i
      → Emits P (dispatch serde alloy visit now n i)
  unfolding dispatch on_peer_disconnected
  dispatch-Emits now n (NodeInbound.peer_connected p a h b s) r =
      on_peer_connected-All P covers now n p a h b s
  dispatch-Emits now n (NodeInbound.peer_disconnected p) r =
      (covers.event (P2pEvent.peer_disconnected p) tt, tt)
  dispatch-Emits now n (NodeInbound.message p m) r =
      on_message-Emits now (record n { peer_manager = touch_peer n.peer_manager p now }) p m r
