-- ===== src/P2p/Node/Serving.antt =====
-- What node.rs answers to `GetBlocks`, and what becomes of a synchronisation among such nodes.
use eth.Prelude.{
  ℕ, ◌≡◌, refl, sym, ap, ◌∙◌, subst, none, some, List, [], ◌∷◌, ◌++◌, All, All-append, arith,
  Option-cases, inl, inr,
}
use eth.Prelude.Maps.{nat_eq}
use eth.Execution.Canonical.{Alloy}
use eth.P2p.Codec.{
  WireMessage, hello, new_block, new_transaction, consensus_msg, get_blocks, blocks, ping, pong,
}
use eth.P2p.Peers.{touch_peer}
use eth.P2p.Sync.{SyncEngine, SyncState, idle, syncing, synced, start_sync, on_blocks_received}
use eth.P2p.Node.{
  P2pNode, P2pEvent, NodeInbound, Effect, send, emit, Serde, Senders, Outcome, on_peer_connected,
  on_peer_disconnected, sync_on_connect, restart,
}
use eth.P2p.Node.Dispatch.{
  decoded, on_block, on_transaction, on_consensus, on_blocks, on_message, dispatch, dispatch_loop,
  then_later,
}
use eth.P2p.Node.Effects.{
  Emits, IsGossip, IsReception, Covers, Reports, InboundReports, dispatch-Emits,
}

-- A message that carries no blocks in answer to a request.
abbrev pub IsEmptyBatch : WireMessage → Type 0
IsEmptyBatch (blocks batch) = batch ≡ []
IsEmptyBatch _ = Unit {0}

-- Effects that serve no block, and effects that report no completed synchronisation.
abbrev pub ServesNothing : Effect → Type 0
ServesNothing (send peer channel m) = IsEmptyBatch m
ServesNothing (emit _) = Unit {0}

abbrev pub NotComplete : Effect → Type 0
NotComplete (emit (P2pEvent.sync_complete height)) = ⊥
NotComplete _ = Unit {0}

gossip-IsEmptyBatch : (m : WireMessage) → IsGossip m → IsEmptyBatch m
gossip-IsEmptyBatch (new_block h b) g = tt
gossip-IsEmptyBatch (new_transaction t) g = tt
gossip-IsEmptyBatch (consensus_msg d) g = tt
gossip-IsEmptyBatch (hello i c h b) g = tt
gossip-IsEmptyBatch (get_blocks f n) g = tt
gossip-IsEmptyBatch (blocks batch) g = absurd g
gossip-IsEmptyBatch (ping n) g = tt
gossip-IsEmptyBatch (pong n) g = tt

ServesNothing-Covers : Covers ServesNothing
ServesNothing-Covers = record {
  gossip = λ p c m g. gossip-IsEmptyBatch m g;
  batch = λ p c. refl;
  answer = λ p c nonce. tt;
  request = λ p c f k. tt;
  event = λ e r. tt;
}

reception-NotComplete : (e : P2pEvent) → IsReception e → NotComplete (emit e)
reception-NotComplete (P2pEvent.block_received p b) r = tt
reception-NotComplete (P2pEvent.transaction_received p t) r = tt
reception-NotComplete (P2pEvent.consensus_message_received p m) r = tt
reception-NotComplete (P2pEvent.peer_connected p) r = tt
reception-NotComplete (P2pEvent.peer_disconnected p) r = tt
reception-NotComplete (P2pEvent.sync_complete h) r = r

NotComplete-Covers : Covers NotComplete
NotComplete-Covers = record {
  gossip = λ p c m g. tt;
  batch = λ p c. tt;
  answer = λ p c nonce. tt;
  request = λ p c f k. tt;
  event = reception-NotComplete;
}

-- The node after a step has the synchronised height of the one before.
abbrev pub KeepsHeight : P2pNode → Outcome → Type 0
KeepsHeight n none = Unit {0}
KeepsHeight n (some (n', effects)) = n'.sync_engine.local_height ≡ n.sync_engine.local_height

start_sync_height :
    (s : SyncEngine) (target : ℕ) → (start_sync s target).local_height ≡ s.local_height
unfolding start_sync
start_sync_height s target = ground arith

restart_height :
    (s : SyncEngine) (st : SyncState) (best : ℕ) → (restart s st best).local_height ≡ s.local_height
restart_height s idle best = start_sync_height s best
restart_height s synced best = start_sync_height s best
restart_height s (syncing target current) best = ground (arith, start_sync_height s best)

on_peer_connected_height :
    (now : ℕ) (n : P2pNode) (p addr height hash sender : ℕ)
    → (on_peer_connected now n p addr height hash sender).0.sync_engine.local_height
      ≡ n.sync_engine.local_height
unfolding on_peer_connected sync_on_connect
on_peer_connected_height now n p addr height hash sender =
    ground (arith, restart_height n.sync_engine n.sync_engine.state height)

-- An inbound message that brings no block.
abbrev pub BringsNothing : ℕ × NodeInbound → Type 0
BringsNothing (now, NodeInbound.message p m) = IsEmptyBatch m
BringsNothing (now, _) = Unit {0}

module _ (serde : Serde) (alloy : Alloy) (visit : Senders → Senders) where
  on_blocks-ServesNothing :
      (n : P2pNode) (batch : List (List ℕ))
      → All ServesNothing (on_blocks serde alloy visit n batch).1
  unfolding on_blocks
  on_blocks-ServesNothing n batch = ground arith

  inbound-ServesNothing :
      (now : ℕ) (n : P2pNode) (i : NodeInbound)
      → InboundReports serde alloy visit ServesNothing ServesNothing-Covers now n i
  inbound-ServesNothing now n (NodeInbound.message p (blocks batch)) =
      on_blocks-ServesNothing _ batch
  inbound-ServesNothing now n (NodeInbound.message p (hello i c h b)) = tt
  inbound-ServesNothing now n (NodeInbound.message p (new_block h b)) = tt
  inbound-ServesNothing now n (NodeInbound.message p (new_transaction t)) = tt
  inbound-ServesNothing now n (NodeInbound.message p (consensus_msg d)) = tt
  inbound-ServesNothing now n (NodeInbound.message p (get_blocks f k)) = tt
  inbound-ServesNothing now n (NodeInbound.message p (ping k)) = tt
  inbound-ServesNothing now n (NodeInbound.message p (pong k)) = tt
  inbound-ServesNothing now n (NodeInbound.peer_connected p a h b s) = tt
  inbound-ServesNothing now n (NodeInbound.peer_disconnected p) = tt

  then_later-Emits :
      (P : Effect → Type 0) (effects : List Effect) (o : Outcome)
      → All P effects
      → Emits P o
      → Emits P (then_later serde alloy visit effects o)
  then_later-Emits P effects none a h = tt
  then_later-Emits P effects (some (n, later)) a h = All-append P effects later a h

  pub loop-ServesNothing :
      (n : P2pNode) (inbound : List (ℕ × NodeInbound))
      → Emits ServesNothing (dispatch_loop serde alloy visit n inbound)
  unfolding dispatch_loop
  loop-ServesNothing n [] = tt
  loop-ServesNothing n ((now, i) ∷ rest) =
      let step =
        dispatch-Emits serde alloy visit ServesNothing ServesNothing-Covers now n i
          (inbound-ServesNothing now n i) in
      elim (Option-cases (dispatch serde alloy visit now n i)) [
        | inl spins ↦ rw (dispatch_loop, spins) tt
        | inr ((n', effects), e) ↦
            let emitted = subst (Emits ServesNothing) e step in
            rw (dispatch_loop, e)
              (then_later-Emits ServesNothing effects (dispatch_loop serde alloy visit n' rest)
                emitted (loop-ServesNothing n' rest))
      ]

  -- An empty batch changes nothing and reports nothing.
  on_blocks_empty : (n : P2pNode) → on_blocks serde alloy visit n [] ≡ (n, [])
  unfolding on_blocks decoded on_blocks_received
  on_blocks_empty n = ground arith

  on_message-KeepsHeight :
      (now : ℕ) (n : P2pNode) (p : ℕ) (m : WireMessage)
      → IsEmptyBatch m
      → KeepsHeight n (on_message serde alloy visit now n p m)
  unfolding on_message on_block on_transaction on_consensus
  on_message-KeepsHeight now n p (hello i c h b) q = refl
  on_message-KeepsHeight now n p (new_block height bytes) q = ground arith
  on_message-KeepsHeight now n p (new_transaction bytes) q = ground arith
  on_message-KeepsHeight now n p (consensus_msg bytes) q = ground arith
  on_message-KeepsHeight now n p (get_blocks f k) q = refl
  on_message-KeepsHeight now n p (blocks batch) q =
      rw q (ap (λ r. r.0.sync_engine.local_height) (on_blocks_empty n))
  on_message-KeepsHeight now n p (ping nonce) q = refl
  on_message-KeepsHeight now n p (pong nonce) q = refl

  dispatch-KeepsHeight :
      (now : ℕ) (n : P2pNode) (i : NodeInbound)
      → BringsNothing (now, i)
      → KeepsHeight n (dispatch serde alloy visit now n i)
  unfolding dispatch on_peer_disconnected
  dispatch-KeepsHeight now n (NodeInbound.peer_connected p a h b s) q =
      on_peer_connected_height now n p a h b s
  dispatch-KeepsHeight now n (NodeInbound.peer_disconnected p) q = refl
  dispatch-KeepsHeight now n (NodeInbound.message p m) q =
      on_message-KeepsHeight now (record n { peer_manager = touch_peer n.peer_manager p now }) p m q

  empty-NotComplete :
      (n : P2pNode) (m : WireMessage) → IsEmptyBatch m → Reports serde alloy visit NotComplete n m
  empty-NotComplete n (blocks batch) q = rw q (rw (on_blocks_empty n) tt)
  empty-NotComplete n (hello i c h b) q = tt
  empty-NotComplete n (new_block h b) q = tt
  empty-NotComplete n (new_transaction t) q = tt
  empty-NotComplete n (consensus_msg d) q = tt
  empty-NotComplete n (get_blocks f k) q = tt
  empty-NotComplete n (ping k) q = tt
  empty-NotComplete n (pong k) q = tt

  inbound-NotComplete :
      (now : ℕ) (n : P2pNode) (i : NodeInbound)
      → BringsNothing (now, i)
      → InboundReports serde alloy visit NotComplete NotComplete-Covers now n i
  inbound-NotComplete now n (NodeInbound.message p m) q = empty-NotComplete _ m q
  inbound-NotComplete now n (NodeInbound.peer_connected p a h b s) q = tt
  inbound-NotComplete now n (NodeInbound.peer_disconnected p) q = tt

  -- Where no inbound message brings a block, the synchronised height never changes, and the
  -- synchronisation is never reported complete.
  pub loop_stalls :
      (n : P2pNode) (inbound : List (ℕ × NodeInbound)) (last : P2pNode) (effects : List Effect)
      → All BringsNothing inbound
      → dispatch_loop serde alloy visit n inbound ≡ some (last, effects)
      → (last.sync_engine.local_height ≡ n.sync_engine.local_height) × All NotComplete effects
  unfolding dispatch_loop
  loop_stalls n [] last effects q e =
      let same : last ≡ n = ground (arith, e) in
      let quiet : effects ≡ [] = ground (arith, e) in rw (same, quiet) (refl, tt)
  loop_stalls n ((now, i) ∷ rest) last effects q e =
      let height = dispatch-KeepsHeight now n i q.0 in
      let step =
        dispatch-Emits serde alloy visit NotComplete NotComplete-Covers now n i
          (inbound-NotComplete now n i q.0) in
      elim (Option-cases (dispatch serde alloy visit now n i)) [
        | inl spins ↦ absurd (ground (arith, spins, e))
        | inr ((n', first), e1) ↦ elim (Option-cases (dispatch_loop serde alloy visit n' rest)) [
          | inl spins ↦ absurd (ground (arith, e1, spins, e))
          | inr ((last', later), e2) ↦
              let run : dispatch_loop serde alloy visit n ((now, i) ∷ rest)
                  ≡ some (last', first ++ later) =
                rw (dispatch_loop, e1, e2) refl in
              let same : last' ≡ last = ground (arith, sym run ∙ e) in
              let all : first ++ later ≡ effects = ground (arith, sym run ∙ e) in
              let (kept, quiet) = loop_stalls n' rest last' later q.1 e2 in
              (
                ap (λ x. x.sync_engine.local_height) (sym same)
                    ∙ kept
                    ∙ subst (KeepsHeight n) e1 height,
                subst (All NotComplete) all
                    (All-append NotComplete first later (subst (Emits NotComplete) e1 step) quiet),
              )
        ]
      ]
