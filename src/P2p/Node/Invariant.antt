-- ===== src/P2p/Node/Invariant.antt =====
-- The invariant of a node of node.rs, and the arrival and departure of peers.
use eth.Prelude.{
  ℕ, ◌≤◌, ◌≡◌, sym, ap, ◌∙◌, Bool, true, false, ◌==◌, ltb, Option, none, some, length,
  if◌then◌else◌, arith, Bool-cases, Option-cases, inl, inr,
}
use eth.Prelude.Maps
use eth.Prelude.Maps.{nat_eq, get-insert, get-remove}
use eth.P2p.Gossip.Memory.{IsMemory}
use eth.P2p.Peers.{
  PeerInfo, PeerManager, add_peer, remove_peer, get_peer, update_best_height, touch_peer, new_peer,
  connected,
}
use eth.P2p.Peers.Table.{add, remove, update, touch, apply, apply-within, add_peer_outcome}
use eth.P2p.Sync.{SyncEngine, SyncState, idle, syncing, synced, needs_sync, start_sync}
use eth.P2p.Sync.Progress.{IsSync}
use eth.P2p.Node.{P2pNode, on_peer_connected, on_peer_disconnected, sync_on_connect, restart}
use eth.P2p.Node.Caches.{IsCache}

abbrev pub present : {V : Type 0} → Option V → Bool
present none = false
present (some _) = true

-- The memories are well formed, the table is within its bound, and a peer has a channel exactly
-- when it is in the table.
pub record IsNode (n : P2pNode) : Type 0 where
  pub gossip : IsMemory n.gossip_engine
  pub cache : IsCache n.consensus_cache
  pub sync : IsSync n.sync_engine
  pub within : length n.peer_manager.peers ≤ n.peer_manager.max_peers
  pub keyed :
      (p : ℕ) → present (Maps.get p n.peer_senders) ≡ present (Maps.get p n.peer_manager.peers)

-- Writes to known peers keep the keys of the table.
present-touch :
    (m : PeerManager) (p now q : ℕ)
    → present (Maps.get q (touch_peer m p now).peers) ≡ present (Maps.get q m.peers)
unfolding touch_peer
present-touch m p now q = elim (Option-cases (Maps.get p m.peers)) [
  | inl new ↦ ground (arith, new)
  | inr (i, e) ↦ ground (arith, e, get-insert p q (record i { last_seen = now }) m.peers)
]

present-update :
    (m : PeerManager) (p height hash now q : ℕ)
    → present (Maps.get q (update_best_height m p height hash now).peers)
      ≡ present (Maps.get q m.peers)
unfolding update_best_height
present-update m p height hash now q = elim (Option-cases (Maps.get p m.peers)) [
  | inl new ↦ ground (arith, new)
  | inr (i, e) ↦ ground (
    arith,
    e,
    get-insert p q (record i { best_height = height; best_hash = hash; last_seen = now }) m.peers,
  )
]

pub touch-IsNode :
    (n : P2pNode) (p now : ℕ)
    → IsNode n
    → IsNode (record n { peer_manager = touch_peer n.peer_manager p now })
unfolding apply
touch-IsNode n p now v = record {
  gossip = v.gossip;
  cache = v.cache;
  sync = v.sync;
  within = (apply-within n.peer_manager (touch p now) v.within).0;
  keyed = λ q. v.keyed q ∙ sym (present-touch n.peer_manager p now q);
}

pub update-IsNode :
    (n : P2pNode) (p height hash now : ℕ)
    → IsNode n
    → IsNode (record n { peer_manager = update_best_height n.peer_manager p height hash now })
unfolding apply
update-IsNode n p height hash now v = record {
  gossip = v.gossip;
  cache = v.cache;
  sync = v.sync;
  within = (apply-within n.peer_manager (update p height hash now) v.within).0;
  keyed = λ q. v.keyed q ∙ sym (present-update n.peer_manager p height hash now q);
}

start_sync-IsSync : (s : SyncEngine) (target : ℕ) → IsSync (start_sync s target)
unfolding start_sync
start_sync-IsSync s target = ground arith

restart-IsSync :
    (s : SyncEngine) (st : SyncState) (best : ℕ) → IsSync s → IsSync (restart s st best)
restart-IsSync s idle best v = start_sync-IsSync s best
restart-IsSync s synced best v = start_sync-IsSync s best
restart-IsSync s (syncing target current) best v = elim (Bool-cases (ltb target best)) [
  | inl higher ↦ rw higher (start_sync-IsSync s best)
  | inr lower ↦ rw lower v
]

sync_on_connect-IsSync : (s : SyncEngine) (best : ℕ) → IsSync s → IsSync (sync_on_connect s best).0
unfolding sync_on_connect
sync_on_connect-IsSync s best v = elim (Bool-cases (needs_sync s best)) [
  | inl needed ↦ rw needed (restart-IsSync s s.state best v)
  | inr not_needed ↦ rw not_needed v
]

-- A table that has taken a peer in knows it, and no other one more than before.
present-add :
    (m : PeerManager) (i : PeerInfo) (q : ℕ)
    → ((add_peer m i).1 ≡ true)
    → present (Maps.get q (add_peer m i).0.peers)
      ≡ (if i.peer_id == q then true else present (Maps.get q m.peers))
unfolding get_peer
present-add m i q yes' = elim (add_peer_outcome m i q) [
  | inl (added, found) ↦ ground (arith, found)
  | inr (refused, same, unknown, full) ↦ absurd (ground (arith, refused, yes'))
]

add_peer_refused :
    (m : PeerManager) (i : PeerInfo) → (add_peer m i).1 ≡ false → (add_peer m i).0 ≡ m
add_peer_refused m i refused = elim (add_peer_outcome m i 0) [
  | inl (added, found) ↦ absurd (ground (arith, refused, added))
  | inr (no_room, same, unknown, full) ↦ same
]

pub on_peer_connected-IsNode :
    (now : ℕ) (n : P2pNode) (id addr height hash sender : ℕ)
    → IsNode n
    → IsNode (on_peer_connected now n id addr height hash sender).0
unfolding on_peer_connected apply new_peer
on_peer_connected-IsNode now n id addr height hash sender v =
    let info : PeerInfo = record (new_peer id addr connected now) {
      best_height = height;
      best_hash = hash;
    } in
    let r = add_peer n.peer_manager info in
    elim (Bool-cases r.1) [
      | inl accepted ↦ rw accepted (record {
        gossip = v.gossip;
        cache = v.cache;
        sync = sync_on_connect-IsSync n.sync_engine height v.sync;
        within = (apply-within n.peer_manager (add info) v.within).0;
        keyed = λ q. ground (
          arith,
          get-insert id q sender n.peer_senders,
          present-add n.peer_manager info q accepted,
          v.keyed q,
        );
      })
      | inr refused ↦ rw refused (record {
        gossip = v.gossip;
        cache = v.cache;
        sync = v.sync;
        within = (apply-within n.peer_manager (add info) v.within).0;
        keyed = λ q.
            v.keyed q
            ∙ ap (λ m. present (Maps.get q m.peers))
                (sym (add_peer_refused n.peer_manager info refused));
      })
    ]

pub on_peer_disconnected-IsNode :
    (n : P2pNode) (id : ℕ) → IsNode n → IsNode (on_peer_disconnected n id).0
unfolding on_peer_disconnected remove_peer apply
on_peer_disconnected-IsNode n id v = record {
  gossip = v.gossip;
  cache = v.cache;
  sync = v.sync;
  within = (apply-within n.peer_manager (remove id) v.within).0;
  keyed = λ q.
      ground
        (arith, v.keyed q, get-remove id q n.peer_senders, get-remove id q n.peer_manager.peers);
}
