-- ===== src/P2p/Peers/Table.antt =====
-- The table of peer.rs: its capacity, and the choice of the best peer.
use eth.Prelude.{
  ℕ, ◌≤◌, ◌≡◌, refl, subst, Bool, true, false, leb, ◌==◌, none, some, List, [], ◌∷◌, length, filter,
  map, All, if◌then◌else◌, arith, Bool-cases, Option-cases, inl, inr, ◌⊎◌,
}
use eth.Prelude.Maps
use eth.Prelude.Maps.{nat_eq, get-insert, get-remove, length-insert_new, length-insert_old}
use eth.P2p.Peers.{
  PeerInfo, PeerManager, Table, add_peer, remove_peer, get_peer, update_best_height, touch_peer,
  is_connected, connected_peers, max_by_height, best_peer,
}

length-remove_le : (id : ℕ) (t : Table) → length (Maps.remove id t) ≤ length t
unfolding Maps.remove
length-remove_le id [] = omega arith
length-remove_le id (e ∷ t) = ground (arith, length-remove_le id t)

-- The calls that change the table.
pub data Change : Type 0 where
  add : PeerInfo → Change
  remove : ℕ → Change
  update : (id height hash now : ℕ) → Change
  touch : (id now : ℕ) → Change

unfoldable pub apply : PeerManager → Change → PeerManager
apply m (add p) = (add_peer m p).0
apply m (remove id) = (remove_peer m id).0
apply m (update id height hash now) = update_best_height m id height hash now
apply m (touch id now) = touch_peer m id now

unfoldable pub apply_all : PeerManager → List Change → PeerManager
unfolding apply
apply_all m [] = m
apply_all m (c ∷ cs) = apply_all (apply m c) cs

pub apply-within :
    (m : PeerManager) (c : Change)
    → length m.peers ≤ m.max_peers
    → (length (apply m c).peers ≤ (apply m c).max_peers) × ((apply m c).max_peers ≡ m.max_peers)
unfolding apply add_peer remove_peer update_best_height touch_peer
apply-within m (add p) h = elim (Option-cases (Maps.get p.peer_id m.peers)) [
  | inl new ↦ ground (arith, new, length-insert_new p.peer_id p m.peers new)
  | inr (old, e) ↦ ground (arith, e, length-insert_old p.peer_id p old m.peers e)
]
apply-within m (remove id) h = (omega (arith, length-remove_le id m.peers), refl)
apply-within m (update id height hash now) h = elim (Option-cases (Maps.get id m.peers)) [
  | inl new ↦ ground (arith, new)
  | inr (p, e) ↦ ground (
    arith,
    e,
    length-insert_old id (record p { best_height = height; best_hash = hash; last_seen = now }) p
        m.peers e,
  )
]
apply-within m (touch id now) h = elim (Option-cases (Maps.get id m.peers)) [
  | inl new ↦ ground (arith, new)
  | inr (p, e) ↦ ground (arith, e, length-insert_old id (record p { last_seen = now }) p m.peers e)
]

-- No sequence of changes takes a table within `max_peers` beyond it.
pub table_bounded :
    (m : PeerManager) (cs : List Change)
    → length m.peers ≤ m.max_peers
    → length (apply_all m cs).peers ≤ m.max_peers
unfolding apply_all
table_bounded m [] h = h
table_bounded m (c ∷ cs) h =
    let (within, same) = apply-within m c h in
    subst (λ n. length (apply_all (apply m c) cs).peers ≤ n) same
      (table_bounded (apply m c) cs within)

-- A peer that is added is found, and no other entry changes; a peer that is refused was unknown,
-- the table was full, and it stays as it was.
pub add_peer_outcome :
    (m : PeerManager) (p : PeerInfo) (id : ℕ)
    → (((add_peer m p).1 ≡ true)
        × (get_peer (add_peer m p).0 id ≡ (if p.peer_id == id then some p else get_peer m id)))
      ⊎ (((add_peer m p).1 ≡ false)
          × ((add_peer m p).0 ≡ m)
          × (get_peer m p.peer_id ≡ none)
          × (m.max_peers ≤ length m.peers))
unfolding add_peer get_peer
add_peer_outcome m p id = ground (arith, get-insert p.peer_id id p m.peers)

abbrev Beats : PeerInfo → PeerInfo → Type 0
Beats b p = p.best_height ≤ b.best_height

max_by_height-some :
    (b : PeerInfo) (ps : List PeerInfo)
    → (r : PeerInfo) × (max_by_height (some b) ps ≡ some r)
      × Beats r b
      × All (Beats r) ps
      × ((P : PeerInfo → Type 0) → P b → All P ps → P r)
unfolding max_by_height
max_by_height-some b [] = (b, refl, omega arith, tt, λ P pb g. pb)
max_by_height-some b (p ∷ ps) = elim (Bool-cases (leb b.best_height p.best_height)) [
  | inl up ↦
      let (r, e, beats, all, from) = max_by_height-some p ps in
      rw up (r, e, ground (arith, up, beats), (beats, all), λ P pb g. from P g.0 g.1)
  | inr down ↦
      let (r, e, beats, all, from) = max_by_height-some b ps in
      rw down (r, e, beats, (ground (arith, down, beats), all), λ P pb g. from P pb g.1)
]

All-filter : (p : PeerInfo → Bool) (ps : List PeerInfo) → All (λ x. p x ≡ true) (filter p ps)
All-filter p [] = tt
All-filter p (x ∷ ps) = elim (Bool-cases (p x)) [
  | inl hit ↦ rw hit (hit, All-filter p ps)
  | inr miss ↦ rw miss (All-filter p ps)
]

-- What `best_peer` returns is a connected peer that is at least as high as every connected peer; it
-- returns none only if there is none, whatever the order of the table.
pub best_peer_highest :
    (visit : Table → Table) (m : PeerManager)
    → ((best_peer visit m ≡ none) × (connected_peers visit m ≡ []))
      ⊎ ((r : PeerInfo) × (best_peer visit m ≡ some r)
          × (is_connected r ≡ true)
          × All (λ p. p.best_height ≤ r.best_height) (connected_peers visit m))
unfolding best_peer connected_peers max_by_height
best_peer_highest visit m =
    choose (connected_peers visit m) (All-filter is_connected (map (λ e. e.1) (visit m.peers)))
  where
    choose :
        (ps : List PeerInfo)
        → All (λ x. is_connected x ≡ true) ps
        → ((max_by_height none ps ≡ none) × (ps ≡ []))
          ⊎ ((r : PeerInfo) × (max_by_height none ps ≡ some r)
              × (is_connected r ≡ true)
              × All (λ p. p.best_height ≤ r.best_height) ps)
    choose [] g = inl (refl, refl)
    choose (p ∷ ps) g =
        let (r, e, beats, all, from) = max_by_height-some p ps in
        inr (r, e, from (λ x. is_connected x ≡ true) g.0 g.1, (beats, all))
