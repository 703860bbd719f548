-- ===== src/P2p/Node/Caches.antt =====
-- The memories of a node of node.rs: relayed payloads, blocks and transactions.
use eth.Prelude.{
  ℕ, ◌≤◌, ◌≡◌, refl, Bool, true, false, Option, some, List, [], ◌∷◌, ◌++◌, length, if◌then◌else◌,
  Bool-cases, inl, inr,
}
use eth.Prelude.Maps.{nat_eq}
use eth.P2p.Codec.{WireMessage}
use eth.P2p.Gossip.{GossipEngine, contains, on_new_block, on_new_tx, block_message, tx_message}
use eth.P2p.Gossip.Memory.{
  IsDistinct, IsMemory, latest, evict_pushed, IsDistinct-push, IsDistinct-drop, latest_bounded,
  should_relay-IsMemory,
}
use eth.P2p.Node.{ConsensusRelayCache, should_relay}

-- The memory of relayed consensus payloads.
pub record IsCache (c : ConsensusRelayCache) : Type 0 where
  pub agree : c.order ≡ c.seen
  pub distinct : IsDistinct c.seen
  pub bounded : length c.seen ≤ c.max_size

abbrev pub remember : ConsensusRelayCache → ℕ → ConsensusRelayCache
remember c hash =
    let l = latest c.max_size (c.seen ++ hash ∷ []) in record c { seen = l; order = l }

-- A payload is relayed exactly when it is not remembered, and is remembered then.
pub should_relay_lem :
    (c : ConsensusRelayCache) (hash : ℕ)
    → IsCache c
    → should_relay c hash
      ≡ (if contains hash c.seen then some (c, false) else some (remember c hash, true))
unfolding should_relay
should_relay_lem c hash v = elim (Bool-cases (contains hash c.seen)) [
  | inl old ↦ rw old refl
  | inr new ↦ rw (new, evict_pushed c.max_size hash c.seen c.order v.agree v.distinct new) refl
]

remember-IsCache :
    (c : ConsensusRelayCache) (hash : ℕ)
    → IsCache c
    → contains hash c.seen ≡ false
    → IsCache (remember c hash)
remember-IsCache c hash v new = record {
  agree = refl;
  distinct = IsDistinct-drop _ (c.seen ++ hash ∷ []) (IsDistinct-push hash c.seen v.distinct new);
  bounded = latest_bounded c.max_size (c.seen ++ hash ∷ []);
}

pub should_relay-IsCache :
    (c : ConsensusRelayCache) (hash : ℕ)
    → IsCache c
    → (c' : ConsensusRelayCache) × (fresh : Bool) × (should_relay c hash ≡ some (c', fresh))
      × IsCache c'
should_relay-IsCache c hash v = elim (Bool-cases (contains hash c.seen)) [
  | inl old ↦ (c, false, rw (should_relay_lem c hash v, old) refl, v)
  | inr new ↦ (
    remember c hash,
    true,
    rw (should_relay_lem c hash v, new) refl,
    remember-IsCache c hash v new,
  )
]

-- The gossip engine's calls return, and keep its memory.
pub on_new_block-IsMemory :
    (Item : Type 0) (hash : Item → ℕ) (to_vec : Item → Option (List ℕ)) (number : Item → ℕ)
    (g : GossipEngine) (b : Item)
    → IsMemory g
    → (g' : GossipEngine) × (relay : Option WireMessage) × (on_new_block Item hash to_vec number g b
        ≡ some (g', relay))
      × IsMemory g'
unfolding on_new_block
on_new_block-IsMemory Item hash to_vec number g b v =
    let (g', fresh, e, v') = (should_relay-IsMemory g (hash b) v).0 in
    (g', block_message Item hash to_vec number b fresh (to_vec b), rw (on_new_block, e) refl, v')

pub on_new_tx-IsMemory :
    (Item : Type 0) (hash : Item → ℕ) (to_vec : Item → Option (List ℕ)) (g : GossipEngine)
    (t : Item)
    → IsMemory g
    → (g' : GossipEngine) × (relay : Option WireMessage) × (on_new_tx Item hash to_vec g t
        ≡ some (g', relay))
      × IsMemory g'
unfolding on_new_tx
on_new_tx-IsMemory Item hash to_vec g t v =
    let (g', fresh, e, v') = (should_relay-IsMemory g (hash t) v).1 in
    (g', tx_message Item hash to_vec fresh (to_vec t), rw (on_new_tx, e) refl, v')
