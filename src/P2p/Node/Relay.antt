-- ===== src/P2p/Node/Relay.antt =====
-- Relays of node.rs: to whom a consensus payload goes, and that it goes once.
use mathlib.Core.Logic.{∥∥₁_map}
use mathlib.Core.List.{Perm, Mem, Memᴰ}
use mathlib.Core.List.Perm
use eth.Prelude.{
  ℕ, zero, suc, ◌-◌, ◌≤◌, ◌<◌, ◌≡◌, ◌≢◌, refl, ap, ◌∙◌, true, false, ◌==◌, ==_refl, Option, none,
  some, List, [], ◌∷◌, ◌++◌, length, drop, length-append, All, All-append, arith, Bool-cases, inl,
  inr,
}
use eth.Prelude.Maps
use eth.Prelude.Maps.{nat_eq}
use eth.Prelude.Members.{get-Memᴰ}
use eth.Execution.Canonical.{Alloy}
use eth.Consensus.Engine.{ConsensusMessage}
use eth.P2p.Codec.{WireMessage, consensus_msg}
use eth.P2p.Gossip.{contains}
use eth.P2p.Gossip.Memory.{latest}
use eth.P2p.Peers.{touch_peer}
use eth.P2p.Node.{
  P2pNode, NodeInbound, Effect, send, emit, Serde, Senders, Outcome, ConsensusRelayCache,
  should_relay, broadcast_wire,
}
use eth.P2p.Node.Caches.{remember, should_relay_lem}
use eth.P2p.Node.Invariant.{IsNode}
use eth.P2p.Node.Dispatch.{decoded_event, consensus_relayed, on_consensus, on_message, dispatch}

abbrev pub NotTo : ℕ → Effect → Type 0
NotTo p (send q channel m) = q ≢ p
NotTo p (emit event) = Unit {0}

abbrev pub IsEvent : Effect → Type 0
IsEvent (send q channel m) = ⊥
IsEvent (emit event) = Unit {0}

broadcast-NotTo :
    (p : ℕ) (senders : Senders) (m : WireMessage)
    → All (NotTo p) (broadcast_wire senders m (some p))
unfolding broadcast_wire
broadcast-NotTo p [] m = tt
broadcast-NotTo p ((q, c) ∷ senders) m = elim (Bool-cases (p == q)) [
  | inl same ↦ rw same (broadcast-NotTo p senders m)
  | inr other ↦ rw other (λ e. ground (arith, other), broadcast-NotTo p senders m)
]

broadcast-Memᴰ :
    (p q c : ℕ) (senders : Senders) (m : WireMessage)
    → q ≢ p
    → Memᴰ (q, c) senders
    → Memᴰ (send q c m) (broadcast_wire senders m (some p))
unfolding broadcast_wire
broadcast-Memᴰ p q c [] m ne at = elim at [ ]
broadcast-Memᴰ p q c ((r, d) ∷ senders) m ne (Memᴰ.head e) =
    let peer : q ≡ r = ap (λ x. x.0) e in
    let channel : c ≡ d = ap (λ x. x.1) e in
    let other : (p == r) ≡ false = ground (arith, ne, peer) in
    rw other (Memᴰ.head (rw (peer, channel) refl))
broadcast-Memᴰ p q c ((r, d) ∷ senders) m ne (Memᴰ.tail at) =
    let later = broadcast-Memᴰ p q c senders m ne at in
    elim (Bool-cases (p == r)) [ inl same ↦ rw same later | inr other ↦ rw other (Memᴰ.tail later) ]

Memᴰ-append : {A : Type 0} (a : A) (xs ys : List A) → Memᴰ a xs → Memᴰ a (xs ++ ys)
Memᴰ-append a [] ys m = elim m [ ]
Memᴰ-append a (x ∷ xs) ys (Memᴰ.head e) = Memᴰ.head e
Memᴰ-append a (x ∷ xs) ys (Memᴰ.tail m) = Memᴰ.tail (Memᴰ-append a xs ys m)

-- The newest hash is kept by a memory that has room for one.
contains-drop : (n h : ℕ) (l : List ℕ) → n ≤ length l → contains h (drop n (l ++ h ∷ [])) ≡ true
contains-drop zero h [] le = ground (arith, ==_refl h)
contains-drop zero h (x ∷ l) le = ground (arith, contains-drop zero h l)
contains-drop (suc n) h [] le = absurd (omega arith)
contains-drop (suc n) h (x ∷ l) le = contains-drop n h l (omega arith)

contains-latest : (cap h : ℕ) (l : List ℕ) → 0 < cap → contains h (latest cap (l ++ h ∷ [])) ≡ true
contains-latest cap h l pos =
    contains-drop (length (l ++ h ∷ []) - cap) h l (omega (arith, length-append l (h ∷ [])))

module _ (serde : Serde) (alloy : Alloy) (visit : Senders → Senders) where
  decoded_event-IsEvent :
      (p : ℕ) (m : Option ConsensusMessage) → All IsEvent (decoded_event serde alloy visit p m)
  decoded_event-IsEvent p none = tt
  decoded_event-IsEvent p (some m) = (tt, tt)

  decoded_event-NotTo :
      (q p : ℕ) (m : Option ConsensusMessage) → All (NotTo q) (decoded_event serde alloy visit p m)
  decoded_event-NotTo q p none = tt
  decoded_event-NotTo q p (some m) = (tt, tt)

  -- A payload that is not remembered goes to every connected peer but the one that it came from,
  -- and is remembered; whoever sends it next, it goes to no one.
  pub record RelaysOnce (n : P2pNode) (p : ℕ) (bytes : List ℕ) (o : Outcome) : Type 0 where
    pub node : P2pNode
    pub effects : List Effect
    pub returned : o ≡ some (node, effects)
    pub not_back : All (NotTo p) effects
    pub reaches :
        (q c : ℕ)
        → Maps.get q n.peer_senders ≡ some c
        → q ≢ p
        → Mem (send q c (consensus_msg bytes)) effects
    pub remembered : contains (serde.sha256 bytes) node.consensus_cache.seen ≡ true

  reaches_all :
      (n : P2pNode) (p : ℕ) (m : WireMessage) (later : List Effect) (q c : ℕ)
      → Perm (visit n.peer_senders) n.peer_senders
      → Maps.get q n.peer_senders ≡ some c
      → q ≢ p
      → Mem (send q c m) (broadcast_wire (visit n.peer_senders) m (some p) ++ later)
  reaches_all n p m later q c visits at ne =
      let visited : Mem (q, c) (visit n.peer_senders) =
        (Perm.mem_iff visits).1 ∣ get-Memᴰ q c n.peer_senders at ∣₁ in
      ∥∥₁_map visited (λ at'.
        Memᴰ-append (send q c m) _ later (broadcast-Memᴰ p q c (visit n.peer_senders) m ne at'))

  relayed-RelaysOnce :
      (n : P2pNode) (p : ℕ) (bytes : List ℕ) (cache : ConsensusRelayCache)
      → Perm (visit n.peer_senders) n.peer_senders
      → contains (serde.sha256 bytes) cache.seen ≡ true
      → RelaysOnce n p bytes (consensus_relayed serde alloy visit n p bytes (some (cache, true)))
  relayed-RelaysOnce n p bytes cache visits kept = record {
    node = record n { consensus_cache = cache };
    effects =
        broadcast_wire (visit n.peer_senders) (consensus_msg bytes) (some p)
        ++ decoded_event serde alloy visit p (serde.consensus_from_slice bytes);
    returned = refl;
    not_back =
        All-append (NotTo p) _ _ (broadcast-NotTo p (visit n.peer_senders) (consensus_msg bytes))
          (decoded_event-NotTo p p (serde.consensus_from_slice bytes));
    reaches = λ q c at ne. reaches_all n p (consensus_msg bytes) _ q c visits at ne;
    remembered = kept;
  }

  -- A well-formed node that receives a consensus payload which it does not remember writes it to
  -- every peer that has a channel, on that channel, except to its sender, and remembers it; the
  -- cache has room and the order of the senders is some permutation of them.
  pub fresh_payload-RelaysOnce :
      (now : ℕ) (n : P2pNode) (p : ℕ) (bytes : List ℕ)
      → IsNode n
      → 0 < n.consensus_cache.max_size
      → Perm (visit n.peer_senders) n.peer_senders
      → contains (serde.sha256 bytes) n.consensus_cache.seen ≡ false
      → RelaysOnce n p bytes
          (dispatch serde alloy visit now n (NodeInbound.message p (consensus_msg bytes)))
  unfolding dispatch on_message on_consensus
  fresh_payload-RelaysOnce now n p bytes v room visits new =
      let touched : P2pNode = record n { peer_manager = touch_peer n.peer_manager p now } in
      let c = n.consensus_cache in
      let h = serde.sha256 bytes in
      let e : should_relay c h ≡ some (remember c h, true) =
        rw (should_relay_lem c h v.cache, new) refl in
      let r =
        relayed-RelaysOnce touched p bytes (remember c h) visits
          (contains-latest c.max_size h c.seen room) in
      record {
        node = r.node;
        effects = r.effects;
        returned = ap (consensus_relayed serde alloy visit touched p bytes) e ∙ r.returned;
        not_back = r.not_back;
        reaches = r.reaches;
        remembered = r.remembered;
      }

  -- A payload that a well-formed node remembers is written to no one, whoever sends it: at most an
  -- event reports it again.
  pub remembered_payload_stops :
      (now : ℕ) (n : P2pNode) (p : ℕ) (bytes : List ℕ)
      → IsNode n
      → contains (serde.sha256 bytes) n.consensus_cache.seen ≡ true
      → (n' : P2pNode) × (effects : List Effect) × (dispatch serde alloy visit now n
            (NodeInbound.message p (consensus_msg bytes))
          ≡ some (n', effects))
        × All IsEvent effects
        × (n'.consensus_cache ≡ n.consensus_cache)
  unfolding dispatch on_message on_consensus
  remembered_payload_stops now n p bytes v old =
      let touched : P2pNode = record n { peer_manager = touch_peer n.peer_manager p now } in
      let c = n.consensus_cache in
      let h = serde.sha256 bytes in
      let e : should_relay c h ≡ some (c, false) = rw (should_relay_lem c h v.cache, old) refl in
      (
        touched,
        decoded_event serde alloy visit p (serde.consensus_from_slice bytes),
        ap (consensus_relayed serde alloy visit touched p bytes) e,
        decoded_event-IsEvent p (serde.consensus_from_slice bytes),
        refl,
      )
