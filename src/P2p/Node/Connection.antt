-- ===== src/P2p/Node/Connection.antt =====
-- The task of one connection in node.rs: the handshake, and what it hands to the dispatch loop.
use mathlib.Core.List.{Memᴰ}
use eth.Prelude.{
  ℕ, ◌≡◌, refl, not, ◌==◌, Option, none, some, List, [], ◌∷◌, ◌++◌, if◌then◌else◌, All, map, ap,
  sym, ==_iff, Bool-cases, inl, inr, ◌⊎◌,
}
use eth.P2p.Codec.{
  WireMessage, hello, new_block, new_transaction, consensus_msg, get_blocks, blocks, ping, pong,
}
use eth.P2p.Node.{NodeInbound}

-- What is known of a connection before its messages: the local chain, the address of the peer,
-- and the channel on which it is written to.
pub record Link : Type 0 where
  pub chain_id : ℕ
  pub addr : ℕ
  pub sender : ℕ

-- `Hello` on the right chain names the peer once; none breaks out of the loop.
unfoldable pub on_hello :
    Link
    → Option ℕ
    → (peer_id chain_id best_height best_hash : ℕ) → Option (Option ℕ × List NodeInbound)
on_hello link remote peer_id chain_id best_height best_hash =
    if not (chain_id == link.chain_id) then none else elim remote [
      | none ↦ some (
        some peer_id,
        NodeInbound.peer_connected peer_id link.addr best_height best_hash link.sender ∷ [],
      )
      | some peer ↦ some (some peer, [])
    ]

abbrev forwarded : Option ℕ → WireMessage → List NodeInbound
forwarded none m = []
forwarded (some peer) m = NodeInbound.message peer m ∷ []

unfoldable pub on_inbound : Link → Option ℕ → WireMessage → Option (Option ℕ × List NodeInbound)
unfolding on_hello
on_inbound link remote (hello peer_id chain_id best_height best_hash) =
    on_hello link remote peer_id chain_id best_height best_hash
on_inbound link remote m = some (remote, forwarded remote m)

-- After the loop the peer, if it was named, is reported gone.
abbrev pub hang_up : Option ℕ → List NodeInbound
hang_up none = []
hang_up (some peer) = NodeInbound.peer_disconnected peer ∷ []

-- The loop over the received messages; the end of the list is the end of the connection, a decoding
-- error, or a failed write.
unfoldable pub connection_from : Link → Option ℕ → List WireMessage → List NodeInbound
unfolding on_inbound
connection_from link remote [] = hang_up remote
connection_from link remote (m ∷ ms) = elim (on_inbound link remote m) [
  | none ↦ hang_up remote
  | some (remote', inbound) ↦ inbound ++ connection_from link remote' ms
]

unfoldable pub connection : Link → List WireMessage → List NodeInbound
unfolding connection_from
connection link ms = connection_from link none ms

-- Every message but `Hello`.
abbrev pub IsPayload : WireMessage → Type 0
IsPayload (hello _ _ _ _) = ⊥
IsPayload _ = Unit {0}

-- Once the peer is named, a message ends the connection, says nothing, or is handed over.
named_cases :
    (link : Link) (p : ℕ) (m : WireMessage)
    → (on_inbound link (some p) m ≡ none)
      ⊎ ((on_inbound link (some p) m ≡ some (some p, []))
          ⊎ (IsPayload m
              × (on_inbound link (some p) m ≡ some (some p, NodeInbound.message p m ∷ []))))
unfolding on_inbound on_hello
named_cases link p (hello i c h b) = elim (Bool-cases (c == link.chain_id)) [
  | inl same ↦ inr (inl (rw same refl))
  | inr other ↦ inl (rw other refl)
]
named_cases link p (new_block h b) = inr (inr (tt, refl))
named_cases link p (new_transaction t) = inr (inr (tt, refl))
named_cases link p (consensus_msg d) = inr (inr (tt, refl))
named_cases link p (get_blocks f c) = inr (inr (tt, refl))
named_cases link p (blocks b) = inr (inr (tt, refl))
named_cases link p (ping n) = inr (inr (tt, refl))
named_cases link p (pong n) = inr (inr (tt, refl))

-- The messages of a named peer, and its departure.
abbrev pub Served : ℕ → List NodeInbound → Type 0
Served p inbound =
    (ms : List WireMessage) × (inbound
      ≡ map (NodeInbound.message p) ms ++ NodeInbound.peer_disconnected p ∷ [])
    × All IsPayload ms

connection_from-Served :
    (link : Link) (p : ℕ) (ms : List WireMessage) → Served p (connection_from link (some p) ms)
unfolding connection_from
connection_from-Served link p [] = ([], refl, tt)
connection_from-Served link p (m ∷ ms) =
    let (later, e, ok) = connection_from-Served link p ms in
    elim (named_cases link p m) [
      | inl closed ↦ ([], rw (connection_from, closed) refl, tt)
      | inr (inl quiet) ↦ (later, rw (connection_from, quiet) e, ok)
      | inr (inr (payload, handed)) ↦ (
        m ∷ later,
        rw (connection_from, handed) (ap (λ l. NodeInbound.message p m ∷ l) e),
        (payload, ok),
      )
    ]

unnamed_cases :
    (link : Link) (m : WireMessage)
    → (on_inbound link none m ≡ none)
      ⊎ ((on_inbound link none m ≡ some (none, []))
          ⊎ ((p h b : ℕ) × (m ≡ hello p link.chain_id h b)
              × (on_inbound link none m
                  ≡ some (some p, NodeInbound.peer_connected p link.addr h b link.sender ∷ []))))
unfolding on_inbound on_hello
unnamed_cases link (hello i c h b) = elim (Bool-cases (c == link.chain_id)) [
  | inl same ↦
      inr (inr (i, h, b, ap (λ x. hello i x h b) ((==_iff c link.chain_id).0 same), rw same refl))
  | inr other ↦ inl (rw other refl)
]
unnamed_cases link (new_block h b) = inr (inl refl)
unnamed_cases link (new_transaction t) = inr (inl refl)
unnamed_cases link (consensus_msg d) = inr (inl refl)
unnamed_cases link (get_blocks f c) = inr (inl refl)
unnamed_cases link (blocks b) = inr (inl refl)
unnamed_cases link (ping n) = inr (inl refl)
unnamed_cases link (pong n) = inr (inl refl)

-- A session: the peer that a `Hello` on the local chain names, what it says, and its departure.
abbrev pub IsSession : Link → List WireMessage → List NodeInbound → Type 0
IsSession link ms inbound =
    (p h b : ℕ) × (later : List NodeInbound) × Memᴰ (hello p link.chain_id h b) ms
    × (inbound ≡ NodeInbound.peer_connected p link.addr h b link.sender ∷ later)
    × Served p later

-- Whatever arrives on a connection, the dispatch loop is told nothing, or it is told one session:
-- a peer that said `Hello` on the right chain joins, only its own messages follow, none of them a
-- `Hello`, and it leaves at the end.
pub connection-IsSession :
    (link : Link) (ms : List WireMessage)
    → (connection link ms ≡ []) ⊎ IsSession link ms (connection link ms)
unfolding connection connection_from
connection-IsSession link [] = inl refl
connection-IsSession link (m ∷ ms) = elim (unnamed_cases link m) [
  | inl closed ↦ inl (rw (connection_from, closed) refl)
  | inr (inl quiet) ↦ elim (connection-IsSession link ms) [
    | inl silent ↦ inl (rw (connection_from, quiet) silent)
    | inr (p, h, b, later, said, e, served) ↦
        inr (p, h, b, later, Memᴰ.tail said, rw (connection_from, quiet) e, served)
  ]
  | inr (inr (p, h, b, said, joined)) ↦ inr (
    p,
    h,
    b,
    connection_from link (some p) ms,
    Memᴰ.head (sym said),
    rw (connection_from, joined) refl,
    connection_from-Served link p ms,
  )
]
