-- ===== src/Devnet/Payloads/Registry.antt =====
-- eth2077-devnetd.rs: the tables of payload headers and envelopes agree with each other.
use eth.Prelude.{
  ℕ, ◌≡◌, sym, ap, ◌∙◌, ◌⊎◌, Bool, true, ◌||◌, ◌==◌, ==_iff, ==_refl, none, some, List, arith,
  Bool-cases, Option-cases, inl, inr,
}
use eth.Prelude.Maps
use eth.Prelude.Maps.{nat_eq, get-insert}
use eth.P2p.Gossip.{contains}
use eth.Devnet.Payloads.{
  Engine7732HeaderRecord, Engine7732EnvelopeRecord, NodeState, initial_state, Parsed, unreadable,
  read, Linkage, linked, orphan, engine_7732_header_conflicts, engine_7732_envelope_conflicts,
  roots_at, replayed_header, new_header, register_envelope,
  engine_7732_register_payload_header_response, engine_7732_register_payload_envelope_response,
}
use eth.Devnet.Payloads.Slots.{HasHeader, IsRegistry, store_header, list_root-IsRegistry}

or_left : (a b : Bool) → a ≡ true → (a || b) ≡ true
or_left a b e = ground (arith, e)

replayed_header-IsRegistry :
    (s : NodeState) (existing header : Engine7732HeaderRecord) (root : ℕ)
    → IsRegistry s
    → Maps.get root s.engine_7732_headers_by_root ≡ some existing
    → IsRegistry (replayed_header s root existing header).0
unfolding replayed_header
replayed_header-IsRegistry s existing header root v at =
    elim (Bool-cases (engine_7732_header_conflicts existing header)) [
      | inl conflict ↦ rw conflict v
      | inr agrees ↦ rw agrees (
          list_root-IsRegistry s existing root at
            (λ r g e. or_left (contains r (roots_at s g.slot)) (root == r) (v.listed r g e))
            v.stored v.distinct v.header_root v.envelope_root)
    ]

stored_later :
    (s : NodeState) (header : Engine7732HeaderRecord) (root slot r : ℕ)
    → Maps.get root s.engine_7732_headers_by_root ≡ none
    → HasHeader s slot r
    → HasHeader (store_header s root header) slot r
stored_later s header root slot r free (h, at, e) = (
  h,
  ground (arith, get-insert root r header s.engine_7732_headers_by_root, free, at, ==_iff root r),
  e,
)

-- A table with one more entry holds the entry and what it held.
entry_or_old :
    {V : Type 0} (root r : ℕ) (new old : V) (m : List (ℕ × V))
    → Maps.get r (Maps.insert root new m) ≡ some old
    → ((root ≡ r) × (new ≡ old)) ⊎ (Maps.get r m ≡ some old)
entry_or_old root r new old m e = elim (Bool-cases (root == r)) [
  | inl this ↦
      let x : some new ≡ some old = ground (arith, get-insert root r new m, this, e) in
      inl ((==_iff root r).0 this, cc x)
  | inr another ↦ inr (ground (arith, get-insert root r new m, another, e))
]

new_header-IsRegistry :
    (s : NodeState) (header : Engine7732HeaderRecord)
    → IsRegistry s
    → Maps.get header.payload_header_root s.engine_7732_headers_by_root ≡ none
    → IsRegistry (new_header s header.payload_header_root header).0
unfolding new_header
new_header-IsRegistry s header v free =
    let root = header.payload_header_root in
    let s' = store_header s root header in
    let m = s.engine_7732_headers_by_root in
    list_root-IsRegistry s' header root
      (ground (arith, get-insert root root header m, ==_refl root))
      (λ r g e. elim (entry_or_old root r header g m e) [
        | inl (this, same) ↦ rw this (ground (arith, ==_refl r))
        | inr old ↦ or_left (contains r (roots_at s g.slot)) (root == r) (v.listed r g old)
      ])
      (λ slot r c. stored_later s header root slot r free (v.stored slot r c)) v.distinct
      (λ r g e. elim (entry_or_old root r header g m e) [
        | inl (this, same) ↦ sym (ap (λ h. h.payload_header_root) same) ∙ this
        | inr old ↦ v.header_root r g old
      ])
      v.envelope_root

pub register_header-IsRegistry :
    (s : NodeState) (p : Parsed Engine7732HeaderRecord)
    → IsRegistry s
    → IsRegistry (engine_7732_register_payload_header_response s p).0
unfolding engine_7732_register_payload_header_response
register_header-IsRegistry s unreadable v = v
register_header-IsRegistry s (read header) v =
    elim (Option-cases (Maps.get header.payload_header_root s.engine_7732_headers_by_root)) [
      | inl free ↦
          rw (engine_7732_register_payload_header_response, free)
            (new_header-IsRegistry s header v free)
      | inr (existing, at) ↦
          rw (engine_7732_register_payload_header_response, at)
            (replayed_header-IsRegistry s existing header header.payload_header_root v at)
    ]

register_envelope-IsRegistry :
    (s : NodeState) (linkage : Linkage) (envelope : Engine7732EnvelopeRecord)
    → IsRegistry s
    → IsRegistry (register_envelope s envelope.payload_header_root linkage envelope).0
unfolding register_envelope
register_envelope-IsRegistry s linkage envelope v =
    let root = envelope.payload_header_root in
    let m = s.engine_7732_envelopes_by_root in
    elim (Option-cases (Maps.get root m)) [
      | inl free ↦
          rw (register_envelope, free)
            (record {
              listed = v.listed;
              stored = v.stored;
              distinct = v.distinct;
              header_root = v.header_root;
              envelope_root = λ r g e. elim (entry_or_old root r envelope g m e) [
                | inl (this, same) ↦ sym (ap (λ x. x.payload_header_root) same) ∙ this
                | inr old ↦ v.envelope_root r g old
              ];
            })
      | inr (existing, at) ↦ elim (Bool-cases (engine_7732_envelope_conflicts existing envelope)) [
        | inl conflict ↦ rw (register_envelope, at, conflict) v
        | inr agrees ↦ rw (register_envelope, at, agrees) v
      ]
    ]

pub register_payload_envelope-IsRegistry :
    (s : NodeState) (p : Parsed Engine7732EnvelopeRecord)
    → IsRegistry s
    → IsRegistry (engine_7732_register_payload_envelope_response s p).0
unfolding engine_7732_register_payload_envelope_response
register_payload_envelope-IsRegistry s unreadable v = v
register_payload_envelope-IsRegistry s (read envelope) v =
    elim (Option-cases (Maps.get envelope.payload_header_root s.engine_7732_headers_by_root)) [
      | inl free ↦
          rw (engine_7732_register_payload_envelope_response, free)
            (register_envelope-IsRegistry s orphan envelope v)
      | inr (header, at) ↦ elim (Bool-cases (header.slot == envelope.slot)) [
        | inl same ↦
            rw (engine_7732_register_payload_envelope_response, at, same)
              (register_envelope-IsRegistry s linked envelope v)
        | inr other ↦ rw (engine_7732_register_payload_envelope_response, at, other) v
      ]
    ]

pub initial_state-IsRegistry : (started : ℕ) → IsRegistry (initial_state started)
unfolding initial_state Maps.get
initial_state-IsRegistry started = record {
  listed = λ root h e. cc e;
  stored = λ slot root c. cc c;
  distinct = λ slot. tt;
  header_root = λ root h e. cc e;
  envelope_root = λ root h e. cc e;
}
