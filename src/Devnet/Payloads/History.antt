-- ===== src/Devnet/Payloads/History.antt =====
-- eth2077-devnetd.rs: what is stored under a root stays, and what the order of registrations decides.
use eth.Prelude.{
  ℕ, ◌≡◌, ◌≢◌, refl, ap, ◌∙◌, false, ◌==◌, ==_iff, ==_refl, none, some, List, arith, Bool-cases,
  Option-cases, inl, inr,
}
use eth.Prelude.Maps
use eth.Prelude.Maps.{nat_eq, get-insert}
use eth.Devnet.Payloads.{
  Engine7732HeaderRecord, Engine7732EnvelopeRecord, NodeState, Parsed, unreadable, read, Linkage,
  linked, orphan, new, accepted_header, accepted_envelope, slot_mismatch,
  engine_7732_header_conflicts, engine_7732_envelope_conflicts, replayed_header, new_header,
  register_envelope, engine_7732_register_payload_header_response,
  engine_7732_register_payload_envelope_response,
}

-- Every header and every envelope of one state is in the other.
pub record Keeps (s s' : NodeState) : Type 0 where
  pub headers :
      (r : ℕ) (h : Engine7732HeaderRecord)
      → Maps.get r s.engine_7732_headers_by_root ≡ some h
      → Maps.get r s'.engine_7732_headers_by_root ≡ some h
  pub envelopes :
      (r : ℕ) (e : Engine7732EnvelopeRecord)
      → Maps.get r s.engine_7732_envelopes_by_root ≡ some e
      → Maps.get r s'.engine_7732_envelopes_by_root ≡ some e

pub Keeps-refl : (s : NodeState) → Keeps s s
Keeps-refl s = record { headers = λ r h e. e; envelopes = λ r x e. e }

pub Keeps-trans : (s t u : NodeState) → Keeps s t → Keeps t u → Keeps s u
Keeps-trans s t u a b = record {
  headers = λ r h e. b.headers r h (a.headers r h e);
  envelopes = λ r x e. b.envelopes r x (a.envelopes r x e);
}

kept-insert :
    {V : Type 0} (root r : ℕ) (added old : V) (m : List (ℕ × V))
    → Maps.get root m ≡ none
    → Maps.get r m ≡ some old
    → Maps.get r (Maps.insert root added m) ≡ some old
kept-insert root r added old m free e =
    ground (arith, get-insert root r added m, free, e, ==_iff root r)

replayed_header-Keeps :
    (s : NodeState) (existing header : Engine7732HeaderRecord) (root : ℕ)
    → Keeps s (replayed_header s root existing header).0
unfolding replayed_header
replayed_header-Keeps s existing header root =
    elim (Bool-cases (engine_7732_header_conflicts existing header)) [
      | inl conflict ↦ rw conflict (Keeps-refl s)
      | inr agrees ↦ rw agrees (record { headers = λ r h e. e; envelopes = λ r x e. e })
    ]

pub register_header-Keeps :
    (s : NodeState) (p : Parsed Engine7732HeaderRecord)
    → Keeps s (engine_7732_register_payload_header_response s p).0
unfolding engine_7732_register_payload_header_response new_header
register_header-Keeps s unreadable = Keeps-refl s
register_header-Keeps s (read header) =
    let root = header.payload_header_root in
    elim (Option-cases (Maps.get root s.engine_7732_headers_by_root)) [
      | inl free ↦
          rw (engine_7732_register_payload_header_response, free)
            (record {
              headers = λ r h e. kept-insert root r header h s.engine_7732_headers_by_root free e;
              envelopes = λ r x e. e;
            })
      | inr (existing, at) ↦
          rw (engine_7732_register_payload_header_response, at)
            (replayed_header-Keeps s existing header root)
    ]

register_envelope-Keeps :
    (s : NodeState) (linkage : Linkage) (envelope : Engine7732EnvelopeRecord)
    → Keeps s (register_envelope s envelope.payload_header_root linkage envelope).0
unfolding register_envelope
register_envelope-Keeps s linkage envelope =
    let root = envelope.payload_header_root in
    let m = s.engine_7732_envelopes_by_root in
    elim (Option-cases (Maps.get root m)) [
      | inl free ↦
          rw (register_envelope, free)
            (record {
              headers = λ r h e. e;
              envelopes = λ r x e. kept-insert root r envelope x m free e;
            })
      | inr (existing, at) ↦ elim (Bool-cases (engine_7732_envelope_conflicts existing envelope)) [
        | inl conflict ↦ rw (register_envelope, at, conflict) (Keeps-refl s)
        | inr agrees ↦ rw (register_envelope, at, agrees) (Keeps-refl s)
      ]
    ]

pub register_payload_envelope-Keeps :
    (s : NodeState) (p : Parsed Engine7732EnvelopeRecord)
    → Keeps s (engine_7732_register_payload_envelope_response s p).0
unfolding engine_7732_register_payload_envelope_response
register_payload_envelope-Keeps s unreadable = Keeps-refl s
register_payload_envelope-Keeps s (read envelope) =
    elim (Option-cases (Maps.get envelope.payload_header_root s.engine_7732_headers_by_root)) [
      | inl free ↦
          rw (engine_7732_register_payload_envelope_response, free)
            (register_envelope-Keeps s orphan envelope)
      | inr (header, at) ↦ elim (Bool-cases (header.slot == envelope.slot)) [
        | inl same ↦
            rw (engine_7732_register_payload_envelope_response, at, same)
              (register_envelope-Keeps s linked envelope)
        | inr other ↦ rw (engine_7732_register_payload_envelope_response, at, other) (Keeps-refl s)
      ]
    ]

abbrev after_header : NodeState → Engine7732HeaderRecord → NodeState
after_header s h = (engine_7732_register_payload_header_response s (read h)).0

abbrev after_envelope : NodeState → Engine7732EnvelopeRecord → NodeState
after_envelope s e = (engine_7732_register_payload_envelope_response s (read e)).0

-- How a header and an envelope of one root but different slots are answered, in either order.
pub record OrderMatters (s : NodeState) (h : Engine7732HeaderRecord) (e : Engine7732EnvelopeRecord)
    : Type 0 where
  pub header_first :
      engine_7732_register_payload_envelope_response (after_header s h) (read e)
      ≡ (after_header s h, slot_mismatch e.payload_header_root h.slot e.slot)
  pub envelope_first :
      (engine_7732_register_payload_envelope_response s (read e)).1
      ≡ accepted_envelope new e.slot e.payload_header_root orphan e
  pub then_header :
      (known : ℕ) × ((engine_7732_register_payload_header_response (after_envelope s e) (read h)).1
        ≡ accepted_header new h.slot h.payload_header_root known h)
  pub header_stored :
      Maps.get h.payload_header_root
        (after_header (after_envelope s e) h).engine_7732_headers_by_root
      ≡ some h
  pub envelope_stored :
      Maps.get e.payload_header_root
        (after_header (after_envelope s e) h).engine_7732_envelopes_by_root
      ≡ some e

after_header_new :
    (s : NodeState) (h : Engine7732HeaderRecord)
    → Maps.get h.payload_header_root s.engine_7732_headers_by_root ≡ none
    → engine_7732_register_payload_header_response s (read h) ≡ new_header s h.payload_header_root h
unfolding engine_7732_register_payload_header_response
after_header_new s h free = rw (engine_7732_register_payload_header_response, free) refl

after_envelope_new :
    (s : NodeState) (e : Engine7732EnvelopeRecord)
    → Maps.get e.payload_header_root s.engine_7732_headers_by_root ≡ none
    → Maps.get e.payload_header_root s.engine_7732_envelopes_by_root ≡ none
    → engine_7732_register_payload_envelope_response s (read e) ≡ (
      record s {
        engine_7732_envelopes_by_root =
            Maps.insert e.payload_header_root e s.engine_7732_envelopes_by_root;
      },
      accepted_envelope new e.slot e.payload_header_root orphan e,
    )
unfolding engine_7732_register_payload_envelope_response register_envelope
after_envelope_new s e no_header free =
    rw (engine_7732_register_payload_envelope_response, no_header, register_envelope, free) refl

mismatched :
    (s : NodeState) (e : Engine7732EnvelopeRecord) (h : Engine7732HeaderRecord)
    → Maps.get e.payload_header_root s.engine_7732_headers_by_root ≡ some h
    → h.slot ≢ e.slot
    → engine_7732_register_payload_envelope_response s (read e)
      ≡ (s, slot_mismatch e.payload_header_root h.slot e.slot)
unfolding engine_7732_register_payload_envelope_response
mismatched s e h at other =
    let slots : (h.slot == e.slot) ≡ false = ground (arith, other) in
    rw (engine_7732_register_payload_envelope_response, at, slots) refl

get_inserted :
    {V : Type 0} (root : ℕ) (v : V) (m : List (ℕ × V))
    → Maps.get root (Maps.insert root v m) ≡ some v
get_inserted root v m = ground (arith, get-insert root root v m, ==_refl root)

-- A header and an envelope of one fresh root that name different slots: after the header the
-- envelope is refused, but after the envelope the header is accepted and both are stored.
pub slot_check_misses_orphans :
    (s : NodeState) (h : Engine7732HeaderRecord) (e : Engine7732EnvelopeRecord)
    → Maps.get h.payload_header_root s.engine_7732_headers_by_root ≡ none
    → Maps.get h.payload_header_root s.engine_7732_envelopes_by_root ≡ none
    → e.payload_header_root ≡ h.payload_header_root
    → h.slot ≢ e.slot
    → OrderMatters s h e
unfolding new_header
slot_check_misses_orphans s h e no_header no_envelope same other =
    let hs = s.engine_7732_headers_by_root in
    let es = s.engine_7732_envelopes_by_root in
    let root = e.payload_header_root in
    let first =
      after_envelope_new s e (ap (λ x. Maps.get x hs) same ∙ no_header)
        (ap (λ x. Maps.get x es) same ∙ no_envelope) in
    let later = after_header_new (after_envelope s e) h (
      ap (λ x. Maps.get h.payload_header_root x.0.engine_7732_headers_by_root) first ∙ no_header) in
    record {
      header_first =
          mismatched (after_header s h) e h
            (ap (λ x. Maps.get root x.0.engine_7732_headers_by_root)
                (after_header_new s h no_header)
              ∙ ap (λ x. Maps.get x (Maps.insert h.payload_header_root h hs)) same
              ∙ get_inserted h.payload_header_root h hs)
            other;
      envelope_first = ap (λ x. x.1) first;
      then_header = (_, ap (λ x. x.1) later);
      header_stored =
          ap (λ x. Maps.get h.payload_header_root x.0.engine_7732_headers_by_root) later
          ∙ get_inserted h.payload_header_root h (after_envelope s e).engine_7732_headers_by_root;
      envelope_stored =
          ap (λ x. Maps.get root x.0.engine_7732_envelopes_by_root) later
          ∙ ap (λ x. Maps.get root x.0.engine_7732_envelopes_by_root) first
          ∙ get_inserted root e es;
    }
