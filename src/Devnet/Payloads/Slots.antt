-- ===== src/Devnet/Payloads/Slots.antt =====
-- eth2077-devnetd.rs: the roots that are listed at the slots, and their agreement with the headers.
use eth.Prelude.{
  ℕ, ◌≡◌, refl, sym, ap, ◌∙◌, subst, true, false, ◌||◌, ◌==◌, ==_iff, ==_refl, some, List, [], ◌∷◌,
  ◌++◌, if◌then◌else◌, arith, Bool-cases, inl, inr,
}
use eth.Prelude.Maps
use eth.Prelude.Maps.{nat_eq, get-insert}
use eth.P2p.Gossip.{contains}
use eth.P2p.Gossip.Memory.{IsDistinct, IsDistinct-push}
use eth.Devnet.Payloads.{
  Engine7732HeaderRecord, Engine7732EnvelopeRecord, NodeState, roots_at, slot_roots_with,
  with_slot_root,
}

abbrev pub HasHeader : NodeState → (slot root : ℕ) → Type 0
HasHeader s slot root =
    (h : Engine7732HeaderRecord) × (Maps.get root s.engine_7732_headers_by_root ≡ some h)
    × (h.slot ≡ slot)

-- A root is listed at a slot, once, exactly when the header that is stored under it has that slot;
-- records are stored under their own roots.
pub record IsRegistry (s : NodeState) : Type 0 where
  pub listed :
      (root : ℕ) (h : Engine7732HeaderRecord)
      → Maps.get root s.engine_7732_headers_by_root ≡ some h
      → contains root (roots_at s h.slot) ≡ true
  pub stored : (slot root : ℕ) → contains root (roots_at s slot) ≡ true → HasHeader s slot root
  pub distinct : (slot : ℕ) → IsDistinct (roots_at s slot)
  pub header_root :
      (root : ℕ) (h : Engine7732HeaderRecord)
      → Maps.get root s.engine_7732_headers_by_root ≡ some h
      → h.payload_header_root ≡ root
  pub envelope_root :
      (root : ℕ) (e : Engine7732EnvelopeRecord)
      → Maps.get root s.engine_7732_envelopes_by_root ≡ some e
      → e.payload_header_root ≡ root

contains-append : (x y : ℕ) (xs : List ℕ) → contains x (xs ++ y ∷ []) ≡ (contains x xs || y == x)
contains-append x y [] = ground arith
contains-append x y (z ∷ xs) = ground (arith, contains-append x y xs)

contains-slot_roots_with :
    (x root : ℕ) (roots : List ℕ)
    → contains x (slot_roots_with root roots) ≡ (contains x roots || root == x)
unfolding slot_roots_with
contains-slot_roots_with x root roots = elim (Bool-cases (contains root roots)) [
  | inl there ↦ elim (Bool-cases (root == x)) [
    | inl same ↦
        let e : root ≡ x = (==_iff root x).0 same in
        rw (there, same) (ap (λ y. contains y roots) (sym e) ∙ rw there (ground arith))
    | inr other ↦ rw (there, other) (ground arith)
  ]
  | inr new ↦ rw new (contains-append x root roots)
]

slot_roots_with-IsDistinct :
    (root : ℕ) (roots : List ℕ) → IsDistinct roots → IsDistinct (slot_roots_with root roots)
unfolding slot_roots_with
slot_roots_with-IsDistinct root roots d = elim (Bool-cases (contains root roots)) [
  | inl there ↦ rw there d
  | inr new ↦ rw new (IsDistinct-push root roots d new)
]

roots_at-with_slot_root :
    (s : NodeState) (slot root slot' : ℕ)
    → roots_at (with_slot_root s slot root).0 slot'
      ≡ (if slot == slot' then slot_roots_with root (roots_at s slot) else roots_at s slot')
roots_at-with_slot_root s slot root slot' =
    let roots = slot_roots_with root (roots_at s slot) in
    elim (Bool-cases (slot == slot')) [
      | inl same ↦ rw (get-insert slot slot' roots s.engine_7732_headers_by_slot, same) refl
      | inr other ↦ rw (get-insert slot slot' roots s.engine_7732_headers_by_slot, other) refl
    ]

abbrev pub store_header : NodeState → ℕ → Engine7732HeaderRecord → NodeState
store_header s root header = record s {
  engine_7732_headers_by_root = Maps.insert root header s.engine_7732_headers_by_root;
}

unlisted_root :
    (s : NodeState) (h g : Engine7732HeaderRecord) (root r : ℕ)
    → Maps.get root s.engine_7732_headers_by_root ≡ some h
    → Maps.get r s.engine_7732_headers_by_root ≡ some g
    → (h.slot == g.slot) ≡ false
    → (contains r (roots_at s g.slot) || root == r) ≡ true
    → contains r (roots_at s g.slot) ≡ true
unlisted_root s h g root r at e other almost = elim (Bool-cases (root == r)) [
  | inl this ↦
      let x : some h ≡ some g =
        sym at ∙ ap (λ y. Maps.get y s.engine_7732_headers_by_root) ((==_iff root r).0 this) ∙ e in
      absurd (ground (arith, other, x, ==_refl g.slot))
  | inr another ↦ ground (arith, almost, another)
]

-- Listing a stored root restores the agreement, where it was missing for that root alone.
pub list_root-IsRegistry :
    (s : NodeState) (h : Engine7732HeaderRecord) (root : ℕ)
    → Maps.get root s.engine_7732_headers_by_root ≡ some h
    → ((r : ℕ) (g : Engine7732HeaderRecord)
        → Maps.get r s.engine_7732_headers_by_root ≡ some g
        → (contains r (roots_at s g.slot) || root == r) ≡ true)
    → ((slot r : ℕ) → contains r (roots_at s slot) ≡ true → HasHeader s slot r)
    → ((slot : ℕ) → IsDistinct (roots_at s slot))
    → ((r : ℕ) (g : Engine7732HeaderRecord)
        → Maps.get r s.engine_7732_headers_by_root ≡ some g
        → g.payload_header_root ≡ r)
    → ((r : ℕ) (e : Engine7732EnvelopeRecord)
        → Maps.get r s.engine_7732_envelopes_by_root ≡ some e
        → e.payload_header_root ≡ r)
    → IsRegistry (with_slot_root s h.slot root).0
list_root-IsRegistry s h root at almost stored distinct own own_envelope =
    let roots : ℕ → List ℕ = λ slot. roots_at (with_slot_root s h.slot root).0 slot in
    let at_slot : (slot : ℕ)
        → roots slot
          ≡ (if h.slot == slot then slot_roots_with root (roots_at s h.slot) else roots_at s slot) =
      λ slot. roots_at-with_slot_root s h.slot root slot in
    record {
      listed = λ r g e. elim (Bool-cases (h.slot == g.slot)) [
        | inl same ↦
            let slots : h.slot ≡ g.slot = (==_iff h.slot g.slot).0 same in
            ap (contains r) (at_slot g.slot)
            ∙ rw (same, contains-slot_roots_with r root (roots_at s h.slot), slots) (almost r g e)
        | inr other ↦
            ap (contains r) (at_slot g.slot)
            ∙ rw other (unlisted_root s h g root r at e other (almost r g e))
      ];
      stored = λ slot r c. elim (Bool-cases (h.slot == slot)) [
        | inl same ↦
            let slots : h.slot ≡ slot = (==_iff h.slot slot).0 same in
            let c' : (contains r (roots_at s h.slot) || root == r) ≡ true =
              sym (
                ap (contains r) (at_slot slot)
                ∙ rw (same, contains-slot_roots_with r root (roots_at s h.slot)) refl)
              ∙ c in
            elim (Bool-cases (root == r)) [
              | inl this ↦ (
                h,
                ap (λ x. Maps.get x s.engine_7732_headers_by_root) (sym ((==_iff root r).0 this))
                    ∙ at,
                slots,
              )
              | inr another ↦
                  subst (λ x. HasHeader s x r) slots (stored h.slot r (ground (arith, c', another)))
            ]
        | inr other ↦ stored slot r (sym (ap (contains r) (at_slot slot) ∙ rw other refl) ∙ c)
      ];
      distinct = λ slot. elim (Bool-cases (h.slot == slot)) [
        | inl same ↦
            subst IsDistinct (sym (at_slot slot ∙ rw same refl))
              (slot_roots_with-IsDistinct root (roots_at s h.slot) (distinct h.slot))
        | inr other ↦ subst IsDistinct (sym (at_slot slot ∙ rw other refl)) (distinct slot)
      ];
      header_root = own;
      envelope_root = own_envelope;
    }
