-- ===== src/Devnet/Timeliness/Reports.antt =====
-- eth2077-devnetd.rs: what the reported status and counts of a slot say of its headers and envelopes.
use eth.Prelude.{
  ℕ, ◌+◌, ◌<◌, ◌≡◌, ◌≢◌, ◌⊎◌, ◌↔◌, refl, sym, ap, ◌∙◌, Bool, true, false, not, ◌&&◌, ◌==◌, ltb,
  ==_iff, ==_refl, none, some, List, [], ◌∷◌, length, filter, if◌then◌else◌, arith, Bool-cases,
  Option-cases, inl, inr,
}
use eth.Prelude.Maps
use eth.Prelude.Maps.{nat_eq}
use eth.P2p.Gossip.{contains}
use eth.Devnet.Payloads.{Engine7732EnvelopeRecord, NodeState, roots_at}
use eth.Devnet.Timeliness.{
  Reveals, reveals, known, is_late, is_empty, aggregate_status, orphan_roots, SlotStatus,
  engine_7732_is_timeliness_violation, engine_7732_slot_deadline_unix_s,
  engine_7732_slot_status_response,
}

abbrev Envelopes : Type 0
Envelopes = List (ℕ × Engine7732EnvelopeRecord)

-- The three counts of a slot agree with the three lists.
pub record CountsAgree (t : SlotStatus) : Type 0 where
  pub all_sorted :
      t.header_count ≡ length t.reveals.on_time + length t.reveals.late + length t.reveals.pending
  pub revealed_ones : t.revealed_count ≡ length t.reveals.on_time + length t.reveals.late
  pub late_ones : t.late_reveal_count ≡ length t.reveals.late

count_all :
    (es : Envelopes) (d : ℕ) (roots : List ℕ)
    → length roots
      ≡ length (reveals es d roots).on_time
        + length (reveals es d roots).late
        + length (reveals es d roots).pending
unfolding reveals
count_all es d [] = refl
count_all es d (root ∷ roots) =
    ground (arith, count_all es d roots, Option-cases (Maps.get root es))

count_revealed :
    (es : Envelopes) (d : ℕ) (roots : List ℕ)
    → length (filter (λ root. known (Maps.get root es)) roots)
      ≡ length (reveals es d roots).on_time + length (reveals es d roots).late
unfolding reveals
count_revealed es d [] = refl
count_revealed es d (root ∷ roots) =
    ground (arith, count_revealed es d roots, Option-cases (Maps.get root es))

count_late :
    (es : Envelopes) (d : ℕ) (roots : List ℕ)
    → length (filter (λ root. is_late d (Maps.get root es)) roots)
      ≡ length (reveals es d roots).late
unfolding reveals
count_late es d [] = refl
count_late es d (root ∷ roots) =
    ground (arith, count_late es d roots, Option-cases (Maps.get root es))

-- The status of any slot at any time sorts each root of the slot into exactly one of the three
-- lists, and its three counts, computed apart, are the sizes of the lists.
pub slot_status-CountsAgree :
    (s : NodeState) (slot now : ℕ) → CountsAgree (engine_7732_slot_status_response s slot now)
unfolding engine_7732_slot_status_response
slot_status-CountsAgree s slot now =
    let es = s.engine_7732_envelopes_by_root in
    let d = engine_7732_slot_deadline_unix_s s slot in
    let roots = roots_at s slot in
    record {
      all_sorted = count_all es d roots;
      revealed_ones = count_revealed es d roots;
      late_ones = count_late es d roots;
    }

-- Which roots are pending, and which are late.
contains-pending :
    (es : Envelopes) (d x : ℕ) (roots : List ℕ)
    → contains x (reveals es d roots).pending ≡ (contains x roots && not (known (Maps.get x es)))
unfolding reveals
contains-pending es d x [] = refl
contains-pending es d x (root ∷ roots) = elim (Bool-cases (root == x)) [
  | inl same ↦
      let e : Maps.get root es ≡ Maps.get x es = ap (λ y. Maps.get y es) ((==_iff root x).0 same) in
      ground (arith, contains-pending es d x roots, Option-cases (Maps.get x es), e, same)
  | inr other ↦
      ground (arith, contains-pending es d x roots, Option-cases (Maps.get root es), other)
]

contains-late :
    (es : Envelopes) (d x : ℕ) (roots : List ℕ)
    → contains x (reveals es d roots).late ≡ (contains x roots && is_late d (Maps.get x es))
unfolding reveals
contains-late es d x [] = refl
contains-late es d x (root ∷ roots) = elim (Bool-cases (root == x)) [
  | inl same ↦
      let e : Maps.get root es ≡ Maps.get x es = ap (λ y. Maps.get y es) ((==_iff root x).0 same) in
      ground (arith, contains-late es d x roots, Option-cases (Maps.get x es), e, same)
  | inr other ↦ ground (arith, contains-late es d x roots, Option-cases (Maps.get root es), other)
]

inhabited : (l : List ℕ) → is_empty l ≡ false → (x : ℕ) × (contains x l ≡ true)
inhabited [] e = cc e
inhabited (x ∷ l) e = (x, ground (arith, ==_refl x))

not_empty : (l : List ℕ) (x : ℕ) → contains x l ≡ true → is_empty l ≡ false
not_empty [] x c = cc c
not_empty (y ∷ l) x c = refl

-- When a status is a violation, in terms of the lists.
violation_lists :
    (roots orphans : List ℕ) (es : Envelopes) (d : ℕ) (passed : Bool)
    → engine_7732_is_timeliness_violation
        (aggregate_status roots orphans (reveals es d roots) passed)
      ≡ (if is_empty (reveals es d roots).pending
          then not (is_empty (reveals es d roots).late)
          else passed)
unfolding aggregate_status engine_7732_is_timeliness_violation reveals
violation_lists [] orphans es d passed = ground arith
violation_lists (root ∷ roots) orphans es d passed =
    let r = reveals es d (root ∷ roots) in
    ground (
      arith,
      Bool-cases (is_empty r.pending),
      Bool-cases (is_empty r.late),
      Bool-cases (is_empty r.on_time),
      Bool-cases passed,
    )

-- A header of the slot without an envelope; none such; a header whose envelope came too late.
abbrev pub Unrevealed : NodeState → ℕ → Type 0
Unrevealed s slot =
    (root : ℕ) × (contains root (roots_at s slot) ≡ true)
    × (Maps.get root s.engine_7732_envelopes_by_root ≡ none)

abbrev pub AllRevealed : NodeState → ℕ → Type 0
AllRevealed s slot =
    (root : ℕ)
    → contains root (roots_at s slot) ≡ true
    → Maps.get root s.engine_7732_envelopes_by_root ≢ none

abbrev pub SomeLate : NodeState → ℕ → Type 0
SomeLate s slot =
    (root : ℕ) × (env : Engine7732EnvelopeRecord) × (contains root (roots_at s slot) ≡ true)
    × (Maps.get root s.engine_7732_envelopes_by_root ≡ some env)
    × (engine_7732_slot_deadline_unix_s s slot < env.revealed_at_unix_s)

abbrev pub Overdue : NodeState → (slot now : ℕ) → Type 0
Overdue s slot now =
    ((engine_7732_slot_deadline_unix_s s slot < now) × Unrevealed s slot)
    ⊎ (AllRevealed s slot × SomeLate s slot)

module _ (s : NodeState) (slot now : ℕ) where
  abbrev es : Envelopes
  es = s.engine_7732_envelopes_by_root

  abbrev deadline : ℕ
  deadline = engine_7732_slot_deadline_unix_s s slot

  abbrev r : Reveals
  r = reveals es deadline (roots_at s slot)

  pending-Unrevealed : is_empty r.pending ≡ false → Unrevealed s slot
  pending-Unrevealed e =
      let (root, c) = inhabited r.pending e in
      let both = sym (contains-pending es deadline root (roots_at s slot)) ∙ c in
      (root, ground (arith, both), ground (arith, both, Option-cases (Maps.get root es)))

  Unrevealed-pending : Unrevealed s slot → is_empty r.pending ≡ false
  Unrevealed-pending (root, listed, free) =
      not_empty r.pending root
        (contains-pending es deadline root (roots_at s slot) ∙ rw (listed, free) refl)

  all_revealed : is_empty r.pending ≡ true → AllRevealed s slot
  all_revealed e root listed free = cc (sym e ∙ Unrevealed-pending (root, listed, free))

  none_pending : AllRevealed s slot → is_empty r.pending ≡ true
  none_pending revealed = elim (Bool-cases (is_empty r.pending)) [
    | inl e ↦ e
    | inr e ↦ let (root, listed, free) = pending-Unrevealed e in absurd (revealed root listed free)
  ]

  late_env :
      (root : ℕ)
      → is_late deadline (Maps.get root es) ≡ true
      → (env : Engine7732EnvelopeRecord) × (Maps.get root es ≡ some env)
        × (deadline < env.revealed_at_unix_s)
  late_env root e = elim (Option-cases (Maps.get root es)) [
    | inl free ↦ cc (sym (ap (is_late deadline) free) ∙ e)
    | inr (env, at) ↦ (env, at, ground (arith, sym (ap (is_late deadline) at) ∙ e))
  ]

  some_late : is_empty r.late ≡ false → SomeLate s slot
  some_late e =
      let (root, c) = inhabited r.late e in
      let both = sym (contains-late es deadline root (roots_at s slot)) ∙ c in
      let (env, at, after) = late_env root (ground (arith, both)) in
      (root, env, ground (arith, both), at, after)

  late_listed : SomeLate s slot → is_empty r.late ≡ false
  late_listed (root, env, listed, at, after) =
      not_empty r.late root
        (contains-late es deadline root (roots_at s slot) ∙ rw (listed, at) (ground (arith, after)))

  abbrev status_violates : Bool
  status_violates =
      engine_7732_is_timeliness_violation (engine_7732_slot_status_response s slot now).aggregate

  violates_lists :
      status_violates ≡ (if is_empty r.pending then not (is_empty r.late) else ltb deadline now)
  unfolding engine_7732_slot_status_response
  violates_lists =
      violation_lists (roots_at s slot) (orphan_roots s slot) es deadline (ltb deadline now)

  violates-Overdue : status_violates ≡ true → Overdue s slot now
  violates-Overdue e = elim (Bool-cases (is_empty r.pending)) [
    | inl revealed ↦
        inr (all_revealed revealed, some_late (ground (arith, sym violates_lists ∙ e, revealed)))
    | inr pending ↦
        inl (ground (arith, sym violates_lists ∙ e, pending), pending-Unrevealed pending)
  ]

  Overdue-violates : Overdue s slot now → status_violates ≡ true
  Overdue-violates (inl (after, unrevealed)) =
      violates_lists ∙ rw (Unrevealed-pending unrevealed) (ground (arith, after))
  Overdue-violates (inr (revealed, late)) =
      violates_lists ∙ rw (none_pending revealed, late_listed late) refl

  -- A slot counts as a timeliness violation at a given time exactly when the deadline has passed
  -- and some header of the slot has no envelope, or when every header of the slot has one and
  -- some envelope came after the deadline. Orphan envelopes play no part.
  pub timeliness_violation_iff :
      (engine_7732_is_timeliness_violation (engine_7732_slot_status_response s slot now).aggregate
        ≡ true)
      ↔ Overdue s slot now
  timeliness_violation_iff = (violates-Overdue, Overdue-violates)
