-- ===== src/Consensus/FastPath/Outcomes.antt =====
-- What each outcome of `add_attestation` (fast_path.rs) means.
use eth.Prelude.{
  ℕ, zero, suc, ◌/◌, ◌+◌, ◌*◌, ◌≤◌, ◌<◌, ◌≡◌, refl, sym, ap, ◌∙◌, subst, true, false, ◌==◌, ==_iff,
  Option, some, List, [], ◌∷◌, ◌++◌, length, length-append, find?, filter, arith, inl, inr,
  Option-cases, Bool-cases,
}
use eth.Consensus.FastPath.{
  FastPathAttestation, FastPathAccumulator, FastPathOutcome, FinalityProof, fast_finalized, timeout,
  conflict, agreement_count, is_timed_out, le_bytes, collect, build_fast_proof, replace_first,
  settle, add_started, add_attestation, with_conflict, start_clock,
}
use eth.Consensus.FastPath.Invariant.{
  IsClean, IsValid, IsDistinct, Agree, AgreeWith, Recorded, Disagrees, push_new_cases,
  find-AgreeWith, find_none-Fresh, IsDistinct-replace, Agree-replace, settle_state, count_for-Agree,
}

module _ (P : FastPathAccumulator × Option FastPathOutcome → Type 0) (acc : FastPathAccumulator)
    (att : FastPathAttestation) (clean : IsClean acc)
    (late : is_timed_out acc att.received_at_ms ≡ true → P (acc, some timeout))
    (recorded : is_timed_out acc att.received_at_ms ≡ false
      → (r : FastPathAccumulator) → Recorded acc att r
      → P (settle r att))
    (clash : is_timed_out acc att.received_at_ms ≡ false
      → Disagrees acc att
      → P (with_conflict acc att)) where
  -- The three ways through `add_attestation` on a round without conflict.
  pub add_started_cases : P (add_started acc att)
  unfolding add_started
  add_started_cases = elim (Bool-cases (is_timed_out acc att.received_at_ms)) [
    | inl t ↦ rw t (late t)
    | inr t ↦
        elim (Option-cases (find? (λ a. a.attester_index == att.attester_index) acc.attestations)) [
          | inl e ↦
              rw (t, e)
                (push_new_cases P acc att clean (recorded t) (clash t)
                  (find_none-Fresh att.attester_index acc.attestations e))
          | inr (old, e) ↦
              let known =
                find-AgreeWith acc.round_block_hash att.attester_index acc.attestations old
                  clean.agree e in
              elim (Bool-cases (old.block_hash == att.block_hash)) [
                | inl same ↦
                    let e' : acc.round_block_hash ≡ some att.block_hash =
                      known ∙ ap some ((==_iff _ _).0 same) in
                    rw (t, e, same)
                      (recorded t _ (record {
                        clean = record {
                          distinct = IsDistinct-replace att acc.attestations clean.distinct;
                          agree =
                              subst (λ o. AgreeWith o (replace_first att acc.attestations)) (sym e')
                                (Agree-replace att.block_hash att acc.attestations
                                  (subst (λ o. AgreeWith o acc.attestations) e' clean.agree) refl);
                        };
                        round_hash = e';
                        same_flag = refl;
                        same_config = refl;
                        compatible = inr e';
                      }))
                | inr other ↦ rw (t, e, other) (clash t (old.block_hash, known, ground arith))
              ]
        ]
  ]

add_flagged :
    (acc : FastPathAccumulator) (att : FastPathAttestation)
    → acc.conflict_detected ≡ true
    → add_attestation acc att ≡ (acc, some conflict)
unfolding add_attestation
add_flagged acc att c = ground arith

pub add_unflagged :
    (acc : FastPathAccumulator) (att : FastPathAttestation)
    → acc.conflict_detected ≡ false
    → add_attestation acc att ≡ add_started (start_clock acc att.received_at_ms) att
unfolding add_attestation
add_unflagged acc att c = ground arith

-- On a valid accumulator every attestation keeps the invariant: unless a conflict was flagged, each attester has one
-- entry and all entries are for the round's hash.
pub add_attestation-IsValid :
    (acc : FastPathAccumulator) (att : FastPathAttestation)
    → IsValid acc
    → IsValid (add_attestation acc att).0
add_attestation-IsValid acc att v = elim (Bool-cases acc.conflict_detected) [
  | inl c ↦ rw (add_flagged acc att c) v
  | inr c ↦
      let clean = v c in
      let started : IsClean (start_clock acc att.received_at_ms) = record {
        distinct = clean.distinct;
        agree = clean.agree;
      } in
      rw (add_unflagged acc att c) (
        add_started_cases (λ q. IsValid q.0) (start_clock acc att.received_at_ms) att started
          (λ _ _. started) (λ _ r rec. rw settle_state (λ _. rec.clean)) (λ _ _ e. cc))
]

length-le_bytes : (k n : ℕ) → length (le_bytes k n) ≡ k
unfolding le_bytes
length-le_bytes zero n = refl
length-le_bytes (suc k) n = ap suc (length-le_bytes k (n / 256))

length-collect :
    (atts : List FastPathAttestation) (first bytes : List ℕ)
    → length (collect atts first bytes).1 ≡ length bytes + 8 * length atts
unfolding collect
length-collect [] first bytes = omega arith
length-collect (a ∷ atts) first bytes = omega (
  arith,
  length-collect atts (elim first [ [] ↦ a.signature | x ∷ xs ↦ x ∷ xs ])
      (bytes ++ le_bytes 8 a.attester_index),
  length-append bytes (le_bytes 8 a.attester_index),
  length-le_bytes 8 a.attester_index,
)

filter-Agree :
    (h : ℕ) (atts : List FastPathAttestation)
    → Agree h atts
    → filter (λ a. a.block_hash == h) atts ≡ atts
filter-Agree h [] g = refl
filter-Agree h (a ∷ atts) g = ground (arith, filter-Agree h atts g.1)

-- What a fast finality proof rests on: the entries of the accumulator that issued it.
pub record Justifies (acc : FastPathAccumulator) (att : FastPathAttestation) (p : FinalityProof)
    : Type 0 where
  pub distinct : IsDistinct acc.attestations
  pub agree : Agree p.commitment.block_hash acc.attestations
  pub own_hash : p.commitment.block_hash ≡ att.block_hash
  pub enabled : 0 < acc.config.optimistic_threshold
  pub enough : acc.config.optimistic_threshold ≤ length acc.attestations
  pub encoded : length p.proof_data ≡ 8 * length acc.attestations

settle_proof :
    (r : FastPathAccumulator) (att : FastPathAttestation) (p : FinalityProof)
    → r.round_block_hash ≡ some att.block_hash
    → (settle r att).1 ≡ some (fast_finalized p)
    → p ≡ build_fast_proof r att.block_hash att.received_at_ms
unfolding settle
settle_proof r att p e h = ground arith

build_fast_proof_hash :
    (r : FastPathAccumulator) (h now : ℕ) → (build_fast_proof r h now).commitment.block_hash ≡ h
unfolding build_fast_proof
build_fast_proof_hash r h now = refl

length-build_fast_proof :
    (r : FastPathAccumulator) (h now : ℕ)
    → length (build_fast_proof r h now).proof_data
      ≡ 8 * length (filter (λ a. a.block_hash == h) r.attestations)
unfolding build_fast_proof
length-build_fast_proof r h now =
    length-collect (filter (λ a. a.block_hash == h) r.attestations) [] [] ∙ omega arith

settle_fast :
    (r : FastPathAccumulator) (att : FastPathAttestation) (p : FinalityProof)
    → IsClean r
    → r.round_block_hash ≡ some att.block_hash
    → (settle r att).1 ≡ some (fast_finalized p)
    → Justifies r att p
unfolding settle agreement_count
settle_fast r att p c e h =
    let g : Agree att.block_hash r.attestations =
      subst (λ o. AgreeWith o r.attestations) e c.agree in
    let n = count_for-Agree att.block_hash r.attestations g in
    let made = settle_proof r att p e h in
    let own : p.commitment.block_hash ≡ att.block_hash =
      ap (λ q. q.commitment.block_hash) made
      ∙ build_fast_proof_hash r att.block_hash att.received_at_ms in
    record {
      distinct = c.distinct;
      agree = subst (λ k. Agree k r.attestations) (sym own) g;
      own_hash = own;
      enabled = ground (arith, e);
      enough = ground (arith, e, n);
      encoded =
          ap (λ q. length q.proof_data) made
          ∙ length-build_fast_proof r att.block_hash att.received_at_ms
          ∙ ap (λ l. 8 * length l) (filter-Agree att.block_hash r.attestations g);
    }

-- A valid accumulator issues a fast finality proof only for the hash of the attestation just added, when at least
-- `optimistic_threshold` distinct attesters have an entry, all of them for that hash, and no
-- conflict was seen; the proof data holds eight bytes for each of them.
pub fast_finalized_justified :
    (acc : FastPathAccumulator) (att : FastPathAttestation) (p : FinalityProof)
    → IsValid acc
    → (add_attestation acc att).1 ≡ some (fast_finalized p)
    → Justifies (add_attestation acc att).0 att p
      × ((add_attestation acc att).0.conflict_detected ≡ false)
fast_finalized_justified acc att p v h = elim (Bool-cases acc.conflict_detected) [
  | inl c ↦ absurd (cc (add_flagged acc att c))
  | inr c ↦
      let clean = v c in
      let started : IsClean (start_clock acc att.received_at_ms) = record {
        distinct = clean.distinct;
        agree = clean.agree;
      } in
      let split =
        add_started_cases
          (λ q.
            q.1 ≡ some (fast_finalized p) → Justifies q.0 att p × (q.0.conflict_detected ≡ false))
          (start_clock acc att.received_at_ms) att started (λ _ e. cc)
          (λ _ r rec e.
            rw settle_state (settle_fast r att p rec.clean rec.round_hash e, rec.same_flag ∙ c))
          (λ _ _ e. cc) in
      subst
        (λ q. q.1 ≡ some (fast_finalized p) → Justifies q.0 att p × (q.0.conflict_detected ≡ false))
        (sym (add_unflagged acc att c)) split h
]
