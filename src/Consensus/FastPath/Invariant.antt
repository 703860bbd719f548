-- ===== src/Consensus/FastPath/Invariant.antt =====
-- What holds of the accumulator of fast_path.rs between two attestations.
use eth.Prelude.{
  ℕ, ◌≡◌, ◌≢◌, refl, sym, ap, ◌∙◌, subst, false, ◌==◌, ==_iff, Option, none, some, List, [], ◌∷◌,
  ◌++◌, length, find?, All, All-append, arith, ◌⊎◌, inl, inr, Option-cases, Bool-cases,
}
use eth.Consensus.FastPath.{
  FastPathAttestation, FastPathAccumulator, FastPathConfig, FastPathOutcome, new, reset, count_for,
  replace_first, settle, push_new, with_conflict,
}

-- No attester has two entries.
abbrev pub Fresh : ℕ → List FastPathAttestation → Type 0
Fresh i = All (λ a. a.attester_index ≢ i)

abbrev pub IsDistinct : List FastPathAttestation → Type 0
IsDistinct [] = Unit {0}
IsDistinct (a ∷ atts) = Fresh a.attester_index atts × IsDistinct atts

abbrev pub Agree : ℕ → List FastPathAttestation → Type 0
Agree h = All (λ a. a.block_hash ≡ h)

-- Every entry is for the round's hash, and there is none before the round has a hash.
abbrev pub AgreeWith : Option ℕ → List FastPathAttestation → Type 0
AgreeWith none atts = atts ≡ []
AgreeWith (some h) atts = Agree h atts

-- The attestations of a round without conflict: one for each attester, all for the round's hash.
pub record IsClean (acc : FastPathAccumulator) : Type 0 where
  pub distinct : IsDistinct acc.attestations
  pub agree : AgreeWith acc.round_block_hash acc.attestations

pub count_for-Agree :
    (h : ℕ) (atts : List FastPathAttestation) → Agree h atts → count_for h atts ≡ length atts
unfolding count_for
count_for-Agree h [] a = refl
count_for-Agree h (x ∷ atts) a = ground (arith, count_for-Agree h atts a.1)

pub find_none-Fresh :
    (i : ℕ) (atts : List FastPathAttestation)
    → find? (λ a. a.attester_index == i) atts ≡ none
    → Fresh i atts
find_none-Fresh i [] e = tt
find_none-Fresh i (a ∷ atts) e = ground (arith, find_none-Fresh i atts)

Fresh-push :
    (i : ℕ) (att : FastPathAttestation) (atts : List FastPathAttestation)
    → Fresh i atts
    → att.attester_index ≢ i
    → Fresh i (atts ++ att ∷ [])
Fresh-push i att [] f n = (n, tt)
Fresh-push i att (a ∷ atts) f n = (f.0, Fresh-push i att atts f.1 n)

IsDistinct-push :
    (att : FastPathAttestation) (atts : List FastPathAttestation)
    → IsDistinct atts
    → Fresh att.attester_index atts
    → IsDistinct (atts ++ att ∷ [])
IsDistinct-push att [] d f = (tt, tt)
IsDistinct-push att (a ∷ atts) d f =
    (Fresh-push a.attester_index att atts d.0 (λ e. f.0 (sym e)), IsDistinct-push att atts d.1 f.1)

Fresh-replace :
    (i : ℕ) (att : FastPathAttestation) (atts : List FastPathAttestation)
    → Fresh i atts
    → Fresh i (replace_first att atts)
unfolding replace_first
Fresh-replace i att [] f = tt
Fresh-replace i att (a ∷ atts) f = ground (arith, Fresh-replace i att atts f.1)

pub IsDistinct-replace :
    (att : FastPathAttestation) (atts : List FastPathAttestation)
    → IsDistinct atts
    → IsDistinct (replace_first att atts)
unfolding replace_first
IsDistinct-replace att [] d = tt
IsDistinct-replace att (a ∷ atts) d = elim (Bool-cases (a.attester_index == att.attester_index)) [
  | inl same ↦
      rw same
        (subst (λ i. Fresh i atts) ((==_iff a.attester_index att.attester_index).0 same) d.0, d.1)
  | inr other ↦
      rw other (Fresh-replace a.attester_index att atts d.0, IsDistinct-replace att atts d.1)
]

pub Agree-replace :
    (h : ℕ) (att : FastPathAttestation) (atts : List FastPathAttestation)
    → Agree h atts
    → att.block_hash ≡ h
    → Agree h (replace_first att atts)
unfolding replace_first
Agree-replace h att [] a e = tt
Agree-replace h att (x ∷ atts) a e = ground (arith, Agree-replace h att atts a.1 e)

pub length-replace_first :
    (att : FastPathAttestation) (atts : List FastPathAttestation)
    → length (replace_first att atts) ≡ length atts
unfolding replace_first
length-replace_first att [] = refl
length-replace_first att (x ∷ atts) = ground (arith, length-replace_first att atts)

pub settle_state :
    (acc : FastPathAccumulator) (att : FastPathAttestation) → (settle acc att).0 ≡ acc
unfolding settle
settle_state acc att = ground arith

-- Without a conflict flag the entries are clean.
abbrev pub IsValid : FastPathAccumulator → Type 0
IsValid acc = acc.conflict_detected ≡ false → IsClean acc

pub new-IsValid : (c : FastPathConfig) → IsValid (new c)
unfolding new
new-IsValid c _ = record { distinct = tt; agree = refl }

pub reset-IsValid : (acc : FastPathAccumulator) → IsValid (reset acc)
unfolding reset
reset-IsValid acc _ = record { distinct = tt; agree = refl }

-- The accumulator once an attestation has been recorded without conflict.
pub record Recorded (acc : FastPathAccumulator) (att : FastPathAttestation)
    (r : FastPathAccumulator) : Type 0 where
  pub clean : IsClean r
  pub round_hash : r.round_block_hash ≡ some att.block_hash
  pub same_flag : r.conflict_detected ≡ acc.conflict_detected
  pub same_config : r.config ≡ acc.config
  pub compatible : (acc.round_block_hash ≡ none) ⊎ (acc.round_block_hash ≡ some att.block_hash)

-- The conflict that `add_attestation` looks for, once the entries are clean.
abbrev pub Disagrees : FastPathAccumulator → FastPathAttestation → Type 0
Disagrees acc att = (h : ℕ) × (acc.round_block_hash ≡ some h) × (h ≢ att.block_hash)

find-Agree :
    (h i : ℕ) (atts : List FastPathAttestation) (a : FastPathAttestation)
    → Agree h atts
    → find? (λ x. x.attester_index == i) atts ≡ some a
    → a.block_hash ≡ h
find-Agree h i [] a g e = cc
find-Agree h i (x ∷ atts) a g e = ground (arith, find-Agree h i atts a g.1)

pub find-AgreeWith :
    (o : Option ℕ) (i : ℕ) (atts : List FastPathAttestation) (a : FastPathAttestation)
    → AgreeWith o atts
    → find? (λ x. x.attester_index == i) atts ≡ some a
    → o ≡ some a.block_hash
find-AgreeWith none i [] a g e = cc
find-AgreeWith none i (x ∷ atts) a g e = cc
find-AgreeWith (some h) i atts a g e = ap some (sym (find-Agree h i atts a g e))

module _ (P : FastPathAccumulator × Option FastPathOutcome → Type 0) (acc : FastPathAccumulator)
    (att : FastPathAttestation) (clean : IsClean acc)
    (recorded : (r : FastPathAccumulator) → Recorded acc att r → P (settle r att))
    (clash : Disagrees acc att → P (with_conflict acc att)) where
  pub push_new_cases : Fresh att.attester_index acc.attestations → P (push_new acc att)
  unfolding push_new
  push_new_cases f = elim (Option-cases acc.round_block_hash) [
    | inl e ↦
        rw (e, push_new)
          (recorded _ (record {
            clean = record {
              distinct = IsDistinct-push att acc.attestations clean.distinct f;
              agree = rw (subst (λ o. AgreeWith o acc.attestations) e clean.agree) (refl, tt);
            };
            round_hash = refl;
            same_flag = refl;
            same_config = refl;
            compatible = inl e;
          }))
    | inr (h, e) ↦ elim (Bool-cases (h == att.block_hash)) [
      | inl same ↦
          let eq : h ≡ att.block_hash = (==_iff h att.block_hash).0 same in
          let e' : acc.round_block_hash ≡ some att.block_hash = e ∙ ap some eq in
          rw (e, push_new, same)
            (recorded _ (record {
              clean = record {
                distinct = IsDistinct-push att acc.attestations clean.distinct f;
                agree =
                    subst (λ o. AgreeWith o (acc.attestations ++ att ∷ [])) (sym e')
                      (All-append (λ a. a.block_hash ≡ att.block_hash) acc.attestations (att ∷ [])
                        (subst (λ o. AgreeWith o acc.attestations) e' clean.agree) (refl, tt));
              };
              round_hash = e';
              same_flag = refl;
              same_config = refl;
              compatible = inr e';
            }))
      | inr other ↦ rw (e, push_new, other) (clash (h, e, ground arith))
    ]
  ]
