-- ===== src/Consensus/Validator/Quorum.antt =====
-- Quorums of validator.rs: how much weight two of them share.
use eth.Prelude.{
  ℕ, ◌+◌, ◌-◌, ◌*◌, ◌/◌, ◌%◌, ◌≤◌, ◌<◌, min, ◌≡◌, ◌≢◌, Bool, true, ◌&&◌, ◌∙◌, List, [], ◌∷◌,
  if◌then◌else◌, u64_max, sat_add64, arith,
}
use eth.Consensus.Validator.{Validator, ValidatorSet, fold_weight, new, quorum_weight}

-- The weight of the validators whose index is in `voted`, each entry of the list counted.
abbrev pub weight_by : (ℕ → Bool) → List Validator → ℕ
weight_by voted [] = 0
weight_by voted (v ∷ vs) = (if voted v.index then v.weight else 0) + weight_by voted vs

abbrev pub weight_all : List Validator → ℕ
weight_all = weight_by (λ _. true)

-- The weight that may be faulty: the `f` of `quorum_weight`.
abbrev pub max_faulty : ValidatorSet → ℕ
max_faulty s = (s.total_weight - 1) / 3

fold_weight_lem :
    (acc : ℕ) (vs : List Validator)
    → acc ≤ u64_max
    → fold_weight acc vs ≡ min u64_max (acc + weight_all vs)
unfolding fold_weight
fold_weight_lem acc [] h = omega arith
fold_weight_lem acc (v ∷ vs) h =
    fold_weight_lem (sat_add64 acc v.weight) vs (omega arith) ∙ omega arith

pub total_weight-new : (vs : List Validator) → (new vs).total_weight ≡ min u64_max (weight_all vs)
unfolding new
total_weight-new vs = fold_weight_lem 0 vs (omega arith) ∙ omega arith

-- Inclusion and exclusion.
pub weight_by-both :
    (p q : ℕ → Bool) (vs : List Validator)
    → weight_by p vs + weight_by q vs ≤ weight_all vs + weight_by (λ i. p i && q i) vs
weight_by-both p q [] = omega arith
weight_by-both p q (v ∷ vs) = ground (arith, weight_by-both p q vs)

-- When the total weight fits in a u64, two sets of voters that each reach `quorum_weight` share more than `max_faulty` weight, less
-- the remainder of total - 1 by 3: for a total of 3f + 1 they share at least f + 1.
pub quorums_overlap :
    (vs : List Validator) (p q : ℕ → Bool)
    → weight_all vs ≤ u64_max
    → quorum_weight (new vs) ≤ weight_by p vs
    → quorum_weight (new vs) ≤ weight_by q vs
    → max_faulty (new vs) + 1 ≤ weight_by (λ i. p i && q i) vs + ((new vs).total_weight - 1) % 3
unfolding quorum_weight
quorums_overlap vs p q fits hp hq = omega (arith, total_weight-new vs, weight_by-both p q vs)

-- With a positive total weight that fits in a u64 and is not of the form 3f + 1, two quorums need share no more than f: the
-- total plus f is enough weight for both.
pub quorum_gap :
    (s : ValidatorSet)
    → 0 < s.total_weight
    → s.total_weight ≤ u64_max
    → s.total_weight % 3 ≢ 1
    → 2 * quorum_weight s ≤ s.total_weight + max_faulty s
unfolding quorum_weight
quorum_gap s pos fits r = omega arith
