-- ===== src/Consensus/Validator.antt =====
-- crates/eth2077-oob-consensus/src/validator.rs: the weighted validator set, its quorum and its
-- leader rotation. A public key is a byte list that nothing here reads.
pub mod Quorum
pub mod Leader
use eth.Prelude.{
  ℕ, ◌-◌, ◌*◌, ◌/◌, ◌%◌, Bool, true, false, ◌==◌, Option, none, some, List, [], ◌∷◌, length,
  get_elem?, find?, if◌then◌else◌, sat_add64,
}

pub record Validator : Type 0 where
  pub index : ℕ
  pub weight : ℕ
  pub public_key : List ℕ

pub record ValidatorSet : Type 0 where
  pub validators : List Validator
  pub total_weight : ℕ

-- the fold of `ValidatorSet::new`
unfoldable pub fold_weight : ℕ → List Validator → ℕ
fold_weight acc [] = acc
fold_weight acc (v ∷ vs) = fold_weight (sat_add64 acc v.weight) vs

unfoldable pub new : List Validator → ValidatorSet
unfolding fold_weight
new vs = record { validators = vs; total_weight = fold_weight 0 vs }

unfoldable pub get : ValidatorSet → ℕ → Option Validator
get s i = find? (λ v. v.index == i) s.validators

-- `2 * f` cannot overflow: it is at most two thirds of the total.
unfoldable pub quorum_weight : ValidatorSet → ℕ
quorum_weight s = let f = (s.total_weight - 1) / 3 in sat_add64 (2 * f) 1

abbrev is_empty : ValidatorSet → Bool
is_empty s = elim s.validators [ [] ↦ true | _ ∷ _ ↦ false ]

-- `len` is the number of validators as a `usize`.
unfoldable pub len : ValidatorSet → ℕ
len s = length s.validators

abbrev index_or_zero : Option Validator → ℕ
index_or_zero none = 0
index_or_zero (some v) = v.index

-- The position is below the length, so the indexing `validators[leader_position]` never faults
-- (`leader_position_lt`).
unfoldable pub leader_position : ValidatorSet → ℕ → ℕ → ℕ
leader_position s height round = sat_add64 height round % length s.validators

unfoldable pub leader_for_round : ValidatorSet → ℕ → ℕ → ℕ
unfolding leader_position
leader_for_round s height round =
    if is_empty s
    then 0
    else index_or_zero (get_elem? s.validators (leader_position s height round))

unfoldable pub weight_of : ValidatorSet → ℕ → ℕ
unfolding get
weight_of s i = elim (get s i) [ none ↦ 0 | some v ↦ v.weight ]
