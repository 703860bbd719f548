-- ===== src/Consensus/Validator/Leader.antt =====
-- Leader rotation of validator.rs.
use native.Mathlib.Nat.{mod-lt, mod-le, mod-eq_of_lt, mod-add-mod, add-mod-mod, add-mod_right}
use eth.Prelude.{
  ℕ, ◌+◌, ◌-◌, ◌%◌, ◌≤◌, ◌<◌, ◌≡◌, refl, sym, ap, ◌∙◌, some, length, get_elem?, get_elem?_lt,
  u64_max, sat_add64, arith,
}
use eth.Consensus.Validator.{Validator, ValidatorSet, leader_position, leader_for_round}

pub leader_position_lt :
    (s : ValidatorSet) (height round : ℕ)
    → 0 < length s.validators
    → leader_position s height round < length s.validators
unfolding leader_position
leader_position_lt s height round h = omega arith

shift_mod : (h n i : ℕ) → i < n → (h + (i + n - h % n) % n) % n ≡ i
shift_mod h n i lt =
    let x = i + n - h % n in
    add-mod-mod h x n
    ∙ sym (mod-add-mod h n x)
    ∙ ap (λ t. t % n) (omega (arith, mod-le h n, mod-lt h {m = n}))
    ∙ add-mod_right i n
    ∙ mod-eq_of_lt lt

leader_of_position :
    (s : ValidatorSet) (height round i : ℕ) (v : Validator)
    → leader_position s height round ≡ i
    → get_elem? s.validators i ≡ some v
    → leader_for_round s height round ≡ v.index
unfolding leader_for_round
leader_of_position s height round i v e at = ground arith

-- For each validator of the set, one of the next `len` rounds has it as leader, as long as the
-- height and the number of validators do not saturate a u64.
pub leader_rotates :
    (s : ValidatorSet) (height i : ℕ) (v : Validator)
    → get_elem? s.validators i ≡ some v
    → i < length s.validators
    → height + length s.validators ≤ u64_max
    → (round : ℕ) × (round < length s.validators) × (leader_for_round s height round ≡ v.index)
unfolding leader_position
leader_rotates s height i v at lt fits =
    let n = length s.validators in
    let round = (i + n - height % n) % n in
    let small : round < n = mod-lt (i + n - height % n) (omega arith) in
    let exact : sat_add64 height round ≡ height + round = omega arith in
    (
      round,
      small,
      leader_of_position s height round i v (ap (λ t. t % n) exact ∙ shift_mod height n i lt) at,
    )

-- The leader of every round of a nonempty set is the index of one of its validators.
pub leader_IsMember :
    (s : ValidatorSet) (height round : ℕ)
    → 0 < length s.validators
    → (v : Validator) × (get_elem? s.validators (leader_position s height round) ≡ some v)
      × (leader_for_round s height round ≡ v.index)
leader_IsMember s height round h =
    let (v, at) =
      get_elem?_lt s.validators (leader_position s height round)
        (leader_position_lt s height round h) in
    (v, at, leader_of_position s height round _ v refl at)
