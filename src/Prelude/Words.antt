-- ===== src/Prelude/Words.antt =====
-- Machine words: the largest values and the saturating operations of Rust's integers.
use Prim.Native.Nat.{ℕ, ◌+◌, ◌*◌, min}
use mathlib.Core.Path.{◌≡◌}
use native.Mathlib.Omega.{arith}

abbrev pub u64_max : ℕ
u64_max = 18446744073709551615

abbrev pub u32_max : ℕ
u32_max = 4294967295

-- `u64::saturating_add`; a saturating subtraction is `◌-◌` on ℕ.
abbrev pub sat_add64 : ℕ → ℕ → ℕ
sat_add64 a b = min u64_max (a + b)

abbrev pub sat_mul64 : ℕ → ℕ → ℕ
sat_mul64 a b = min u64_max (a * b)

abbrev pub sat_add32 : ℕ → ℕ → ℕ
sat_add32 a b = min u32_max (a + b)

-- Saturating sums may be regrouped.
pub sat_add64_assoc : (a b c : ℕ) → sat_add64 (sat_add64 a b) c ≡ min u64_max (a + (b + c))
sat_add64_assoc a b c = omega arith
