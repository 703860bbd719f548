-- ===== src/Execution/AccessList/Keys.antt =====
-- eip7928.rs: distinct keys, and the maps and lists of keys that have no key twice.
use eth.Prelude.{◌≡◌, refl, sym, false, List, [], ◌∷◌, All, arith, Bool-cases, inl, inr}
use eth.Prelude.Maps.{Eq, nat_eq, pair_eq}
use eth.Execution.AccessList.{has, nat_order, pair_order}

-- No key stands twice; and no key is in `seen`.
abbrev pub IsDistinct : {K : Type 0} ⦃e : Eq K⦄ → List K → Type 0
IsDistinct [] = Unit {0}
IsDistinct (k ∷ keys) = (has k keys ≡ false) × IsDistinct keys

abbrev pub Fresh : {K : Type 0} ⦃e : Eq K⦄ → List K → List K → Type 0
Fresh seen = All (λ k. has k seen ≡ false)

module _ {K : Type 0} ⦃e : Eq K⦄ where
  beq_sym : (a b : K) → e.beq a b ≡ false → e.beq b a ≡ false
  beq_sym a b n = elim (Bool-cases (e.beq b a)) [
    | inl y ↦ let same : b ≡ a = (e.beq_iff b a).0 y in cc ((e.beq_iff a b).1 (sym same))
    | inr z ↦ z
  ]

  pub Fresh-cons :
      (k : K) (seen keys : List K) → has k keys ≡ false → Fresh seen keys → Fresh (k ∷ seen) keys
  Fresh-cons k seen [] n f = tt
  Fresh-cons k seen (x ∷ keys) n f = (
    ground (arith, f.0, beq_sym x k (ground (arith, n))),
    Fresh-cons k seen keys (ground (arith, n)) f.1,
  )

  pub Fresh-tail : (k : K) (seen keys : List K) → Fresh (k ∷ seen) keys → Fresh seen keys
  Fresh-tail k seen [] f = tt
  Fresh-tail k seen (x ∷ keys) f = (ground (arith, f.0), Fresh-tail k seen keys f.1)

  pub Fresh-has : (k : K) (seen keys : List K) → Fresh (k ∷ seen) keys → has k keys ≡ false
  Fresh-has k seen [] f = refl
  Fresh-has k seen (x ∷ keys) f =
      ground (arith, beq_sym k x (ground (arith, f.0)), Fresh-has k seen keys f.1)

  pub Fresh-nil : (keys : List K) → Fresh [] keys
  Fresh-nil [] = tt
  Fresh-nil (x ∷ keys) = (refl, Fresh-nil keys)
