-- ===== src/Prelude/Sort.antt =====
-- Insertion sort by a Boolean order: `sort_unstable_by` of std, which leaves the order of equal
-- elements open.
use mathlib.Core.Path.{◌≡◌, refl}
use mathlib.Core.Logic.{inl, inr}
use mathlib.Core.Bool.{Bool, true, false}
use mathlib.Core.List.{List, [], ◌∷◌, Perm}
use mathlib.Core.List.Perm
use native.Mathlib.Omega.{arith}
use Prim.Native.Nat.{suc}
use eth.Prelude.Tests.{if◌then◌else◌, Bool-cases}
use eth.Prelude.Lists.{All, length}

module _ {ℓ} {A : Type ℓ} where
  unfoldable pub insert_by : (A → A → Bool) → A → List A → List A
  insert_by le a [] = a ∷ []
  insert_by le a (x ∷ xs) = if le a x then a ∷ x ∷ xs else x ∷ insert_by le a xs

  unfoldable pub sort_by : (A → A → Bool) → List A → List A
  unfolding insert_by
  sort_by le [] = []
  sort_by le (x ∷ xs) = insert_by le x (sort_by le xs)

  pub insert_by-perm : (le : A → A → Bool) (a : A) (xs : List A) → Perm (insert_by le a xs) (a ∷ xs)
  unfolding insert_by
  insert_by-perm le a [] = Perm.refl (a ∷ [])
  insert_by-perm le a (x ∷ xs) = elim (Bool-cases (le a x)) [
    | inl before ↦ rw before (Perm.refl (a ∷ x ∷ xs))
    | inr after ↦ rw after (Perm.trans (Perm.cons x (insert_by-perm le a xs)) (Perm.swap a x xs))
  ]

  pub sort_by-perm : (le : A → A → Bool) (xs : List A) → Perm (sort_by le xs) xs
  unfolding sort_by
  sort_by-perm le [] = Perm.refl []
  sort_by-perm le (x ∷ xs) =
      Perm.trans (insert_by-perm le x (sort_by le xs)) (Perm.cons x (sort_by-perm le xs))

  pub length-insert_by :
      (le : A → A → Bool) (a : A) (xs : List A) → length (insert_by le a xs) ≡ suc (length xs)
  unfolding insert_by
  length-insert_by le a [] = refl
  length-insert_by le a (x ∷ xs) = ground (arith, length-insert_by le a xs)

  pub length-sort_by : (le : A → A → Bool) (xs : List A) → length (sort_by le xs) ≡ length xs
  unfolding sort_by
  length-sort_by le [] = refl
  length-sort_by le (x ∷ xs) =
      omega (arith, length-insert_by le x (sort_by le xs), length-sort_by le xs)

  -- Each element is before all later ones.
  abbrev pub IsSorted : (A → A → Bool) → List A → Type ℓ
  IsSorted le [] = Unit
  IsSorted le (x ∷ xs) = All (λ y. le x y ≡ true) xs × IsSorted le xs

  pub All-insert_by {κ} :
      (P : A → Type κ) (le : A → A → Bool) (a : A) (xs : List A)
      → P a
      → All P xs
      → All P (insert_by le a xs)
  unfolding insert_by
  All-insert_by P le a [] p g = (p, tt)
  All-insert_by P le a (x ∷ xs) p g = elim (Bool-cases (le a x)) [
    | inl before ↦ rw before (p, g)
    | inr after ↦ rw after (g.0, All-insert_by P le a xs p g.1)
  ]

  pub All-sort_by {κ} :
      (P : A → Type κ) (le : A → A → Bool) (xs : List A) → All P xs → All P (sort_by le xs)
  unfolding sort_by
  All-sort_by P le [] g = tt
  All-sort_by P le (x ∷ xs) g = All-insert_by P le x (sort_by le xs) g.0 (All-sort_by P le xs g.1)

-- A total and transitive test.
pub record IsOrder {ℓ} {A : Type ℓ} (le : A → A → Bool) : Type ℓ where
  pub trans : (a b c : A) → le a b ≡ true → le b c ≡ true → le a c ≡ true
  pub total : (a b : A) → le a b ≡ false → le b a ≡ true

module _ {ℓ} {A : Type ℓ} (le : A → A → Bool) (o : IsOrder le) where
  All-le_trans :
      (a x : A) (xs : List A)
      → le a x ≡ true
      → All (λ y. le x y ≡ true) xs
      → All (λ y. le a y ≡ true) xs
  All-le_trans a x [] h g = tt
  All-le_trans a x (y ∷ xs) h g = (o.trans a x y h g.0, All-le_trans a x xs h g.1)

  insert_by-IsSorted : (a : A) (xs : List A) → IsSorted le xs → IsSorted le (insert_by le a xs)
  unfolding insert_by
  insert_by-IsSorted a [] s = (tt, tt)
  insert_by-IsSorted a (x ∷ xs) s = elim (Bool-cases (le a x)) [
    | inl before ↦ rw before ((before, All-le_trans a x xs before s.0), s)
    | inr after ↦ rw after (
      All-insert_by (λ y. le x y ≡ true) le a xs (o.total a x after) s.0,
      insert_by-IsSorted a xs s.1,
    )
  ]

  pub sort_by-IsSorted : (xs : List A) → IsSorted le (sort_by le xs)
  unfolding sort_by
  sort_by-IsSorted [] = tt
  sort_by-IsSorted (x ∷ xs) = insert_by-IsSorted x (sort_by le xs) (sort_by-IsSorted xs)
