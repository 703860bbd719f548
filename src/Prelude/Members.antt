-- ===== src/Prelude/Members.antt =====
-- Membership in lists and in hash maps whose keys are unique.
use mathlib.Core.Path.{◌≡◌, refl, sym, subst, ap}
use mathlib.Core.Logic.{◌≢◌, inl, inr}
use mathlib.Core.Bool.{Bool, true}
use mathlib.Core.List.{List, [], ◌∷◌, Memᴰ}
use mathlib.Core.Option.{none, some}
use native.Mathlib.Omega.{arith}
use eth.Prelude.Tests.{Bool-cases}
use eth.Prelude.Lists.{find?, All}
use eth.Prelude.Maps.{Eq, get, insert}

module _ {ℓ} {A : Type ℓ} where
  pub find?-Memᴰ : (p : A → Bool) (xs : List A) (a : A) → find? p xs ≡ some a → Memᴰ a xs
  find?-Memᴰ p [] a h = cc
  find?-Memᴰ p (x ∷ xs) a h = elim (Bool-cases (p x)) [
    | inl hit ↦ Memᴰ.head (ground (arith, hit, h))
    | inr miss ↦ Memᴰ.tail (find?-Memᴰ p xs a (ground (arith, miss, h)))
  ]

  pub find?_complete :
      (p : A → Bool) (xs : List A) (a : A) → Memᴰ a xs → p a ≡ true → find? p xs ≢ none
  find?_complete p [] a m h = elim m [ ]
  find?_complete p (x ∷ xs) a (Memᴰ.head e) h = rw (ap p (sym e)) (rw h (λ f. cc))
  find?_complete p (x ∷ xs) a (Memᴰ.tail m) h = ground (arith, find?_complete p xs a m h)

  pub All-Memᴰ {κ} : (P : A → Type κ) (xs : List A) (a : A) → All P xs → Memᴰ a xs → P a
  All-Memᴰ P [] a g m = elim m [ ]
  All-Memᴰ P (x ∷ xs) a g (Memᴰ.head e) = subst P (sym e) g.0
  All-Memᴰ P (x ∷ xs) a g (Memᴰ.tail m) = All-Memᴰ P xs a g.1 m

module _ {K V : Type 0} where
  abbrev pub FreshKey : K → List (K × V) → Type 0
  FreshKey k = All (λ e. e.0 ≢ k)

  abbrev pub UniqueKeys : List (K × V) → Type 0
  UniqueKeys [] = Unit {0}
  UniqueKeys ((k, v) ∷ m) = FreshKey k m × UniqueKeys m

module _ {K V : Type 0} ⦃e : Eq K⦄ where
  pub get-Memᴰ : (k : K) (v : V) (m : List (K × V)) → get k m ≡ some v → Memᴰ (k, v) m
  unfolding get
  get-Memᴰ k v [] h = cc
  get-Memᴰ k v ((j, w) ∷ m) h = elim (Bool-cases (e.beq j k)) [
    | inl hit ↦ Memᴰ.head (ground (arith, hit, h, (e.beq_iff j k).0))
    | inr miss ↦ Memᴰ.tail (get-Memᴰ k v m (ground (arith, miss, h)))
  ]

  pub Memᴰ-get :
      (k : K) (v : V) (m : List (K × V)) → UniqueKeys m → Memᴰ (k, v) m → get k m ≡ some v
  unfolding get
  Memᴰ-get k v [] u h = elim h [ ]
  Memᴰ-get k v ((j, w) ∷ m) u (Memᴰ.head h) = ground (arith, h, e.beq_iff j k)
  Memᴰ-get k v ((j, w) ∷ m) u (Memᴰ.tail h) =
      ground (arith, Memᴰ-get k v m u.1 h, All-Memᴰ (λ x. x.0 ≢ j) m (k, v) u.0 h, e.beq_iff j k)

  FreshKey-insert :
      (j k : K) (v : V) (m : List (K × V)) → FreshKey j m → k ≢ j → FreshKey j (insert k v m)
  unfolding insert
  FreshKey-insert j k v [] f n = (n, tt)
  FreshKey-insert j k v ((i, w) ∷ m) f n = elim (Bool-cases (e.beq i k)) [
    | inl hit ↦ rw hit (n, f.1)
    | inr miss ↦ rw miss (f.0, FreshKey-insert j k v m f.1 n)
  ]

  pub insert-UniqueKeys :
      (k : K) (v : V) (m : List (K × V)) → UniqueKeys m → UniqueKeys (insert k v m)
  unfolding insert
  insert-UniqueKeys k v [] u = (tt, tt)
  insert-UniqueKeys k v ((i, w) ∷ m) u = elim (Bool-cases (e.beq i k)) [
    | inl hit ↦ rw hit (subst (λ j. FreshKey j m) ((e.beq_iff i k).0 hit) u.0, u.1)
    | inr miss ↦ rw miss (
      FreshKey-insert i k v m u.0 (λ h. cc ((e.beq_iff i k).1 (sym h))),
      insert-UniqueKeys k v m u.1,
    )
  ]

  pub get-FreshKey : (k : K) (m : List (K × V)) → FreshKey k m → get k m ≡ none
  unfolding get
  get-FreshKey k [] f = refl
  get-FreshKey k ((j, w) ∷ m) f = ground (arith, get-FreshKey k m f.1, f.0, e.beq_iff j k)
