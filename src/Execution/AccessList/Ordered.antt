-- ===== src/Execution/AccessList/Ordered.antt =====
-- eip7928.rs: the keys of a `BTreeMap` stay in increasing order.
use eth.Prelude.{
  ◌≡◌, refl, ap, true, false, ◌||◌, List, [], ◌∷◌, All, map, arith, Bool-cases, inl, inr,
}
use eth.Prelude.Maps.{nat_eq, pair_eq}
use eth.Execution.AccessList.{has, Order, nat_order, pair_order, upsert}
use eth.Execution.AccessList.Keys.{IsDistinct}

-- A strict order that decides.
pub record IsStrict {K : Type 0} (o : Order K) : Type 0 where
  pub differ : (a b : K) → o.lt a b ≡ true → o.equality.beq b a ≡ false
  pub trans : (a b c : K) → o.lt a b ≡ true → o.lt b c ≡ true → o.lt a c ≡ true
  pub total : (a b : K) → o.equality.beq b a ≡ false → o.lt a b ≡ false → o.lt b a ≡ true

pub nat_order-IsStrict : IsStrict nat_order
nat_order-IsStrict = record {
  differ = λ a b l. ground (arith, l);
  trans = λ a b c l m. ground (arith, l, m);
  total = λ a b n l. ground (arith, n, l);
}

pub pair_order-IsStrict : IsStrict pair_order
pair_order-IsStrict = record {
  differ = λ a b l. ground (arith, l);
  trans = λ a b c l m. ground (arith, l, m);
  total = λ a b n l. ground (arith, n, l);
}

abbrev pub keys : {K V : Type 0} → List (K × V) → List K
keys = map (λ e. e.0)

module _ {K V : Type 0} (o : Order K) (strict : IsStrict o) where
  abbrev pub Above : K → List (K × V) → Type 0
  Above k = All (λ e. o.lt k e.0 ≡ true)

  abbrev pub IsOrdered : List (K × V) → Type 0
  IsOrdered [] = Unit {0}
  IsOrdered ((k, v) ∷ m) = Above k m × IsOrdered m

  Above-trans : (j k : K) (m : List (K × V)) → o.lt j k ≡ true → Above k m → Above j m
  Above-trans j k [] l a = tt
  Above-trans j k ((i, v) ∷ m) l a = (strict.trans j k i l a.0, Above-trans j k m l a.1)

  Above-upsert :
      (i k : K) (start : V) (f : V → V) (m : List (K × V))
      → o.lt i k ≡ true
      → Above i m
      → Above i (upsert ⦃o = o⦄ k start f m)
  unfolding upsert
  Above-upsert i k start f [] l a = (l, tt)
  Above-upsert i k start f ((j, v) ∷ m) l a = elim (Bool-cases (o.equality.beq j k)) [
    | inl same ↦ rw same (a.0, a.1)
    | inr other ↦ elim (Bool-cases (o.lt k j)) [
      | inl before ↦ rw (other, before) (l, a)
      | inr after ↦ rw (other, after) (a.0, Above-upsert i k start f m l a.1)
    ]
  ]

  pub upsert-IsOrdered :
      (k : K) (start : V) (f : V → V) (m : List (K × V))
      → IsOrdered m
      → IsOrdered (upsert ⦃o = o⦄ k start f m)
  unfolding upsert
  upsert-IsOrdered k start f [] v = (tt, tt)
  upsert-IsOrdered k start f ((j, w) ∷ m) v = elim (Bool-cases (o.equality.beq j k)) [
    | inl same ↦ rw same v
    | inr other ↦ elim (Bool-cases (o.lt k j)) [
      | inl before ↦ rw (other, before) ((before, Above-trans k j m before v.0), v)
      | inr after ↦
          rw (other, after)
            (
              Above-upsert j k start f m (strict.total k j other after) v.0,
              upsert-IsOrdered k start f m v.1,
            )
    ]
  ]

  -- What every entry has is kept, where the new or updated entry has it.
  pub upsert-All :
      (P : K × V → Type 0) (k : K) (start : V) (f : V → V) (m : List (K × V))
      → P (k, f start)
      → ((j : K) (v : V) → o.equality.beq j k ≡ true → P (j, v) → P (j, f v))
      → All P m
      → All P (upsert ⦃o = o⦄ k start f m)
  unfolding upsert
  upsert-All P k start f [] p u v = (p, tt)
  upsert-All P k start f ((j, w) ∷ m) p u v = elim (Bool-cases (o.equality.beq j k)) [
    | inl same ↦ rw same (u j w same v.0, v.1)
    | inr other ↦ elim (Bool-cases (o.lt k j)) [
      | inl before ↦ rw (other, before) (p, v)
      | inr after ↦ rw (other, after) (v.0, upsert-All P k start f m p u v.1)
    ]
  ]

  Above-has : (k : K) (m : List (K × V)) → Above k m → has ⦃e = o.equality⦄ k (keys m) ≡ false
  Above-has k [] a = refl
  Above-has k ((j, v) ∷ m) a = ground (arith, strict.differ k j a.0, Above-has k m a.1)

  pub IsOrdered-IsDistinct : (m : List (K × V)) → IsOrdered m → IsDistinct ⦃e = o.equality⦄ (keys m)
  IsOrdered-IsDistinct [] v = tt
  IsOrdered-IsDistinct ((k, w) ∷ m) v = (Above-has k m v.0, IsOrdered-IsDistinct m v.1)

  pub has-upsert :
      (i k : K) (start : V) (f : V → V) (m : List (K × V))
      → (has ⦃e = o.equality⦄ i (keys m) || o.equality.beq k i) ≡ true
      → has ⦃e = o.equality⦄ i (keys (upsert ⦃o = o⦄ k start f m)) ≡ true
  unfolding upsert
  has-upsert i k start f [] h = ground (arith, h)
  has-upsert i k start f ((j, w) ∷ m) h = elim (Bool-cases (o.equality.beq j k)) [
    | inl same ↦
        let e : j ≡ k = (o.equality.beq_iff j k).0 same in
        let e' : o.equality.beq j i ≡ o.equality.beq k i = ap (λ x. o.equality.beq x i) e in
        rw same (ground (arith, h, e'))
    | inr other ↦ elim (Bool-cases (o.lt k j)) [
      | inl before ↦ rw (other, before) (ground (arith, h))
      | inr after ↦
          rw (other, after)
            (elim (Bool-cases (o.equality.beq j i)) [
              | inl here ↦ ground (arith, here)
              | inr not_here ↦
                  ground (arith, not_here, has-upsert i k start f m (ground (arith, h, not_here)))
            ])
    ]
  ]
