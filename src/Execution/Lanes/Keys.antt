-- ===== src/Execution/Lanes/Keys.antt =====
-- eip8142.rs: the owners of the keys of a lane.
use eth.Prelude.{
  ℕ, ◌≡◌, refl, sym, ap, ◌∙◌, true, not, ◌==◌, ==_iff, some, List, [], ◌∷◌, ◌++◌, arith, Bool-cases,
  Option-cases, inl, inr,
}
use eth.Prelude.Maps
use eth.Prelude.Maps.{nat_eq, get-insert}
use eth.Execution.AccessList.{has, to_set}
use eth.Execution.Lanes.{
  LaneAssignment, LaneAssignmentError, Owners, error_if, conflict_detected, claim_keys, all_keys,
  normalize_keys,
}

pub no_errors : (xs ys : List LaneAssignmentError) → xs ++ ys ≡ [] → (xs ≡ []) × (ys ≡ [])
no_errors [] ys e = (refl, e)
no_errors (x ∷ xs) ys e = cc e

-- The owner of a key stays.
pub claim_keeps :
    (tx : ℕ) (m : Owners) (keys : List ℕ) (k owner : ℕ)
    → Maps.get k m ≡ some owner
    → Maps.get k (claim_keys tx m keys).0 ≡ some owner
unfolding claim_keys
claim_keeps tx m [] k owner at = at
claim_keeps tx m (x ∷ keys) k owner at = elim (Option-cases (Maps.get x m)) [
  | inl free ↦
      rw (claim_keys, free)
        (claim_keeps tx (Maps.insert x tx m) keys k owner
          (ground (arith, get-insert x k tx m, at, free, ==_iff x k)))
  | inr (other, taken) ↦ rw (claim_keys, taken) (claim_keeps tx m keys k owner at)
]

-- Without a conflict every claimed key belongs to the transaction.
pub claim_owns :
    (tx : ℕ) (m : Owners) (keys : List ℕ) (k : ℕ)
    → (claim_keys tx m keys).1 ≡ []
    → has k keys ≡ true
    → Maps.get k (claim_keys tx m keys).0 ≡ some tx
unfolding claim_keys
claim_owns tx m [] k e h = cc h
claim_owns tx m (x ∷ keys) k e h = elim (Option-cases (Maps.get x m)) [
  | inl free ↦
      rw (claim_keys, free)
        (elim (Bool-cases (x == k)) [
          | inl same ↦
              claim_keeps tx (Maps.insert x tx m) keys k tx
                (ground (arith, get-insert x k tx m, same))
          | inr other ↦
              claim_owns tx (Maps.insert x tx m) keys k (rw (claim_keys, free) at e)
                (ground (arith, h, other))
        ])
  | inr (owner, taken) ↦
      let (here, later) =
        no_errors (error_if (not (owner == tx)) (conflict_detected owner tx x))
          (claim_keys tx m keys).1 (rw (claim_keys, taken) at e) in
      rw (claim_keys, taken)
        (elim (Bool-cases (x == k)) [
          | inl same ↦
              let mine : owner ≡ tx = ground (arith, here) in
              claim_keeps tx m keys k tx
                (ap (λ y. Maps.get y m) (sym ((==_iff x k).0 same)) ∙ taken ∙ ap (λ y. some y) mine)
          | inr other ↦ claim_owns tx m keys k later (ground (arith, h, other))
        ])
]

has-to_set : (k : ℕ) (l : List ℕ) → has k (to_set l) ≡ has k l
unfolding to_set
has-to_set k [] = refl
has-to_set k (x ∷ l) = elim (Bool-cases (has x (to_set l))) [
  | inl there ↦ elim (Bool-cases (x == k)) [
    | inl same ↦ rw there (
        has-to_set k l
        ∙ sym (has-to_set k l)
        ∙ ap (λ y. has y (to_set l)) (sym ((==_iff x k).0 same))
        ∙ there
        ∙ ground (arith, same))
    | inr other ↦ rw there (has-to_set k l ∙ ground (arith, other))
  ]
  | inr new ↦ rw new (ground (arith, has-to_set k l))
]

-- The keys of a transaction that passes are those that it names.
pub normalized :
    (a : LaneAssignment) (keys : List ℕ) (k : ℕ)
    → normalize_keys a ≡ some keys
    → has k keys ≡ has k (all_keys a)
unfolding normalize_keys
normalized a keys k e = ground (arith, e, has-to_set k (all_keys a))
