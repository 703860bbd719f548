-- ===== src/Execution/Custody/Requests.antt =====
-- eip8070.rs: which requests for cells are valid, and that a node may ask for all of its own.
use eth.Prelude.{
  ℕ, zero, suc, ◌+◌, ◌%◌, ◌≤◌, ◌<◌, ◌≡◌, ◌↔◌, refl, sym, ap, ◌∙◌, subst, true, false, ◌==◌, ==_iff,
  ltb, List, [], ◌∷◌, All, arith, Bool-cases, inl, inr,
}
use native.Mathlib.Nat.{mod-lt, mod-eq_of_lt}
use eth.Prelude.Maps.{nat_eq}
use eth.Execution.AccessList.{has}
use eth.Execution.AccessList.Keys.{IsDistinct, Fresh, Fresh-cons, Fresh-nil}
use eth.Execution.Custody.{
  CustodyAssignment, SparseBlobRequest, cells_per_blob, compute_custody_assignment, cells_from,
  cells_for_custody_group, cell_errors, no_cells, validate_sparse_blob_request,
}

abbrev pub InGroup : (g t c : ℕ) → Type 0
InGroup g t c = (c < cells_per_blob) × (c % t ≡ g)

-- Distinct cells of the group raise no error.
cells_pass :
    (g t : ℕ) (seen cells : List ℕ)
    → Fresh seen cells
    → IsDistinct cells
    → All (InGroup g t) cells
    → cell_errors g t true seen cells ≡ []
unfolding cell_errors
cells_pass g t seen [] f d a = refl
cells_pass g t seen (c ∷ cells) f d a =
    let small : ltb c cells_per_blob ≡ true = ground (arith, a.0.0) in
    let mine : (c % t == g) ≡ true = (==_iff (c % t) g).1 a.0.1 in
    rw (f.0, small, mine)
      (cells_pass g t (c ∷ seen) cells (Fresh-cons c seen cells d.0 f.1) d.1 a.1)

-- The cells that are listed from `start` on.
abbrev From : ℕ → List ℕ → Type 0
From start = All (λ c. start ≤ c)

From-weaken : (a b : ℕ) (l : List ℕ) → a ≤ b → From b l → From a l
From-weaken a b [] le f = tt
From-weaken a b (c ∷ l) le f = (omega (arith, le, f.0), From-weaken a b l le f.1)

cells_from-From : (g t start n : ℕ) → From start (cells_from g t start n)
unfolding cells_from
cells_from-From g t start zero = tt
cells_from-From g t start (suc n) =
    let later = From-weaken start (start + 1) _ (omega arith) (cells_from-From g t (start + 1) n) in
    elim (Bool-cases (start % t == g)) [
      | inl mine ↦ rw mine (omega arith, later)
      | inr other ↦ rw other later
    ]

has-From : (c b : ℕ) (l : List ℕ) → c < b → From b l → has c l ≡ false
has-From c b [] lt f = refl
has-From c b (x ∷ l) lt f = ground (arith, lt, f.0, has-From c b l lt f.1)

cells_from-IsDistinct : (g t start n : ℕ) → IsDistinct (cells_from g t start n)
unfolding cells_from
cells_from-IsDistinct g t start zero = tt
cells_from-IsDistinct g t start (suc n) =
    let later = cells_from-IsDistinct g t (start + 1) n in
    elim (Bool-cases (start % t == g)) [
      | inl mine ↦
          rw mine
            (has-From start (start + 1) _ (omega arith) (cells_from-From g t (start + 1) n), later)
      | inr other ↦ rw other later
    ]

cells_from-InGroup :
    (g t start n : ℕ) → start + n ≤ cells_per_blob → All (InGroup g t) (cells_from g t start n)
unfolding cells_from
cells_from-InGroup g t start zero le = tt
cells_from-InGroup g t start (suc n) le =
    let later = cells_from-InGroup g t (start + 1) n (omega (arith, le)) in
    elim (Bool-cases (start % t == g)) [
      | inl mine ↦ rw mine ((omega (arith, le), (==_iff (start % t) g).0 mine), later)
      | inr other ↦ rw other later
    ]

-- Every cell of the group is listed.
cells_from_complete :
    (g t start n c : ℕ)
    → start ≤ c
    → c < start + n
    → c % t ≡ g
    → has c (cells_from g t start n) ≡ true
unfolding cells_from
cells_from_complete g t start zero c le lt e = absurd (omega (arith, le, lt))
cells_from_complete g t start (suc n) c le lt e = elim (Bool-cases (start == c)) [
  | inl here ↦
      let mine : (start % t == g) ≡ true =
        (==_iff (start % t) g).1 (ap (λ x. x % t) ((==_iff start c).0 here) ∙ e) in
      rw mine (ground (arith, here))
  | inr later ↦
      let rest =
        cells_from_complete g t (start + 1) n c (ground (arith, le, later)) (omega (arith, lt)) e in
      elim (Bool-cases (start % t == g)) [
        | inl mine ↦ rw mine (ground (arith, rest, later))
        | inr other ↦ rw other rest
      ]
]

not_nil : (c : ℕ) (l : List ℕ) → has c l ≡ true → no_cells l ≡ false
not_nil c [] h = cc h
not_nil c (x ∷ l) h = refl

All-has : (P : ℕ → Type 0) (c : ℕ) (l : List ℕ) → All P l → has c l ≡ true → P c
All-has P c [] a h = cc h
All-has P c (x ∷ l) a h = elim (Bool-cases (x == c)) [
  | inl same ↦ subst P ((==_iff x c).0 same) a.0
  | inr other ↦ All-has P c l a.1 (ground (arith, h, other))
]

request_passes :
    (r : SparseBlobRequest)
    → 0 < r.custody_assignment.total_groups
    → r.custody_assignment.custody_group < r.custody_assignment.total_groups
    → no_cells r.requested_cells ≡ false
    → IsDistinct r.requested_cells
    → All
        (InGroup r.custody_assignment.custody_group r.custody_assignment.total_groups)
        r.requested_cells
    → validate_sparse_blob_request r ≡ []
unfolding validate_sparse_blob_request
request_passes r pos below some d a =
    let g = r.custody_assignment.custody_group in
    let t = r.custody_assignment.total_groups in
    let groups : (t == 0) ≡ false = ground (arith, pos) in
    let in_range : ltb g t ≡ true = ground (arith, below) in
    rw (some, groups, in_range)
      (cells_pass g t [] r.requested_cells (Fresh-nil r.requested_cells) d a)

module _ (hash_value : ℕ → ℕ) (node_id total_groups : ℕ) where
  abbrev assignment : CustodyAssignment
  assignment = compute_custody_assignment hash_value node_id total_groups

  abbrev own_cells : List ℕ
  own_cells = cells_for_custody_group assignment.custody_group total_groups cells_per_blob

  own_group : 0 < total_groups → assignment.custody_group ≡ hash_value node_id % total_groups
  unfolding compute_custody_assignment
  own_group pos = let some : (total_groups == 0) ≡ false = ground (arith, pos) in rw some refl

  own_list :
      0 < total_groups
      → own_cells ≡ cells_from assignment.custody_group total_groups 0 cells_per_blob
  unfolding cells_for_custody_group
  own_list pos = let some : (total_groups == 0) ≡ false = ground (arith, pos) in rw some refl

  -- The cells of an assignment: those of a blob that its group owns, and a request for all of
  -- them is valid.
  pub record OwnsCells (blob_index : ℕ) : Type 0 where
    pub cells :
        (c : ℕ)
        → c < cells_per_blob
        → (has c own_cells ≡ true) ↔ (c % total_groups ≡ assignment.custody_group)
    pub accepted :
        validate_sparse_blob_request (record {
          blob_index = blob_index;
          requested_cells = own_cells;
          custody_assignment = assignment;
        })
        ≡ []

  -- With between 1 and 128 groups, the cells of a node are exactly the cells of a blob that leave
  -- its group as remainder, and a request for all of them is valid.
  pub assignment-OwnsCells :
      (blob_index : ℕ) → 0 < total_groups → total_groups ≤ cells_per_blob → OwnsCells blob_index
  unfolding compute_custody_assignment
  assignment-OwnsCells blob_index pos fits =
      let t = total_groups in
      let g = assignment.custody_group in
      let group = own_group pos in
      let below : g < t = subst (λ x. x < t) (sym group) (mod-lt (hash_value node_id) pos) in
      let l = cells_from g t 0 cells_per_blob in
      let listed = own_list pos in
      let owned = cells_from-InGroup g t 0 cells_per_blob (omega arith) in
      let there =
        cells_from_complete g t 0 cells_per_blob g (omega arith) (omega (arith, below, fits))
          (mod-eq_of_lt below) in
      record {
        cells = λ c lt. (
          λ h. (All-has (InGroup g t) c l owned (ap (has c) (sym listed) ∙ h)).1,
          λ e.
              ap (has c) listed
              ∙ cells_from_complete g t 0 cells_per_blob c (omega arith) (omega (arith, lt)) e,
        );
        accepted =
            request_passes
              (record {
                blob_index = blob_index;
                requested_cells = own_cells;
                custody_assignment = assignment;
              })
              pos below (subst (λ x. no_cells x ≡ false) (sym listed) (not_nil g l there))
              (subst IsDistinct (sym listed) (cells_from-IsDistinct g t 0 cells_per_blob))
              (subst (All (InGroup g t)) (sym listed) owned);
      }
