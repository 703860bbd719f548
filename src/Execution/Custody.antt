-- ===== src/Execution/Custody.antt =====
-- crates/eth2077-execution/src/eip8070.rs: the cells of a blob that a node keeps, and requests for
-- them. A node id is a number; the first 8 bytes of its SHA-256 are a parameter.
pub mod Requests
use eth.Prelude.{
  ℕ, zero, suc, ◌+◌, ◌-◌, ◌%◌, Bool, true, false, not, ◌&&◌, ◌==◌, ltb, List, [], ◌∷◌, ◌++◌,
  if◌then◌else◌,
}
use eth.Prelude.Maps.{nat_eq}
use eth.Execution.AccessList.{has}

abbrev pub cells_per_blob : ℕ
cells_per_blob = 128

pub record CustodyAssignment : Type 0 where
  pub node_id : ℕ
  pub custody_group : ℕ
  pub total_groups : ℕ

pub record SparseBlobRequest : Type 0 where
  pub blob_index : ℕ
  pub requested_cells : List ℕ
  pub custody_assignment : CustodyAssignment

pub data SparseBlobError : Type 0 where
  invalid_cell_index : (cell_index max : ℕ) → SparseBlobError
  custody_group_out_of_range : (group total : ℕ) → SparseBlobError
  empty_cell_request : SparseBlobError
  cell_not_in_custody : (cell_index custody_group : ℕ) → SparseBlobError
  duplicate_cell_index : (cell_index : ℕ) → SparseBlobError

-- `%`, where the divisor is not 0.
unfoldable pub compute_custody_assignment :
    (hash_value : ℕ → ℕ) → (node_id total_groups : ℕ) → CustodyAssignment
compute_custody_assignment hash_value node_id total_groups = record {
  node_id = node_id;
  custody_group = if total_groups == 0 then 0 else hash_value node_id % total_groups;
  total_groups = total_groups;
}

-- The cells from `start` on, n of them, that fall to a group.
unfoldable pub cells_from : (custody_group total_groups start n : ℕ) → List ℕ
cells_from custody_group total_groups start zero = []
cells_from custody_group total_groups start (suc n) =
    let rest = cells_from custody_group total_groups (start + 1) n in
    if start % total_groups == custody_group then start ∷ rest else rest

unfoldable pub cells_for_custody_group : (custody_group total_groups cells : ℕ) → List ℕ
cells_for_custody_group custody_group total_groups cells =
    if total_groups == 0 then [] else cells_from custody_group total_groups 0 cells

abbrev pub error_if : Bool → SparseBlobError → List SparseBlobError
error_if true e = e ∷ []
error_if false e = []

unfoldable pub cell_errors :
    (custody_group total_groups : ℕ)
    → (custody_group_valid : Bool) → (seen cells : List ℕ) → List SparseBlobError
cell_errors g t v seen [] = []
cell_errors g t v seen (c ∷ cells) =
    error_if (has c seen) (duplicate_cell_index c)
    ++ (error_if (not (ltb c cells_per_blob)) (invalid_cell_index c (cells_per_blob - 1))
        ++ (error_if (v && not (c % t == g)) (cell_not_in_custody c g)
            ++ cell_errors g t v (c ∷ seen) cells))

abbrev pub no_cells : List ℕ → Bool
no_cells [] = true
no_cells (_ ∷ _) = false

-- No errors is `Ok`.
unfoldable pub validate_sparse_blob_request : SparseBlobRequest → List SparseBlobError
validate_sparse_blob_request r =
    let g = r.custody_assignment.custody_group in
    let t = r.custody_assignment.total_groups in
    let group_valid = not (t == 0) && ltb g t in
    error_if (no_cells r.requested_cells) empty_cell_request
    ++ (error_if (not group_valid) (custody_group_out_of_range g t)
        ++ cell_errors g t group_valid [] r.requested_cells)
