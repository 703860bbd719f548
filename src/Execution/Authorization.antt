-- ===== src/Execution/Authorization.antt =====
-- crates/eth2077-execution/src/eip7702.rs: the structural checks of an authorization list. A 32-byte
-- integer is its list of bytes, big end first; an address is a number.
pub mod Checks
use eth.Prelude.{
  ℕ, zero, suc, ◌+◌, Bool, true, false, not, ◌&&◌, ◌||◌, ◌==◌, ltb, any, List, [], ◌∷◌, ◌++◌,
  if◌then◌else◌,
}

pub record AuthorizationEntry : Type 0 where
  pub chain_id : ℕ
  pub address : ℕ
  pub nonce : ℕ
  pub y_parity : ℕ
  pub r : List ℕ
  pub s : List ℕ

pub data AuthorizationError : Type 0 where
  empty_authorization_list : AuthorizationError
  invalid_chain_id : (index chain_id expected : ℕ) → AuthorizationError
  invalid_y_parity : (index value : ℕ) → AuthorizationError
  zero_address : (index : ℕ) → AuthorizationError
  duplicate_authorization : (index address : ℕ) → AuthorizationError
  signature_r_too_large signature_s_in_upper_half : (index : ℕ) → AuthorizationError

abbrev pub secp256k1_n : List ℕ
secp256k1_n =
    255 ∷ 255 ∷ 255 ∷ 255 ∷ 255 ∷ 255 ∷ 255 ∷ 255 ∷ 255 ∷ 255 ∷ 255 ∷ 255 ∷ 255 ∷ 255 ∷ 255 ∷ 254
    ∷ 186 ∷ 174 ∷ 220 ∷ 230 ∷ 175 ∷ 72 ∷ 160 ∷ 59 ∷ 191 ∷ 210 ∷ 94 ∷ 140 ∷ 208 ∷ 54 ∷ 65 ∷ 65 ∷ []

abbrev pub secp256k1_n_div_2 : List ℕ
secp256k1_n_div_2 =
    127 ∷ 255 ∷ 255 ∷ 255 ∷ 255 ∷ 255 ∷ 255 ∷ 255 ∷ 255 ∷ 255 ∷ 255 ∷ 255 ∷ 255 ∷ 255 ∷ 255 ∷ 255
    ∷ 93 ∷ 87 ∷ 110 ∷ 115 ∷ 87 ∷ 164 ∷ 80 ∷ 29 ∷ 223 ∷ 233 ∷ 47 ∷ 70 ∷ 104 ∷ 27 ∷ 32 ∷ 160 ∷ []

unfoldable pub bytes32_less_than : List ℕ → List ℕ → Bool
bytes32_less_than [] b = false
bytes32_less_than (left ∷ a) [] = false
bytes32_less_than (left ∷ a) (right ∷ b) =
    if ltb left right then true else if ltb right left then false else bytes32_less_than a b

-- `a == b` on arrays.
unfoldable pub bytes_eq : List ℕ → List ℕ → Bool
bytes_eq [] [] = true
bytes_eq [] (right ∷ b) = false
bytes_eq (left ∷ a) [] = false
bytes_eq (left ∷ a) (right ∷ b) = (left == right) && bytes_eq a b

unfoldable pub bytes32_less_than_or_equal : List ℕ → List ℕ → Bool
unfolding bytes_eq bytes32_less_than
bytes32_less_than_or_equal a b = bytes_eq a b || bytes32_less_than a b

abbrev pub contains : ℕ → List ℕ → Bool
contains n = any (λ x. x == n)

abbrev pub error_if : Bool → AuthorizationError → List AuthorizationError
error_if true e = e ∷ []
error_if false e = []

-- The errors that the body of the loop pushes.
unfoldable pub entry_errors : ℕ → List ℕ → ℕ → AuthorizationEntry → List AuthorizationError
entry_errors expected seen index a =
    error_if (not (a.chain_id == 0) && not (a.chain_id == expected))
      (invalid_chain_id index a.chain_id expected)
    ++ error_if (not (a.y_parity == 0) && not (a.y_parity == 1)) (invalid_y_parity index a.y_parity)
    ++ error_if (a.address == 0) (zero_address index)
    ++ error_if (contains a.address seen) (duplicate_authorization index a.address)
    ++ error_if (not (bytes32_less_than a.r secp256k1_n)) (signature_r_too_large index)
    ++ error_if (not (bytes32_less_than_or_equal a.s secp256k1_n_div_2))
        (signature_s_in_upper_half index)

unfoldable pub errors_from : ℕ → List ℕ → ℕ → List AuthorizationEntry → List AuthorizationError
unfolding entry_errors
errors_from expected seen index [] = []
errors_from expected seen index (a ∷ rest) =
    entry_errors expected seen index a ++ errors_from expected (a.address ∷ seen) (index + 1) rest

abbrev pub is_nil : List AuthorizationEntry → Bool
is_nil [] = true
is_nil (_ ∷ _) = false

-- The errors in the order in which they are pushed; no error is `Ok`.
unfoldable pub validate_authorization_list : List AuthorizationEntry → ℕ → List AuthorizationError
unfolding errors_from
validate_authorization_list authorizations expected =
    error_if (is_nil authorizations) empty_authorization_list
    ++ errors_from expected [] 0 authorizations
