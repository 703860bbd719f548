-- ===== src/Execution/AccessList/Checks.antt =====
-- eip7928.rs: which block access lists are valid.
use eth.Prelude.{
  ℕ, ◌≡◌, ◌≢◌, ◌↔◌, refl, Bool, true, false, not, List, [], ◌∷◌, ◌++◌, All, map, arith,
}
use eth.Prelude.Maps.{nat_eq, pair_eq}
use eth.Execution.AccessList.{
  AccessedAccount, StorageAccess, BlockAccessList, BlockAccessListError, has, error_if, key_errors,
  account_errors, access_errors, address_of, no_accounts, validate_block_access_list,
}
use eth.Execution.AccessList.Keys.{IsDistinct, Fresh, Fresh-cons, Fresh-tail, Fresh-has, Fresh-nil}

abbrev pub key_of : ℕ × StorageAccess → ℕ × ℕ
key_of (address, access) = (address, access.key)

-- A list with accounts, none of them twice and none with a key twice, whose accesses are to
-- different slots of accounts of the list.
pub record IsAccessList (l : BlockAccessList) : Type 0 where
  pub accounts : l.accessed_accounts ≢ []
  pub addresses : IsDistinct (map address_of l.accessed_accounts)
  pub keys : All (λ a. IsDistinct a.storage_keys) l.accessed_accounts
  pub slots : IsDistinct (map key_of l.storage_accesses)
  pub owned : All (λ s. has s.0 (map address_of l.accessed_accounts) ≡ true) l.storage_accesses

no_errors : (xs ys : List BlockAccessListError) → (xs ++ ys ≡ []) ↔ ((xs ≡ []) × (ys ≡ []))
no_errors [] ys = (λ e. (refl, e), λ p. p.1)
no_errors (x ∷ xs) ys = (λ e. cc e, λ p. cc p.0)

no_error : (b : Bool) (x : BlockAccessListError) → (error_if b x ≡ []) ↔ (b ≡ false)
no_error true x = (λ e. cc e, λ e. cc e)
no_error false x = (λ e. refl, λ e. refl)

keys_iff :
    (address : ℕ) (seen keys : List ℕ)
    → (key_errors address seen keys ≡ []) ↔ (Fresh seen keys × IsDistinct keys)
unfolding key_errors
keys_iff address seen [] = (λ e. (tt, tt), λ p. refl)
keys_iff address seen (k ∷ keys) =
    let later = keys_iff address (k ∷ seen) keys in
    (
      λ e.
          let (here, rest) = (no_errors _ _).0 e in
          let (f, d) = later.0 rest in
          (
            ((no_error (has k seen) _).0 here, Fresh-tail k seen keys f),
            (Fresh-has k seen keys f, d),
          ),
      λ p.
          (no_errors _ _).1 (
            (no_error (has k seen) _).1 p.0.0,
            later.1 (Fresh-cons k seen keys p.1.0 p.0.1, p.1.1),
          ),
    )

accounts_iff :
    (seen : List ℕ) (accounts : List AccessedAccount)
    → (account_errors seen accounts ≡ []) ↔ (
        Fresh seen (map address_of accounts)
        × IsDistinct (map address_of accounts)
        × All (λ a. IsDistinct a.storage_keys) accounts)
unfolding account_errors
accounts_iff seen [] = (λ e. (tt, tt, tt), λ p. refl)
accounts_iff seen (a ∷ accounts) =
    let later = accounts_iff (a.address ∷ seen) accounts in
    let own = keys_iff a.address [] a.storage_keys in
    let addresses = map address_of accounts in
    (
      λ e.
          let (here, rest) = (no_errors _ _).0 e in
          let (inside, others) = (no_errors _ _).0 rest in
          let (f, d, k) = later.0 others in
          (
            ((no_error (has a.address seen) _).0 here, Fresh-tail a.address seen addresses f),
            (Fresh-has a.address seen addresses f, d),
            ((own.0 inside).1, k),
          ),
      λ p. (no_errors _ _).1 (
        (no_error (has a.address seen) _).1 p.0.0,
        (no_errors _ _).1 (
          own.1 (Fresh-nil a.storage_keys, p.2.0),
          later.1 (Fresh-cons a.address seen addresses p.1.0 p.0.1, p.1.1, p.2.1),
        ),
      ),
    )

listed_if : (b : Bool) → not b ≡ false → b ≡ true
listed_if b e = ground (arith, e)

accesses_iff :
    (known : List ℕ) (seen : List (ℕ × ℕ)) (accesses : List (ℕ × StorageAccess))
    → (access_errors known seen accesses ≡ []) ↔ (
        Fresh seen (map key_of accesses)
        × IsDistinct (map key_of accesses)
        × All (λ s. has s.0 known ≡ true) accesses)
unfolding access_errors
accesses_iff known seen [] = (λ e. (tt, tt, tt), λ p. refl)
accesses_iff known seen ((address, access) ∷ accesses) =
    let k : ℕ × ℕ = (address, access.key) in
    let later = accesses_iff known (k ∷ seen) accesses in
    let slots = map key_of accesses in
    (
      λ e.
          let (owned, rest) = (no_errors _ _).0 e in
          let (here, others) = (no_errors _ _).0 rest in
          let (f, d, o) = later.0 others in
          (
            ((no_error (has k seen) _).0 here, Fresh-tail k seen slots f),
            (Fresh-has k seen slots f, d),
            (listed_if (has address known) ((no_error (not (has address known)) _).0 owned), o),
          ),
      λ p. (no_errors _ _).1 (
        (no_error (not (has address known)) _).1 (ground (arith, p.2.0)),
        (no_errors _ _).1 (
          (no_error (has k seen) _).1 p.0.0,
          later.1 (Fresh-cons k seen slots p.1.0 p.0.1, p.1.1, p.2.1),
        ),
      ),
    )

some_account : (l : List AccessedAccount) → (no_accounts l ≡ false) ↔ (l ≢ [])
some_account [] = (λ e. cc e, λ n. absurd (n refl))
some_account (a ∷ l) = (λ e f. cc f, λ n. refl)

-- A block access list is valid exactly when it has accounts, no address stands twice, no account
-- has a storage key twice, no slot is accessed twice, and every accessed slot belongs to an
-- account of the list.
pub validate_block_access_list_iff :
    (l : BlockAccessList) → (validate_block_access_list l ≡ []) ↔ IsAccessList l
unfolding validate_block_access_list
validate_block_access_list_iff l =
    let accounts = l.accessed_accounts in
    let known = map address_of accounts in
    (
      λ e.
          let (some, rest) = (no_errors _ _).0 e in
          let (inside, outside) = (no_errors _ _).0 rest in
          let (f, d, k) = (accounts_iff [] accounts).0 inside in
          let (f', d', o) = (accesses_iff known [] l.storage_accesses).0 outside in
          record {
            accounts = (some_account accounts).0 ((no_error (no_accounts accounts) _).0 some);
            addresses = d;
            keys = k;
            slots = d';
            owned = o;
          },
      λ v. (no_errors _ _).1 (
        (no_error (no_accounts accounts) _).1 ((some_account accounts).1 v.accounts),
        (no_errors _ _).1 (
          (accounts_iff [] accounts).1 (Fresh-nil known, v.addresses, v.keys),
          (accesses_iff known [] l.storage_accesses).1
              (Fresh-nil (map key_of l.storage_accesses), v.slots, v.owned),
        ),
      ),
    )
