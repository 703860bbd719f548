-- ===== src/Execution/AccessList.antt =====
-- crates/eth2077-execution/src/eip7928.rs: block-level access lists, their validation and merging.
-- An address, a storage key and a stored word are numbers. A `BTreeMap` is an association list with
-- increasing keys, which its iteration follows.
pub mod Keys
pub mod Checks
pub mod Ordered
pub mod Merging
use eth.Prelude.{
  ℕ, ◌+◌, ◌-◌, Bool, true, false, not, ◌&&◌, ◌||◌, ◌==◌, ltb, leb, Option, none, some, List, [],
  ◌∷◌, ◌++◌, length, any, filter, map, if◌then◌else◌,
}
use eth.Prelude.Maps.{Eq, nat_eq, pair_eq}
use eth.Prelude.Sort.{sort_by}

pub record AccessedAccount : Type 0 where
  pub address : ℕ
  pub storage_keys : List ℕ
  pub post_balance : Option ℕ
  pub post_nonce : Option ℕ
  pub post_code_hash : Option ℕ

pub record StorageAccess : Type 0 where
  pub key : ℕ
  pub pre_value : ℕ
  pub post_value : ℕ

pub record BlockAccessList : Type 0 where
  pub block_number : ℕ
  pub accessed_accounts : List AccessedAccount
  pub storage_accesses : List (ℕ × StorageAccess)

pub data BlockAccessListError : Type 0 where
  duplicate_account : (address : ℕ) → BlockAccessListError
  duplicate_storage_key : (address key : ℕ) → BlockAccessListError
  empty_access_list : BlockAccessListError
  storage_access_without_account : (address : ℕ) → BlockAccessListError

abbrev pub has : {K : Type 0} ⦃e : Eq K⦄ → K → List K → Bool
has ⦃e⦄ k = any (λ x. e.beq x k)

abbrev pub error_if : Bool → BlockAccessListError → List BlockAccessListError
error_if true e = e ∷ []
error_if false e = []

-- The loop over the keys of an account, with the ones seen so far.
unfoldable pub key_errors : (address : ℕ) (seen keys : List ℕ) → List BlockAccessListError
key_errors address seen [] = []
key_errors address seen (k ∷ keys) =
    error_if (has k seen) (duplicate_storage_key address k) ++ key_errors address (k ∷ seen) keys

unfoldable pub account_errors : (seen : List ℕ) → List AccessedAccount → List BlockAccessListError
account_errors seen [] = []
account_errors seen (a ∷ accounts) =
    error_if (has a.address seen) (duplicate_account a.address)
    ++ (key_errors a.address [] a.storage_keys ++ account_errors (a.address ∷ seen) accounts)

unfoldable pub access_errors :
    (known : List ℕ) (seen : List (ℕ × ℕ)) → List (ℕ × StorageAccess) → List BlockAccessListError
access_errors known seen [] = []
access_errors known seen ((address, access) ∷ accesses) =
    error_if (not (has address known)) (storage_access_without_account address)
    ++ (error_if (has (address, access.key) seen) (duplicate_storage_key address access.key)
        ++ access_errors known ((address, access.key) ∷ seen) accesses)

abbrev pub address_of : AccessedAccount → ℕ
address_of a = a.address

abbrev pub no_accounts : List AccessedAccount → Bool
no_accounts [] = true
no_accounts (_ ∷ _) = false

-- No errors is `Ok`.
unfoldable pub validate_block_access_list : BlockAccessList → List BlockAccessListError
validate_block_access_list l =
    error_if (no_accounts l.accessed_accounts) empty_access_list
    ++ (account_errors [] l.accessed_accounts
        ++ access_errors (map address_of l.accessed_accounts) [] l.storage_accesses)

pub record AccessListStats : Type 0 where
  pub block_number : ℕ
  pub unique_account_count : ℕ
  pub total_storage_accesses : ℕ
  pub modified_storage_count : ℕ
  pub read_only_storage_count : ℕ

-- Collecting into a `HashSet`.
unfoldable pub to_set : List ℕ → List ℕ
to_set [] = []
to_set (k ∷ keys) = let rest = to_set keys in if has k rest then rest else k ∷ rest

unfoldable pub compute_access_list_stats : BlockAccessList → AccessListStats
compute_access_list_stats l =
    let total = length l.storage_accesses in
    let modified =
      length (filter (λ e. not (e.1.pre_value == e.1.post_value)) l.storage_accesses) in
    record {
      block_number = l.block_number;
      unique_account_count = length (to_set (map address_of l.accessed_accounts));
      total_storage_accesses = total;
      modified_storage_count = modified;
      read_only_storage_count = total - modified;
    }

-- The order of the keys of a `BTreeMap`.
pub record Order (K : Type 0) : Type 0 where
  pub equality : Eq K
  pub lt : K → K → Bool

instance abbrev pub nat_order : Order ℕ
nat_order = record { equality = nat_eq; lt = ltb }

abbrev pub pair_lt : ℕ × ℕ → ℕ × ℕ → Bool
pair_lt (a, b) (c, d) = ltb a c || ((a == c) && ltb b d)

instance abbrev pub pair_order : Order (ℕ × ℕ)
pair_order = record { equality = pair_eq; lt = pair_lt }

-- `entry(k)` with an update of its value, which is `start` where the key is new.
unfoldable pub upsert : {K V : Type 0} ⦃o : Order K⦄ → K → V → (V → V) → List (K × V) → List (K × V)
upsert k start f [] = (k, f start) ∷ []
upsert ⦃o⦄ k start f ((j, v) ∷ m) =
    let rest = upsert ⦃o = o⦄ k start f m in
    if o.equality.beq j k
    then (j, f v) ∷ m
    else if o.lt k j
    then (k, f start) ∷ (j, v) ∷ m
    else (j, v) ∷ rest

abbrev pub untouched : ℕ → AccessedAccount
untouched address = record {
  address = address;
  storage_keys = [];
  post_balance = none;
  post_nonce = none;
  post_code_hash = none;
}

-- The post values are those of the last account, also where it has none.
abbrev pub merged_with : AccessedAccount → AccessedAccount → AccessedAccount
merged_with account merged = record {
  address = merged.address;
  storage_keys = merged.storage_keys ++ account.storage_keys;
  post_balance = account.post_balance;
  post_nonce = account.post_nonce;
  post_code_hash = account.post_code_hash;
}

abbrev pub touched_key : ℕ → AccessedAccount → AccessedAccount
touched_key key merged = record merged { storage_keys = merged.storage_keys ++ key ∷ [] }

abbrev pub Accounts : Type 0
Accounts = List (ℕ × AccessedAccount)

abbrev pub Accesses : Type 0
Accesses = List ((ℕ × ℕ) × StorageAccess)

unfoldable pub merge_accounts : Accounts → List AccessedAccount → Accounts
merge_accounts m [] = m
merge_accounts m (a ∷ accounts) =
    merge_accounts (upsert a.address (untouched a.address) (merged_with a) m) accounts

unfoldable pub merge_accesses : Accounts × Accesses → List (ℕ × StorageAccess) → Accounts × Accesses
merge_accesses (m, s) [] = (m, s)
merge_accesses (m, s) ((address, access) ∷ accesses) =
    merge_accesses
      (
        upsert address (untouched address) (touched_key access.key) m,
        upsert (address, access.key) access (λ _. access) s,
      )
      accesses

unfoldable pub merge_all : Accounts × Accesses → List BlockAccessList → Accounts × Accesses
merge_all (m, s) [] = (m, s)
merge_all (m, s) (l ∷ lists) =
    merge_all (merge_accesses (merge_accounts m l.accessed_accounts, s) l.storage_accesses) lists

unfoldable pub last_number : ℕ → List BlockAccessList → ℕ
last_number n [] = n
last_number n (l ∷ lists) = last_number l.block_number lists

-- `Vec::dedup`, behind the element x.
unfoldable pub dedup_after : ℕ → List ℕ → List ℕ
dedup_after x [] = x ∷ []
dedup_after x (y ∷ l) =
    let same = dedup_after x l in let other = dedup_after y l in if x == y then same else x ∷ other

unfoldable pub dedup : List ℕ → List ℕ
dedup [] = []
dedup (x ∷ l) = dedup_after x l

abbrev pub tidied : ℕ × AccessedAccount → AccessedAccount
tidied (address, a) = record a { storage_keys = dedup (sort_by leb a.storage_keys) }

abbrev pub relisted : (ℕ × ℕ) × StorageAccess → ℕ × StorageAccess
relisted ((address, key), access) = (address, access)

unfoldable pub merge_access_lists : List BlockAccessList → BlockAccessList
merge_access_lists lists =
    let (m, s) = merge_all ([], []) lists in
    record {
      block_number = last_number 0 lists;
      accessed_accounts = map tidied m;
      storage_accesses = map relisted s;
    }
