-- ===== src/Execution/AccessList/Merging.antt =====
-- eip7928.rs: the merge of block access lists is a valid list.
use eth.Prelude.{
  ℕ, ◌≡◌, ◌≢◌, refl, sym, ap, ◌∙◌, subst, true, false, ◌==◌, ltb, leb, ==_refl, List, [], ◌∷◌, All,
  map, arith, Bool-cases, inl, inr,
}
use eth.Prelude.Maps.{nat_eq, pair_eq, pair_beq_iff}
use eth.Prelude.Sort.{IsSorted, IsOrder, sort_by-IsSorted}
use eth.Execution.AccessList.{
  AccessedAccount, StorageAccess, BlockAccessList, Accounts, Accesses, has, nat_order, pair_order,
  upsert, untouched, merged_with, touched_key, merge_accounts, merge_accesses, merge_all,
  merge_access_lists, address_of, tidied, relisted, dedup, dedup_after, validate_block_access_list,
}
use eth.Execution.AccessList.Keys.{IsDistinct}
use eth.Execution.AccessList.Checks.{key_of, validate_block_access_list_iff}
use eth.Execution.AccessList.Ordered.{
  nat_order-IsStrict, pair_order-IsStrict, keys, IsOrdered, upsert-IsOrdered, upsert-All,
  IsOrdered-IsDistinct, has-upsert,
}

-- Sorting and `dedup` leave each key once.
leb-IsOrder : IsOrder leb
leb-IsOrder = record {
  trans = λ a b c l m. ground (arith, l, m);
  total = λ a b l. ground (arith, l);
}

abbrev AtLeast : ℕ → List ℕ → Type 0
AtLeast x = All (λ y. leb x y ≡ true)

AtLeast-trans : (x y : ℕ) (l : List ℕ) → leb x y ≡ true → AtLeast y l → AtLeast x l
AtLeast-trans x y [] le a = tt
AtLeast-trans x y (z ∷ l) le a = (ground (arith, le, a.0), AtLeast-trans x y l le a.1)

dedup_after-AtLeast :
    (x : ℕ) (l : List ℕ) → AtLeast x l → IsSorted leb l → AtLeast x (dedup_after x l)
unfolding dedup_after
dedup_after-AtLeast x [] a s = (ground arith, tt)
dedup_after-AtLeast x (y ∷ l) a s = elim (Bool-cases (x == y)) [
  | inl same ↦ rw same (dedup_after-AtLeast x l a.1 s.1)
  | inr other ↦
      rw other
        (ground arith, AtLeast-trans x y (dedup_after y l) a.0 (dedup_after-AtLeast y l s.0 s.1))
]

has-AtLeast : (x y : ℕ) (l : List ℕ) → ltb x y ≡ true → AtLeast y l → has x l ≡ false
has-AtLeast x y [] lt a = refl
has-AtLeast x y (z ∷ l) lt a = ground (arith, lt, a.0, has-AtLeast x y l lt a.1)

dedup_after-IsDistinct :
    (x : ℕ) (l : List ℕ) → AtLeast x l → IsSorted leb l → IsDistinct (dedup_after x l)
unfolding dedup_after
dedup_after-IsDistinct x [] a s = (refl, tt)
dedup_after-IsDistinct x (y ∷ l) a s = elim (Bool-cases (x == y)) [
  | inl same ↦ rw same (dedup_after-IsDistinct x l a.1 s.1)
  | inr other ↦ rw other (
    has-AtLeast x y (dedup_after y l) (ground (arith, a.0, other))
        (dedup_after-AtLeast y l s.0 s.1),
    dedup_after-IsDistinct y l s.0 s.1,
  )
]

dedup-IsDistinct : (l : List ℕ) → IsSorted leb l → IsDistinct (dedup l)
unfolding dedup
dedup-IsDistinct [] s = tt
dedup-IsDistinct (x ∷ l) s = dedup_after-IsDistinct x l s.0 s.1

-- Accounts under their addresses, accesses under their slots, and an account for each access.
pub record IsMerge (p : Accounts × Accesses) : Type 0 where
  pub accounts : IsOrdered nat_order nat_order-IsStrict p.0
  pub own : All (λ e. e.1.address ≡ e.0) p.0
  pub accesses : IsOrdered pair_order pair_order-IsStrict p.1
  pub own_key : All (λ e. e.1.key ≡ e.0.1) p.1
  pub owned : All (λ e. has e.0.0 (keys p.0) ≡ true) p.1

owned-upsert :
    (a : ℕ) (f : AccessedAccount → AccessedAccount) (m : Accounts) (s : Accesses)
    → All (λ e. has e.0.0 (keys m) ≡ true) s
    → All (λ e. has e.0.0 (keys (upsert a (untouched a) f m)) ≡ true) s
owned-upsert a f m [] v = tt
owned-upsert a f m ((k, x) ∷ s) v = (
  has-upsert nat_order nat_order-IsStrict k.0 a (untouched a) f m (ground (arith, v.0)),
  owned-upsert a f m s v.1,
)

account-IsMerge :
    (a : ℕ) (f : AccessedAccount → AccessedAccount) (m : Accounts) (s : Accesses)
    → ((x : AccessedAccount) → (f x).address ≡ x.address)
    → IsMerge (m, s)
    → IsMerge (upsert a (untouched a) f m, s)
account-IsMerge a f m s same v = record {
  accounts = upsert-IsOrdered nat_order nat_order-IsStrict a (untouched a) f m v.accounts;
  own =
      upsert-All nat_order nat_order-IsStrict (λ e. e.1.address ≡ e.0) a (untouched a) f m
        (same (untouched a)) (λ j x e o. same x ∙ o) v.own;
  accesses = v.accesses;
  own_key = v.own_key;
  owned = owned-upsert a f m s v.owned;
}

access-IsMerge :
    (a : ℕ) (x : StorageAccess) (m : Accounts) (s : Accesses)
    → has a (keys m) ≡ true
    → IsMerge (m, s)
    → IsMerge (m, upsert (a, x.key) x (λ _. x) s)
access-IsMerge a x m s there v = record {
  accounts = v.accounts;
  own = v.own;
  accesses = upsert-IsOrdered pair_order pair_order-IsStrict (a, x.key) x (λ _. x) s v.accesses;
  own_key =
      upsert-All pair_order pair_order-IsStrict (λ e. e.1.key ≡ e.0.1) (a, x.key) x (λ _. x) s refl
        (λ j y e o. sym (ap (λ k. k.1) ((pair_beq_iff j (a, x.key)).0 e))) v.own_key;
  owned =
      upsert-All pair_order pair_order-IsStrict (λ e. has e.0.0 (keys m) ≡ true) (a, x.key) x
        (λ _. x) s there (λ j y e o. o) v.owned;
}

merge_accounts-IsMerge :
    (s : Accesses) (m : Accounts) (accounts : List AccessedAccount)
    → IsMerge (m, s)
    → IsMerge (merge_accounts m accounts, s)
unfolding merge_accounts
merge_accounts-IsMerge s m [] v = v
merge_accounts-IsMerge s m (a ∷ accounts) v =
    merge_accounts-IsMerge s (upsert a.address (untouched a.address) (merged_with a) m) accounts
      (account-IsMerge a.address (merged_with a) m s (λ x. refl) v)

merge_accesses-IsMerge :
    (m : Accounts) (s : Accesses) (accesses : List (ℕ × StorageAccess))
    → IsMerge (m, s)
    → IsMerge (merge_accesses (m, s) accesses)
unfolding merge_accesses
merge_accesses-IsMerge m s [] v = v
merge_accesses-IsMerge m s ((a, x) ∷ accesses) v =
    let m' = upsert a (untouched a) (touched_key x.key) m in
    merge_accesses-IsMerge m' (upsert (a, x.key) x (λ _. x) s) accesses (
      access-IsMerge a x m' s
        (has-upsert nat_order nat_order-IsStrict a a (untouched a) (touched_key x.key) m
          (ground (arith, ==_refl a)))
        (account-IsMerge a (touched_key x.key) m s (λ y. refl) v))

merge_all-IsMerge :
    (m : Accounts) (s : Accesses) (lists : List BlockAccessList)
    → IsMerge (m, s)
    → IsMerge (merge_all (m, s) lists)
unfolding merge_all
merge_all-IsMerge m s [] v = v
merge_all-IsMerge m s (l ∷ lists) v =
    let p = merge_accesses (merge_accounts m l.accessed_accounts, s) l.storage_accesses in
    merge_all-IsMerge p.0 p.1 lists (
      merge_accesses-IsMerge (merge_accounts m l.accessed_accounts) s l.storage_accesses
        (merge_accounts-IsMerge s m l.accessed_accounts v))

-- The lists that are read off the maps.
tidied_addresses :
    (m : Accounts) → All (λ e. e.1.address ≡ e.0) m → map address_of (map tidied m) ≡ keys m
tidied_addresses [] v = refl
tidied_addresses ((a, x) ∷ m) v =
    ap (λ y. y ∷ map address_of (map tidied m)) v.0 ∙ ap (λ l. a ∷ l) (tidied_addresses m v.1)

relisted_keys : (s : Accesses) → All (λ e. e.1.key ≡ e.0.1) s → map key_of (map relisted s) ≡ keys s
relisted_keys [] v = refl
relisted_keys (((a, k), x) ∷ s) v =
    ap (λ y. (a, y) ∷ map key_of (map relisted s)) v.0 ∙ ap (λ l. (a, k) ∷ l) (relisted_keys s v.1)

tidied-IsDistinct : (m : Accounts) → All (λ a. IsDistinct a.storage_keys) (map tidied m)
tidied-IsDistinct [] = tt
tidied-IsDistinct ((a, x) ∷ m) =
    (dedup-IsDistinct _ (sort_by-IsSorted leb leb-IsOrder x.storage_keys), tidied-IsDistinct m)

relisted_owned :
    (known : List ℕ) (s : Accesses)
    → All (λ e. has e.0.0 known ≡ true) s
    → All (λ e. has e.0 known ≡ true) (map relisted s)
relisted_owned known [] v = tt
relisted_owned known (((a, k), x) ∷ s) v = (v.0, relisted_owned known s v.1)

-- The merge of any lists, valid or not, passes the validation, unless it has no account at all.
pub merge_access_lists_validates :
    (lists : List BlockAccessList)
    → (merge_access_lists lists).accessed_accounts ≢ []
    → validate_block_access_list (merge_access_lists lists) ≡ []
unfolding merge_access_lists
merge_access_lists_validates lists some =
    let p = merge_all ([], []) lists in
    let v =
      merge_all-IsMerge [] [] lists
        (record { accounts = tt; own = tt; accesses = tt; own_key = tt; owned = tt }) in
    let addresses = tidied_addresses p.0 v.own in
    (validate_block_access_list_iff (merge_access_lists lists)).1 (record {
      accounts = some;
      addresses =
          subst IsDistinct (sym addresses)
            (IsOrdered-IsDistinct nat_order nat_order-IsStrict p.0 v.accounts);
      keys = tidied-IsDistinct p.0;
      slots =
          subst IsDistinct (sym (relisted_keys p.1 v.own_key))
            (IsOrdered-IsDistinct pair_order pair_order-IsStrict p.1 v.accesses);
      owned =
          subst (λ l. All (λ e. has e.0 l ≡ true) (map relisted p.1)) (sym addresses)
            (relisted_owned (keys p.0) p.1 v.owned);
    })
