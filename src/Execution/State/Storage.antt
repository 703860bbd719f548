-- ===== src/Execution/State/Storage.antt =====
-- Reads after writes of state.rs.
use eth.Prelude.{ℕ, ◌≡◌, refl, false, ◌&&◌, ◌==◌, if◌then◌else◌, arith}
use eth.Prelude.Maps
use eth.Prelude.Maps.{nat_eq}
use eth.Execution.State.{
  AccountInfo, InMemoryStateDb, insert_account, get_account, set_storage, get_storage,
  account_exists, remove_account, clear_storage, default_account, slots_or_empty, insert_block_hash,
  get_block_hash,
}

-- A slot that was written is read back, and every other slot of every account reads as before.
pub get_storage-set_storage :
    (s : InMemoryStateDb) (a k v b j : ℕ)
    → get_storage (set_storage s a k v) b j
      ≡ (if (a == b) && (k == j) then v else get_storage s b j)
unfolding get_storage set_storage Maps.get
get_storage-set_storage s a k v b j = ground (
  arith,
  Maps.get-insert a b (Maps.insert k v (slots_or_empty (Maps.get a s.storage))) s.storage,
  Maps.get-insert k j v (slots_or_empty (Maps.get a s.storage)),
)

-- Clearing the storage of an account sets its slots to zero, and no slot of another account.
pub get_storage-clear_storage :
    (s : InMemoryStateDb) (a b j : ℕ)
    → get_storage (clear_storage s a) b j ≡ (if a == b then 0 else get_storage s b j)
unfolding get_storage clear_storage Maps.get
get_storage-clear_storage s a b j = ground (arith, Maps.get-remove a b s.storage)

pub get_storage-insert_account :
    (s : InMemoryStateDb) (a : ℕ) (info : AccountInfo) (b j : ℕ)
    → get_storage (insert_account s a info) b j ≡ get_storage s b j
unfolding get_storage insert_account
get_storage-insert_account s a info b j = refl

-- A removed account is gone with its storage: it no longer exists, reads as the default account,
-- and its slots as zero. Any other account and its slots are as before.
pub remove_account_erases :
    (s : InMemoryStateDb) (a b j : ℕ)
    → (account_exists (remove_account s a) b ≡ (if a == b then false else account_exists s b))
      × (get_account (remove_account s a) b ≡ (if a == b then default_account else get_account s b))
      × (get_storage (remove_account s a) b j ≡ (if a == b then 0 else get_storage s b j))
unfolding account_exists get_account get_storage remove_account Maps.get
remove_account_erases s a b j = (
  ground (arith, Maps.get-remove a b s.account_map),
  ground (arith, Maps.get-remove a b s.account_map),
  ground (arith, Maps.get-remove a b s.storage),
)

pub get_block_hash-insert_block_hash :
    (s : InMemoryStateDb) (n h : ℕ) → get_block_hash (insert_block_hash s n h) n ≡ h
unfolding get_block_hash insert_block_hash
get_block_hash-insert_block_hash s n h = ground (arith, Maps.get-insert n n h s.block_hashes)
