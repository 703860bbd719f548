-- ===== src/Execution/Executor/Changes.antt =====
-- What the execution of a transaction leaves in the state of executor.rs.
use eth.Prelude.{
  ℕ, ◌≡◌, refl, Bool, true, false, ◌&&◌, ◌==◌, if◌then◌else◌, List, [], ◌∷◌, arith, Bool-cases, inl,
  inr,
}
use eth.Execution.State.{InMemoryStateDb, insert_account, get_storage, set_storage, clear_storage}
use eth.Execution.State.Storage.{
  get_storage-set_storage, get_storage-clear_storage, get_storage-insert_account,
  remove_account_erases,
}
use eth.Execution.Executor.{Revm, Account, set_slots, stored_code, apply_account_change}

-- The value that a list of writes leaves in a slot that had a value: its last write.
abbrev pub last_write : ℕ → ℕ → List (ℕ × ℕ) → ℕ
last_write slot old [] = old
last_write slot old ((k, v) ∷ slots) = last_write slot (if k == slot then v else old) slots

get_storage-created :
    (s s' : InMemoryStateDb) (a b j : ℕ) (created : Bool)
    → get_storage s' b j ≡ get_storage s b j
    → get_storage (if created then clear_storage s' a else s') b j
      ≡ (if created && (a == b) then 0 else get_storage s b j)
get_storage-created s s' a b j true e = rw (get_storage-clear_storage s' a b j, e) refl
get_storage-created s s' a b j false e = e

module _ {Bytecode : Type 0} (revm : Revm Bytecode) where
  get_storage-set_slots :
      (s : InMemoryStateDb) (a b j : ℕ) (slots : List (ℕ × ℕ))
      → get_storage (set_slots revm s a slots) b j
        ≡ (if a == b then last_write j (get_storage s b j) slots else get_storage s b j)
  unfolding set_slots
  get_storage-set_slots s a b j [] = ground arith
  get_storage-set_slots s a b j ((k, v) ∷ slots) = ground (
    arith,
    get_storage-set_slots (set_storage s a k v) a b j slots,
    get_storage-set_storage s a k v b j,
  )

  -- The storage before the changed slots are written.
  abbrev pub slot_before : InMemoryStateDb → Account Bytecode → ℕ → ℕ → ℕ
  slot_before s account a j = if account.is_created then 0 else get_storage s a j

  -- After the change of an account, its slots hold the last values that revm wrote, over zeros for
  -- an account that was created and over the earlier values otherwise; they are all zero when the
  -- account destroyed itself. No slot of another account changes.
  pub apply_account_change_slots :
      (s : InMemoryStateDb) (a b j : ℕ) (account : Account Bytecode)
      → get_storage (apply_account_change revm s a account) b j ≡ (
          if a == b
          then if account.is_selfdestructed
            then 0
            else last_write j (slot_before s account b j) account.changed_storage_slots
          else get_storage s b j)
  unfolding apply_account_change
  apply_account_change_slots s a b j account = elim (Bool-cases account.is_selfdestructed) [
    | inl gone ↦ rw (gone, (remove_account_erases s a b j).2) refl
    | inr kept ↦
        let s' : InMemoryStateDb = insert_account s a (record {
          balance = account.info.balance;
          nonce = account.info.nonce;
          code_hash = account.info.code_hash;
          code = stored_code revm account.info.code;
        }) in
        let base : InMemoryStateDb = if account.is_created then clear_storage s' a else s' in
        let cleared : get_storage base b j
            ≡ (if account.is_created && (a == b) then 0 else get_storage s b j) =
          get_storage-created s s' a b j account.is_created
            (get_storage-insert_account s a _ b j) in
        rw (kept, get_storage-set_slots base a b j account.changed_storage_slots, cleared)
          (ground arith)
  ]
