-- ===== src/Execution/Mempool/Admission.antt =====
-- Admission of a transaction by ingress.rs: what `insert` and `submit` do on each branch.
use eth.Prelude.{
  ℕ, ◌≡◌, refl, ◌∙◌, true, false, ◌==◌, ==_iff, ==_refl, some, Bool-cases, ◌⊎◌, inl, inr, arith,
}
use eth.Prelude.Maps
use eth.Prelude.Maps.{nat_eq, get-insert, get-remove, length-insert_new}
use eth.Execution.Mempool.{
  Transaction, Mempool, Result, ok, err, IngressError, mempool_full, is_full, validate_candidate,
  evict_lowest_gas, store, store_checked, insert_validated, insert, submit,
  suggested_eviction_count,
}
use eth.Execution.Mempool.Invariant.{IsPool}
use eth.Execution.Mempool.Insert.{
  evict_lowest_gas-kept, Fits, Fits-Shrinks, validate_candidate-Fits, store-IsPool,
}
use eth.Execution.Mempool.Eviction.{evicts_one-Cheapest}

-- A pool after an insertion: a refused transaction leaves it as it was; an accepted one is in it.
abbrev pub Admitted : Mempool → Transaction → Mempool × Result → Type 0
Admitted m tx (m', ok) = IsPool m' × (Maps.get tx.hash m'.transactions ≡ some tx)
Admitted m tx (m', err e) = m' ≡ m

store-get : (m : Mempool) (tx : Transaction) → Maps.get tx.hash (store m tx).transactions ≡ some tx
unfolding store
store-get m tx = get-insert tx.hash tx.hash tx m.transactions ∙ rw (==_refl tx.hash)

Result-cases : (r : Result) → (r ≡ ok) ⊎ ((e : IngressError) × (r ≡ err e))
Result-cases ok = inl refl
Result-cases (err e) = inr (e, refl)

stored :
    (m : Mempool) (tx : Transaction)
    → IsPool m
    → Fits m tx
    → is_full m ≡ false
    → Admitted m tx (store_checked m tx)
unfolding store_checked
stored m tx p f room = rw room (store-IsPool m tx p f room, store-get m tx)

evict_nothing : (m : Mempool) (n : ℕ) → IsPool m → m.config.max_size ≡ 0 → evict_lowest_gas m n ≡ m
unfolding evict_lowest_gas
evict_nothing m n p none_fits = ground (arith, p.sized, none_fits)

insert_validated-evicting :
    (m : Mempool) (tx : Transaction)
    → is_full m ≡ true
    → (suggested_eviction_count m == 0) ≡ false
    → insert_validated m tx ≡ store_checked (evict_lowest_gas m (suggested_eviction_count m)) tx
unfolding insert_validated
insert_validated-evicting m tx full evicts = ground (arith, full, evicts)

store_checked_full :
    (m : Mempool) (tx : Transaction) → is_full m ≡ true → store_checked m tx ≡ (m, err mempool_full)
unfolding store_checked
store_checked_full m tx full = ground (arith, full)

-- After an eviction that made room.
stored_after_eviction :
    (m m' : Mempool) (tx : Transaction)
    → IsPool m'
    → Fits m' tx
    → is_full m' ≡ false
    → Admitted m tx (store_checked m' tx)
unfolding store_checked
stored_after_eviction m m' tx p f room = rw room (store-IsPool m' tx p f room, store-get m' tx)

insert_validated-Admitted :
    (m : Mempool) (tx : Transaction) → IsPool m → Fits m tx → Admitted m tx (insert_validated m tx)
unfolding insert_validated
insert_validated-Admitted m tx p f = elim (Bool-cases (is_full m)) [
  | inr room ↦ rw (room, insert_validated) (stored m tx p f room)
  | inl full ↦
      let n = suggested_eviction_count m in
      elim (Bool-cases (n == 0)) [
        | inl never ↦ rw (full, never, insert_validated) refl
        | inr evicts ↦
            rw (insert_validated-evicting m tx full evicts)
              (elim (Bool-cases (m.config.max_size == 0)) [
                | inl empty ↦
                    rw (evict_nothing m n p ((==_iff _ _).0 empty), store_checked_full m tx full)
                      refl
                | inr positive ↦
                    let (_, _, _, room) =
                      evicts_one-Cheapest m n p full (ground (arith, positive))
                        (ground (arith, evicts)) in
                    let (pool, shrinks) = evict_lowest_gas-kept m n p in
                    stored_after_eviction m (evict_lowest_gas m n) tx pool
                      (Fits-Shrinks m (evict_lowest_gas m n) tx shrinks f) room
              ])
      ]
]

-- On a well-formed pool, `insert` accepts a transaction and the pool then holds it and keeps the invariant, or refuses it
-- and leaves the pool exactly as it was, on every error path, the full pool included.
pub insert-Admitted : (m : Mempool) (tx : Transaction) → IsPool m → Admitted m tx (insert m tx)
unfolding insert
insert-Admitted m tx p = elim (Result-cases (validate_candidate m tx)) [
  | inl valid ↦
      rw (valid, insert) (insert_validated-Admitted m tx p (validate_candidate-Fits m tx p valid))
  | inr (e, refused) ↦ rw (refused, insert) refl
]

-- The pipeline's `submit` is the pool's `insert`: its own validation changes no outcome.
pub submit-insert : (m : Mempool) (tx : Transaction) → submit m tx ≡ insert m tx
unfolding submit insert
submit-insert m tx = ground arith
