-- ===== src/Execution/Mempool/Insert.antt =====
-- Eviction and insertion of ingress.rs: the invariant, and what a refused transaction leaves behind.
use eth.Prelude.{
  ℕ, ◌+◌, ◌-◌, ◌≤◌, ◌<◌, ◌≡◌, refl, ◌∙◌, false, not, ◌||◌, ◌==◌, ==_iff, Option, none, some, List,
  [], ◌∷◌, Bool-cases, Option-cases, inl, inr, arith,
}
use eth.Prelude.Maps
use eth.Prelude.Maps.{nat_eq, get-insert, get-remove, length-insert_new}
use eth.Prelude.Members.{insert-UniqueKeys}
use eth.Execution.Mempool.{
  Transaction, Mempool, ok, is_full, contains_key, count_or_zero, has_nonce, validate_candidate,
  decrement_account_state, remove, values, evict_loop, evict_lowest_gas, add_nonce, nonces_or_empty,
  store,
}
use eth.Execution.Mempool.Accounts.{contains-add}
use eth.Execution.Mempool.Index.{
  sent_by, uses, sent_by-remove, sent_by-insert, uses-insert, insert-UniqueSlots, uses-remove_le,
  All-insert,
}
use eth.Execution.Mempool.Invariant.{IsPool, Admissible, remove-IsPool}
use eth.Prelude.Sort.{sort_by}
use eth.Execution.Mempool.{cheaper, is_nil}

-- A pool that has lost transactions, and nothing else.
pub record Shrinks (m m' : Mempool) : Type 0 where
  pub same_config : m'.config ≡ m.config
  pub absent : (h : ℕ) → Maps.get h m.transactions ≡ none → Maps.get h m'.transactions ≡ none
  pub free : (a n : ℕ) → uses a n m.transactions ≡ false → uses a n m'.transactions ≡ false
  pub fewer : (a : ℕ) → sent_by a m'.transactions ≤ sent_by a m.transactions

pub Shrinks-refl : (m : Mempool) → Shrinks m m
Shrinks-refl m = record {
  same_config = refl;
  absent = λ h e. e;
  free = λ a n e. e;
  fewer = λ a. omega arith;
}

pub Shrinks-trans : (a b c : Mempool) → Shrinks a b → Shrinks b c → Shrinks a c
Shrinks-trans a b c s t = record {
  same_config = t.same_config ∙ s.same_config;
  absent = λ h e. t.absent h (s.absent h e);
  free = λ x n e. t.free x n (s.free x n e);
  fewer = λ x. omega (arith, s.fewer x, t.fewer x);
}

pub remove-Shrinks : (m : Mempool) (hash : ℕ) → IsPool m → Shrinks m (remove m hash).0
unfolding remove decrement_account_state
remove-Shrinks m hash p = elim (Option-cases (Maps.get hash m.transactions)) [
  | inl e ↦ rw (e, remove) (Shrinks-refl m)
  | inr (tx, e) ↦
      rw (e, remove)
        (record {
          same_config = refl;
          absent = λ h x. ground (arith, x, get-remove hash h m.transactions);
          free = λ a n x. uses-remove_le hash a n m.transactions x;
          fewer = λ a. omega (arith, sent_by-remove hash a tx m.transactions p.keys e);
        })
]

-- Eviction keeps the invariant and takes away transactions only.
evict_loop-kept :
    (m : Mempool) (n : ℕ) (txs : List Transaction)
    → IsPool m
    → IsPool (evict_loop m n txs) × Shrinks m (evict_loop m n txs)
unfolding evict_loop
evict_loop-kept m n [] p = (p, Shrinks-refl m)
evict_loop-kept m n (tx ∷ txs) p =
    let (pool, shrinks) =
      evict_loop-kept (remove m tx.hash).0 (n - 1) txs (remove-IsPool m tx.hash p) in
    elim (Bool-cases (not (is_full m) || n == 0)) [
      | inl done ↦ rw done (p, Shrinks-refl m)
      | inr more ↦ rw more (pool, Shrinks-trans m _ _ (remove-Shrinks m tx.hash p) shrinks)
    ]

pub evict_lowest_gas-kept :
    (m : Mempool) (n : ℕ)
    → IsPool m
    → IsPool (evict_lowest_gas m n) × Shrinks m (evict_lowest_gas m n)
unfolding evict_lowest_gas
evict_lowest_gas-kept m n p = elim (Bool-cases (n == 0 || is_nil m.transactions)) [
  | inl done ↦ rw done (p, Shrinks-refl m)
  | inr more ↦ rw more (evict_loop-kept m n (sort_by cheaper (values m.transactions)) p)
]

-- What `validate_candidate` has checked, in terms of the transactions of the pool.
pub record Fits (m : Mempool) (tx : Transaction) : Type 0 where
  pub absent : Maps.get tx.hash m.transactions ≡ none
  pub gas : (0 < tx.gas_limit) × (m.config.min_gas_price ≤ tx.gas_price)
  pub free : uses tx.from tx.nonce m.transactions ≡ false
  pub quota : sent_by tx.from m.transactions < m.config.max_per_account

contains_key-none : (o : Option Transaction) → contains_key o ≡ false → o ≡ none
contains_key-none none e = refl
contains_key-none (some tx) e = cc

pub validate_candidate-Fits :
    (m : Mempool) (tx : Transaction) → IsPool m → validate_candidate m tx ≡ ok → Fits m tx
unfolding validate_candidate
validate_candidate-Fits m tx p e = ground (
  arith,
  p.counted tx.from,
  p.nonces tx.from tx.nonce,
  contains_key-none (Maps.get tx.hash m.transactions),
)

pub Fits-Shrinks : (m m' : Mempool) (tx : Transaction) → Shrinks m m' → Fits m tx → Fits m' tx
Fits-Shrinks m m' tx s f = record {
  absent = s.absent tx.hash f.absent;
  gas = (f.gas.0, ground (arith, f.gas, s.same_config));
  free = s.free tx.from tx.nonce f.free;
  quota = ground (arith, f.quota, s.fewer tx.from, s.same_config);
}

has_nonce-add :
    (k n : ℕ) (o : Option (List ℕ))
    → has_nonce n (some (add_nonce k (nonces_or_empty o))) ≡ (k == n || has_nonce n o)
has_nonce-add k n none = contains-add k n []
has_nonce-add k n (some l) = contains-add k n l

-- Storing a transaction that fits into a pool that is not full keeps the invariant.
pub store-IsPool :
    (m : Mempool) (tx : Transaction)
    → IsPool m
    → Fits m tx
    → is_full m ≡ false
    → IsPool (store m tx)
unfolding store
store-IsPool m tx p f room = record {
  keys = insert-UniqueKeys tx.hash tx m.transactions p.keys;
  slots = insert-UniqueSlots tx.hash tx m.transactions f.absent f.free p.slots;
  admissible =
      All-insert (Admissible m.config) tx.hash tx m.transactions (refl, f.gas.0, f.gas.1)
        p.admissible;
  counted = λ a. ground (
    arith,
    p.counted a,
    p.counted tx.from,
    sent_by-insert tx.hash a tx m.transactions f.absent,
    get-insert tx.from a (count_or_zero (Maps.get tx.from m.account_counts) + 1) m.account_counts,
    ==_iff tx.from a,
  );
  nonces = λ a n. ground (
    arith,
    p.nonces a n,
    p.nonces tx.from n,
    uses-insert tx.hash a n tx m.transactions f.absent,
    get-insert tx.from a (add_nonce tx.nonce (nonces_or_empty (Maps.get tx.from m.account_nonces)))
        m.account_nonces,
    has_nonce-add tx.nonce n (Maps.get tx.from m.account_nonces),
    ==_iff tx.from a,
  );
  sized = ground (arith, room, length-insert_new tx.hash tx m.transactions f.absent);
  quotas = λ a. ground (
    arith,
    p.quotas a,
    f.quota,
    sent_by-insert tx.hash a tx m.transactions f.absent,
    ==_iff tx.from a,
  );
}
