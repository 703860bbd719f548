-- ===== src/Execution/Mempool/Invariant.antt =====
-- The invariant of the pool of ingress.rs, kept by every operation.
use eth.Prelude.{ℕ, ◌≤◌, ◌<◌, ◌≡◌, refl, ==_iff, some, All, length, Option-cases, inl, inr, arith}
use eth.Prelude.Maps
use eth.Prelude.Maps.{nat_eq, get-insert, get-remove, length-insert_new}
use eth.Prelude.Members.{UniqueKeys}
use eth.Execution.Mempool.{
  Transaction, Mempool, MempoolConfig, new, count_or_zero, has_nonce, decrement_account_state,
  remove,
}
use eth.Execution.Mempool.Accounts.{count-decrement, has_nonce-remove}
use eth.Execution.Mempool.Index.{
  sent_by, uses, UniqueSlots, sent_by-remove, length-remove, remove-UniqueSlots, uses-remove,
  All-remove, remove-UniqueKeys,
}

-- What `validate_candidate` checks of a transaction by itself.
abbrev pub Admissible : MempoolConfig → ℕ × Transaction → Type 0
Admissible c (hash, tx) = (tx.hash ≡ hash) × (0 < tx.gas_limit) × (c.min_gas_price ≤ tx.gas_price)

pub record IsPool (m : Mempool) : Type 0 where
  pub keys : UniqueKeys m.transactions
  pub slots : UniqueSlots m.transactions
  pub admissible : All (Admissible m.config) m.transactions
  pub counted : (a : ℕ) → count_or_zero (Maps.get a m.account_counts) ≡ sent_by a m.transactions
  pub nonces : (a n : ℕ) → has_nonce n (Maps.get a m.account_nonces) ≡ uses a n m.transactions
  pub sized : length m.transactions ≤ m.config.max_size
  pub quotas : (a : ℕ) → sent_by a m.transactions ≤ m.config.max_per_account

pub new-IsPool : (c : MempoolConfig) → IsPool (new c)
unfolding new Maps.get
new-IsPool c = record {
  keys = tt;
  slots = tt;
  admissible = tt;
  counted = λ a. refl;
  nonces = λ a n. refl;
  sized = omega arith;
  quotas = λ a. omega arith;
}

abbrev pub removed : Mempool → ℕ → Transaction → Mempool
removed m hash tx =
    decrement_account_state (record m { transactions = Maps.remove hash m.transactions }) tx

pub removed-IsPool :
    (m : Mempool) (hash : ℕ) (tx : Transaction)
    → IsPool m
    → Maps.get hash m.transactions ≡ some tx
    → IsPool (removed m hash tx)
unfolding decrement_account_state
removed-IsPool m hash tx p e = record {
  keys = remove-UniqueKeys hash m.transactions p.keys;
  slots = remove-UniqueSlots hash m.transactions p.slots;
  admissible = All-remove (Admissible m.config) hash m.transactions p.admissible;
  counted = λ a. ground (
    arith,
    count-decrement tx.from a m.account_counts,
    p.counted a,
    p.counted tx.from,
    sent_by-remove hash a tx m.transactions p.keys e,
    ==_iff tx.from a,
  );
  nonces = λ a n. ground (
    arith,
    has_nonce-remove tx.from tx.nonce a n m.account_nonces,
    p.nonces a n,
    uses-remove hash a n tx m.transactions p.keys p.slots e,
  );
  sized = omega (arith, p.sized, length-remove hash tx m.transactions p.keys e);
  quotas = λ a. omega (arith, p.quotas a, sent_by-remove hash a tx m.transactions p.keys e);
}

-- A removal, of a known hash or not, keeps a well-formed pool well formed: the counts and the nonces
-- kept for each account are still those of its transactions.
pub remove-IsPool : (m : Mempool) (hash : ℕ) → IsPool m → IsPool (remove m hash).0
unfolding remove
remove-IsPool m hash p = elim (Option-cases (Maps.get hash m.transactions)) [
  | inl e ↦ rw (e, remove) p
  | inr (tx, e) ↦ rw (e, remove) (removed-IsPool m hash tx p e)
]
