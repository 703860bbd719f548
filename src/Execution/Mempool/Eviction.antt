-- ===== src/Execution/Mempool/Eviction.antt =====
-- What an eviction of ingress.rs takes away, and what `insert` returns.
use eth.Prelude.{
  ℕ, suc, ◌-◌, ◌<◌, ◌≡◌, refl, sym, ap, ◌∙◌, subst, true, false, some, List, [], ◌∷◌, All, length,
  arith,
}
use eth.Prelude.Maps
use eth.Prelude.Maps.{nat_eq, get-insert, get-remove, length-insert_new}
use eth.Execution.Mempool.{
  Transaction, Mempool, is_full, decrement_account_state, remove, values, evict_loop,
  evict_lowest_gas,
}
use eth.Execution.Mempool.{cheaper}
use eth.Execution.Mempool.Index.{length-remove}
use eth.Execution.Mempool.Invariant.{IsPool, Admissible}
use eth.Prelude.Sort.{sort_by, All-sort_by, IsSorted, IsOrder, sort_by-IsSorted, length-sort_by}
use eth.Prelude.Members.{Memᴰ-get}
use mathlib.Core.List.{Memᴰ}

All-of_mem {ℓ κ} :
    {A : Type ℓ} (P : A → Type κ) (xs : List A) → ((a : A) → Memᴰ a xs → P a) → All P xs
All-of_mem P [] f = tt
All-of_mem P (x ∷ xs) f = (f x (Memᴰ.head refl), All-of_mem P xs (λ a m. f a (Memᴰ.tail m)))

All-values {κ} :
    (P : Transaction → Type κ) (txs : List (ℕ × Transaction))
    → All (λ e. P e.1) txs
    → All P (values txs)
All-values P [] g = tt
All-values P (e ∷ txs) g = (g.0, All-values P txs g.1)

pub All-both {ℓ κ μ} :
    {A : Type ℓ} (P : A → Type κ) (Q : A → Type μ) (xs : List A)
    → All P xs
    → All Q xs
    → All (λ a. P a × Q a) xs
All-both P Q [] p q = tt
All-both P Q (x ∷ xs) p q = ((p.0, q.0), All-both P Q xs p.1 q.1)

pub All-map {ℓ κ μ} :
    {A : Type ℓ} {P : A → Type κ} {Q : A → Type μ} (xs : List A)
    → ((a : A) → P a → Q a)
    → All P xs
    → All Q xs
All-map [] f g = tt
All-map (x ∷ xs) f g = (f x g.0, All-map xs f g.1)

pub length-values : (txs : List (ℕ × Transaction)) → length (values txs) ≡ length txs
length-values [] = refl
length-values (e ∷ txs) = ap suc (length-values txs)

-- Every transaction of the pool is found under its own hash.
pub values_found :
    (m : Mempool)
    → IsPool m
    → All (λ tx. Maps.get tx.hash m.transactions ≡ some tx) (values m.transactions)
values_found m p =
    All-values (λ tx. Maps.get tx.hash m.transactions ≡ some tx) m.transactions
      (All-map m.transactions
        (λ e g. subst (λ h. Maps.get h m.transactions ≡ some e.1) (sym g.1.0) g.0)
        (All-both (λ e. Maps.get e.0 m.transactions ≡ some e.1) (Admissible m.config) m.transactions
          (All-of_mem (λ e. Maps.get e.0 m.transactions ≡ some e.1) m.transactions
            (λ e mem. Memᴰ-get e.0 e.1 m.transactions p.keys mem))
          p.admissible))

cheaper-IsOrder : IsOrder cheaper
cheaper-IsOrder = record { trans = λ a b c h k. ground arith; total = λ a b h. ground arith }

evict_loop-room :
    (m : Mempool) (n : ℕ) (txs : List Transaction) → is_full m ≡ false → evict_loop m n txs ≡ m
unfolding evict_loop
evict_loop-room m n [] room = refl
evict_loop-room m n (tx ∷ txs) room = ground (arith, room)

remove-room :
    (m : Mempool) (tx : Transaction)
    → IsPool m
    → Maps.get tx.hash m.transactions ≡ some tx
    → is_full (remove m tx.hash).0 ≡ false
unfolding remove decrement_account_state
remove-room m tx p at = ground (arith, at, p.sized, length-remove tx.hash tx m.transactions p.keys)

evict_loop-one :
    (m : Mempool) (n : ℕ) (tx : Transaction) (txs : List Transaction)
    → IsPool m
    → is_full m ≡ true
    → 0 < n
    → Maps.get tx.hash m.transactions ≡ some tx
    → evict_loop m n (tx ∷ txs) ≡ (remove m tx.hash).0
unfolding evict_loop
evict_loop-one m n tx txs p full pos at =
    let first : evict_loop m n (tx ∷ txs) ≡ evict_loop (remove m tx.hash).0 (n - 1) txs =
      ground (arith, full, pos) in
    first ∙ evict_loop-room (remove m tx.hash).0 (n - 1) txs (remove-room m tx p at)

-- The transaction that an eviction chooses stands first among the sorted candidates: it is in the
-- pool, and every other transaction has a higher price, or the same price and no higher nonce.
pub record Cheapest (m : Mempool) (tx : Transaction) : Type 0 where
  pub others : List Transaction
  pub sorted : sort_by cheaper (values m.transactions) ≡ tx ∷ others
  pub found : Maps.get tx.hash m.transactions ≡ some tx
  pub least : All (λ t. cheaper tx t ≡ true) others

Cheapest-of :
    (m : Mempool) (l : List Transaction)
    → IsPool m
    → 0 < length m.transactions
    → sort_by cheaper (values m.transactions) ≡ l
    → (tx : Transaction) × Cheapest m tx
Cheapest-of m [] p pos e = absurd (
    omega (
      arith,
      ap length e,
      length-sort_by cheaper (values m.transactions),
      length-values m.transactions,
    ))
Cheapest-of m (tx ∷ others) p pos e =
    let found =
      subst (All (λ t. Maps.get t.hash m.transactions ≡ some t)) e
        (All-sort_by _ cheaper (values m.transactions) (values_found m p)) in
    let ordered =
      subst (IsSorted cheaper) e
        (sort_by-IsSorted cheaper cheaper-IsOrder (values m.transactions)) in
    (tx, record { others = others; sorted = e; found = found.0; least = ordered.0 })

evict_lowest_gas-sorted :
    (m : Mempool) (n : ℕ) (tx : Transaction) (c : Cheapest m tx)
    → 0 < n
    → 0 < length m.transactions
    → evict_lowest_gas m n ≡ evict_loop m n (tx ∷ c.others)
unfolding evict_lowest_gas
evict_lowest_gas-sorted m n tx c pos some_tx = ground (arith, c.sorted, pos, some_tx)

-- A full, well-formed pool with room for anything at all loses exactly one transaction to an eviction, a
-- cheapest one, whatever positive number of evictions was asked for.
pub evicts_one-Cheapest :
    (m : Mempool) (n : ℕ)
    → IsPool m
    → is_full m ≡ true
    → 0 < m.config.max_size
    → 0 < n
    → (tx : Transaction) × Cheapest m tx
      × (evict_lowest_gas m n ≡ (remove m tx.hash).0)
      × (is_full (evict_lowest_gas m n) ≡ false)
evicts_one-Cheapest m n p full size pos =
    let held : 0 < length m.transactions = ground (arith, full, size) in
    let (tx, c) = Cheapest-of m (sort_by cheaper (values m.transactions)) p held refl in
    let same =
      evict_lowest_gas-sorted m n tx c pos held
      ∙ evict_loop-one m n tx c.others p full pos c.found in
    (tx, c, same, rw same (remove-room m tx p c.found))
