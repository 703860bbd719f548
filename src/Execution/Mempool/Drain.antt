-- ===== src/Execution/Mempool/Drain.antt =====
-- `drain_batch` of ingress.rs: the best transactions leave the pool, in order.
use mathlib.Core.List.{Perm}
use eth.Prelude.{
  ℕ, zero, suc, ◌+◌, ◌≡◌, ◌≢◌, refl, sym, ap, ◌∙◌, subst, ==_refl, none, some, List, [], ◌∷◌, ◌++◌,
  All, length, map, take, drop, take-append-drop, length-take, min, Bool-cases, inl, inr, arith,
}
use eth.Prelude.Maps
use eth.Prelude.Maps.{nat_eq, get-remove}
use eth.Prelude.Members.{FreshKey, UniqueKeys}
use eth.Prelude.Sort.{
  sort_by, insert_by, All-sort_by, All-insert_by, IsSorted, IsOrder, sort_by-IsSorted, sort_by-perm,
  length-sort_by,
}
use eth.Execution.Mempool.{
  Transaction, Mempool, decrement_account_state, remove, values, better, peek_best, drain,
  drain_batch,
}
use eth.Execution.Mempool.Index.{Pool, length-remove}
use eth.Execution.Mempool.Invariant.{IsPool, remove-IsPool}
use eth.Execution.Mempool.Insert.{Shrinks, Shrinks-refl, Shrinks-trans, remove-Shrinks}
use eth.Execution.Mempool.Eviction.{All-map, All-both, values_found, length-values}

abbrev Found : Mempool → List Transaction → Type 0
Found m = All (λ tx. Maps.get tx.hash m.transactions ≡ some tx)

abbrev DistinctHashes : List Transaction → Type 0
DistinctHashes [] = Unit {0}
DistinctHashes (x ∷ xs) = All (λ y. y.hash ≢ x.hash) xs × DistinctHashes xs

values_hash_ne :
    (h : ℕ) (txs : Pool)
    → FreshKey h txs
    → All (λ e. e.1.hash ≡ e.0) txs
    → All (λ tx. tx.hash ≢ h) (values txs)
values_hash_ne h [] f g = tt
values_hash_ne h (e ∷ txs) f g = (λ x. f.0 (sym g.0 ∙ x), values_hash_ne h txs f.1 g.1)

values-DistinctHashes :
    (txs : Pool) → UniqueKeys txs → All (λ e. e.1.hash ≡ e.0) txs → DistinctHashes (values txs)
values-DistinctHashes [] u g = tt
values-DistinctHashes ((h, tx) ∷ txs) u g = (
  subst (λ k. All (λ y. y.hash ≢ k) (values txs)) (sym g.0) (values_hash_ne h txs u.0 g.1),
  values-DistinctHashes txs u.1 g.1,
)

insert_by-DistinctHashes :
    (x : Transaction) (xs : List Transaction)
    → All (λ y. y.hash ≢ x.hash) xs
    → DistinctHashes xs
    → DistinctHashes (insert_by better x xs)
unfolding insert_by
insert_by-DistinctHashes x [] n d = (tt, tt)
insert_by-DistinctHashes x (y ∷ ys) n d = elim (Bool-cases (better x y)) [
  | inl before ↦ rw before (n, d)
  | inr after ↦ rw after (
    All-insert_by (λ z. z.hash ≢ y.hash) better x ys (λ e. n.0 (sym e)) d.0,
    insert_by-DistinctHashes x ys n.1 d.1,
  )
]

sort_by-DistinctHashes :
    (xs : List Transaction) → DistinctHashes xs → DistinctHashes (sort_by better xs)
unfolding sort_by
sort_by-DistinctHashes [] d = tt
sort_by-DistinctHashes (x ∷ xs) d =
    insert_by-DistinctHashes x (sort_by better xs)
      (All-sort_by (λ y. y.hash ≢ x.hash) better xs d.0) (sort_by-DistinctHashes xs d.1)

All-take {κ} :
    (P : Transaction → Type κ) (n : ℕ) (xs : List Transaction) → All P xs → All P (take n xs)
All-take P zero xs g = tt
All-take P (suc n) [] g = tt
All-take P (suc n) (x ∷ xs) g = (g.0, All-take P n xs g.1)

take-DistinctHashes :
    (n : ℕ) (xs : List Transaction) → DistinctHashes xs → DistinctHashes (take n xs)
take-DistinctHashes zero xs d = tt
take-DistinctHashes (suc n) [] d = tt
take-DistinctHashes (suc n) (x ∷ xs) d =
    (All-take (λ y. y.hash ≢ x.hash) n xs d.0, take-DistinctHashes n xs d.1)

better-IsOrder : IsOrder better
better-IsOrder = record { trans = λ a b c h k. ground arith; total = λ a b h. ground arith }

-- What one removal of a transaction that is in the pool does.
remove_hit :
    (m : Mempool) (tx : Transaction)
    → IsPool m
    → Maps.get tx.hash m.transactions ≡ some tx
    → ((remove m tx.hash).1 ≡ some tx)
      × (length (remove m tx.hash).0.transactions + 1 ≡ length m.transactions)
      × (Maps.get tx.hash (remove m tx.hash).0.transactions ≡ none)
unfolding remove decrement_account_state
remove_hit m tx p at =
    rw (at, remove)
      (
        refl,
        length-remove tx.hash tx m.transactions p.keys at,
        get-remove tx.hash tx.hash m.transactions ∙ rw (==_refl tx.hash),
      )

remove_miss :
    (m : Mempool) (h k : ℕ)
    → k ≢ h
    → Maps.get k (remove m h).0.transactions ≡ Maps.get k m.transactions
unfolding remove decrement_account_state
remove_miss m h k n = ground (arith, n, get-remove h k m.transactions)

-- Draining found transactions with distinct hashes returns them all.
pub record Drained (m : Mempool) (m' : Mempool) (txs : List Transaction) : Type 0 where
  pub pool : IsPool m'
  pub shrinks : Shrinks m m'
  pub left : length m'.transactions + length txs ≡ length m.transactions
  pub gone : All (λ tx. Maps.get tx.hash m'.transactions ≡ none) txs

drain-Found :
    (m : Mempool) (txs : List Transaction)
    → IsPool m
    → Found m txs
    → DistinctHashes txs
    → ((drain m (map (λ tx. tx.hash) txs)).1 ≡ txs)
      × Drained m (drain m (map (λ tx. tx.hash) txs)).0 txs
unfolding drain
drain-Found m [] p f d =
    (refl, record { pool = p; shrinks = Shrinks-refl m; left = omega arith; gone = tt })
drain-Found m (tx ∷ txs) p f d =
    let (hit, fewer, free) = remove_hit m tx p f.0 in
    let m' = (remove m tx.hash).0 in
    let still : Found m' txs =
      All-map txs (λ t g. remove_miss m tx.hash t.hash g.0 ∙ g.1)
        (All-both (λ t. t.hash ≢ tx.hash) (λ t. Maps.get t.hash m.transactions ≡ some t) txs d.0
          f.1) in
    let (same, rest) = drain-Found m' txs (remove-IsPool m tx.hash p) still d.1 in
    (
      rw (hit, same),
      record {
        pool = rest.pool;
        shrinks = Shrinks-trans m m' _ (remove-Shrinks m tx.hash p) rest.shrinks;
        left = omega (arith, rest.left, fewer);
        gone = (rest.shrinks.absent tx.hash free, rest.gone);
      },
    )

-- A batch holds the best transactions of the pool: together with the rest it is a permutation of
-- the pool, sorted by price from the top, then by nonce and hash; it has as many as were asked for or as there are;
-- and the pool afterwards keeps its invariant, without any transaction of the batch.
pub record IsBestBatch (m : Mempool) (max_count : ℕ) (r : Mempool × List Transaction) : Type 0 where
  pub rest : List Transaction
  pub all : Perm (r.1 ++ rest) (values m.transactions)
  pub best : IsSorted better (r.1 ++ rest)
  pub amount : length r.1 ≡ min max_count (length m.transactions)
  pub drained : Drained m r.0 r.1

-- `drain_batch` takes the best transactions of a well-formed pool, in order: as many as were asked
-- for or as there are, none of the rest is better, and the pool that is left is well formed.
pub drain_batch-IsBestBatch :
    (m : Mempool) (max_count : ℕ) → IsPool m → IsBestBatch m max_count (drain_batch m max_count)
unfolding drain_batch peek_best
drain_batch-IsBestBatch m k p =
    let sorted = sort_by better (values m.transactions) in
    let found =
      All-take (λ tx. Maps.get tx.hash m.transactions ≡ some tx) k sorted
        (All-sort_by _ better (values m.transactions) (values_found m p)) in
    let hashes = All-map m.transactions (λ e g. g.0) p.admissible in
    let distinct = take-DistinctHashes k sorted (
      sort_by-DistinctHashes (values m.transactions)
        (values-DistinctHashes m.transactions p.keys hashes)) in
    let (same, done) = drain-Found m (take k sorted) p found distinct in
    let whole : (drain m (map (λ tx. tx.hash) (take k sorted))).1 ++ drop k sorted ≡ sorted =
      ap (λ l. l ++ drop k sorted) same ∙ take-append-drop k sorted in
    record {
      rest = drop k sorted;
      all = rw whole (sort_by-perm better (values m.transactions));
      best = rw whole (sort_by-IsSorted better better-IsOrder (values m.transactions));
      amount =
          ap length same
          ∙ omega (
            arith,
            length-take k sorted,
            length-sort_by better (values m.transactions),
            length-values m.transactions,
          );
      drained = rw same done;
    }
