-- ===== src/Examples/Pool.antt =====
-- The mempool, at two transactions of one account and one of another.
use eth.Prelude.{ℕ, ◌≡◌, refl, false, [], arith}
use eth.Prelude.Maps
use eth.Execution.Mempool
use eth.Execution.Mempool.{
  Transaction, MempoolConfig, Mempool, is_full, insert, submit, remove, evict_lowest_gas,
  drain_batch, insert_validated, store_checked, store, validate_candidate,
}
use eth.Execution.Mempool.Invariant.{IsPool, new-IsPool}
use eth.Execution.Mempool.Eviction.{Cheapest, evicts_one-Cheapest}
use eth.Execution.Mempool.Admission.{Admitted, insert-Admitted}
use eth.Execution.Mempool.Drain.{IsBestBatch, drain_batch-IsBestBatch}

abbrev config : MempoolConfig
config = record {
  max_size = 2;
  max_per_account = 2;
  min_gas_price = 1;
  eviction_threshold_percent = 100;
}

abbrev transfer : (hash from nonce price : ℕ) → Transaction
transfer hash from nonce price = record {
  hash = hash;
  from = from;
  to = 99;
  nonce = nonce;
  gas_limit = 21000;
  gas_price = price;
  value = 5;
  payload = [];
}

abbrev one : Mempool
one = (insert (Mempool.new config) (transfer 1 10 0 7)).0

one-IsPool : IsPool one
unfolding insert insert_validated store_checked validate_candidate Maps.get Mempool.new
one-IsPool = (insert-Admitted (Mempool.new config) (transfer 1 10 0 7) (new-IsPool config)).0

abbrev two : Mempool
two = (insert one (transfer 2 10 1 5)).0

two-IsPool : IsPool two
unfolding insert insert_validated store_checked store validate_candidate Maps.get Maps.insert
    Mempool.new
two-IsPool = (insert-Admitted one (transfer 2 10 1 5) one-IsPool).0

insert-Admitted_example : Admitted two (transfer 3 11 0 9) (insert two (transfer 3 11 0 9))
insert-Admitted_example = insert-Admitted two (transfer 3 11 0 9) two-IsPool

evicts_one-Cheapest_example :
    (tx : Transaction) × Cheapest two tx
    × (evict_lowest_gas two 2 ≡ (remove two tx.hash).0)
    × (is_full (evict_lowest_gas two 2) ≡ false)
unfolding insert insert_validated store_checked store validate_candidate Maps.get Maps.insert
    Mempool.new
evicts_one-Cheapest_example = evicts_one-Cheapest two 2 two-IsPool refl (omega arith) (omega arith)

drain_batch-IsBestBatch_example : IsBestBatch two 1 (drain_batch two 1)
drain_batch-IsBestBatch_example = drain_batch-IsBestBatch two 1 two-IsPool
