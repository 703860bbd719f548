-- ===== src/Execution/Mempool.antt =====
-- crates/eth2077-execution/src/ingress.rs: the transaction pool and the ingress pipeline. Hashes
-- and addresses are the numbers that their bytes spell; a `BTreeMap` is an association list and a
-- `BTreeSet` a list. The order of the maps is visible only where the eviction meets equal
-- candidates, whose order `sort_unstable_by` leaves open.
pub mod Accounts
pub mod Index
pub mod Invariant
pub mod Insert
pub mod Eviction
pub mod Admission
pub mod Drain
use eth.Prelude.{
  ℕ, zero, suc, ◌+◌, ◌-◌, ◌*◌, ◌/◌, min, max, Bool, true, false, not, ◌&&◌, ◌||◌, ◌==◌, ltb, leb,
  Option, none, some, List, [], ◌∷◌, ◌++◌, map, length, take, any, filter, if◌then◌else◌,
}
use eth.Prelude.Maps
use eth.Prelude.Maps.{nat_eq}
use eth.Prelude.Sort.{sort_by}

pub record Transaction : Type 0 where
  pub hash : ℕ
  pub from : ℕ
  pub to : ℕ
  pub nonce : ℕ
  pub gas_limit : ℕ
  pub gas_price : ℕ
  pub value : ℕ
  pub payload : List ℕ

pub data IngressError : Type 0 where
  duplicate_transaction invalid_nonce insufficient_gas mempool_full validation_failed : IngressError

pub data Result : Type 0 where
  ok : Result
  err : IngressError → Result

pub record MempoolConfig : Type 0 where
  pub max_size : ℕ
  pub max_per_account : ℕ
  pub min_gas_price : ℕ
  pub eviction_threshold_percent : ℕ

pub record Mempool : Type 0 where
  pub config : MempoolConfig
  pub transactions : List (ℕ × Transaction)
  pub account_counts : List (ℕ × ℕ)
  pub account_nonces : List (ℕ × List ℕ)

unfoldable pub new : MempoolConfig → Mempool
new c = record { config = c; transactions = []; account_counts = []; account_nonces = [] }

unfoldable pub clear : Mempool → Mempool
clear m = record m { transactions = []; account_counts = []; account_nonces = [] }

unfoldable pub len : Mempool → ℕ
len m = length m.transactions

abbrev pub is_full : Mempool → Bool
is_full m = leb m.config.max_size (length m.transactions)

abbrev pub contains_key : {V : Type 0} → Option V → Bool
contains_key none = false
contains_key (some _) = true

abbrev pub count_or_zero : Option ℕ → ℕ
count_or_zero none = 0
count_or_zero (some n) = n

abbrev pub contains : ℕ → List ℕ → Bool
contains n = any (λ x. x == n)

-- `is_some_and(|nonces| nonces.contains(nonce))`
abbrev pub has_nonce : ℕ → Option (List ℕ) → Bool
has_nonce n none = false
has_nonce n (some nonces) = contains n nonces

unfoldable pub validate_candidate : Mempool → Transaction → Result
validate_candidate m tx =
    if contains_key (Maps.get tx.hash m.transactions)
    then err duplicate_transaction
    else if tx.gas_limit == 0 || ltb tx.gas_price m.config.min_gas_price
    then err insufficient_gas
    else if has_nonce tx.nonce (Maps.get tx.from m.account_nonces)
    then err invalid_nonce
    else if leb m.config.max_per_account (count_or_zero (Maps.get tx.from m.account_counts))
    then err validation_failed
    else ok

unfoldable pub suggested_eviction_count : Mempool → ℕ
suggested_eviction_count m =
    let percent = min m.config.eviction_threshold_percent 100 in
    if percent == 0 then 0 else max (max m.config.max_size 1 * percent / 100) 1

-- The count of an account falls by one; an entry that reaches 0 goes.
unfoldable pub decrement_count : ℕ → List (ℕ × ℕ) → List (ℕ × ℕ)
decrement_count a counts = elim (Maps.get a counts) [
  | none ↦ counts
  | some n ↦ if n - 1 == 0 then Maps.remove a counts else Maps.insert a (n - 1) counts
]

abbrev pub is_nil : {A : Type 0} → List A → Bool
is_nil [] = true
is_nil (_ ∷ _) = false

-- The nonce leaves the set of the account; an empty set goes.
unfoldable pub remove_nonce : ℕ → ℕ → List (ℕ × List ℕ) → List (ℕ × List ℕ)
remove_nonce a nonce nonces = elim (Maps.get a nonces) [
  | none ↦ nonces
  | some set ↦
      let left = filter (λ x. not (x == nonce)) set in
      if is_nil left then Maps.remove a nonces else Maps.insert a left nonces
]

unfoldable pub decrement_account_state : Mempool → Transaction → Mempool
unfolding decrement_count remove_nonce
decrement_account_state m tx = record m {
  account_counts = decrement_count tx.from m.account_counts;
  account_nonces = remove_nonce tx.from tx.nonce m.account_nonces;
}

unfoldable pub remove : Mempool → ℕ → Mempool × Option Transaction
unfolding decrement_account_state
remove m hash = elim (Maps.get hash m.transactions) [
  | none ↦ (m, none)
  | some tx ↦ (
    decrement_account_state (record m { transactions = Maps.remove hash m.transactions }) tx,
    some tx,
  )
]

abbrev pub values : List (ℕ × Transaction) → List Transaction
values = map (λ e. e.1)

-- price descending, then nonce and hash ascending
abbrev pub better : Transaction → Transaction → Bool
better a b =
    ltb b.gas_price a.gas_price
    || (a.gas_price == b.gas_price
        && (ltb a.nonce b.nonce || (a.nonce == b.nonce && leb a.hash b.hash)))

unfoldable pub peek_best : Mempool → ℕ → List Transaction
peek_best m count = take count (sort_by better (values m.transactions))

-- price ascending, then nonce descending
abbrev pub cheaper : Transaction → Transaction → Bool
cheaper a b = ltb a.gas_price b.gas_price || (a.gas_price == b.gas_price && leb b.nonce a.nonce)

unfoldable pub evict_loop : Mempool → ℕ → List Transaction → Mempool
evict_loop m to_evict [] = m
evict_loop m to_evict (tx ∷ candidates) =
    let rest = evict_loop (remove m tx.hash).0 (to_evict - 1) candidates in
    if not (is_full m) || to_evict == 0 then m else rest

unfoldable pub evict_lowest_gas : Mempool → ℕ → Mempool
evict_lowest_gas m to_evict =
    if to_evict == 0 || is_nil m.transactions
    then m
    else evict_loop m to_evict (sort_by cheaper (values m.transactions))

abbrev pub nonces_or_empty : Option (List ℕ) → List ℕ
nonces_or_empty none = []
nonces_or_empty (some l) = l

-- `BTreeSet::insert`
abbrev pub add_nonce : ℕ → List ℕ → List ℕ
add_nonce n l = if contains n l then l else n ∷ l

-- The three updates at the end of `insert`.
unfoldable pub store : Mempool → Transaction → Mempool
store m tx = record m {
  account_counts =
      Maps.insert tx.from (count_or_zero (Maps.get tx.from m.account_counts) + 1) m.account_counts;
  account_nonces =
      Maps.insert tx.from (add_nonce tx.nonce (nonces_or_empty (Maps.get tx.from m.account_nonces)))
        m.account_nonces;
  transactions = Maps.insert tx.hash tx m.transactions;
}

unfoldable pub store_checked : Mempool → Transaction → Mempool × Result
store_checked m tx = if is_full m then (m, err mempool_full) else (store m tx, ok)

unfoldable pub insert_validated : Mempool → Transaction → Mempool × Result
insert_validated m tx =
    if is_full m
    then if suggested_eviction_count m == 0
      then (m, err mempool_full)
      else store_checked (evict_lowest_gas m (suggested_eviction_count m)) tx
    else store_checked m tx

unfoldable pub insert : Mempool → Transaction → Mempool × Result
insert m tx = elim (validate_candidate m tx) [ err e ↦ (m, err e) | ok ↦ insert_validated m tx ]

-- `IngressPipeline` holds one mempool: `submit` validates, and `insert` validates again.
unfoldable pub submit : Mempool → Transaction → Mempool × Result
submit m tx = elim (validate_candidate m tx) [ err e ↦ (m, err e) | ok ↦ insert m tx ]

abbrev pub keep_some : Option Transaction → List Transaction → List Transaction
keep_some none l = l
keep_some (some tx) l = tx ∷ l

-- The removals of `drain_batch`.
unfoldable pub drain : Mempool → List ℕ → Mempool × List Transaction
drain m [] = (m, [])
drain m (hash ∷ hashes) =
    let (m', tx) = remove m hash in let (last, txs) = drain m' hashes in (last, keep_some tx txs)

unfoldable pub drain_batch : Mempool → ℕ → Mempool × List Transaction
drain_batch m max_count = drain m (map (λ tx. tx.hash) (peek_best m max_count))
