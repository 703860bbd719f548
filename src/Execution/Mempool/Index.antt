-- ===== src/Execution/Mempool/Index.antt =====
-- What the transactions of a pool of ingress.rs say of an account: how many it sent, and which
-- nonces it uses.
use eth.Prelude.{
  ℕ, ◌+◌, ◌≡◌, ◌≢◌, refl, Bool, true, false, ◌&&◌, ◌||◌, ◌==◌, ==_iff, ==_refl, none, some, List,
  [], ◌∷◌, All, length, if◌then◌else◌, Bool-cases, inl, inr, arith,
}
use eth.Prelude.Maps
use eth.Prelude.Maps.{nat_eq}
use eth.Prelude.Members.{FreshKey, UniqueKeys}
use eth.Execution.Mempool.{Transaction}

abbrev pub Pool : Type 0
Pool = List (ℕ × Transaction)

abbrev pub sent_by : ℕ → Pool → ℕ
sent_by a [] = 0
sent_by a ((h, tx) ∷ txs) = (if tx.from == a then 1 else 0) + sent_by a txs

abbrev pub uses : ℕ → ℕ → Pool → Bool
uses a n [] = false
uses a n ((h, tx) ∷ txs) = (tx.from == a && tx.nonce == n) || uses a n txs

-- No two transactions of one account have one nonce.
abbrev pub UniqueSlots : Pool → Type 0
UniqueSlots [] = Unit {0}
UniqueSlots ((h, tx) ∷ txs) = (uses tx.from tx.nonce txs ≡ false) × UniqueSlots txs

remove-FreshKey : (h : ℕ) (txs : Pool) → FreshKey h txs → Maps.remove h txs ≡ txs
unfolding Maps.remove
remove-FreshKey h [] f = refl
remove-FreshKey h ((k, tx) ∷ txs) f = ground (arith, remove-FreshKey h txs f.1, f.0)

-- A removed transaction is taken off every count.
pub sent_by-remove :
    (h a : ℕ) (tx : Transaction) (txs : Pool)
    → UniqueKeys txs
    → Maps.get h txs ≡ some tx
    → (if tx.from == a then 1 else 0) + sent_by a (Maps.remove h txs) ≡ sent_by a txs
unfolding Maps.get Maps.remove
sent_by-remove h a tx [] u e = cc
sent_by-remove h a tx ((k, t) ∷ txs) u e = elim (Bool-cases (k == h)) [
  | inl hit ↦ ground (arith, hit, e, remove-FreshKey h txs, remove-FreshKey k txs u.0, ==_iff k h)
  | inr miss ↦ ground (arith, miss, e, sent_by-remove h a tx txs u.1)
]

pub length-remove :
    (h : ℕ) (tx : Transaction) (txs : Pool)
    → UniqueKeys txs
    → Maps.get h txs ≡ some tx
    → length (Maps.remove h txs) + 1 ≡ length txs
unfolding Maps.get Maps.remove
length-remove h tx [] u e = cc
length-remove h tx ((k, t) ∷ txs) u e = elim (Bool-cases (k == h)) [
  | inl hit ↦ ground (arith, hit, e, remove-FreshKey k txs u.0, ==_iff k h)
  | inr miss ↦ ground (arith, miss, e, length-remove h tx txs u.1)
]

pub uses-remove_le :
    (h a n : ℕ) (txs : Pool) → uses a n txs ≡ false → uses a n (Maps.remove h txs) ≡ false
unfolding Maps.remove
uses-remove_le h a n [] e = refl
uses-remove_le h a n ((k, t) ∷ txs) e = ground (arith, uses-remove_le h a n txs, e)

pub remove-UniqueSlots : (h : ℕ) (txs : Pool) → UniqueSlots txs → UniqueSlots (Maps.remove h txs)
unfolding Maps.remove
remove-UniqueSlots h [] s = tt
remove-UniqueSlots h ((k, t) ∷ txs) s =
    ground (arith, remove-UniqueSlots h txs s.1, uses-remove_le h t.from t.nonce txs s.0)

pub uses-get :
    (h : ℕ) (tx : Transaction) (txs : Pool)
    → Maps.get h txs ≡ some tx
    → uses tx.from tx.nonce txs ≡ true
unfolding Maps.get
uses-get h tx [] e = cc
uses-get h tx ((k, t) ∷ txs) e =
    ground (arith, e, uses-get h tx txs, ==_refl tx.from, ==_refl tx.nonce)

-- The nonce of a removed transaction is free, all others are as they were.
pub uses-remove :
    (h a n : ℕ) (tx : Transaction) (txs : Pool)
    → UniqueKeys txs
    → UniqueSlots txs
    → Maps.get h txs ≡ some tx
    → uses a n (Maps.remove h txs) ≡ (if tx.from == a && tx.nonce == n then false else uses a n txs)
unfolding Maps.get Maps.remove
uses-remove h a n tx [] u s e = cc
uses-remove h a n tx ((k, t) ∷ txs) u s e = elim (Bool-cases (k == h)) [
  | inl hit ↦
      ground (
        arith,
        hit,
        e,
        s.0,
        remove-FreshKey k txs u.0,
        ==_iff k h,
        ==_iff t.from a,
        ==_iff t.nonce n,
      )
  | inr miss ↦ ground (
    arith,
    miss,
    e,
    s.0,
    uses-remove h a n tx txs u.1 s.1,
    uses-get h tx txs,
    ==_iff t.from a,
    ==_iff t.nonce n,
    ==_iff tx.from a,
    ==_iff tx.nonce n,
  )
]

pub sent_by-insert :
    (h a : ℕ) (tx : Transaction) (txs : Pool)
    → Maps.get h txs ≡ none
    → sent_by a (Maps.insert h tx txs) ≡ (if tx.from == a then 1 else 0) + sent_by a txs
unfolding Maps.get Maps.insert
sent_by-insert h a tx [] e = omega arith
sent_by-insert h a tx ((k, t) ∷ txs) e = ground (arith, e, sent_by-insert h a tx txs)

pub uses-insert :
    (h a n : ℕ) (tx : Transaction) (txs : Pool)
    → Maps.get h txs ≡ none
    → uses a n (Maps.insert h tx txs) ≡ ((tx.from == a && tx.nonce == n) || uses a n txs)
unfolding Maps.get Maps.insert
uses-insert h a n tx [] e = refl
uses-insert h a n tx ((k, t) ∷ txs) e = ground (arith, e, uses-insert h a n tx txs)

pub insert-UniqueSlots :
    (h : ℕ) (tx : Transaction) (txs : Pool)
    → Maps.get h txs ≡ none
    → uses tx.from tx.nonce txs ≡ false
    → UniqueSlots txs
    → UniqueSlots (Maps.insert h tx txs)
unfolding Maps.get Maps.insert
insert-UniqueSlots h tx [] e f s = (refl, tt)
insert-UniqueSlots h tx ((k, t) ∷ txs) e f s = ground (
  arith,
  e,
  f,
  s.0,
  insert-UniqueSlots h tx txs,
  s.1,
  uses-insert h t.from t.nonce tx txs,
  ==_iff tx.from t.from,
  ==_iff tx.nonce t.nonce,
  ==_iff t.from tx.from,
  ==_iff t.nonce tx.nonce,
)

-- A property of every entry, under a write of a new key and a removal.
pub All-insert {κ} :
    (P : ℕ × Transaction → Type κ) (h : ℕ) (tx : Transaction) (txs : Pool)
    → P (h, tx)
    → All P txs
    → All P (Maps.insert h tx txs)
unfolding Maps.insert
All-insert P h tx [] p g = (p, tt)
All-insert P h tx ((k, t) ∷ txs) p g = elim (Bool-cases (k == h)) [
  | inl hit ↦ rw hit (p, g.1)
  | inr miss ↦ rw miss (g.0, All-insert P h tx txs p g.1)
]

pub All-remove {κ} :
    (P : ℕ × Transaction → Type κ) (h : ℕ) (txs : Pool) → All P txs → All P (Maps.remove h txs)
unfolding Maps.remove
All-remove P h [] g = tt
All-remove P h ((k, t) ∷ txs) g = elim (Bool-cases (k == h)) [
  | inl hit ↦ rw hit (All-remove P h txs g.1)
  | inr miss ↦ rw miss (g.0, All-remove P h txs g.1)
]

pub remove-UniqueKeys : (h : ℕ) (txs : Pool) → UniqueKeys txs → UniqueKeys (Maps.remove h txs)
unfolding Maps.remove
remove-UniqueKeys h [] u = tt
remove-UniqueKeys h ((k, t) ∷ txs) u = elim (Bool-cases (k == h)) [
  | inl hit ↦ rw hit (remove-UniqueKeys h txs u.1)
  | inr miss ↦ rw miss (All-remove (λ e. e.0 ≢ k) h txs u.0, remove-UniqueKeys h txs u.1)
]
