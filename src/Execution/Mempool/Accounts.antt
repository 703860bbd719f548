-- ===== src/Execution/Mempool/Accounts.antt =====
-- The account bookkeeping of ingress.rs, read as functions of the account and the nonce.
use eth.Prelude.{
  ℕ, ◌-◌, ◌≡◌, refl, true, false, not, ◌&&◌, ◌||◌, ◌==◌, ==_iff, List, [], ◌∷◌, filter,
  if◌then◌else◌, Option-cases, inl, inr, arith,
}
use eth.Prelude.Maps
use eth.Prelude.Maps.{nat_eq, get-insert, get-remove}
use eth.Execution.Mempool.{
  decrement_count, remove_nonce, count_or_zero, has_nonce, contains, add_nonce, is_nil,
}

pub count-decrement :
    (b a : ℕ) (counts : List (ℕ × ℕ))
    → count_or_zero (Maps.get a (decrement_count b counts)) ≡ (
        if b == a then count_or_zero (Maps.get b counts) - 1 else count_or_zero (Maps.get a counts))
unfolding decrement_count
count-decrement b a counts = elim (Option-cases (Maps.get b counts)) [
  | inl e ↦ ground (arith, e, ==_iff b a)
  | inr (n, e) ↦ ground (arith, e, get-remove b a counts, get-insert b a (n - 1) counts, ==_iff b a)
]

contains-filter :
    (k n : ℕ) (l : List ℕ)
    → contains n (filter (λ x. not (x == k)) l) ≡ (if k == n then false else contains n l)
contains-filter k n [] = ground arith
contains-filter k n (x ∷ l) = ground (arith, contains-filter k n l)

contains_nil : (l : List ℕ) (n : ℕ) → is_nil l ≡ true → contains n l ≡ false
contains_nil [] n h = refl
contains_nil (x ∷ l) n h = cc

pub has_nonce-remove :
    (b k a n : ℕ) (nonces : List (ℕ × List ℕ))
    → has_nonce n (Maps.get a (remove_nonce b k nonces))
      ≡ (if b == a && k == n then false else has_nonce n (Maps.get a nonces))
unfolding remove_nonce
has_nonce-remove b k a n nonces = elim (Option-cases (Maps.get b nonces)) [
  | inl e ↦ ground (arith, e, ==_iff b a)
  | inr (l, e) ↦
      let left = filter (λ x. not (x == k)) l in
      ground (
        arith,
        e,
        get-remove b a nonces,
        get-insert b a left nonces,
        ==_iff b a,
        contains-filter k n l,
        contains_nil left n,
      )
]

pub contains-add : (k n : ℕ) (l : List ℕ) → contains n (add_nonce k l) ≡ (k == n || contains n l)
contains-add k n l = ground (arith, ==_iff k n)
