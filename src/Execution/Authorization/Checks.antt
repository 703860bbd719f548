-- ===== src/Execution/Authorization/Checks.antt =====
-- Which authorization lists eip7702.rs accepts.
use eth.Prelude.{
  ℕ, ◌+◌, ◌*◌, ◌≤◌, ◌<◌, ◌≡◌, ◌≢◌, refl, sym, ◌∙◌, ◌↔◌, ◌⊎◌, inl, inr, true, false, not, ◌&&◌, ◌==◌,
  ltb, subst, Bool-cases, List, [], ◌∷◌, ◌++◌, length, All, arith,
}
use eth.Execution.Authorization.{
  AuthorizationEntry, AuthorizationError, secp256k1_n, secp256k1_n_div_2, bytes32_less_than,
  bytes_eq, bytes32_less_than_or_equal, contains, entry_errors, errors_from,
  validate_authorization_list,
}

-- The number that the bytes spell after those of `acc`, big end first.
abbrev pub value_from : ℕ → List ℕ → ℕ
value_from acc [] = acc
value_from acc (b ∷ bs) = value_from (acc * 256 + b) bs

-- 32 bytes.
abbrev pub IsWord : List ℕ → Type 0
IsWord bs = (length bs ≡ 32) × All (λ b. b < 256) bs

value_from_lt :
    (x y : ℕ) (a b : List ℕ)
    → length a ≡ length b
    → All (λ c. c < 256) a
    → x < y
    → value_from x a < value_from y b
value_from_lt x y [] [] n s l = l
value_from_lt x y [] (r ∷ b) n s l = absurd (ground (arith, n))
value_from_lt x y (c ∷ a) [] n s l = absurd (ground (arith, n))
value_from_lt x y (c ∷ a) (d ∷ b) n s l =
    value_from_lt (x * 256 + c) (y * 256 + d) a b (omega (arith, n)) s.1 (omega (arith, l, s.0))

less_than_iff :
    (x : ℕ) (a b : List ℕ)
    → length a ≡ length b
    → All (λ c. c < 256) a
    → All (λ c. c < 256) b
    → (bytes32_less_than a b ≡ true) ↔ (value_from x a < value_from x b)
unfolding bytes32_less_than
less_than_iff x [] [] n s t = ground arith
less_than_iff x [] (d ∷ b) n s t = absurd (ground (arith, n))
less_than_iff x (c ∷ a) [] n s t = absurd (ground (arith, n))
less_than_iff x (c ∷ a) (d ∷ b) n s t =
    let same : length a ≡ length b = omega (arith, n) in
    elim (Bool-cases (ltb c d)) [
      | inl below ↦
          let smaller =
            value_from_lt (x * 256 + c) (x * 256 + d) a b same s.1 (ground (arith, below)) in
          (λ _. smaller, λ _. rw below refl)
      | inr not_below ↦ elim (Bool-cases (ltb d c)) [
        | inl above ↦
            let larger =
              value_from_lt (x * 256 + d) (x * 256 + c) b a (sym same) t.1
                (ground (arith, above)) in
            (
              λ e. absurd (ground (arith, e, not_below, above)),
              λ l. absurd (omega (arith, l, larger)),
            )
        | inr not_above ↦
            let equal : c ≡ d = ground (arith, not_below, not_above) in
            let rest = less_than_iff (x * 256 + c) a b same s.1 t.1 in
            (
              λ e.
                  subst (λ y. value_from (x * 256 + c) a < value_from (x * 256 + y) b) equal
                    (rest.0 (ground (arith, e, not_below, not_above))),
              λ l.
                  let l' =
                    subst (λ y. value_from (x * 256 + c) a < value_from (x * 256 + y) b) (sym equal)
                      l in
                  rw (not_below, not_above) (rest.1 l'),
            )
      ]
    ]

bytes_eq-value : (x : ℕ) (a b : List ℕ) → bytes_eq a b ≡ true → value_from x a ≡ value_from x b
unfolding bytes_eq
bytes_eq-value x [] [] e = refl
bytes_eq-value x [] (d ∷ b) e = absurd (ground (arith, e))
bytes_eq-value x (c ∷ a) [] e = absurd (ground (arith, e))
bytes_eq-value x (c ∷ a) (d ∷ b) e =
    let equal : c ≡ d = ground (arith, e) in
    let rest = bytes_eq-value (x * 256 + c) a b (ground (arith, e)) in
    subst (λ y. value_from (x * 256 + c) a ≡ value_from (x * 256 + y) b) equal rest

trichotomy :
    (a b : List ℕ)
    → length a ≡ length b
    → (bytes_eq a b ≡ true) ⊎ ((bytes32_less_than a b ≡ true) ⊎ (bytes32_less_than b a ≡ true))
unfolding bytes_eq bytes32_less_than
trichotomy [] [] n = inl refl
trichotomy [] (d ∷ b) n = absurd (ground (arith, n))
trichotomy (c ∷ a) [] n = absurd (ground (arith, n))
trichotomy (c ∷ a) (d ∷ b) n = elim (trichotomy a b (omega (arith, n))) [
  | inl e ↦ ground (arith, e)
  | inr (inl l) ↦ ground (arith, l)
  | inr (inr g) ↦ ground (arith, g)
]

-- The two comparisons are those of the numbers that the words spell.
less_than_word :
    (a b : List ℕ)
    → IsWord a
    → IsWord b
    → (bytes32_less_than a b ≡ true) ↔ (value_from 0 a < value_from 0 b)
less_than_word a b s t = less_than_iff 0 a b (s.0 ∙ sym t.0) s.1 t.1

less_than_or_equal_word :
    (a b : List ℕ)
    → IsWord a
    → IsWord b
    → (bytes32_less_than_or_equal a b ≡ true) ↔ (value_from 0 a ≤ value_from 0 b)
unfolding bytes32_less_than_or_equal
less_than_or_equal_word a b s t = (
  λ e. elim (Bool-cases (bytes_eq a b)) [
    | inl equal ↦ omega (arith, bytes_eq-value 0 a b equal)
    | inr other ↦ omega (arith, (less_than_word a b s t).0 (ground (arith, e, other)))
  ],
  λ l. elim (trichotomy a b (s.0 ∙ sym t.0)) [
    | inl equal ↦ rw equal refl
    | inr (inl less) ↦ ground (arith, less)
    | inr (inr greater) ↦ absurd (omega (arith, l, (less_than_word b a t s).0 greater))
  ],
)

-- The description of an acceptable entry.
pub record IsAcceptable (expected : ℕ) (seen : List ℕ) (a : AuthorizationEntry) : Type 0 where
  pub chain : (a.chain_id ≡ 0) ⊎ (a.chain_id ≡ expected)
  pub parity : a.y_parity ≤ 1
  pub address : a.address ≢ 0
  pub fresh : contains a.address seen ≡ false
  pub r_small : value_from 0 a.r < value_from 0 secp256k1_n
  pub s_low : value_from 0 a.s ≤ value_from 0 secp256k1_n_div_2

-- Every entry is acceptable, and no address stands twice or in `seen`.
abbrev pub AllAcceptable : ℕ → List ℕ → List AuthorizationEntry → Type 0
AllAcceptable expected seen [] = Unit {0}
AllAcceptable expected seen (a ∷ rest) =
    IsAcceptable expected seen a × AllAcceptable expected (a.address ∷ seen) rest

-- The signature words of an entry have 32 bytes.
abbrev pub HasWords : AuthorizationEntry → Type 0
HasWords a = IsWord a.r × IsWord a.s

n-IsWord : IsWord secp256k1_n
n-IsWord = ground arith

pub half-IsWord : IsWord secp256k1_n_div_2
half-IsWord = ground arith

entry_errors_iff :
    (expected : ℕ) (seen : List ℕ) (index : ℕ) (a : AuthorizationEntry)
    → HasWords a
    → (entry_errors expected seen index a ≡ []) ↔ IsAcceptable expected seen a
unfolding entry_errors
entry_errors_iff expected seen index a w =
    let r = less_than_word a.r secp256k1_n w.0 n-IsWord in
    let s = less_than_or_equal_word a.s secp256k1_n_div_2 w.1 half-IsWord in
    (
      λ e.
          let fresh : contains a.address seen ≡ false = ground (arith, e) in
          let small : bytes32_less_than a.r secp256k1_n ≡ true = ground (arith, e) in
          let low : bytes32_less_than_or_equal a.s secp256k1_n_div_2 ≡ true = ground (arith, e) in
          record {
            chain = ground (arith, e);
            parity = ground (arith, e);
            address = ground (arith, e);
            fresh = fresh;
            r_small = r.0 small;
            s_low = s.0 low;
          },
      λ ok.
          let chain : (not (a.chain_id == 0) && not (a.chain_id == expected)) ≡ false =
            ground (arith, ok.chain) in
          let parity : (not (a.y_parity == 0) && not (a.y_parity == 1)) ≡ false =
            ground (arith, ok.parity) in
          let zero_free : (a.address == 0) ≡ false = ground (arith, ok.address) in
          rw (chain, parity, zero_free, ok.fresh, r.1 ok.r_small, s.1 ok.s_low) refl,
    )

append_nil : (xs ys : List AuthorizationError) → xs ++ ys ≡ [] → (xs ≡ []) × (ys ≡ [])
append_nil [] ys e = (refl, e)
append_nil (x ∷ xs) ys e = absurd (ground (arith, e))

errors_from_iff :
    (expected : ℕ) (seen : List ℕ) (index : ℕ) (entries : List AuthorizationEntry)
    → All HasWords entries
    → (errors_from expected seen index entries ≡ []) ↔ AllAcceptable expected seen entries
unfolding errors_from
errors_from_iff expected seen index [] w = (λ _. tt, λ _. refl)
errors_from_iff expected seen index (a ∷ rest) w =
    let first = entry_errors_iff expected seen index a w.0 in
    let later = errors_from_iff expected (a.address ∷ seen) (index + 1) rest w.1 in
    (
      λ e. let (e1, e2) = append_nil _ _ e in (first.0 e1, later.0 e2),
      λ (ok, oks). rw (first.1 ok, later.1 oks) refl,
    )

-- An authorization list whose signature words have 32 bytes is accepted exactly when it is not
-- empty, no address stands twice or is zero, each chain id is zero or the expected one, each parity
-- is 0 or 1, and r and s, read as numbers, are below the curve's order and at most half of it.
pub validate_authorization_list_iff :
    (authorizations : List AuthorizationEntry) (expected : ℕ)
    → All HasWords authorizations
    → (validate_authorization_list authorizations expected ≡ [])
      ↔ ((authorizations ≢ []) × AllAcceptable expected [] authorizations)
unfolding validate_authorization_list
validate_authorization_list_iff [] expected w =
    (λ e. absurd (ground (arith, e)), λ (ne, _). absurd (ne refl))
validate_authorization_list_iff (a ∷ rest) expected w =
    let all = errors_from_iff expected [] 0 (a ∷ rest) w in
    (λ e. (λ n. ground (arith, n), all.0 e), λ (_, ok). all.1 ok)
