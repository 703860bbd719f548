-- ===== src/Consensus/Engine/Agreement.antt =====
-- Two nodes that finalize different hashes in one round of consensus.rs: who must have voted twice.
use eth.Prelude.{
  ℕ, ◌+◌, ◌-◌, ◌%◌, ◌≤◌, ◌≡◌, ap, subst, Bool, true, false, ◌&&◌, Option, none, some, List, [], ◌∷◌,
  arith, ◌==◌, ==_iff, pair_beq, ==_refl, u64_max, Bool-cases, inl, inr,
}
use eth.Prelude.Maps
use eth.Prelude.Maps.{nat_eq, pair_eq, pair_beq_iff}
use eth.Prelude.Members.{FreshKey, UniqueKeys, get-FreshKey}
use eth.Consensus.Validator.{Validator, ValidatorSet, new, quorum_weight, weight_of}
use eth.Consensus.Validator
use eth.Consensus.Validator.Quorum.{weight_by, weight_all, max_faulty, quorums_overlap}
use eth.Consensus.Engine.{ConsensusEngine}
use eth.Consensus.RoundState.{Votes}
use eth.Consensus.RoundState.Tally.{weight_for}

abbrev is_vote : Option (Option ℕ) → ℕ → Bool
is_vote none hash = false
is_vote (some none) hash = false
is_vote (some (some h)) hash = h == hash

-- The voters that voted for the hash in the round.
abbrev pub voted_for : Votes → ℕ → ℕ → ℕ → Bool
voted_for votes round hash voter = is_vote (Maps.get (round, voter) votes) hash

weight_by_mono :
    (p q : ℕ → Bool) (vs : List Validator)
    → ((i : ℕ) → p i ≡ true → q i ≡ true)
    → weight_by p vs ≤ weight_by q vs
weight_by_mono p q [] h = omega arith
weight_by_mono p q (v ∷ vs) h = ground (arith, weight_by_mono p q vs h, h v.index)

-- One more voter adds at least the voter's weight.
weight_by-add :
    (p q : ℕ → Bool) (s : ValidatorSet) (vs : List Validator) (voter : ℕ)
    → ((i : ℕ) → p i ≡ true → q i ≡ true)
    → p voter ≡ false
    → q voter ≡ true
    → weight_of (record s { validators = vs }) voter + weight_by p vs ≤ weight_by q vs
unfolding weight_of Validator.get
weight_by-add p q s [] voter h no_p is_q = omega arith
weight_by-add p q s (v ∷ vs) voter h no_p is_q = elim (Bool-cases (v.index == voter)) [
  | inl same ↦
      let e = (==_iff v.index voter).0 same in
      let out : p v.index ≡ false = rw e no_p in
      let into : q v.index ≡ true = rw e is_q in
      ground (arith, same, out, into, weight_by_mono p q vs h)
  | inr other ↦ ground (arith, other, weight_by-add p q s vs voter h no_p is_q, h v.index)
]

voted_for-cons :
    (r u round hash i : ℕ) (h : Option ℕ) (votes : Votes)
    → FreshKey (r, u) votes
    → voted_for votes round hash i ≡ true
    → voted_for (((r, u), h) ∷ votes) round hash i ≡ true
unfolding Maps.get
voted_for-cons r u round hash i h votes f t = elim (Bool-cases (pair_beq (r, u) (round, i))) [
  | inl same ↦
      let missing =
        subst (λ k. Maps.get k votes ≡ none) ((pair_beq_iff (r, u) (round, i)).0 same)
          (get-FreshKey (r, u) votes f) in
      cc (t, ap (λ o. is_vote o hash) missing)
  | inr other ↦ rw other t
]

voted_for_head :
    (r u round hash h : ℕ) (votes : Votes)
    → (r == round) ≡ true
    → (h == hash) ≡ true
    → voted_for (((r, u), some h) ∷ votes) round hash u ≡ true
unfolding Maps.get
voted_for_head r u round hash h votes at same = ground (arith, at, same, ==_refl u)

weight_for-le :
    (s : ValidatorSet) (round hash : ℕ) (votes : Votes)
    → UniqueKeys votes
    → weight_for s round hash votes ≤ weight_by (voted_for votes round hash) s.validators
weight_for-le s round hash [] k = omega arith
weight_for-le s round hash (((r, u), none) ∷ votes) k = omega (
  arith,
  weight_for-le s round hash votes k.1,
  weight_by_mono (voted_for votes round hash) (voted_for (((r, u), none) ∷ votes) round hash)
      s.validators (λ i. voted_for-cons r u round hash i none votes k.0),
)
weight_for-le s round hash (((r, u), some h) ∷ votes) k =
    let before = voted_for votes round hash in
    let after = voted_for (((r, u), some h) ∷ votes) round hash in
    let grows = λ (i : ℕ). voted_for-cons r u round hash i (some h) votes k.0 in
    let rest = weight_for-le s round hash votes k.1 in
    let more = weight_by_mono before after s.validators grows in
    elim (Bool-cases (r == round)) [
      | inr other ↦ rw other (omega (arith, rest, more))
      | inl at ↦ elim (Bool-cases (h == hash)) [
        | inr other ↦ rw (at, other) (omega (arith, rest, more))
        | inl same ↦
            let e = (==_iff r round).0 at in
            let absent : before u ≡ false =
              ap (λ o. is_vote o hash)
                (subst (λ x. Maps.get (x, u) votes ≡ none) e (get-FreshKey (r, u) votes k.0)) in
            let present : after u ≡ true = voted_for_head r u round hash h votes at same in
            rw (at, same)
              (omega
                (arith, rest, weight_by-add before after s s.validators u grows absent present))
      ]
    ]

-- When the total weight fits in a u64 and no node holds two precommits of a voter in a round: if
-- two nodes with the same validators hold precommits of the quorum's weight in one round, one
-- for each of two hashes, then the validators that precommitted both at the two nodes weigh more
-- than f = (total - 1) / 3, less the remainder of that division: f + 1 for a total of 3f + 1.
pub equivocation_needed :
    (vs : List Validator) (e1 e2 : ConsensusEngine) (round h1 h2 : ℕ)
    → weight_all vs ≤ u64_max
    → UniqueKeys e1.state.precommits
    → UniqueKeys e2.state.precommits
    → quorum_weight (new vs) ≤ weight_for (new vs) round h1 e1.state.precommits
    → quorum_weight (new vs) ≤ weight_for (new vs) round h2 e2.state.precommits
    → max_faulty (new vs) + 1
      ≤ weight_by
          (λ i.
            voted_for e1.state.precommits round h1 i && voted_for e2.state.precommits round h2 i)
          vs
        + ((new vs).total_weight - 1) % 3
unfolding new
equivocation_needed vs e1 e2 round h1 h2 fits u1 u2 q1 q2 =
    let p1 = voted_for e1.state.precommits round h1 in
    let p2 = voted_for e2.state.precommits round h2 in
    quorums_overlap vs p1 p2 fits
      (omega (arith, q1, weight_for-le (new vs) round h1 e1.state.precommits u1))
      (omega (arith, q2, weight_for-le (new vs) round h2 e2.state.precommits u2))
