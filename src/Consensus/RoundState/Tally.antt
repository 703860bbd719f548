-- ===== src/Consensus/RoundState/Tally.antt =====
-- The tallies of consensus.rs: what a tally records, and which hash reaches the quorum.
use native.Mathlib.Bridge.{le_prop}
use mathlib.Core.Logic.{∥∥₁_elim}
use mathlib.Core.List.{Perm}
use mathlib.Core.List.Perm
use mathlib.Core.HLevel.{⊥_prop}
use eth.Prelude.{
  ℕ, ◌+◌, ◌≤◌, ◌<◌, min, ◌≡◌, ◌≢◌, ap, ◌∙◌, true, ◌==◌, leb, leb→le, Option, none, some, [], ◌∷◌,
  find?, find?_sound, if◌then◌else◌, u64_max, sat_add64, arith, Option-cases, inl, inr,
}
use eth.Prelude.Maps
use eth.Prelude.Maps.{nat_eq, pair_eq, get-insert}
use eth.Prelude.Members.{
  find?-Memᴰ, find?_complete, get-Memᴰ, Memᴰ-get, UniqueKeys, insert-UniqueKeys,
}
use eth.Consensus.Validator.{ValidatorSet, weight_of}
use eth.Consensus.RoundState.{
  Votes, Tally, add_weight, tally_vote, tally_from, quorum_hash, value_or_zero, hash_of,
}

-- The weight recorded for a hash.
abbrev pub value : ℕ → Tally → ℕ
value hash t = value_or_zero (Maps.get hash t)

-- The weight that one vote gives a hash in a round.
abbrev pub vote_weight : ValidatorSet → ℕ → ℕ → ℕ → ℕ → Option ℕ → ℕ
vote_weight vs round hash vote_round voter none = 0
vote_weight vs round hash vote_round voter (some h) =
    if vote_round == round then if h == hash then weight_of vs voter else 0 else 0

-- The weight of the validators that voted for the hash in the round.
abbrev pub weight_for : ValidatorSet → ℕ → ℕ → Votes → ℕ
weight_for vs round hash [] = 0
weight_for vs round hash (((r, voter), h) ∷ votes) =
    vote_weight vs round hash r voter h + weight_for vs round hash votes

value-add_weight :
    (h k w : ℕ) (t : Tally)
    → value k (add_weight h w t) ≡ (if h == k then sat_add64 (value h t) w else value k t)
unfolding add_weight
value-add_weight h k w t = ground (arith, get-insert h k (sat_add64 (value h t) w) t)

value-tally_vote :
    (vs : ValidatorSet) (round hash r voter : ℕ) (h : Option ℕ) (t : Tally)
    → value hash t ≤ u64_max
    → value hash (tally_vote vs round r voter h t)
      ≡ min u64_max (value hash t + vote_weight vs round hash r voter h)
unfolding tally_vote
value-tally_vote vs round hash r voter none t le = omega arith
value-tally_vote vs round hash r voter (some h) t le =
    ground (arith, value-add_weight h hash (weight_of vs voter) t)

-- A tally records for each hash the sum of the weights voted for it, saturated.
value-tally_from :
    (vs : ValidatorSet) (round hash : ℕ) (t : Tally) (votes : Votes)
    → value hash t ≤ u64_max
    → value hash (tally_from vs round t votes)
      ≡ min u64_max (value hash t + weight_for vs round hash votes)
unfolding tally_from
value-tally_from vs round hash t [] le = omega arith
value-tally_from vs round hash t (((r, voter), h) ∷ votes) le = omega (
  arith,
  value-tally_vote vs round hash r voter h t le,
  value-tally_from vs round hash (tally_vote vs round r voter h t) votes,
)

tally_vote-UniqueKeys :
    (vs : ValidatorSet) (round r voter : ℕ) (h : Option ℕ) (t : Tally)
    → UniqueKeys t
    → UniqueKeys (tally_vote vs round r voter h t)
unfolding tally_vote add_weight
tally_vote-UniqueKeys vs round r voter none t u = u
tally_vote-UniqueKeys vs round r voter (some h) t u =
    ground (arith, insert-UniqueKeys h (sat_add64 (value h t) (weight_of vs voter)) t u)

tally_from-UniqueKeys :
    (vs : ValidatorSet) (round : ℕ) (t : Tally) (votes : Votes)
    → UniqueKeys t
    → UniqueKeys (tally_from vs round t votes)
unfolding tally_from
tally_from-UniqueKeys vs round t [] u = u
tally_from-UniqueKeys vs round t (((r, voter), h) ∷ votes) u =
    tally_from-UniqueKeys vs round (tally_vote vs round r voter h t) votes
      (tally_vote-UniqueKeys vs round r voter h t u)

-- `visit` lists the entries of a tally in some order, each once.
abbrev pub Visits : (Tally → Tally) → Type 0
Visits visit = (t : Tally) → Perm (visit t) t

module _ (visit : Tally → Tally) (visits : Visits visit) where
  quorum_hash_reached :
      (t : Tally) (quorum hash : ℕ)
      → UniqueKeys t
      → quorum_hash visit t quorum ≡ some hash
      → quorum ≤ value hash t
  unfolding quorum_hash
  quorum_hash_reached t quorum hash u e =
      elim (Option-cases (find? (λ x. leb quorum x.1) (visit t))) [
        | inl missing ↦ absurd (cc (ap hash_of missing))
        | inr ((h, w), found) ↦
            let same : h ≡ hash = ground (arith, found, e) in
            let enough : quorum ≤ w =
              leb→le quorum w (find?_sound (λ x. leb quorum x.1) (visit t) (h, w) found) in
            ∥∥₁_elim ((Perm.mem_iff (visits t)).0 ∣ find?-Memᴰ _ (visit t) (h, w) found ∣₁) le_prop
              λ m. ground (arith, Memᴰ-get h w t u m)
      ]

  quorum_hash_found :
      (t : Tally) (quorum hash : ℕ)
      → 0 < quorum
      → quorum ≤ value hash t
      → quorum_hash visit t quorum ≢ none
  unfolding quorum_hash
  quorum_hash_found t quorum hash pos le e = elim (Option-cases (Maps.get hash t)) [
    | inl missing ↦ ground (arith, missing)
    | inr (w, at) ↦
        let big : leb quorum w ≡ true = ground (arith, at) in
        let empty : find? (λ x. leb quorum x.1) (visit t) ≡ none = ground (arith, e) in
        ∥∥₁_elim ((Perm.mem_iff (visits t)).1 ∣ get-Memᴰ hash w t at ∣₁) ⊥_prop
          λ m. find?_complete (λ x. leb quorum x.1) (visit t) (hash, w) m big empty
  ]

module _ (visit : Tally → Tally) (visits : Visits visit) (vs : ValidatorSet) (round quorum hash : ℕ)
    (votes : Votes) where
  tallied : value hash (tally_from vs round [] votes) ≡ min u64_max (weight_for vs round hash votes)
  unfolding Maps.get
  tallied = value-tally_from vs round hash [] votes (omega arith) ∙ omega arith

  -- The hash that a tally finds has votes of the quorum's weight in that round, whatever the order
  -- in which the tally is visited.
  pub tally_quorum_reached :
      quorum_hash visit (tally_from vs round [] votes) quorum ≡ some hash
      → quorum ≤ weight_for vs round hash votes
  tally_quorum_reached e = omega (
    arith,
    tallied,
    quorum_hash_reached visit visits (tally_from vs round [] votes) quorum hash
        (tally_from-UniqueKeys vs round [] votes tt) e,
  )

  -- If a hash has votes of the quorum's weight, some hash is found.
  pub tally_quorum_found :
      0 < quorum
      → quorum ≤ u64_max
      → quorum ≤ weight_for vs round hash votes
      → quorum_hash visit (tally_from vs round [] votes) quorum ≢ none
  tally_quorum_found pos fits le =
      quorum_hash_found visit visits (tally_from vs round [] votes) quorum hash pos
        (omega (arith, tallied))
