-- ===== src/Consensus/Backend/Finality.antt =====
-- mock.rs: what is finalized, and that polling long enough finalizes.
use eth.Prelude.{
  ℕ, ◌+◌, ◌≤◌, ◌≡◌, refl, ap, ◌∙◌, false, ◌==◌, ==_iff, ltb, none, some, List, [], ◌∷◌, ◌++◌,
  if◌then◌else◌, arith, Bool-cases, Option-cases, inl, inr,
}
use eth.Prelude.Maps.{nat_eq, insert, get-insert}
use eth.Consensus.FastPath.{CommitmentEnvelope}
use eth.Consensus.Backend.{
  MockState, answer, error, invalid_commitment, finalized, submit_commitment, last_commitment,
  polls, poll_known, poll_finality, proof_of, Call, submitting, polling, run_call, run_calls,
}

pub last_commitment_hash :
    (h : ℕ) (cs : List CommitmentEnvelope) (c : CommitmentEnvelope)
    → last_commitment h cs ≡ some c
    → c.block_hash ≡ h
unfolding last_commitment
last_commitment_hash h [] c e = absurd (grind arith)
last_commitment_hash h (d ∷ cs) c e = elim (Option-cases (last_commitment h cs)) [
  | inl no_later ↦ ground (arith, no_later, e)
  | inr (later, found) ↦ last_commitment_hash h cs c (ground (arith, found, e))
]

-- A later commitment does not hide that the hash is known.
last_commitment-append :
    (h : ℕ) (cs : List CommitmentEnvelope) (d : CommitmentEnvelope)
    → last_commitment h (cs ++ (d ∷ []))
      ≡ (if d.block_hash == h then some d else last_commitment h cs)
unfolding last_commitment
last_commitment-append h [] d = refl
last_commitment-append h (c ∷ cs) d = elim (Bool-cases (d.block_hash == h)) [
  | inl same ↦ rw (last_commitment-append h cs d, same) refl
  | inr other ↦ rw (last_commitment-append h cs d, other) refl
]

-- A poll of a known hash keeps the commitments and the delay, and changes one counter.
pub poll_known-Keeps :
    (s : MockState) (h n : ℕ) (c : CommitmentEnvelope) (j : ℕ)
    → let t : MockState = (poll_known s h c n).0 in
      (t.commitments ≡ s.commitments)
      × (t.finality_delay ≡ s.finality_delay)
      × (polls t j ≡ (if h == j then n else polls s j))
unfolding poll_known
poll_known-Keeps s h n c j = elim (Bool-cases (ltb n s.finality_delay)) [
  | inl early ↦ rw early (refl, refl, counter)
  | inr due ↦ rw due (refl, refl, counter)
]
  where
    counter :
        polls (record s { poll_counts = insert h n s.poll_counts }) j
        ≡ (if h == j then n else polls s j)
    counter = ground (arith, get-insert h j n s.poll_counts)

abbrev pub Known : ℕ → MockState → Type 0
Known h s = (c : CommitmentEnvelope) × (last_commitment h s.commitments ≡ some c)

-- The polls of a hash among the calls.
unfoldable pub polls_of : ℕ → List Call → ℕ
polls_of h [] = 0
polls_of h (submitting c ∷ calls) = polls_of h calls
polls_of h (polling j ∷ calls) = if j == h then polls_of h calls + 1 else polls_of h calls

submitting-Known :
    (h : ℕ) (s : MockState) (d : CommitmentEnvelope) → Known h s → Known h (submit_commitment s d)
unfolding submit_commitment
submitting-Known h s d k = elim (Bool-cases (d.block_hash == h)) [
  | inl same ↦ (d, last_commitment-append h s.commitments d ∙ ground (arith, same))
  | inr other ↦ (k.0, last_commitment-append h s.commitments d ∙ ground (arith, other, k.1))
]

pub poll_unknown :
    (s : MockState) (h : ℕ)
    → last_commitment h s.commitments ≡ none
    → poll_finality s h ≡ (s, error invalid_commitment)
unfolding poll_finality
poll_unknown s h unknown = rw (unknown, poll_finality) refl

pub poll_found :
    (s : MockState) (h : ℕ) (c : CommitmentEnvelope)
    → last_commitment h s.commitments ≡ some c
    → poll_finality s h ≡ poll_known s h c (polls s h + 1)
unfolding poll_finality
poll_found s h c found = rw (found, poll_finality) refl

-- A poll of any hash loses no knowledge and no count.
poll-Progress :
    (h j : ℕ) (s : MockState)
    → Known h s
    → let t : MockState = (poll_finality s j).0 in
      Known h t
      × (t.finality_delay ≡ s.finality_delay)
      × (polls s h + (if j == h then 1 else 0) ≤ polls t h)
poll-Progress h j s k = elim (Option-cases (last_commitment j s.commitments)) [
  | inl unknown ↦ rw (poll_unknown s j unknown) (k, refl, other unknown)
  | inr (c, found) ↦
      let keeps = poll_known-Keeps s j (polls s j + 1) c h in
      rw (poll_found s j c found)
        ((k.0, ap (last_commitment h) keeps.0 ∙ k.1), keeps.1, ground (arith, keeps.2, ==_iff j h))
]
  where
    other :
        last_commitment j s.commitments ≡ none → polls s h + (if j == h then 1 else 0) ≤ polls s h
    other unknown = elim (Bool-cases (j == h)) [
      | inl same ↦ absurd (
          grind
            (arith, unknown, k.1, ap (λ i. last_commitment i s.commitments) ((==_iff j h).0 same)))
      | inr differ ↦ rw differ (omega arith)
    ]

run_calls-Progress :
    (h : ℕ) (s : MockState) (calls : List Call)
    → Known h s
    → Known h (run_calls s calls)
      × ((run_calls s calls).finality_delay ≡ s.finality_delay)
      × (polls s h + polls_of h calls ≤ polls (run_calls s calls) h)
unfolding run_calls run_call polls_of submit_commitment
run_calls-Progress h s [] k = (k, refl, omega arith)
run_calls-Progress h s (submitting d ∷ calls) k =
    run_calls-Progress h (submit_commitment s d) calls (submitting-Known h s d k)
run_calls-Progress h s (polling j ∷ calls) k =
    let step = poll-Progress h j s k in
    let later = run_calls-Progress h (poll_finality s j).0 calls step.0 in
    (later.0, later.1 ∙ step.1, ground (arith, step.2, later.2))

-- A hash with a commitment is finalized by the next poll, with its last commitment, once the polls
-- of it among the calls and that poll are as many as the delay, whatever the other calls are.
pub enough_polls_finalize :
    (s : MockState) (h : ℕ) (calls : List Call)
    → Known h s
    → s.finality_delay ≤ polls_of h calls + 1
    → let t : MockState = run_calls s calls in
      (c : CommitmentEnvelope) × (last_commitment h t.commitments ≡ some c)
      × (c.block_hash ≡ h)
      × ((poll_finality t h).1 ≡ answer (finalized (proof_of t c)))
unfolding poll_known
enough_polls_finalize s h calls k enough =
    let t = run_calls s calls in
    let p = run_calls-Progress h s calls k in
    let c = p.0.0 in
    let due : ltb (polls t h + 1) t.finality_delay ≡ false = ground (arith, p.1, p.2, enough) in
    (
      c,
      p.0.1,
      last_commitment_hash h t.commitments c p.0.1,
      rw (poll_found t h c p.0.1) (rw due refl),
    )
