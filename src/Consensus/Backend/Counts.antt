-- ===== src/Consensus/Backend/Counts.antt =====
-- mock.rs: the finalized hashes are the ones polled often enough, after any calls.
use eth.Prelude.{
  ℕ, ◌+◌, ◌≡◌, refl, sym, ap, ◌∙◌, Bool, true, false, not, ◌&&◌, ◌==◌, ==_iff, ==_refl, ltb, some,
  List, [], ◌∷◌, ◌++◌, if◌then◌else◌, arith, Bool-cases, Option-cases, inl, inr,
}
use eth.Prelude.Maps.{nat_eq, get}
use eth.Execution.AccessList.{has}
use eth.Consensus.FastPath.{CommitmentEnvelope, FinalityProof}
use eth.Consensus.Backend.{
  MockState, add_hash, new_backend, submit_commitment, last_commitment, polls, poll_known, proof_of,
  Call, submitting, polling, run_call, run_calls,
}
use eth.Consensus.Backend.Finality.{
  poll_known-Keeps, poll_unknown, poll_found, last_commitment_hash,
}

abbrev enough : ℕ → ℕ → Bool
enough delay count = ltb 0 count && not (ltb count delay)

pub record IsCounted (s : MockState) : Type 0 where
  pub counted : (h : ℕ) → has h s.finalized_block_hashes ≡ enough s.finality_delay (polls s h)
  pub latest :
      (p : FinalityProof)
      → s.latest_finalized ≡ some p
      → has p.commitment.block_hash s.finalized_block_hashes ≡ true

has-append : (j h : ℕ) (hs : List ℕ) → has j (hs ++ (h ∷ [])) ≡ (if h == j then true else has j hs)
has-append j h [] = ground arith
has-append j h (i ∷ hs) = ground (arith, has-append j h hs)

has-add_hash : (j h : ℕ) (hs : List ℕ) → has j (add_hash h hs) ≡ (if h == j then true else has j hs)
has-add_hash j h hs = elim (Bool-cases (has h hs)) [
  | inl member ↦ elim (Bool-cases (h == j)) [
    | inl same ↦ rw (member, same) (ap (λ i. has i hs) (sym ((==_iff h j).0 same)) ∙ member)
    | inr differ ↦ rw (member, differ) refl
  ]
  | inr fresh ↦ rw fresh (has-append j h hs)
]

-- A poll before the time finalizes nothing, and a later one its hash.
poll_early :
    (s : MockState) (h n : ℕ) (c : CommitmentEnvelope)
    → ltb n s.finality_delay ≡ true
    → let t : MockState = (poll_known s h c n).0 in
      (t.finalized_block_hashes ≡ s.finalized_block_hashes)
      × (t.latest_finalized ≡ s.latest_finalized)
unfolding poll_known
poll_early s h n c early = rw early (refl, refl)

poll_due :
    (s : MockState) (h n : ℕ) (c : CommitmentEnvelope)
    → ltb n s.finality_delay ≡ false
    → let t : MockState = (poll_known s h c n).0 in
      (t.finalized_block_hashes ≡ add_hash h s.finalized_block_hashes)
      × (t.latest_finalized ≡ some (proof_of s c))
unfolding poll_known
poll_due s h n c due = rw due (refl, refl)

module _ (s : MockState) (h : ℕ) (c : CommitmentEnvelope) (e : c.block_hash ≡ h)
    (w : IsCounted s) where
  abbrev next : MockState
  next = (poll_known s h c (polls s h + 1)).0

  early-IsCounted : ltb (polls s h + 1) s.finality_delay ≡ true → IsCounted next
  early-IsCounted early = record {
    counted = λ j.
        let keeps = poll_known-Keeps s h (polls s h + 1) c j in
        rw ((poll_early s h (polls s h + 1) c early).0, keeps.1, keeps.2)
          (ground (arith, early, w.counted j, w.counted h, ==_iff h j));
    latest = λ p l.
        rw ((poll_early s h (polls s h + 1) c early).0)
          (w.latest p (sym ((poll_early s h (polls s h + 1) c early).1) ∙ l));
  }

  due-IsCounted : ltb (polls s h + 1) s.finality_delay ≡ false → IsCounted next
  due-IsCounted due = record {
    counted = λ j.
        let keeps = poll_known-Keeps s h (polls s h + 1) c j in
        rw
          (
            (poll_due s h (polls s h + 1) c due).0,
            keeps.1,
            keeps.2,
            has-add_hash j h s.finalized_block_hashes,
          )
          (ground (arith, due, w.counted j));
    latest = λ p l.
        let shown : some (proof_of s c) ≡ some p =
          sym ((poll_due s h (polls s h + 1) c due).1) ∙ l in
        let same : proof_of s c ≡ p = cc (shown) in
        rw
          (
            (poll_due s h (polls s h + 1) c due).0,
            sym (ap (λ (q : FinalityProof). q.commitment.block_hash) same),
            e,
            has-add_hash h h s.finalized_block_hashes,
            ==_refl h,
          )
          refl;
  }

poll_known-IsCounted :
    (s : MockState) (h : ℕ) (c : CommitmentEnvelope)
    → c.block_hash ≡ h
    → IsCounted s
    → IsCounted (poll_known s h c (polls s h + 1)).0
poll_known-IsCounted s h c e w = elim (Bool-cases (ltb (polls s h + 1) s.finality_delay)) [
  | inl early ↦ early-IsCounted s h c e w early
  | inr due ↦ due-IsCounted s h c e w due
]

run_call-IsCounted : (s : MockState) (call : Call) → IsCounted s → IsCounted (run_call s call)
unfolding run_call submit_commitment
run_call-IsCounted s (submitting c) w = record { counted = w.counted; latest = w.latest }
run_call-IsCounted s (polling h) w = elim (Option-cases (last_commitment h s.commitments)) [
  | inl unknown ↦ rw (run_call, poll_unknown s h unknown) w
  | inr (c, found) ↦
      rw (run_call, poll_found s h c found)
        (poll_known-IsCounted s h c (last_commitment_hash h s.commitments c found) w)
]

run_calls-IsCounted :
    (s : MockState) (calls : List Call) → IsCounted s → IsCounted (run_calls s calls)
unfolding run_calls
run_calls-IsCounted s [] w = w
run_calls-IsCounted s (call ∷ calls) w =
    run_calls-IsCounted (run_call s call) calls (run_call-IsCounted s call w)

-- After any calls on a new backend a hash is finalized exactly when the backend has counted a poll
-- of it, and as many polls as the delay, and the hash of the latest proof is finalized.
pub reachable-IsCounted :
    (finality_delay : ℕ) (calls : List Call)
    → IsCounted (run_calls (new_backend finality_delay) calls)
unfolding new_backend get
reachable-IsCounted finality_delay calls =
    run_calls-IsCounted (new_backend finality_delay) calls fresh
  where
    fresh : IsCounted (new_backend finality_delay)
    fresh = record { counted = λ h. refl; latest = λ p l. absurd (grind (arith, l)) }
