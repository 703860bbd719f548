-- ===== src/Execution/Lanes/Accepted.antt =====
-- eip8142.rs: what an assignment without errors guarantees.
use mathlib.Core.List.{Memᴰ}
use eth.Prelude.{
  ℕ, ◌+◌, ◌≤◌, ◌≡◌, refl, sym, ap, ◌∙◌, subst, true, ◌==◌, some, List, [], ◌∷◌, length, arith,
  Bool-cases, Option-cases, inl, inr,
}
use eth.Prelude.Maps
use eth.Prelude.Maps.{nat_eq, get-insert}
use eth.Prelude.Members.{All-Memᴰ}
use eth.Execution.AccessList.{has}
use eth.Execution.Lanes.{
  LaneAssignment, LaneConfig, Lanes, lane_discriminant, all_keys, normalize_keys, or_default,
  entries_of, owners_of, assign_one, assign_all, assign_to_lanes,
}
use eth.Execution.Lanes.Placement.{lane_of, count_in, gas_in, push_fails, some_inj, Ran, place-Ran}

module _ (visit : List ℕ → List ℕ) (visits : (l : List ℕ) (k : ℕ) → has k (visit l) ≡ has k l)
    (config : LaneConfig) where
  one-Ran :
      (s : Lanes) (i : ℕ) (a : LaneAssignment)
      → (assign_one visit config s i a).errors ≡ []
      → Ran visit visits config s (assign_one visit config s i a) (a ∷ [])
  unfolding assign_one
  one-Ran s i a e = elim (Bool-cases (a.tx_hash == 0)) [
    | inl blank ↦ absurd (push_fails s.errors _ (rw (assign_one, blank) at e))
    | inr named ↦ elim (Option-cases (normalize_keys a)) [
      | inl bad ↦ absurd (push_fails s.errors _ (rw (assign_one, named, bad) at e))
      | inr (keys, valid) ↦
          rw (assign_one, named, valid)
            (place-Ran visit visits config s i a keys valid (rw (assign_one, named, valid) at e))
    ]
  ]

  all-Ran :
      (txs : List LaneAssignment) (s : Lanes) (i : ℕ)
      → (assign_all visit config s i txs).errors ≡ []
      → Ran visit visits config s (assign_all visit config s i txs) txs
  unfolding assign_all
  all-Ran [] s i e = record {
    before = e;
    count = λ lane. omega arith;
    gas = λ lane. refl;
    room = λ r. r;
    keeps = λ lane k owner at. at;
    owns = λ on. tt;
  }
  all-Ran (a ∷ txs) s i e =
      let s' = assign_one visit config s i a in
      let later = all-Ran txs s' (i + 1) e in
      let here = one-Ran s i a later.before in
      let last = assign_all visit config s' (i + 1) txs in
      record {
        before = here.before;
        count = λ lane. ground (arith, later.count lane, here.count lane);
        gas = λ lane. later.gas lane ∙ ap (λ g. gas_in lane g txs) (here.gas lane);
        room = λ r. later.room (here.room r);
        keeps = λ lane k owner at. later.keeps lane k owner (here.keeps lane k owner at);
        owns = λ on. (
          λ k named. later.keeps (lane_of a) k a.tx_hash ((here.owns on).0 k named),
          later.owns on,
        );
      }

  -- Lanes within their capacities, whose transactions with a common key are the same one.
  pub record IsAssignment (txs : List LaneAssignment) (groups : List (ℕ × List ℕ)) : Type 0 where
    pub grouped : (lane : ℕ) → length (or_default [] (Maps.get lane groups)) ≡ count_in lane txs
    pub counts : (lane : ℕ) → count_in lane txs ≤ config.max_txs_per_lane
    pub gas : (lane : ℕ) → gas_in lane 0 txs ≤ config.max_total_gas_per_lane
    pub apart :
        config.enable_conflict_detection ≡ true
        → (a b : LaneAssignment) (k : ℕ) → Memᴰ a txs
        → Memᴰ b txs
        → a.assigned_lane ≡ b.assigned_lane
        → has k (all_keys a) ≡ true
        → has k (all_keys b) ≡ true
        → a.tx_hash ≡ b.tx_hash

  -- Without errors, and with keys visited in any order, each lane holds as many indices as there
  -- are transactions assigned to it, its transactions and their saturating gas are within the
  -- limits, and, with conflict detection, two transactions of one lane that name a common key
  -- have the same hash.
  pub assign_to_lanes-IsAssignment :
      (txs : List LaneAssignment)
      → (assign_to_lanes visit config txs).1 ≡ []
      → IsAssignment txs (assign_to_lanes visit config txs).0
  unfolding assign_to_lanes Maps.get
  assign_to_lanes-IsAssignment txs e =
      let start : Lanes = record { grouped = []; lane_gas = []; lane_keys = []; errors = [] } in
      let ran = all-Ran txs start 0 e in
      let counted : (lane : ℕ)
          → length (entries_of (assign_all visit config start 0 txs) lane) ≡ count_in lane txs =
        λ lane. omega (arith, ran.count lane) in
      let room = ran.room (λ lane. (omega arith, omega arith)) in
      record {
        grouped = λ lane. counted lane;
        counts = λ lane. subst (λ n. n ≤ config.max_txs_per_lane) (counted lane) (room lane).0;
        gas = λ lane. subst (λ n. n ≤ config.max_total_gas_per_lane) (ran.gas lane) (room lane).1;
        apart = λ on a b k at_a at_b same key_a key_b.
            let owns = ran.owns on in
            let last = assign_all visit config start 0 txs in
            let owner_a =
              All-Memᴰ
                (λ x.
                  (j : ℕ)
                  → has j (all_keys x) ≡ true
                  → Maps.get j (owners_of last (lane_of x)) ≡ some x.tx_hash)
                txs a owns at_a k key_a in
            let owner_b =
              All-Memᴰ
                (λ x.
                  (j : ℕ)
                  → has j (all_keys x) ≡ true
                  → Maps.get j (owners_of last (lane_of x)) ≡ some x.tx_hash)
                txs b owns at_b k key_b in
            some_inj a.tx_hash b.tx_hash (
              sym owner_a
              ∙ ap (λ l. Maps.get k (owners_of last (lane_discriminant l))) same
              ∙ owner_b);
      }
