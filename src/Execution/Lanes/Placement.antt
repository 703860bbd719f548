-- ===== src/Execution/Lanes/Placement.antt =====
-- eip8142.rs: one placement without errors, and what it leaves.
use eth.Prelude.{
  ℕ, ◌+◌, ◌≤◌, ◌≡◌, refl, sym, ap, ◌∙◌, subst, Bool, true, false, ◌==◌, ltb, ==_iff, ==_refl, some,
  List, [], ◌∷◌, ◌++◌, length, length-append, All, if◌then◌else◌, sat_add64, arith, Bool-cases, inl,
  inr,
}
use eth.Prelude.Maps
use eth.Prelude.Maps.{nat_eq, get-insert}
use eth.Execution.AccessList.{has}
use eth.Execution.Lanes.{
  LaneAssignment, LaneAssignmentError, LaneConfig, Lanes, lane_discriminant, all_keys,
  normalize_keys, or_default, entries_of, gas_of, owners_of, error_if, lane_capacity_exceeded,
  claim_keys, place,
}
use eth.Execution.Lanes.Keys.{no_errors, claim_keeps, claim_owns, normalized}

abbrev pub lane_of : LaneAssignment → ℕ
lane_of a = lane_discriminant a.assigned_lane

-- The transactions of a lane, and their gas.
abbrev pub count_in : ℕ → List LaneAssignment → ℕ
count_in lane [] = 0
count_in lane (a ∷ txs) =
    let rest = count_in lane txs in
    if lane_discriminant a.assigned_lane == lane then rest + 1 else rest

abbrev pub gas_in : ℕ → ℕ → List LaneAssignment → ℕ
gas_in lane used [] = used
gas_in lane used (a ∷ txs) =
    gas_in lane
      (if lane_discriminant a.assigned_lane == lane then sat_add64 used a.gas_estimate else used)
      txs

pub push_fails : (xs : List LaneAssignmentError) (e : LaneAssignmentError) → xs ++ e ∷ [] ≡ [] → ⊥
push_fails [] e h = cc h
push_fails (x ∷ xs) e h = cc h

no_error : (b : Bool) (e : LaneAssignmentError) → error_if b e ≡ [] → b ≡ false
no_error true e h = cc h
no_error false e h = refl

pub some_inj : (a b : ℕ) → some a ≡ some b → a ≡ b
some_inj a b e = cc e

not_above : (a b : ℕ) → ltb b a ≡ false → a ≤ b
not_above a b e = ground (arith, e)

module _ (visit : List ℕ → List ℕ) (visits : (l : List ℕ) (k : ℕ) → has k (visit l) ≡ has k l)
    (config : LaneConfig) where
  abbrev pub HasRoom : Lanes → Type 0
  HasRoom s =
      (lane : ℕ)
      → (length (entries_of s lane) ≤ config.max_txs_per_lane)
        × (gas_of s lane ≤ config.max_total_gas_per_lane)

  -- What a run without errors has done, from one state to another.
  pub record Ran (s s' : Lanes) (txs : List LaneAssignment) : Type 0 where
    pub before : s.errors ≡ []
    pub count :
        (lane : ℕ) → length (entries_of s' lane) ≡ length (entries_of s lane) + count_in lane txs
    pub gas : (lane : ℕ) → gas_of s' lane ≡ gas_in lane (gas_of s lane) txs
    pub room : HasRoom s → HasRoom s'
    pub keeps :
        (lane k owner : ℕ)
        → Maps.get k (owners_of s lane) ≡ some owner
        → Maps.get k (owners_of s' lane) ≡ some owner
    pub owns :
        config.enable_conflict_detection ≡ true
        → All
            (λ a.
              (k : ℕ)
              → has k (all_keys a) ≡ true
              → Maps.get k (owners_of s' (lane_of a)) ≡ some a.tx_hash)
            txs

  place-entries :
      (s : Lanes) (i : ℕ) (a : LaneAssignment) (keys : List ℕ) (lane : ℕ)
      → length (entries_of (place visit config s i a keys) lane)
        ≡ (if lane_of a == lane then length (entries_of s lane) + 1 else length (entries_of s lane))
  unfolding place
  place-entries s i a keys lane = elim (Bool-cases (lane_of a == lane)) [
    | inl same ↦
        let e : lane_of a ≡ lane = (==_iff (lane_of a) lane).0 same in
        ap (λ x. length (or_default [] x))
          (get-insert (lane_of a) lane (entries_of s (lane_of a) ++ i ∷ []) s.grouped)
        ∙ rw same (
            length-append (entries_of s (lane_of a)) (i ∷ [])
            ∙ ap (λ x. length (entries_of s x) + 1) e)
    | inr other ↦
        ap (λ x. length (or_default [] x))
          (get-insert (lane_of a) lane (entries_of s (lane_of a) ++ i ∷ []) s.grouped)
        ∙ rw other refl
  ]

  place-gas :
      (s : Lanes) (i : ℕ) (a : LaneAssignment) (keys : List ℕ) (lane : ℕ)
      → gas_of (place visit config s i a keys) lane
        ≡ (if lane_of a == lane then sat_add64 (gas_of s lane) a.gas_estimate else gas_of s lane)
  unfolding place
  place-gas s i a keys lane =
      let next = sat_add64 (gas_of s (lane_of a)) a.gas_estimate in
      ap (or_default 0) (get-insert (lane_of a) lane next s.lane_gas)
      ∙ elim (Bool-cases (lane_of a == lane)) [
        | inl same ↦
            rw same
              (ap (λ x. sat_add64 (gas_of s x) a.gas_estimate) ((==_iff (lane_of a) lane).0 same))
        | inr other ↦ rw other refl
      ]

  place-owners :
      (s : Lanes) (i : ℕ) (a : LaneAssignment) (keys : List ℕ) (lane : ℕ)
      → owners_of (place visit config s i a keys) lane ≡ (
          if config.enable_conflict_detection
          then (if lane_of a == lane
              then (claim_keys a.tx_hash (owners_of s (lane_of a)) (visit keys)).0
              else owners_of s lane)
          else owners_of s lane)
  unfolding place
  place-owners s i a keys lane =
      let claimed = (claim_keys a.tx_hash (owners_of s (lane_of a)) (visit keys)).0 in
      elim (Bool-cases config.enable_conflict_detection) [
        | inl on ↦ rw on (
            ap (or_default []) (get-insert (lane_of a) lane claimed s.lane_keys)
            ∙ elim (Bool-cases (lane_of a == lane)) [
              | inl same ↦ rw same refl
              | inr other ↦ rw other refl
            ])
        | inr off ↦ rw off refl
      ]

  place-errors :
      (s : Lanes) (i : ℕ) (a : LaneAssignment) (keys : List ℕ)
      → (place visit config s i a keys).errors ≡ []
      → (s.errors ≡ [])
        × (length (entries_of s (lane_of a)) + 1 ≤ config.max_txs_per_lane)
        × (sat_add64 (gas_of s (lane_of a)) a.gas_estimate ≤ config.max_total_gas_per_lane)
        × ((if config.enable_conflict_detection
              then (claim_keys a.tx_hash (owners_of s (lane_of a)) (visit keys)).1
              else [])
            ≡ [])
  unfolding place
  place-errors s i a keys e =
      let next = length (entries_of s (lane_of a)) + 1 in
      let gas = sat_add64 (gas_of s (lane_of a)) a.gas_estimate in
      let full = lane_capacity_exceeded a.assigned_lane next config.max_txs_per_lane in
      let heavy = lane_capacity_exceeded a.assigned_lane gas config.max_total_gas_per_lane in
      let (before, e1) = no_errors s.errors _ e in
      let (room, e2) = no_errors (error_if (ltb config.max_txs_per_lane next) full) _ e1 in
      let (light, e3) = no_errors (error_if (ltb config.max_total_gas_per_lane gas) heavy) _ e2 in
      let fits : ltb config.max_txs_per_lane next ≡ false = no_error _ full room in
      let burns : ltb config.max_total_gas_per_lane gas ≡ false = no_error _ heavy light in
      (before, ground (arith, fits), not_above gas config.max_total_gas_per_lane burns, e3)

  kept :
      (s : Lanes) (a : LaneAssignment) (keys : List ℕ) (lane k owner : ℕ)
      → Maps.get k (owners_of s lane) ≡ some owner
      → Maps.get k (
          if config.enable_conflict_detection
          then (if lane_of a == lane
              then (claim_keys a.tx_hash (owners_of s (lane_of a)) (visit keys)).0
              else owners_of s lane)
          else owners_of s lane)
        ≡ some owner
  kept s a keys lane k owner at = elim (Bool-cases config.enable_conflict_detection) [
    | inr off ↦ rw off at
    | inl on ↦ elim (Bool-cases (lane_of a == lane)) [
      | inr other ↦ rw (on, other) at
      | inl same ↦
          rw (on, same)
            (claim_keeps a.tx_hash (owners_of s (lane_of a)) (visit keys) k owner
              (ap (λ l. Maps.get k (owners_of s l)) ((==_iff (lane_of a) lane).0 same) ∙ at))
    ]
  ]

  pub place-Ran :
      (s : Lanes) (i : ℕ) (a : LaneAssignment) (keys : List ℕ)
      → normalize_keys a ≡ some keys
      → (place visit config s i a keys).errors ≡ []
      → Ran s (place visit config s i a keys) (a ∷ [])
  place-Ran s i a keys valid e =
      let (before, fits, light, clean) = place-errors s i a keys e in
      let on_claim = λ (lane : ℕ). place-owners s i a keys lane in
      record {
        before = before;
        count = λ lane. place-entries s i a keys lane ∙ ground arith;
        gas = λ lane. place-gas s i a keys lane;
        room = λ r lane. elim (Bool-cases (lane_of a == lane)) [
          | inl same ↦
              let x : lane_of a ≡ lane = (==_iff (lane_of a) lane).0 same in
              (
                subst (λ n. n ≤ config.max_txs_per_lane)
                    (sym (place-entries s i a keys lane ∙ rw same refl))
                    (subst (λ l. length (entries_of s l) + 1 ≤ config.max_txs_per_lane) x fits),
                subst (λ n. n ≤ config.max_total_gas_per_lane)
                    (sym (place-gas s i a keys lane ∙ rw same refl))
                    (subst
                      (λ l. sat_add64 (gas_of s l) a.gas_estimate ≤ config.max_total_gas_per_lane) x
                      light),
              )
          | inr other ↦ (
            subst (λ n. n ≤ config.max_txs_per_lane)
                (sym (place-entries s i a keys lane ∙ rw other refl)) (r lane).0,
            subst (λ n. n ≤ config.max_total_gas_per_lane)
                (sym (place-gas s i a keys lane ∙ rw other refl)) (r lane).1,
          )
        ];
        keeps = λ lane k owner at. ap (Maps.get k) (on_claim lane) ∙ kept s a keys lane k owner at;
        owns = λ on. (
          (λ k named.
              ap (Maps.get k) (on_claim (lane_of a))
              ∙ rw (on, ==_refl (lane_of a))
                  (claim_owns a.tx_hash (owners_of s (lane_of a)) (visit keys) k (rw on at clean)
                    (visits keys k ∙ normalized a keys k valid ∙ named))),
          tt,
        );
      }
