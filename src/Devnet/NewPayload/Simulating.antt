-- ===== src/Devnet/NewPayload/Simulating.antt =====
-- eth2077-devnetd.rs: what the simulation of the listed transactions leaves unobjected.
use eth.Prelude.{
  ℕ, ◌≤◌, ◌≡◌, ◌≢◌, refl, sym, ap, ◌∙◌, true, ltb, Option, none, some, List, [], ◌∷◌, All, arith,
  Bool-cases, Option-cases, inl, inr,
}
use eth.Prelude.Maps
use eth.Prelude.Maps.{nat_eq, get-insert}
use eth.P2p.Gossip.{contains}
use eth.Devnet.Payloads.{EngineTxMeta}
use eth.Devnet.NewPayload.{
  Simulation, simulate, simulate_one, simulate_listed, pay, charge, count_gas, check_gas,
  advance_nonce, has_nonce, engine_block_gas_limit, or_value,
}
use eth.Devnet.NewPayload.Matching.{append_nil}

-- The simulation only adds to what was found before.
charge_keeps :
    (sim : Simulation) (h from balance need : ℕ)
    → (charge sim h from balance need).checks ≡ []
    → sim.checks ≡ []
unfolding charge
charge_keeps sim h from balance need e = elim (Bool-cases (ltb balance need)) [
  | inl poor ↦ (append_nil sim.checks _ (rw poor at e)).0
  | inr rich ↦ rw rich at e
]

advance_keeps :
    (sim : Simulation) (from expected : ℕ) (nonce : Option ℕ)
    → (advance_nonce sim from expected nonce).checks ≡ sim.checks
advance_keeps sim from expected none = refl
advance_keeps sim from expected (some x) = refl

count_keeps : (sim : Simulation) (gas : Option ℕ) → (count_gas sim gas).checks ≡ sim.checks
count_keeps sim none = refl
count_keeps sim (some x) = refl

abbrev pub GasFits : Option ℕ → Type 0
GasFits gas = (g : ℕ) → gas ≡ some g → g ≤ engine_block_gas_limit

gas_fits : (h : ℕ) (gas : Option ℕ) → check_gas h gas ≡ [] → GasFits gas
gas_fits h none e g at = cc at
gas_fits h (some x) e g at = ground (arith, e, at)

signer : (a b : ℕ) → some a ≡ some b → a ≡ b
signer a b e = cc e

module _ (address_from_hex : ℕ → Option ℕ) (account_nonce account_balance : ℕ → ℕ) where
  pay_keeps :
      (sim : Simulation) (entry : EngineTxMeta) (from address : ℕ)
      → (pay address_from_hex account_nonce account_balance sim entry from address).checks ≡ []
      → sim.checks ≡ []
  pay_keeps sim entry from address e = elim (Option-cases entry.gas_limit) [
    | inl no_gas ↦ rw no_gas at e
    | inr (g, gas) ↦ elim (Option-cases entry.gas_price) [
      | inl no_price ↦ rw (gas, no_price) at e
      | inr (p, price) ↦ elim (Option-cases entry.value) [
        | inl no_value ↦ rw (gas, price, no_value) at e
        | inr (v, value) ↦ charge_keeps sim entry.hash from _ _ (rw (gas, price, value) at e)
      ]
    ]
  ]

  listed_keeps :
      (sim : Simulation) (entry : EngineTxMeta) (from address : ℕ)
      → (simulate_listed address_from_hex account_nonce account_balance sim entry from
          address).checks
        ≡ []
      → (sim.checks ≡ []) × GasFits entry.gas_limit
  unfolding simulate_listed
  listed_keeps sim entry from address e =
      let expected = or_value (Maps.get from sim.simulated_nonce) (account_nonce address) in
      elim (Bool-cases (has_nonce entry.nonce expected)) [
        | inl ready ↦
            let flagged =
              pay_keeps _ entry from address
                (sym (advance_keeps _ from expected entry.nonce) ∙ rw ready at e) in
            let (before, gas) = append_nil sim.checks _ flagged in
            (before, gas_fits entry.hash entry.gas_limit gas)
        | inr wrong ↦ cc ((append_nil sim.checks _ (rw wrong at e)).1)
      ]

  -- What a step without a new check has found out about its entry.
  abbrev pub SenderFits : List ℕ → EngineTxMeta → Type 0
  SenderFits required entry =
      contains entry.hash required ≡ true
      → (from : ℕ) → entry.from ≡ some from
      → (address_from_hex from ≢ none) × GasFits entry.gas_limit

  abbrev simulation : List ℕ → Simulation → List EngineTxMeta → Simulation
  simulation = simulate address_from_hex account_nonce account_balance

  one_keeps :
      (required : List ℕ) (sim : Simulation) (entry : EngineTxMeta)
      → (simulate_one address_from_hex account_nonce account_balance required sim entry).checks ≡ []
      → (sim.checks ≡ []) × SenderFits required entry
  unfolding simulate_one
  one_keeps required sim entry e =
      let counted = count_gas sim entry.gas_limit in
      let back = sym (count_keeps sim entry.gas_limit) in
      elim (Bool-cases (contains entry.hash required)) [
        | inr unlisted ↦ (back ∙ rw unlisted at e, λ c. cc (sym c ∙ unlisted))
        | inl listed ↦ elim (Option-cases entry.from) [
          | inl unsigned ↦ (back ∙ rw (listed, unsigned) at e, λ c p at. cc (sym at ∙ unsigned))
          | inr (from, signed) ↦ elim (Option-cases (address_from_hex from)) [
            | inl bad ↦ cc ((append_nil counted.checks _ (rw (listed, signed, bad) at e)).1)
            | inr (address, good) ↦
                let (before, gas) =
                  listed_keeps counted entry from address (rw (listed, signed, good) at e) in
                (
                  back ∙ before,
                  λ c p at. (
                    λ none_there. cc (
                        sym good
                        ∙ ap address_from_hex (signer from p (sym signed ∙ at))
                        ∙ none_there),
                    gas,
                  ),
                )
          ]
        ]
      ]

  pub simulate-SenderFits :
      (required : List ℕ) (sim : Simulation) (entries : List EngineTxMeta)
      → (simulation required sim entries).checks ≡ []
      → (sim.checks ≡ []) × All (SenderFits required) entries
  unfolding simulate
  simulate-SenderFits required sim [] e = (e, tt)
  simulate-SenderFits required sim (entry ∷ entries) e =
      let (here, rest) =
        simulate-SenderFits required
          (simulate_one address_from_hex account_nonce account_balance required sim entry) entries
          e in
      let (before, fits) = one_keeps required sim entry here in (before, (fits, rest))
