-- ===== src/Execution/Rollup/Inputs.antt =====
-- Which inputs eip8079.rs executes.
use eth.Prelude.{
  ℕ, ◌*◌, ◌%◌, min, ◌≤◌, ◌<◌, ◌≡◌, refl, true, false, ◌==◌, ltb, List, [], length, arith, u64_max,
  ◌⊎◌, inl, inr, Bool-cases,
}
use eth.Execution.Rollup.{
  ExecutePrecompileInput, ExecutePrecompileOutput, NativeRollupConfig, ok, err, exceeds_gas_limit,
  frequency_errors, validate_execute_input, mock_execute, executed_output, no_transactions,
  tx_count,
}

-- Executions of an input: with enough gas the output, and otherwise the gas error.
abbrev pub Executes : (List ℕ → ℕ) → ExecutePrecompileInput → NativeRollupConfig → Type 0
Executes sha256 i c =
    ((o : ExecutePrecompileOutput) × (mock_execute sha256 i c ≡ ok o)
      × (o.success ≡ true)
      × (o.gas_used ≡ min u64_max (21000 * length i.transactions))
      × (o.gas_used ≤ c.max_gas_per_execution))
    ⊎ ((used : ℕ) × (mock_execute sha256 i c ≡ err (exceeds_gas_limit used c.max_gas_per_execution))
        × (c.max_gas_per_execution < used))

-- An input that passes validation is anchored at a multiple of the frequency, and its execution
-- can fail only for its gas: it succeeds with 21000 gas for each transaction within the limit, or
-- reports gas above the limit.
pub validated_input-Executes :
    (sha256 : List ℕ → ℕ) (i : ExecutePrecompileInput) (c : NativeRollupConfig)
    → validate_execute_input i c ≡ []
    → (0 < c.anchor_frequency)
      × (i.anchor.l1_block_number % c.anchor_frequency ≡ 0)
      × Executes sha256 i c
unfolding validate_execute_input frequency_errors mock_execute executed_output
validated_input-Executes sha256 i c e =
    let some_tx : no_transactions i.transactions ≡ false = ground (arith, e) in
    let rooted : (i.pre_state_root == 0) ≡ false = ground (arith, e) in
    let gas = min u64_max (21000 * tx_count i) in
    (
      ground (arith, e),
      ground (arith, e),
      elim (Bool-cases (ltb c.max_gas_per_execution gas)) [
        | inl over ↦ inr (gas, rw (some_tx, rooted, over) refl, ground (arith, over))
        | inr under ↦ inl (
          executed_output sha256 i,
          rw (some_tx, rooted, under) refl,
          refl,
          omega arith,
          ground (arith, under),
        )
      ],
    )
