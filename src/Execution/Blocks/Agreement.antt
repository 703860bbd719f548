-- ===== src/Execution/Blocks/Agreement.antt =====
-- The builder and the validator of blocks agree.
use eth.Prelude.{ℕ, ◌≡◌, refl, subst, ==_refl, List, arith, ◌↔◌, inl, inr}
use eth.Execution.Canonical.{Header, Transaction, Block, Alloy}
use eth.Execution.State.{InMemoryStateDb}
use eth.Execution.Executor.{Revm}
use eth.Execution.Roots.{compute_state_root, compute_transactions_root, compute_receipts_root}
use eth.Execution.Blocks.{
  BlockBuilderConfig, BuiltBlock, Totals, completed, ok_block, valid, execute_all, start, seal,
  build_block, compare_header, validate_block,
}
use eth.Execution.Blocks.Loop.{Executed-cases, build_block_sealed}

module _ {Bytecode : Type 0} (revm : Revm Bytecode) (alloy : Alloy) (visit : List ℕ → List ℕ) where
  seal-valid :
      (c : BlockBuilderConfig) (parent : Header) (txs : List Transaction) (t : Totals)
      → compare_header revm alloy visit (seal revm alloy visit c parent txs t).block t ≡ valid
  unfolding compare_header seal
  seal-valid c parent txs t =
      rw
        (
          ==_refl (compute_state_root alloy t.state),
          ==_refl (compute_transactions_root alloy txs),
          ==_refl (compute_receipts_root alloy t.receipts),
          ==_refl t.gas_used,
          ==_refl t.logs_bloom,
        )
        refl

  -- The validator accepts every block that the builder makes, on the state it was built on.
  pub built_block_validates :
      (c : BlockBuilderConfig) (parent : Header) (txs : List Transaction) (state : InMemoryStateDb)
      (b : BuiltBlock)
      → build_block revm alloy visit c parent txs state ≡ ok_block b
      → validate_block revm alloy visit b.block state ≡ valid
  unfolding validate_block seal
  built_block_validates c parent txs state b e =
      let (t, done, same) = build_block_sealed revm alloy visit c parent txs state b e in
      subst (λ b. validate_block revm alloy visit b.block state ≡ valid) same
        (rw (validate_block, done) (seal-valid c parent txs t))

  -- A block is valid exactly when its transactions all execute and the roots, the gas and the bloom
  -- of the execution are the header's.
  pub validate_block_iff :
      (block : Block) (state : InMemoryStateDb)
      → (validate_block revm alloy visit block state ≡ valid) ↔ (
          (t : Totals) × (execute_all revm alloy visit 0
              (start revm alloy visit state)
              block.transactions
            ≡ completed t)
          × (compute_state_root alloy t.state ≡ block.header.state_root)
          × (compute_transactions_root alloy block.transactions ≡ block.header.transactions_root)
          × (compute_receipts_root alloy t.receipts ≡ block.header.receipts_root)
          × (t.gas_used ≡ block.header.gas_used)
          × (t.logs_bloom ≡ block.header.logs_bloom))
  unfolding validate_block compare_header
  validate_block_iff block state = (
    λ v.
        elim (Executed-cases
          (execute_all revm alloy visit 0 (start revm alloy visit state) block.transactions)) [
            | inl (t, done) ↦ (
              t,
              done,
              ground (arith, v, done),
              ground (arith, v, done),
              ground (arith, v, done),
              ground (arith, v, done),
              ground (arith, v, done),
            )
            | inr (i, h, source, fail) ↦ absurd (ground (arith, v, fail))
          ],
    λ (t, done, a, b, c, d, e).
        rw
          (
            validate_block,
            done,
            a,
            b,
            c,
            d,
            e,
            ==_refl block.header.state_root,
            ==_refl block.header.transactions_root,
            ==_refl block.header.receipts_root,
            ==_refl block.header.gas_used,
            ==_refl block.header.logs_bloom,
          )
          refl,
  )
