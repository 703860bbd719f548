-- ===== src/Execution/Blocks/Loop.antt =====
-- The loop of the builder and of the validator, one transaction at a time.
use eth.Prelude.{ℕ, ◌+◌, ◌≡◌, refl, sym, ◌∙◌, List, ◌∷◌, arith, inl, inr, ◌⊎◌}
use eth.Execution.Canonical.{Header, Transaction, Receipt, Alloy}
use eth.Execution.State.{InMemoryStateDb}
use eth.Execution.Executor.{Execution, executed, rejected, ExecutionError, Revm, execute_tx}
use eth.Execution.Blocks.{
  BlockBuilderConfig, BuiltBlock, Totals, Executed, completed, stopped, ok_block, add_receipt,
  execute_all, start, seal, build_block,
}

pub Executed-cases :
    (x : Executed)
    → ((t : Totals) × (x ≡ completed t))
      ⊎ ((i h : ℕ) × (source : ExecutionError) × (x ≡ stopped i h source))
Executed-cases (completed t) = inl (t, refl)
Executed-cases (stopped i h source) = inr (i, h, source, refl)

pub Execution-cases :
    (x : Execution)
    → ((s : InMemoryStateDb) × (r : Receipt) × (x ≡ executed s r))
      ⊎ ((s : InMemoryStateDb) × (source : ExecutionError) × (x ≡ rejected s source))
Execution-cases (executed s r) = inl (s, r, refl)
Execution-cases (rejected s source) = inr (s, source, refl)

module _ {Bytecode : Type 0} (revm : Revm Bytecode) (alloy : Alloy) (visit : List ℕ → List ℕ) where
  pub execute_all_ran :
      (index : ℕ) (t : Totals) (tx : Transaction) (txs : List Transaction) (s : InMemoryStateDb)
      (r : Receipt)
      → execute_tx revm alloy visit t.state tx ≡ executed s r
      → execute_all revm alloy visit index t (tx ∷ txs)
        ≡ execute_all revm alloy visit (index + 1) (add_receipt revm alloy visit t s r) txs
  unfolding execute_all
  execute_all_ran index t tx txs s r ran = rw (execute_all, ran) refl

  pub execute_all_refused :
      (index : ℕ) (t : Totals) (tx : Transaction) (txs : List Transaction) (s : InMemoryStateDb)
      (source : ExecutionError)
      → execute_tx revm alloy visit t.state tx ≡ rejected s source
      → execute_all revm alloy visit index t (tx ∷ txs) ≡ stopped index tx.hash source
  unfolding execute_all
  execute_all_refused index t tx txs s source refused = rw (execute_all, refused) refl

  -- A build that succeeds has executed everything and sealed the totals.
  pub build_block_sealed :
      (c : BlockBuilderConfig) (parent : Header) (txs : List Transaction) (state : InMemoryStateDb)
      (b : BuiltBlock)
      → build_block revm alloy visit c parent txs state ≡ ok_block b
      → (t : Totals) × (execute_all revm alloy visit 0 (start revm alloy visit state) txs
          ≡ completed t)
        × (seal revm alloy visit c parent txs t ≡ b)
  unfolding build_block
  build_block_sealed c parent txs state b e =
      elim (Executed-cases (execute_all revm alloy visit 0 (start revm alloy visit state) txs)) [
        | inl (t, done) ↦
            let made : build_block revm alloy visit c parent txs state
                ≡ ok_block (seal revm alloy visit c parent txs t) =
              rw (build_block, done) refl in
            (t, done, ground (arith, sym made ∙ e))
        | inr (i, h, source, fail) ↦ absurd (ground (arith, e, fail))
      ]
