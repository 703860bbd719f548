-- ===== src/Execution/Blocks/Failures.antt =====
-- block_builder.rs: what a failed build reports.
use eth.Prelude.{
  ℕ, zero, suc, ◌+◌, ◌≡◌, refl, sym, ap, ◌∙◌, some, List, [], ◌∷◌, get_elem?, take, arith, inl, inr,
}
use eth.Execution.Canonical.{Header, Transaction, Alloy}
use eth.Execution.State.{InMemoryStateDb}
use eth.Execution.Executor.{rejected, ExecutionError, Revm, execute_tx}
use eth.Execution.Blocks.{
  BlockBuilderConfig, Totals, completed, stopped, err_block, build_transaction_failed, add_receipt,
  execute_all, start, build_block,
}
use eth.Execution.Blocks.Loop.{
  Executed-cases, Execution-cases, execute_all_ran, execute_all_refused,
}

module _ {Bytecode : Type 0} (revm : Revm Bytecode) (alloy : Alloy) (visit : List ℕ → List ℕ) where
  -- What a run of the loop that stops has met: the transactions before the index were executed, and
  -- the one at the index was rejected.
  abbrev pub StopsAt : ℕ → Totals → List Transaction → ℕ → ℕ → ExecutionError → Type 0
  StopsAt index t txs i h source =
      (k : ℕ) × (tx : Transaction) × (t' : Totals) × (state : InMemoryStateDb) × (i ≡ index + k)
      × (get_elem? txs k ≡ some tx)
      × (tx.hash ≡ h)
      × (execute_all revm alloy visit index t (take k txs) ≡ completed t')
      × (execute_tx revm alloy visit t'.state tx ≡ rejected state source)

  execute_all-StopsAt :
      (index : ℕ) (t : Totals) (txs : List Transaction) (i h : ℕ) (source : ExecutionError)
      → execute_all revm alloy visit index t txs ≡ stopped i h source
      → StopsAt index t txs i h source
  unfolding execute_all
  execute_all-StopsAt index t [] i h source e = absurd (ground (arith, e))
  execute_all-StopsAt index t (tx ∷ txs) i h source e =
      elim (Execution-cases (execute_tx revm alloy visit t.state tx)) [
        | inl (s, r, ran) ↦
            let later = sym (execute_all_ran revm alloy visit index t tx txs s r ran) ∙ e in
            let (k, tx', t', s', at, found, hash, before, refused) =
              execute_all-StopsAt (index + 1) (add_receipt revm alloy visit t s r) txs i h source
                later in
            let head = execute_all_ran revm alloy visit index t tx (take k txs) s r ran in
            (suc k, tx', t', s', omega (arith, at), found, hash, head ∙ before, refused)
        | inr (s, source', refused) ↦
            let same =
              sym (execute_all_refused revm alloy visit index t tx txs s source' refused) ∙ e in
            let src : source' ≡ source = ground (arith, same) in
            (
              zero,
              tx,
              t,
              s,
              ground (arith, same),
              refl,
              ground (arith, same),
              refl,
              refused ∙ ap (rejected s) src,
            )
      ]

  -- A failed build reports the first transaction that does not execute: those before its index
  -- did, and it was rejected with the error reported.
  pub build_block_fails_first :
      (c : BlockBuilderConfig) (parent : Header) (txs : List Transaction) (state : InMemoryStateDb)
      (i h : ℕ) (source : ExecutionError)
      → build_block revm alloy visit c parent txs state
        ≡ err_block (build_transaction_failed i h source)
      → StopsAt 0 (start revm alloy visit state) txs i h source
  unfolding build_block
  build_block_fails_first c parent txs state i h source e =
      elim (Executed-cases (execute_all revm alloy visit 0 (start revm alloy visit state) txs)) [
        | inl (t, done) ↦ absurd (ground (arith, e, done))
        | inr (i', h', source', fail) ↦
            execute_all-StopsAt 0 (start revm alloy visit state) txs i h source
              (ground (arith, e, fail))
      ]
