-- ===== src/Execution/Blocks/Extension.antt =====
-- block_builder.rs: what a built block is to its parent.
use eth.Prelude.{
  ℕ, ◌+◌, ◌≡◌, refl, sym, ◌∙◌, subst, List, [], ◌∷◌, length, length-append, sat_add64, arith, inl,
  inr,
}
use eth.Execution.Canonical.{Header, Transaction, Alloy, header_hash, block_hash}
use eth.Execution.State.{InMemoryStateDb, get_block_hash}
use eth.Execution.State.Storage.{get_block_hash-insert_block_hash}
use eth.Execution.Executor.{Revm, execute_tx}
use eth.Execution.Blocks.{
  BlockBuilderConfig, BuiltBlock, Totals, completed, ok_block, add_receipt, execute_all, start,
  seal, build_block,
}
use eth.Execution.Blocks.Loop.{
  Execution-cases, execute_all_ran, execute_all_refused, build_block_sealed,
}

module _ {Bytecode : Type 0} (revm : Revm Bytecode) (alloy : Alloy) (visit : List ℕ → List ℕ) where
  execute_all-receipts :
      (index : ℕ) (t t' : Totals) (txs : List Transaction)
      → execute_all revm alloy visit index t txs ≡ completed t'
      → length t'.receipts ≡ length t.receipts + length txs
  unfolding execute_all
  execute_all-receipts index t t' [] e =
      let same : t ≡ t' = ground (arith, e) in
      subst (λ x. length x.receipts ≡ length t.receipts + 0) same (omega arith)
  execute_all-receipts index t t' (tx ∷ txs) e =
      elim (Execution-cases (execute_tx revm alloy visit t.state tx)) [
        | inl (s, r, ran) ↦
            let next = execute_all_ran revm alloy visit index t tx txs s r ran in
            omega (
              arith,
              execute_all-receipts (index + 1) (add_receipt revm alloy visit t s r) t' txs
                  (sym next ∙ e),
              length-append t.receipts (r ∷ []),
            )
        | inr (s, source', refused) ↦ absurd (
            ground (
              arith,
              sym (execute_all_refused revm alloy visit index t tx txs s source' refused) ∙ e,
            ))
      ]

  -- What a built block is to its parent and to the state that comes with it.
  pub record Extends (parent : Header) (txs : List Transaction) (b : BuiltBlock) : Type 0 where
    pub linked : b.block.header.parent_hash ≡ header_hash alloy parent
    pub numbered : b.block.header.number ≡ sat_add64 parent.number 1
    pub complete : b.block.transactions ≡ txs
    pub receipted : length b.receipts ≡ length txs
    pub recorded : get_block_hash b.state b.block.header.number ≡ block_hash alloy b.block

  seal-Extends :
      (c : BlockBuilderConfig) (parent : Header) (txs : List Transaction) (t : Totals)
      → length t.receipts ≡ length txs
      → Extends parent txs (seal revm alloy visit c parent txs t)
  unfolding seal
  seal-Extends c parent txs t n = record {
    linked = refl;
    numbered = refl;
    complete = refl;
    receipted = n;
    recorded = get_block_hash-insert_block_hash t.state _ _;
  }

  -- A built block extends its parent: it names the parent's hash and the next number, holds all the
  -- pending transactions in order with one receipt each, and the state returned with it knows its
  -- hash under its number.
  pub build_block-Extends :
      (c : BlockBuilderConfig) (parent : Header) (txs : List Transaction) (state : InMemoryStateDb)
      (b : BuiltBlock)
      → build_block revm alloy visit c parent txs state ≡ ok_block b
      → Extends parent txs b
  build_block-Extends c parent txs state b e =
      let (t, done, same) = build_block_sealed revm alloy visit c parent txs state b e in
      let count = execute_all-receipts 0 (start revm alloy visit state) t txs done in
      subst (Extends parent txs) same (seal-Extends c parent txs t (omega (arith, count)))
