-- ===== src/PatternRewriter/Affected.antt =====
-- The operations that a rewriter has affected, and the list of the block.
use xdsl.Prelude.{
  ℕ, ◌≡◌, refl, subst, sym, ◌∙◌, true, false, List, [], ◌∷◌, ◌++◌, reverse, append_assoc,
  append-nil, some, Bool-cases, inl, inr,
}
use mathlib.Core.List.{reverse-cons, reverse-append}
use xdsl.Result.{ok}
use xdsl.Ir.Store.{Ir, update}
use xdsl.Ir.Block.{insert_ops_before, insert_ops_after}
use xdsl.Ir.Block.Holds.{IsValid}
use xdsl.Ir.Block.Many.{MayAttachAll, insert_ops_before-IsValid, insert_ops_after-IsValid}
use xdsl.Ir.Block.Insert.{at-parent}
use xdsl.PatternRewriter.{PatternRewriter}
use xdsl.PatternRewriter.Methods.{
  insert_op_before_matched_op, insert_op_after_matched_op, iter_affected_ops,
  iter_affected_ops_reversed,
}

-- What a rewriter has affected, the matched operation not being erased.
iter_affected_ops-eq :
    (r : PatternRewriter)
    → r.has_erased_matched_operation ≡ false
    → iter_affected_ops r
      ≡ r.added_operations_before ++ r.current_operation ∷ r.added_operations_after
unfolding iter_affected_ops
iter_affected_ops-eq r kept = rw kept refl

abbrev added_before : List ℕ → PatternRewriter → PatternRewriter
added_before ops r = record r {
  added_operations_before = r.added_operations_before ++ ops;
  has_done_action = true;
}

abbrev added_after : List ℕ → PatternRewriter → PatternRewriter
added_after ops r = record r {
  added_operations_after = r.added_operations_after ++ ops;
  has_done_action = true;
}

insert_op_before_matched_op-eq :
    (depth b : ℕ) (ops : List ℕ) (r : PatternRewriter) (s : Ir)
    → (s.op r.current_operation).parent ≡ some b
    → (insert_ops_before depth b ops r.current_operation s).0 ≡ ok tt
    → insert_op_before_matched_op depth ops r s
      ≡ (ok tt, (added_before ops r, (insert_ops_before depth b ops r.current_operation s).1))
unfolding insert_op_before_matched_op insert_ops_before
insert_op_before_matched_op-eq depth b [] r s p e =
    rw (p, append-nil r.added_operations_before) refl
insert_op_before_matched_op-eq depth b (o ∷ ops) r s p e = rw p (rw e refl)

insert_op_after_matched_op-eq :
    (depth b : ℕ) (ops : List ℕ) (r : PatternRewriter) (s : Ir)
    → (s.op r.current_operation).parent ≡ some b
    → (insert_ops_after depth b ops r.current_operation s).0 ≡ ok tt
    → insert_op_after_matched_op depth ops r s
      ≡ (ok tt, (added_after ops r, (insert_ops_after depth b ops r.current_operation s).1))
unfolding insert_op_after_matched_op insert_ops_after
insert_op_after_matched_op-eq depth b [] r s p e = rw (p, append-nil r.added_operations_after) refl
insert_op_after_matched_op-eq depth b (o ∷ ops) r s p e = rw p (rw e refl)

module _ (r : PatternRewriter) (s : Ir) (ops_of : ℕ → List ℕ) (b depth : ℕ) (pre post : List ℕ)
    (v : IsValid s ops_of) (kept : r.has_erased_matched_operation ≡ false)
    (split : ops_of b ≡ pre ++ (iter_affected_ops r ++ post)) where
  split_at_current :
      ops_of b
      ≡ (pre ++ r.added_operations_before)
        ++ r.current_operation ∷ (r.added_operations_after ++ post)
  split_at_current = split ∙ rw (iter_affected_ops-eq r kept) (simp append_assoc)

  -- Where a block of a valid IR has the affected operations in a row, and the matched one is not
  -- erased: `insert_op_before_matched_op` of distinct operations that may be attached returns, and
  -- the block has the affected operations in a row, the new ones behind those that were added before
  -- the matched one, and directly before it.
  pub insert_op_before_matched_op-IsValid :
      (ops : List ℕ)
      → MayAttachAll depth s b ops
      → (r' : PatternRewriter) × (s' : Ir) × (insert_op_before_matched_op depth ops r s
          ≡ (ok tt, (r', s')))
        × IsValid s' (update ops_of b (pre ++ (iter_affected_ops r' ++ post)))
        × (iter_affected_ops r'
            ≡ (r.added_operations_before ++ ops) ++ r.current_operation ∷ r.added_operations_after)
  insert_op_before_matched_op-IsValid ops m =
      let x = r.current_operation in
      let inside = at-parent s ops_of b x _ _ v split_at_current in
      let (done, v') = insert_ops_before-IsValid depth b ops x s ops_of _ _ v split_at_current m in
      let r' = added_before ops r in
      let affected = iter_affected_ops-eq r' kept in
      let same : (pre ++ r.added_operations_before)
            ++ (ops ++ x ∷ (r.added_operations_after ++ post))
          ≡ pre ++ (iter_affected_ops r' ++ post) =
        rw affected (simp append_assoc) in
      (
        r',
        (insert_ops_before depth b ops x s).1,
        insert_op_before_matched_op-eq depth b ops r s inside done,
        subst (λ xs. IsValid (insert_ops_before depth b ops x s).1 (update ops_of b xs)) same v',
        affected,
      )

  -- Where a block of a valid IR has the affected operations in a row, and the matched one is not
  -- erased: `insert_op_after_matched_op` of distinct operations that may be attached returns, and
  -- the block has the new operations directly behind the matched one, where `iter_affected_ops` has
  -- them behind those that were added after it before.
  pub insert_op_after_matched_op-IsValid :
      (ops : List ℕ)
      → MayAttachAll depth s b ops
      → (r' : PatternRewriter) × (s' : Ir) × (insert_op_after_matched_op depth ops r s
          ≡ (ok tt, (r', s')))
        × IsValid s' (
            update ops_of b (
              pre
              ++ (r.added_operations_before
                  ++ r.current_operation ∷ (ops ++ r.added_operations_after)
                  ++ post)))
        × (iter_affected_ops r'
            ≡ r.added_operations_before ++ r.current_operation ∷ (r.added_operations_after ++ ops))
  insert_op_after_matched_op-IsValid ops m =
      let x = r.current_operation in
      let inside = at-parent s ops_of b x _ _ v split_at_current in
      let (done, v') = insert_ops_after-IsValid depth b ops x s ops_of _ _ v split_at_current m in
      let r' = added_after ops r in
      let same : (pre ++ r.added_operations_before)
            ++ (x ∷ ops ++ (r.added_operations_after ++ post))
          ≡ pre ++ (r.added_operations_before ++ x ∷ (ops ++ r.added_operations_after) ++ post) =
        simp append_assoc in
      (
        r',
        (insert_ops_after depth b ops x s).1,
        insert_op_after_matched_op-eq depth b ops r s inside done,
        subst (λ xs. IsValid (insert_ops_after depth b ops x s).1 (update ops_of b xs)) same v',
        iter_affected_ops-eq r' kept,
      )

-- The affected operations in reverse are the affected operations, reversed.
pub iter_affected_ops_reversed-reverse :
    (r : PatternRewriter) → iter_affected_ops_reversed r ≡ reverse (iter_affected_ops r)
unfolding iter_affected_ops iter_affected_ops_reversed
iter_affected_ops_reversed-reverse r = elim (Bool-cases r.has_erased_matched_operation) [
  | inl e ↦ rw e (sym (reverse-append r.added_operations_before r.added_operations_after))
  | inr e ↦ rw e (
      sym (
        reverse-append r.added_operations_before (r.current_operation ∷ r.added_operations_after)
        ∙ rw (reverse-cons r.current_operation r.added_operations_after) (simp append_assoc)))
]
