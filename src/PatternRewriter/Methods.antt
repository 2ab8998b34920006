-- ===== src/PatternRewriter/Methods.antt =====
-- The methods of `PatternRewriter` that insert, erase and replace operations, and inline blocks, and
-- `GreedyRewritePatternApplier` (xdsl/pattern_rewriter.py).
use xdsl.Prelude.{
  ℕ, Bool, true, Option, none, some, List, [], ◌∷◌, ◌++◌, reverse, ◌==◌, if◌then◌else◌,
}
use xdsl.Ir.Store.{gets}
use xdsl.Ir.Block.{insert_ops_before, insert_ops_after, add_ops, block_ops}
use xdsl.Ir.Rewriter
use xdsl.Ir.Erase
use xdsl.PatternRewriter.{
  PatternRewriter, W, ◌>>=◌, ◌>>◌, pure, raise, on_ir, assign, check, can_modify_op,
  can_modify_block,
}
use xdsl.Result.{exception}

abbrev has_done : W (Unit {0})
has_done = assign (λ r. record r { has_done_action = true })

abbrev erased_matched : W (Unit {0})
erased_matched = assign (λ r. record r { has_erased_matched_operation = true })

abbrev extend_before : List ℕ → W (Unit {0})
extend_before ops =
    assign (λ r. record r { added_operations_before = r.added_operations_before ++ ops })

abbrev extend_after : List ℕ → W (Unit {0})
extend_after ops =
    assign (λ r. record r { added_operations_after = r.added_operations_after ++ ops })

abbrev matched : W ℕ
matched r s = pure r.current_operation r s

-- `if len(op) == 0: return`
abbrev unless_empty : List ℕ → W (Unit {0}) → W (Unit {0})
unless_empty [] body = pure tt
unless_empty (op ∷ ops) body = body

-- The matched operation's block, with what is done in it.
abbrev in_block : Option ℕ → (ℕ → W (Unit {0})) → W (Unit {0})
in_block none body = raise exception
in_block (some block) body = body block

unfoldable pub insert_op_before_matched_op : ℕ → List ℕ → W (Unit {0})
insert_op_before_matched_op depth op = matched >>= λ current.
    on_ir (gets (λ s. (s.op current).parent)) >>= λ parent. in_block parent (λ block.
      has_done
      >> unless_empty op (on_ir (insert_ops_before depth block op current) >> extend_before op))

unfoldable pub insert_op_after_matched_op : ℕ → List ℕ → W (Unit {0})
insert_op_after_matched_op depth op = matched >>= λ current.
    on_ir (gets (λ s. (s.op current).parent)) >>= λ parent. in_block parent (λ block.
      has_done
      >> unless_empty op (on_ir (insert_ops_after depth block op current) >> extend_after op))

-- `if not self._can_modify_block(block): raise Exception`, and the same of an operation.
abbrev check_block : ℕ → ℕ → W (Unit {0})
check_block depth block =
    matched >>= λ current. on_ir (can_modify_block depth current block) >>= check

abbrev check_op : ℕ → ℕ → W (Unit {0})
check_op depth op = matched >>= λ current. on_ir (can_modify_op depth current op) >>= check

unfoldable pub insert_op_at_end : ℕ → List ℕ → ℕ → W (Unit {0})
insert_op_at_end depth op block =
    check_block depth block >> has_done >> unless_empty op (on_ir (add_ops depth block op))

unfoldable pub insert_op_before : ℕ → List ℕ → ℕ → W (Unit {0})
insert_op_before depth op target_op = on_ir (gets (λ s. (s.op target_op).parent)) >>= λ parent.
    in_block parent (λ block.
      check_block depth block
      >> has_done
      >> unless_empty op (on_ir (insert_ops_before depth block op target_op)))

unfoldable pub insert_op_after : ℕ → List ℕ → ℕ → W (Unit {0})
insert_op_after depth op target_op = on_ir (gets (λ s. (s.op target_op).parent)) >>= λ parent.
    in_block parent (λ block.
      check_block depth block
      >> has_done
      >> unless_empty op (on_ir (insert_ops_after depth block op target_op)))

abbrev at_start : ℕ → List ℕ → ℕ → Option ℕ → W (Unit {0})
at_start depth op block none = insert_op_at_end depth op block
at_start depth op block (some first_op) = insert_op_before depth op first_op

unfoldable pub insert_op_at_start : ℕ → List ℕ → ℕ → W (Unit {0})
unfolding insert_op_at_end insert_op_before
insert_op_at_start depth op block =
    check_block depth block
    >> (on_ir (gets (λ s. (s.block block).first_op)) >>= at_start depth op block)

unfoldable pub erase_matched_op : ℕ → ℕ → (ℕ → ℕ) → Bool → W (Unit {0})
erase_matched_op depth fuel erased safe_erase =
    has_done
    >> erased_matched
    >> (matched >>= λ current. on_ir (Erase.erase_op depth fuel erased current safe_erase))

unfoldable pub erase_op : ℕ → ℕ → (ℕ → ℕ) → ℕ → Bool → W (Unit {0})
unfolding erase_matched_op
erase_op depth fuel erased op safe_erase =
    has_done
    >> (matched >>= λ current.
        if op == current
        then erase_matched_op depth fuel erased safe_erase
        else (check_op depth op >> on_ir (Erase.erase_op depth fuel erased op safe_erase)))

unfoldable pub replace_matched_op :
    ℕ → ℕ → (ℕ → ℕ) → List ℕ → Option (List (Option ℕ)) → Bool → W (Unit {0})
replace_matched_op depth fuel erased new_ops new_results safe_erase =
    has_done
    >> erased_matched
    >> (matched >>= λ current.
        on_ir (Erase.replace_op depth fuel erased current new_ops new_results safe_erase))
    >> extend_before new_ops

unfoldable pub replace_op :
    ℕ → ℕ → (ℕ → ℕ) → ℕ → List ℕ → Option (List (Option ℕ)) → Bool → W (Unit {0})
unfolding replace_matched_op
replace_op depth fuel erased op new_ops new_results safe_erase =
    has_done
    >> (matched >>= λ current.
        if op == current
        then replace_matched_op depth fuel erased new_ops new_results safe_erase
        else (check_op depth op
            >> on_ir (Erase.replace_op depth fuel erased op new_ops new_results safe_erase)))

unfoldable pub inline_block_before_matched_op : ℕ → ℕ → ℕ → W (Unit {0})
inline_block_before_matched_op depth fuel block =
    has_done
    >> check_block depth block
    >> (on_ir (block_ops fuel block) >>= extend_before)
    >> (matched >>= λ current. on_ir (Rewriter.inline_block_before depth fuel block current))

unfoldable pub inline_block_before : ℕ → ℕ → ℕ → ℕ → W (Unit {0})
unfolding inline_block_before_matched_op
inline_block_before depth fuel block op =
    has_done
    >> (matched >>= λ current.
        if op == current
        then inline_block_before_matched_op depth fuel block
        else (check_block depth block
            >> check_op depth op
            >> on_ir (Rewriter.inline_block_before depth fuel block op)))

unfoldable pub inline_block_after_matched_op : ℕ → ℕ → ℕ → W (Unit {0})
inline_block_after_matched_op depth fuel block =
    has_done
    >> check_block depth block
    >> (on_ir (block_ops fuel block) >>= extend_after)
    >> (matched >>= λ current. on_ir (Rewriter.inline_block_after depth fuel block current))

-- `op.parent is not None and not self._can_modify_block(op.parent)`
abbrev check_parent : ℕ → Option ℕ → W (Unit {0})
check_parent depth none = pure tt
check_parent depth (some parent) = check_block depth parent

unfoldable pub inline_block_after : ℕ → ℕ → ℕ → ℕ → W (Unit {0})
unfolding inline_block_after_matched_op
inline_block_after depth fuel block op =
    has_done
    >> (matched >>= λ current.
        if op == current
        then inline_block_after_matched_op depth fuel block
        else (check_block depth block
            >> (on_ir (gets (λ s. (s.op op).parent)) >>= check_parent depth)
            >> on_ir (Rewriter.inline_block_after depth fuel block op)))

abbrev unless_erased : PatternRewriter → List ℕ
unless_erased r = if r.has_erased_matched_operation then [] else r.current_operation ∷ []

unfoldable pub iter_affected_ops : PatternRewriter → List ℕ
iter_affected_ops r = r.added_operations_before ++ (unless_erased r ++ r.added_operations_after)

unfoldable pub iter_affected_ops_reversed : PatternRewriter → List ℕ
iter_affected_ops_reversed r =
    reverse r.added_operations_after ++ (unless_erased r ++ reverse r.added_operations_before)

-- `GreedyRewritePatternApplier.match_and_rewrite`; a pattern is its own `match_and_rewrite`.
unfoldable pub apply_first : List (ℕ → W (Unit {0})) → ℕ → W (Unit {0})
apply_first [] op = pure tt
apply_first (pattern_ ∷ patterns) op =
    let rest = apply_first patterns op in
    pattern_ op >> λ r s. if r.has_done_action then pure tt r s else rest r s
