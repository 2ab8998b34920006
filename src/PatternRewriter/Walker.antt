-- ===== src/PatternRewriter/Walker.antt =====
-- `PatternRewriteWalker` of xdsl/pattern_rewriter.py. The recursion into regions runs on the fuel `depth`, the
-- loop over the operations of a block on `fuel`. The regions of an operation and the blocks of a region are
-- those that there are when the loop over them begins: a pattern must not change these lists.
use xdsl.Prelude.{ℕ, zero, suc, Bool, Option, none, some, List, [], ◌∷◌, reverse, if◌then◌else◌}
use xdsl.Result.{Result, ok, err, out_of_fuel}
use xdsl.Ir.Store.{Ir, M, ◌>>=◌, ◌>>◌, pure, raise, gets}
use xdsl.Ir.Erase.{each}
use xdsl.PatternRewriter.{PatternRewriter, W, pattern_rewriter}
use xdsl.PatternRewriter.Methods.{iter_affected_ops, iter_affected_ops_reversed}

-- A pattern is its `match_and_rewrite`.
pub record PatternRewriteWalker : Type 0 where
  pub pattern_ : ℕ → W (Unit {0})
  pub walk_regions_first : Bool
  pub apply_recursively : Bool
  pub walk_reverse : Bool

-- The rewriter after a match.
abbrev rewriter_after : Result (Unit {0}) × (PatternRewriter × Ir) → Result PatternRewriter × Ir
rewriter_after (ok done, (rewriter, s)) = (ok rewriter, s)
rewriter_after (err e, (rewriter, s)) = (err e, s)

abbrev match_op : PatternRewriteWalker → ℕ → M PatternRewriter
match_op self op s = rewriter_after (self.pattern_ op (pattern_rewriter op) s)

-- `while iter_op is not None`
unfoldable pub walk_from : ℕ → (ℕ → M (Option ℕ)) → Option ℕ → M (Unit {0})
walk_from fuel step none = pure tt
walk_from zero step (some iter_op) = raise out_of_fuel
walk_from (suc fuel) step (some iter_op) = step iter_op >>= walk_from fuel step

-- The loop over a block, where `step` is `_rewrite_op`.
unfoldable pub rewrite_block : ℕ → PatternRewriteWalker → (ℕ → M (Option ℕ)) → ℕ → M (Unit {0})
unfolding walk_from
rewrite_block fuel self step block = do
  iter_op ←
      gets (λ s. if self.walk_reverse then (s.block block).last_op else (s.block block).first_op)
  walk_from fuel step iter_op

unfoldable pub rewrite_region : ℕ → PatternRewriteWalker → (ℕ → M (Option ℕ)) → ℕ → M (Unit {0})
unfolding rewrite_block
rewrite_region fuel self step region = do
  blocks ← gets (λ s. (s.region region).blocks)
  each (rewrite_block fuel self step) (if self.walk_reverse then reverse blocks else blocks)

-- `_rewrite_op_regions`
unfoldable pub rewrite_op_regions : ℕ → PatternRewriteWalker → (ℕ → M (Option ℕ)) → ℕ → M (Unit {0})
unfolding rewrite_region
rewrite_op_regions fuel self step op = do
  regions ← gets (λ s. (s.op op).regions)
  each (rewrite_region fuel self step) regions

-- The first of the operations, or what is returned where there is none.
abbrev pub first_of : List ℕ → Option ℕ → Option ℕ
first_of [] other = other
first_of (op ∷ ops) other = some op

-- What `_rewrite_op` does after the match: `regions` is `_rewrite_op_regions`, and `prev_op` and `next_op`
-- are those from before it.
unfoldable pub after_match :
    PatternRewriteWalker
    → (ℕ → M (Unit {0}))
    → ℕ
    → Option ℕ
    → Option ℕ
    → PatternRewriter
    → M (Option ℕ)
unfolding iter_affected_ops iter_affected_ops_reversed
after_match self regions op prev_op next_op rewriter =
    let following = if self.walk_reverse then prev_op else next_op in
    let own = if rewriter.has_erased_matched_operation then pure tt else regions op in
    let added =
      each regions rewriter.added_operations_before
      >> own
      >> each regions rewriter.added_operations_after in
    if rewriter.has_done_action
    then (if self.apply_recursively
        then pure (
            if self.walk_reverse
            then first_of (iter_affected_ops_reversed rewriter) prev_op
            else first_of (iter_affected_ops rewriter) next_op)
        else ((if self.walk_regions_first then pure tt else added) >> pure following))
    else ((if self.walk_regions_first then pure tt else regions op) >> pure following)

-- `_rewrite_op`
unfoldable pub rewrite_op : ℕ → ℕ → PatternRewriteWalker → ℕ → M (Option ℕ)
unfolding rewrite_op_regions after_match
rewrite_op zero fuel self op = raise out_of_fuel
rewrite_op (suc depth) fuel self op =
    let regions = rewrite_op_regions fuel self (rewrite_op depth fuel self) in
    (if self.walk_regions_first then regions op else pure tt)
    >> gets (λ s. (s.op op).prev_op)
    >>= λ prev_op. gets (λ s. (s.op op).next_op) >>= λ next_op.
        match_op self op >>= after_match self regions op prev_op next_op
