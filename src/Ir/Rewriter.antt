-- ===== src/Ir/Rewriter.antt =====
-- The block manipulations of `Rewriter` (xdsl/rewriter.py).
pub mod Inline
use xdsl.Prelude.{ℕ, Option, none, some, List, [], ◌∷◌, if◌then◌else◌}
use xdsl.Result.{exception}
use xdsl.Ir.Store.{M, ◌>>=◌, ◌>>◌, pure, raise, gets, is_none}
use xdsl.Ir.Block.{detach_op, insert_ops_before, insert_ops_after, block_ops}

-- `Operation.detach`
unfoldable pub detach_from : ℕ → Option ℕ → M (Unit {0})
detach_from op none = raise exception
detach_from op (some parent) = detach_op parent op

unfoldable pub detach : ℕ → M (Unit {0})
unfolding detach_from
detach op = do parent ← gets (λ s. (s.op op).parent); detach_from op parent

-- `for block_op in ops: block_op.detach()`
unfoldable pub detach_all : List ℕ → M (Unit {0})
unfolding detach
detach_all [] = pure tt
detach_all (op ∷ ops) = do detach op; detach_all ops

-- `ops = list(block.ops)`, and then detach each of them
unfoldable pub take_ops : ℕ → ℕ → M (List ℕ)
unfolding detach_all
take_ops fuel block = do ops ← block_ops fuel block; detach_all ops; pure ops

-- Inserting before or after `op`, whose parent must not be None.
unfoldable pub inline_before_at : ℕ → List ℕ → ℕ → Option ℕ → M (Unit {0})
inline_before_at depth ops op none = raise exception
inline_before_at depth ops op (some parent) = insert_ops_before depth parent ops op

unfoldable pub inline_after_at : ℕ → List ℕ → ℕ → Option ℕ → M (Unit {0})
inline_after_at depth ops op none = raise exception
inline_after_at depth ops op (some parent) = insert_ops_after depth parent ops op

-- `Rewriter.inline_block_before`; the parent of `op` is read again after the operations are detached
unfoldable pub inline_block_before : ℕ → ℕ → ℕ → ℕ → M (Unit {0})
unfolding take_ops inline_before_at
inline_block_before depth fuel block op = do
  parent ← gets (λ s. (s.op op).parent)
  if is_none parent then raise exception else do
    ops ← take_ops fuel block
    parent ← gets (λ s. (s.op op).parent)
    inline_before_at depth ops op parent

-- `Rewriter.inline_block_after`
unfoldable pub inline_block_after : ℕ → ℕ → ℕ → ℕ → M (Unit {0})
unfolding take_ops inline_after_at
inline_block_after depth fuel block op = do
  parent ← gets (λ s. (s.op op).parent)
  if is_none parent then raise exception else do
    ops ← take_ops fuel block
    parent ← gets (λ s. (s.op op).parent)
    inline_after_at depth ops op parent

-- `Rewriter.insert_op_before` and `Rewriter.insert_op_after`
unfoldable pub insert_op_before : ℕ → ℕ → ℕ → M (Unit {0})
unfolding inline_before_at
insert_op_before depth op new_op = do
  parent ← gets (λ s. (s.op op).parent)
  inline_before_at depth (new_op ∷ []) op parent

unfoldable pub insert_op_after : ℕ → ℕ → ℕ → M (Unit {0})
unfolding inline_after_at
insert_op_after depth op new_op = do
  parent ← gets (λ s. (s.op op).parent)
  inline_after_at depth (new_op ∷ []) op parent
