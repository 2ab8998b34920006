-- ===== src/Ir/Block.antt =====
-- The operations of a block (xdsl/ir/core.py): a doubly linked list through the fields of the
-- operations. `is_ancestor` climbs from a node to its parents; it runs on fuel, `depth`.
pub mod Linked
pub mod Holds
pub mod Ancestor
pub mod Insert
pub mod Append
pub mod Detach
pub mod Many
pub mod Iterate
use xdsl.Prelude.{
  ℕ, zero, suc, Bool, true, false, Option, none, some, List, [], ◌∷◌, ◌==◌, if◌then◌else◌,
}
use xdsl.Result.{value_error, exception, assertion, out_of_fuel}
use xdsl.Ir.Store.{
  Ir, M, ◌>>=◌, ◌>>◌, pure, raise, check, gets, modify, set_parent, set_next, set_prev, set_first,
  set_last, is_ref, is_none,
}

-- An IRNode.
pub data Node : Type 0 where
  an_op a_block a_region : ℕ → Node

unfoldable pub is_same : Node → Node → Bool
is_same (an_op i) (an_op j) = i == j
is_same (a_block i) (a_block j) = i == j
is_same (a_region i) (a_region j) = i == j
is_same _ _ = false

-- `parent_node`
unfoldable pub parent_node : Ir → Node → Option Node
parent_node s (an_op o) = elim (s.op o).parent [ none ↦ none | some b ↦ some (a_block b) ]
parent_node s (a_block b) = elim (s.block b).parent [ none ↦ none | some r ↦ some (a_region r) ]
parent_node s (a_region r) = elim (s.region r).parent [ none ↦ none | some o ↦ some (an_op o) ]

-- `self.is_ancestor(node)`
unfoldable pub is_ancestor : ℕ → Node → Node → M Bool
unfolding is_same parent_node
is_ancestor zero self node s = raise out_of_fuel s
is_ancestor (suc depth) self node s = elim (is_same node self) [
  | true ↦ pure true s
  | false ↦ elim (parent_node s node) [
    | none ↦ pure false s
    | some parent ↦ is_ancestor depth self parent s
  ]
]

-- `if x is not None: ...`
unfoldable pub when_some : Option ℕ → (ℕ → Ir → Ir) → M (Unit {0})
when_some none f = pure tt
when_some (some o) f = modify (f o)

-- `Operation._insert_next_op`
unfoldable pub insert_next_op : ℕ → ℕ → M (Unit {0})
unfolding when_some
insert_next_op self new_op = do
  next ← gets (λ s. (s.op self).next_op)
  when_some next (λ n. set_prev n (some new_op))
  modify (set_prev new_op (some self))
  next ← gets (λ s. (s.op self).next_op)
  modify (set_next new_op next)
  modify (set_next self (some new_op))

-- `Operation._insert_prev_op`
unfoldable pub insert_prev_op : ℕ → ℕ → M (Unit {0})
unfolding when_some
insert_prev_op self new_op = do
  prev ← gets (λ s. (s.op self).prev_op)
  when_some prev (λ p. set_next p (some new_op))
  prev ← gets (λ s. (s.op self).prev_op)
  modify (set_prev new_op prev)
  modify (set_next new_op (some self))
  modify (set_prev self (some new_op))

-- `Block._attach_op`; every block is truthy, so `if operation.parent` asks whether there is a parent.
unfoldable pub attach_op : ℕ → ℕ → ℕ → M (Unit {0})
unfolding is_ancestor
attach_op depth self operation = do
  parent ← gets (λ s. (s.op operation).parent)
  check (is_none parent) value_error
  inside ← is_ancestor depth (an_op operation) (a_block self)
  if inside then raise value_error else modify (set_parent operation (some self))

-- `Block.insert_op_after`
unfoldable pub insert_op_after : ℕ → ℕ → ℕ → ℕ → M (Unit {0})
unfolding attach_op insert_next_op
insert_op_after depth self new_op existing_op = do
  parent ← gets (λ s. (s.op existing_op).parent)
  check (is_ref parent self) value_error
  attach_op depth self new_op
  next_op ← gets (λ s. (s.op existing_op).next_op)
  insert_next_op existing_op new_op
  if is_none next_op then modify (set_last self (some new_op)) else pure tt

-- `Block.insert_op_before`
unfoldable pub insert_op_before : ℕ → ℕ → ℕ → ℕ → M (Unit {0})
unfolding attach_op insert_prev_op
insert_op_before depth self new_op existing_op = do
  parent ← gets (λ s. (s.op existing_op).parent)
  check (is_ref parent self) value_error
  attach_op depth self new_op
  prev_op ← gets (λ s. (s.op existing_op).prev_op)
  insert_prev_op existing_op new_op
  if is_none prev_op then modify (set_first self (some new_op)) else pure tt

-- The two branches of `Block.add_op`, on `self._last_op`.
unfoldable pub add_op_at : ℕ → ℕ → ℕ → Option ℕ → M (Unit {0})
unfolding attach_op insert_op_after
add_op_at depth self operation none = do
  attach_op depth self operation
  modify (set_first self (some operation))
  modify (set_last self (some operation))
add_op_at depth self operation (some last) = insert_op_after depth self operation last

unfoldable pub add_op : ℕ → ℕ → ℕ → M (Unit {0})
unfolding add_op_at
add_op depth self operation = do
  last ← gets (λ s. (s.block self).last_op)
  add_op_at depth self operation last

unfoldable pub add_ops : ℕ → ℕ → List ℕ → M (Unit {0})
add_ops depth self [] = pure tt
add_ops depth self (op ∷ ops) = do add_op depth self op; add_ops depth self ops

unfoldable pub insert_ops_before : ℕ → ℕ → List ℕ → ℕ → M (Unit {0})
insert_ops_before depth self [] existing_op = pure tt
insert_ops_before depth self (op ∷ ops) existing_op = do
  insert_op_before depth self op existing_op
  insert_ops_before depth self ops existing_op

unfoldable pub insert_ops_after : ℕ → ℕ → List ℕ → ℕ → M (Unit {0})
insert_ops_after depth self [] existing_op = pure tt
insert_ops_after depth self (op ∷ ops) existing_op = do
  insert_op_after depth self op existing_op
  insert_ops_after depth self ops op

-- The two sides of the operation that `Block.detach_op` takes out.
unfoldable pub detach_prev : ℕ → ℕ → Option ℕ → Option ℕ → M (Unit {0})
detach_prev self op (some prev_op) next_op = do
  modify (set_next prev_op next_op)
  modify (set_prev op none)
detach_prev self op none next_op = do
  first ← gets (λ s. (s.block self).first_op)
  check (is_ref first op) assertion
  modify (set_first self next_op)

unfoldable pub detach_next : ℕ → ℕ → Option ℕ → Option ℕ → M (Unit {0})
detach_next self op prev_op (some next_op) = do
  modify (set_prev next_op prev_op)
  modify (set_next op none)
detach_next self op prev_op none = do
  last ← gets (λ s. (s.block self).last_op)
  check (is_ref last op) assertion
  modify (set_last self prev_op)

unfoldable pub detach_op : ℕ → ℕ → M (Unit {0})
unfolding detach_prev detach_next
detach_op self op = do
  parent ← gets (λ s. (s.op op).parent)
  check (is_ref parent self) exception
  modify (set_parent op none)
  prev_op ← gets (λ s. (s.op op).prev_op)
  next_op ← gets (λ s. (s.op op).next_op)
  detach_prev self op prev_op next_op
  detach_next self op prev_op next_op

-- The iteration of `Block.ops` from an operation on, `_BlockOpsIterator`, on fuel.
unfoldable pub ops_from : ℕ → Option ℕ → M (List ℕ)
ops_from fuel none = pure []
ops_from zero (some o) = raise out_of_fuel
ops_from (suc fuel) (some o) = do
  next ← gets (λ s. (s.op o).next_op)
  rest ← ops_from fuel next
  pure (o ∷ rest)

unfoldable pub ops_back_from : ℕ → Option ℕ → M (List ℕ)
ops_back_from fuel none = pure []
ops_back_from zero (some o) = raise out_of_fuel
ops_back_from (suc fuel) (some o) = do
  prev ← gets (λ s. (s.op o).prev_op)
  rest ← ops_back_from fuel prev
  pure (o ∷ rest)

-- `for op in self.ops` and `for op in self.ops_reverse`, as the lists that they go through
unfoldable pub block_ops : ℕ → ℕ → M (List ℕ)
unfolding ops_from
block_ops fuel self = do first ← gets (λ s. (s.block self).first_op); ops_from fuel first

unfoldable pub block_ops_reverse : ℕ → ℕ → M (List ℕ)
unfolding ops_back_from
block_ops_reverse fuel self = do last ← gets (λ s. (s.block self).last_op); ops_back_from fuel last

-- The loop of `get_operation_index`, over what is left of `enumerate(self.ops)`.
unfoldable pub index_from : ℕ → List ℕ → ℕ → M ℕ
index_from op [] idx = raise assertion
index_from op (block_op ∷ ops) idx =
    let rest = index_from op ops (suc idx) in if block_op == op then pure idx else rest

unfoldable pub get_operation_index : ℕ → ℕ → ℕ → M ℕ
unfolding block_ops index_from
get_operation_index fuel self op = do
  parent ← gets (λ s. (s.op op).parent)
  check (is_ref parent self) exception
  ops ← block_ops fuel self
  index_from op ops 0
