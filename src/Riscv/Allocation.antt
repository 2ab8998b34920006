-- ===== src/Riscv/Allocation.antt =====
-- The steps of `RegisterAllocatorLivenessBlockNaive`, xdsl/backend/riscv/register_allocation.py, for
-- operations other than loops. An SSA value is a number, and its type is looked up in a function.
pub mod Types
use xdsl.Prelude.{ℕ, Bool, true, false, List, [], ◌∷◌, ◌==◌, if◌then◌else◌}
use xdsl.Result.{Result, ok, ◌>>=◌}
use xdsl.Riscv.{Register, is_allocated}
use xdsl.Riscv.Queue.{RegisterQueue, push, pop}

pub data ValueType : Type 0 where
  register : Register → ValueType
  other_type : ℕ → ValueType

-- The queue and the types of the SSA values.
pub record Allocator : Type 0 where
  pub available_registers : RegisterQueue
  pub types : ℕ → ValueType

abbrev pub set_type : ℕ → ValueType → (ℕ → ValueType) → ℕ → ValueType
set_type v t types w = if w == v then t else types w

-- `allocate` of a value of the given type
unfoldable pub allocate_at : ValueType → ℕ → Allocator → Bool × Allocator
unfolding is_allocated
allocate_at (other_type n) reg s = (false, s)
allocate_at (register r) reg s =
    if is_allocated r.data_name
    then (false, s)
    else let (r', q) = pop r.is_int s.available_registers in
      (true, record { available_registers = q; types = set_type reg (register r') s.types })

unfoldable pub allocate : ℕ → Allocator → Bool × Allocator
unfolding allocate_at
allocate reg s = allocate_at (s.types reg) reg s

-- `_free` of a value of the given type
unfoldable pub free_at : ValueType → Allocator → Result Allocator
unfolding is_allocated
free_at (other_type n) s = ok s
free_at (register r) s =
    if is_allocated r.data_name
    then push r s.available_registers >>= (λ q. ok (record s { available_registers = q }))
    else ok s

unfoldable pub free : ℕ → Allocator → Result Allocator
unfolding free_at
free reg s = free_at (s.types reg) s

-- The two loops of `process_riscv_op`.
unfoldable pub process_results : List ℕ → Allocator → Result Allocator
process_results [] s = ok s
process_results (result ∷ results) s = do
  s' ← free result (allocate result s).1
  process_results results s'

unfoldable pub process_operands : List ℕ → Allocator → Allocator
process_operands [] s = s
process_operands (operand ∷ operands) s = process_operands operands (allocate operand s).1

unfoldable pub process_riscv_op : List ℕ → List ℕ → Allocator → Result Allocator
process_riscv_op results operands s = do
  s' ← process_results results s
  ok (process_operands operands s')
