-- ===== src/Riscv/Exclude.antt =====
-- The registers that `RegisterAllocatorLivenessBlockNaive.allocate_func` of
-- xdsl/backend/riscv/register_allocation.py keeps away from the allocation: those that a function
-- uses already.
use xdsl.Prelude.{◌≡◌, Bool, true, List, [], ◌∷◌, ◌||◌, not, if◌then◌else◌}
use xdsl.Riscv.{Register, same, is_allocated, starts_with_j}
use xdsl.Riscv.Queue.{RegisterQueue, contains}
use xdsl.Riscv.Allocation.{ValueType, register, other_type}

-- An operation of `func.walk()`: whether it is a RISCVOp, and the types of its operands and results.
pub record WalkedOp : Type 0 where
  pub is_riscv_op : Bool
  pub param_types : List ValueType

-- `reserved.add(r)`
unfoldable pub add_register : Register → List Register → List Register
unfolding contains
add_register r rs = if contains r rs then rs else r ∷ rs

unfoldable pub gather_params : List ValueType → List Register → List Register
unfolding add_register is_allocated starts_with_j
gather_params [] allocated = allocated
gather_params (other_type n ∷ ts) allocated = gather_params ts allocated
gather_params (register r ∷ ts) allocated = gather_params ts (
    if not (is_allocated r.data_name) || starts_with_j r.data_name
    then allocated
    else add_register r allocated)

unfoldable pub gather_allocated : List WalkedOp → List Register → List Register
unfolding gather_params
gather_allocated [] allocated = allocated
gather_allocated (op ∷ ops) allocated =
    gather_allocated ops
      (if op.is_riscv_op then gather_params op.param_types allocated else allocated)

-- `if r in rs: rs.remove(r)`
unfoldable pub remove : Register → List Register → List Register
remove r [] = []
remove r (x ∷ xs) = if same r x then xs else x ∷ remove r xs

-- One turn of the loop over the preallocated registers.
unfoldable pub exclude_register : Register → RegisterQueue → RegisterQueue
unfolding remove add_register
exclude_register r q = record q {
  reserved_registers = add_register r q.reserved_registers;
  available_int_registers = remove r q.available_int_registers;
  available_float_registers = remove r q.available_float_registers;
}

-- The loop over the preallocated registers.
unfoldable pub exclude : List Register → RegisterQueue → RegisterQueue
unfolding exclude_register
exclude [] q = q
exclude (r ∷ rs) q = exclude rs (exclude_register r q)

-- All these registers are reserved.
abbrev pub AllReserved : List Register → RegisterQueue → Type 0
AllReserved [] q = Unit
AllReserved (r ∷ rs) q = (contains r q.reserved_registers ≡ true) × AllReserved rs q
