-- ===== src/Riscv/Queue.antt =====
-- The queue of registers, xdsl/backend/riscv/register_queue.py. Its lists are in Python's order, so
-- that `pop` takes the last; a set is a list.
pub mod Valid
use xdsl.Prelude.{
  ℕ, zero, suc, ◌-◌, Bool, true, false, not, Option, none, some, List, [], ◌∷◌, ◌++◌, reverse,
  length, ◌==◌, if◌then◌else◌,
}
use xdsl.Prelude.Int.{ℤ, pos, negsuc}
use xdsl.Result.{Result, ok, err, value_error}
use xdsl.Riscv.{
  RegisterName, Register, same, is_allocated, int_register, a_registers, t_registers, fa_registers,
  ft_registers,
}

pub record RegisterQueue : Type 0 where
  pub idx : ℕ
  pub reserved_registers : List Register
  pub available_int_registers : List Register
  pub available_float_registers : List Register

unfoldable pub contains : Register → List Register → Bool
contains r [] = false
contains r (x ∷ xs) = if same r x then true else contains r xs

abbrev pub default_queue : RegisterQueue
default_queue = record {
  idx = 0;
  reserved_registers =
      int_register RegisterName.zero
      ∷ int_register RegisterName.sp
      ∷ int_register RegisterName.gp
      ∷ int_register RegisterName.tp
      ∷ int_register RegisterName.fp
      ∷ int_register (RegisterName.s 0)
      ∷ [];
  available_int_registers = reverse a_registers ++ reverse t_registers;
  available_float_registers = reverse fa_registers ++ reverse ft_registers;
}

-- `xs.pop()` of a list that may be empty: the rest and the last element.
unfoldable pub pop_last {ℓ} : {A : Type ℓ} → List A → Option (List A × A)
pop_last [] = none
pop_last (x ∷ xs) = elim (pop_last xs) [
  | none ↦ some ([], x)
  | some (rest, last) ↦ some (x ∷ rest, last)
]

unfoldable pub drop {ℓ} : {A : Type ℓ} → ℕ → List A → List A
drop zero xs = xs
drop (suc n) [] = []
drop (suc n) (x ∷ xs) = drop n xs

abbrev pub available : Bool → RegisterQueue → List Register
available true q = q.available_int_registers
available false q = q.available_float_registers

abbrev pub set_available : Bool → List Register → RegisterQueue → RegisterQueue
set_available true xs q = record q { available_int_registers = xs }
set_available false xs q = record q { available_float_registers = xs }

unfoldable pub push : Register → RegisterQueue → Result RegisterQueue
unfolding contains is_allocated
push reg q =
    if contains reg q.reserved_registers
    then ok q
    else if not (is_allocated reg.data_name)
    then err value_error
    else ok (set_available reg.is_int (available reg.is_int q ++ reg ∷ []) q)

-- `reg_type` is the class of the register, IntRegisterType or not.
unfoldable pub pop : Bool → RegisterQueue → Register × RegisterQueue
unfolding pop_last
pop reg_type q = elim (pop_last (available reg_type q)) [
  | some (rest, reg) ↦ (reg, set_available reg_type rest q)
  | none ↦
      (record { is_int = reg_type; data_name = RegisterName.j q.idx }, record q { idx = suc q.idx })
]

-- `xs[-limit:]` for a limit that is not 0
unfoldable pub keep_last {ℓ} : {A : Type ℓ} → ℕ → List A → List A
unfolding drop
keep_last limit xs = drop (length xs - limit) xs

unfoldable pub limit_registers : ℤ → RegisterQueue → Result RegisterQueue
unfolding keep_last
limit_registers (negsuc n) q = err value_error
limit_registers (pos limit) q =
    if limit == 0
    then ok (record q { available_int_registers = []; available_float_registers = [] })
    else ok (record q {
      available_int_registers = keep_last limit q.available_int_registers;
      available_float_registers = keep_last limit q.available_float_registers;
    })
