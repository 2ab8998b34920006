-- ===== src/Riscv.antt =====
-- The RISC-V register types of xdsl/dialects/riscv.py. A name is a family with an index instead of
-- its text: `a 3` is "a3", `j 12` is "j12", `unallocated` is "".
pub mod Queue
pub mod Allocation
pub mod Exclude
use xdsl.Prelude.{
  ℕ, ◌+◌, ◌≡◌, ◌↔◌, Bool, true, false, not, ◌&&◌, ◌||◌, Option, none, some, List, [], ◌∷◌, map, ltb,
  ◌==◌, if◌then◌else◌, arith,
}
use xdsl.Result.{Result, ok, err, value_error, exception}

pub data RegisterName : Type 0 where
  unallocated zero ra sp gp tp fp : RegisterName
  s t a ft fs fa j : ℕ → RegisterName

-- The class of the type, IntRegisterType or not, and its data.
pub record Register : Type 0 where
  pub is_int : Bool
  pub data_name : RegisterName

abbrev family : RegisterName → ℕ
family unallocated = 0
family zero = 1
family ra = 2
family sp = 3
family gp = 4
family tp = 5
family fp = 6
family (s n) = 7
family (t n) = 8
family (a n) = 9
family (ft n) = 10
family (fs n) = 11
family (fa n) = 12
family (j n) = 13

abbrev number : RegisterName → ℕ
number (s n) = n
number (t n) = n
number (a n) = n
number (ft n) = n
number (fs n) = n
number (fa n) = n
number (j n) = n
number _ = 0

-- `==` of register types: the same class and data.
unfoldable pub same : Register → Register → Bool
same x y =
    (if x.is_int then y.is_int else not y.is_int)
    && (family x.data_name == family y.data_name)
    && (number x.data_name == number y.data_name)

name_eq : (x y : RegisterName) → family x ≡ family y → number x ≡ number y → x ≡ y
name_eq x y h g = ground arith

pub same-eq : (x y : Register) → (same x y ≡ true) ↔ (x ≡ y)
unfolding same
same-eq x y = ground (arith, name_eq x.data_name y.data_name)

unfoldable pub is_allocated : RegisterName → Bool
is_allocated unallocated = false
is_allocated _ = true

unfoldable pub register_name : Register → Result RegisterName
unfolding is_allocated
register_name x = if is_allocated x.data_name then ok x.data_name else err value_error

unfoldable pub starts_with_j : RegisterName → Bool
starts_with_j (j n) = true
starts_with_j _ = false

-- `RV32I_INDEX_BY_NAME` and `RV32F_INDEX_BY_NAME`
unfoldable pub rv32i_index : RegisterName → Option ℕ
rv32i_index zero = some 0
rv32i_index ra = some 1
rv32i_index sp = some 2
rv32i_index gp = some 3
rv32i_index tp = some 4
rv32i_index fp = some 8
rv32i_index (t n) = if ltb n 3 then some (5 + n) else if ltb n 7 then some (25 + n) else none
rv32i_index (s n) = if ltb n 2 then some (8 + n) else if ltb n 12 then some (16 + n) else none
rv32i_index (a n) = if ltb n 8 then some (10 + n) else none
rv32i_index _ = none

unfoldable pub rv32f_index : RegisterName → Option ℕ
rv32f_index (ft n) = if ltb n 8 then some n else if ltb n 12 then some (20 + n) else none
rv32f_index (fs n) = if ltb n 2 then some (8 + n) else if ltb n 12 then some (16 + n) else none
rv32f_index (fa n) = if ltb n 8 then some (10 + n) else none
rv32f_index _ = none

unfoldable pub abi_index : Register → Option ℕ
unfolding rv32i_index rv32f_index
abi_index x = if x.is_int then rv32i_index x.data_name else rv32f_index x.data_name

-- `RISCVRegisterType.verify`
unfoldable pub verify : Register → Result (Unit {0})
unfolding is_allocated starts_with_j abi_index
verify x =
    if not (is_allocated x.data_name) || starts_with_j x.data_name
    then ok tt
    else elim (abi_index x) [ none ↦ err exception | some _ ↦ ok tt ]

-- The classes of `Registers`.
abbrev pub int_register : RegisterName → Register
int_register n = record { is_int = true; data_name = n }

abbrev pub float_register : RegisterName → Register
float_register n = record { is_int = false; data_name = n }

abbrev pub a_registers : List Register
a_registers = map (λ n. int_register (a n)) (0 ∷ 1 ∷ 2 ∷ 3 ∷ 4 ∷ 5 ∷ 6 ∷ 7 ∷ [])

abbrev pub t_registers : List Register
t_registers = map (λ n. int_register (t n)) (0 ∷ 1 ∷ 2 ∷ 3 ∷ 4 ∷ 5 ∷ 6 ∷ [])

abbrev pub fa_registers : List Register
fa_registers = map (λ n. float_register (fa n)) (0 ∷ 1 ∷ 2 ∷ 3 ∷ 4 ∷ 5 ∷ 6 ∷ 7 ∷ [])

abbrev pub ft_registers : List Register
ft_registers =
    map (λ n. float_register (ft n)) (0 ∷ 1 ∷ 2 ∷ 3 ∷ 4 ∷ 5 ∷ 6 ∷ 7 ∷ 8 ∷ 9 ∷ 10 ∷ 11 ∷ [])
