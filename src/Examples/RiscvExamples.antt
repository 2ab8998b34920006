-- ===== src/Examples/RiscvExamples.antt =====
-- The register queue as it is created, limited to two registers of each class, and an operation with a result and two operands.
use xdsl.Prelude.{List, ◌≡◌, refl, true, [], ◌∷◌, map}
use xdsl.Prelude.Int.{pos}
use xdsl.Result.{ok}
use xdsl.Riscv.{RegisterName, same, is_allocated, int_register, float_register}
use xdsl.Riscv.Queue.{RegisterQueue, default_queue, contains, pop, limit_registers, keep_last, drop}
use xdsl.Riscv.Queue.Valid.{IsValid, Popped, pop-IsValid}
use xdsl.Riscv.Allocation.{ValueType, Allocator, process_riscv_op}
use xdsl.Riscv.Exclude.{WalkedOp}
use xdsl.Riscv.Allocation.Types.{Stocked, Continues, AllAllocated, process_riscv_op-Allocated}

abbrev small_queue : RegisterQueue
small_queue = record default_queue {
  available_int_registers = map int_register (RegisterName.t 1 ∷ RegisterName.t 0 ∷ []);
  available_float_registers = map float_register (RegisterName.ft 1 ∷ RegisterName.ft 0 ∷ []);
}

small_queue-eq : limit_registers (pos 2) default_queue ≡ ok small_queue
unfolding limit_registers keep_last drop
small_queue-eq = refl

small_queue-IsValid : IsValid small_queue
unfolding contains same is_allocated
small_queue-IsValid = (
  (((refl, refl, refl, tt), ((refl, refl, refl, tt), tt)), (refl, (refl, tt))),
  (((refl, refl, refl, tt), ((refl, refl, refl, tt), tt)), (refl, (refl, tt))),
  (tt, (tt, (tt, (tt, (tt, (tt, tt)))))),
)

pop-IsValid_example : Popped true small_queue (pop true small_queue)
pop-IsValid_example = pop-IsValid true small_queue small_queue-IsValid

-- No value has a register yet.
abbrev start : Allocator
start = record {
  available_registers = small_queue;
  types = λ _. ValueType.register (int_register RegisterName.unallocated);
}

small_queue-Stocked : Stocked small_queue
unfolding is_allocated
small_queue-Stocked = (((refl, refl), ((refl, refl), tt)), ((refl, refl), ((refl, refl), tt)))

process_riscv_op-Allocated_example :
    (s' : Allocator) × (process_riscv_op (1 ∷ []) (2 ∷ 3 ∷ []) start ≡ ok s')
    × Continues start s'
    × AllAllocated (1 ∷ []) s'
    × AllAllocated (2 ∷ 3 ∷ []) s'
process_riscv_op-Allocated_example =
    process_riscv_op-Allocated (1 ∷ []) (2 ∷ 3 ∷ []) start small_queue-Stocked

-- One instruction on the register `t0` and on a value without a register.
abbrev instructions : List WalkedOp
instructions =
    record {
      is_riscv_op = true;
      param_types =
          ValueType.register (int_register (RegisterName.t 0))
          ∷ ValueType.register (int_register RegisterName.unallocated)
          ∷ [];
    }
    ∷ []
