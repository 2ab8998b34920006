-- ===== src/Riscv/Allocation/Types.antt =====
-- What processing an operation does to the types of the values.
use xdsl.Prelude.{
  ℕ, ◌≡◌, refl, sym, ap, subst, ◌⊎◌, inl, inr, Bool, true, false, List, [], ◌∷◌, ◌++◌, arith,
  Bool-cases,
}
use xdsl.Result.{ok}
use xdsl.Riscv.{Register, is_allocated}
use xdsl.Riscv.Queue.{RegisterQueue, contains, available, set_available, push, pop}
use xdsl.Riscv.Queue.Valid.{All, All-init, All-snoc, pop-cases}
use xdsl.Riscv.Allocation.{
  ValueType, register, other_type, Allocator, allocate, allocate_at, free, free_at, process_results,
  process_operands, process_riscv_op,
}

-- The available registers are allocated, and stand in the list of their class.
abbrev pub Stock : Bool → Register → Type 0
Stock c r = (r.is_int ≡ c) × (is_allocated r.data_name ≡ true)

abbrev pub Stocked : RegisterQueue → Type 0
Stocked q =
    All (Stock true) q.available_int_registers × All (Stock false) q.available_float_registers

abbrev pub Allocated : ValueType → Type 0
Allocated (register r) = is_allocated r.data_name ≡ true
Allocated (other_type n) = Unit

-- The type is kept, unless it was an unallocated register, which may be one of its class now.
abbrev pub Becomes : ValueType → ValueType → Type 0
Becomes t t' =
    (t' ≡ t)
    ⊎ ((r : Register) × (r' : Register) × (t ≡ register r)
        × (t' ≡ register r')
        × (is_allocated r.data_name ≡ false)
        × Stock r.is_int r')

Becomes-trans : (a b c : ValueType) → Becomes a b → Becomes b c → Becomes a c
Becomes-trans a b c f g = ground (arith, f, g)

Becomes-Allocated : (a b : ValueType) → Becomes a b → Allocated a → Allocated b
Becomes-Allocated a b f h = ground (arith, f, h)

Stocked-available : (c : Bool) (q : RegisterQueue) → Stocked q → All (Stock c) (available c q)
Stocked-available true q (h, g) = h
Stocked-available false q (h, g) = g

set_available-Stocked :
    (c : Bool) (xs : List Register) (q : RegisterQueue)
    → Stocked q
    → All (Stock c) xs
    → Stocked (set_available c xs q)
set_available-Stocked true xs q (h, g) a = (a, g)
set_available-Stocked false xs q (h, g) a = (h, a)

-- The queue after `pop`, and the register.
abbrev Handed : Bool → Register × RegisterQueue → Type 0
Handed c (r, q) = Stocked q × Stock c r

pop-Stocked : (c : Bool) (q : RegisterQueue) → Stocked q → Handed c (pop c q)
unfolding is_allocated
pop-Stocked c q h = elim (pop-cases c q) [
  | inl (rest, x, e, popped) ↦
      let all = subst (All (Stock c)) e (Stocked-available c q h) in
      let (init, last) = All-init (Stock c) rest x all in
      subst (Handed c) (sym popped) (set_available-Stocked c rest q h init, last)
  | inr (e, popped) ↦ subst (Handed c) (sym popped) (h, (refl, refl))
]

push-Stocked :
    (r : Register) (q : RegisterQueue)
    → Stocked q
    → is_allocated r.data_name ≡ true
    → (q' : RegisterQueue) × (push r q ≡ ok q') × Stocked q'
unfolding push
push-Stocked r q h g =
    let c = r.is_int in
    let all = All-snoc (Stock c) (available c q) r (Stocked-available c q h) (refl, g) in
    elim (Bool-cases (contains r q.reserved_registers)) [
      | inl e ↦ (q, ground (arith, e), h)
      | inr e ↦ (
        set_available c (available c q ++ r ∷ []) q,
        ground (arith, e, g),
        set_available-Stocked c _ q h all,
      )
    ]

-- The allocator after a call that starts in `s`: only the types of values without a register may
-- have changed.
abbrev pub Continues : Allocator → Allocator → Type 0
Continues s s' = Stocked s'.available_registers × ((w : ℕ) → Becomes (s.types w) (s'.types w))

allocate_at-Becomes :
    (t : ValueType) (v : ℕ) (s : Allocator)
    → s.types v ≡ t
    → Stocked s.available_registers
    → Continues s (allocate_at t v s).1 × Allocated ((allocate_at t v s).1.types v)
unfolding allocate_at
allocate_at-Becomes (other_type n) v s e h = ((h, λ w. inl refl), ground (arith, e))
allocate_at-Becomes (register r) v s e h =
    let (h', stock) = pop-Stocked r.is_int s.available_registers h in
    elim (Bool-cases (is_allocated r.data_name)) [
      | inl a ↦ (ground (arith, a, h), ground (arith, a, e))
      | inr a ↦
          ((ground (arith, a, h'), λ w. ground (arith, a, e, stock)), ground (arith, a, stock))
    ]

allocate-Becomes :
    (v : ℕ) (s : Allocator)
    → Stocked s.available_registers
    → Continues s (allocate v s).1 × Allocated ((allocate v s).1.types v)
unfolding allocate
allocate-Becomes v s h = allocate_at-Becomes (s.types v) v s refl h

free_at-types :
    (t : ValueType) (s : Allocator)
    → Stocked s.available_registers
    → (s' : Allocator) × (free_at t s ≡ ok s')
      × Stocked s'.available_registers
      × (s'.types ≡ s.types)
unfolding free_at
free_at-types (other_type n) s h = (s, refl, h, refl)
free_at-types (register r) s h = elim (Bool-cases (is_allocated r.data_name)) [
  | inl a ↦
      let (q, e, h') = push-Stocked r s.available_registers h a in
      (record s { available_registers = q }, ground (arith, a, e), h', refl)
  | inr a ↦ (s, ground (arith, a), h, refl)
]

-- All these values have a type that is not an unallocated register.
abbrev pub AllAllocated : List ℕ → Allocator → Type 0
AllAllocated [] s = Unit
AllAllocated (v ∷ vs) s = Allocated (s.types v) × AllAllocated vs s

AllAllocated-Becomes :
    (vs : List ℕ) (s s' : Allocator)
    → ((w : ℕ) → Becomes (s.types w) (s'.types w))
    → AllAllocated vs s
    → AllAllocated vs s'
AllAllocated-Becomes [] s s' b a = tt
AllAllocated-Becomes (v ∷ vs) s s' b (a, as_) =
    (Becomes-Allocated _ _ (b v) a, AllAllocated-Becomes vs s s' b as_)

process_operands-Continues :
    (vs : List ℕ) (s : Allocator)
    → Stocked s.available_registers
    → Continues s (process_operands vs s) × AllAllocated vs (process_operands vs s)
unfolding process_operands
process_operands-Continues [] s h = ((h, λ w. inl refl), tt)
process_operands-Continues (v ∷ vs) s h =
    let s' = (allocate v s).1 in
    let ((h', b), a) = allocate-Becomes v s h in
    let ((h'', b'), as_) = process_operands-Continues vs s' h' in
    ((h'', λ w. Becomes-trans _ _ _ (b w) (b' w)), (Becomes-Allocated _ _ (b' v) a, as_))

process_results-Continues :
    (vs : List ℕ) (s : Allocator)
    → Stocked s.available_registers
    → (s' : Allocator) × (process_results vs s ≡ ok s') × Continues s s' × AllAllocated vs s'
unfolding process_results free
process_results-Continues [] s h = (s, refl, (h, λ w. inl refl), tt)
process_results-Continues (v ∷ vs) s h =
    let s' = (allocate v s).1 in
    let ((h', b), a) = allocate-Becomes v s h in
    let (freed, e, h'', same) = free_at-types (s'.types v) s' h' in
    let (last, e', (h‴, b'), rest) = process_results-Continues vs freed h'' in
    let types_at = λ (w : ℕ). sym (ap (λ (types : ℕ → ValueType). types w) same) in
    let b'' = λ (w : ℕ). subst (λ t. Becomes t (last.types w)) (sym (types_at w)) (b' w) in
    (
      last,
      rw e e',
      (h‴, λ w. Becomes-trans _ _ _ (b w) (b'' w)),
      (Becomes-Allocated _ _ (b'' v) a, rest),
    )

-- Processing an operation never raises, where the available registers are allocated and in the list
-- of their class, and they are so after it. All its results and operands are allocated after it;
-- a value's type has not changed unless it was a register without a name, which then has one
-- and its class.
pub process_riscv_op-Allocated :
    (results operands : List ℕ) (s : Allocator)
    → Stocked s.available_registers
    → (s' : Allocator) × (process_riscv_op results operands s ≡ ok s')
      × Continues s s'
      × AllAllocated results s'
      × AllAllocated operands s'
unfolding process_riscv_op
process_riscv_op-Allocated results operands s h =
    let (s', e, (h', b), a) = process_results-Continues results s h in
    let ((h'', b'), a') = process_operands-Continues operands s' h' in
    let s'' = process_operands operands s' in
    (
      s'',
      rw e refl,
      (h'', λ w. Becomes-trans _ _ _ (b w) (b' w)),
      AllAllocated-Becomes results s' s'' b' a,
      a',
    )
