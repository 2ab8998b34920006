-- ===== src/Riscv/Queue/Valid.antt =====
-- What the queue of xdsl/backend/riscv/register_queue.py hands out: registers of the class asked
-- for, that are neither reserved nor still available.
use xdsl.Prelude.{
  ℕ, zero, suc, ◌≡◌, refl, sym, subst, ◌<◌, ◌≤◌, ◌-◌, ◌⊎◌, inl, inr, Bool, true, false, none, some,
  List, [], ◌∷◌, ◌++◌, length, arith, Option-cases, if◌then◌else◌,
}
use xdsl.Prelude.Int.{ℤ, pos, negsuc}
use xdsl.Result.{ok, err, value_error}
use xdsl.Riscv.{RegisterName, Register, same, is_allocated}
use xdsl.Riscv.Queue.{
  RegisterQueue, contains, pop_last, drop, available, set_available, push, pop, keep_last,
  limit_registers,
}

abbrev pub All : (Register → Type 0) → List Register → Type 0
All P [] = Unit
All P (x ∷ xs) = P x × All P xs

abbrev pub Unique : List Register → Type 0
Unique [] = Unit
Unique (x ∷ xs) = (contains x xs ≡ false) × Unique xs

-- A `j` register has a number that was given out already.
abbrev pub OldName : ℕ → RegisterName → Type 0
OldName i (RegisterName.j n) = n < i
OldName i _ = Unit

abbrev pub Good : ℕ → List Register → Bool → Register → Type 0
Good idx reserved c r =
    (r.is_int ≡ c)
    × (is_allocated r.data_name ≡ true)
    × (contains r reserved ≡ false)
    × OldName idx r.data_name

abbrev pub Fine : RegisterQueue → Bool → Type 0
Fine q c = All (Good q.idx q.reserved_registers c) (available c q) × Unique (available c q)

-- The available registers of each class are distinct, allocated and not reserved, and no
-- register has a `j` number that is still to be given out.
abbrev pub IsValid : RegisterQueue → Type 0
IsValid q = Fine q true × Fine q false × All (λ r. OldName q.idx r.data_name) q.reserved_registers

pop_last-append : (xs : List Register) (x : Register) → pop_last (xs ++ x ∷ []) ≡ some (xs, x)
unfolding pop_last
pop_last-append [] x = refl
pop_last-append (y ∷ xs) x = ground (arith, pop_last-append xs x)

pop_last-none : (xs : List Register) → pop_last xs ≡ none → xs ≡ []
unfolding pop_last
pop_last-none [] h = refl
pop_last-none (x ∷ xs) h = absurd (ground (arith, h))

pop_last-some :
    (xs rest : List Register) (x : Register) → pop_last xs ≡ some (rest, x) → xs ≡ rest ++ x ∷ []
unfolding pop_last
pop_last-some [] rest x h = absurd (ground (arith, h))
pop_last-some (y ∷ xs) rest x h = elim (Option-cases (pop_last xs)) [
  | inl e ↦
      let empty = pop_last-none xs e in
      let (r, l) : (rest ≡ []) × (x ≡ y) = ground (arith, e, h) in ground (arith, empty, r, l)
  | inr ((rest', last), e) ↦
      let inner = pop_last-some xs rest' last e in
      let (r, l) : (rest ≡ y ∷ rest') × (x ≡ last) = ground (arith, e, h) in
      ground (arith, inner, r, l)
]

-- A register that was pushed is the next one popped, and the queue is as before.
pub pop-push :
    (r : Register) (q : RegisterQueue)
    → contains r q.reserved_registers ≡ false
    → is_allocated r.data_name ≡ true
    → (q' : RegisterQueue) × (push r q ≡ ok q') × (pop r.is_int q' ≡ (r, q))
unfolding push pop
pop-push r q h g =
    let last = pop_last-append (available r.is_int q) r in
    (
      set_available r.is_int (available r.is_int q ++ r ∷ []) q,
      ground (arith, h, g),
      ground (arith, last),
    )

module _ (P : Register → Type 0) where
  pub All-init : (xs : List Register) (x : Register) → All P (xs ++ x ∷ []) → All P xs × P x
  All-init [] x (p, _) = (tt, p)
  All-init (y ∷ xs) x (p, ps) = let (qs, q) = All-init xs x ps in ((p, qs), q)

  pub All-snoc : (xs : List Register) (x : Register) → All P xs → P x → All P (xs ++ x ∷ [])
  All-snoc [] x ps p = (p, tt)
  All-snoc (y ∷ xs) x (q, qs) p = (q, All-snoc xs x qs p)

  All-map :
      (Q : Register → Type 0) (f : (r : Register) → P r → Q r) (xs : List Register)
      → All P xs
      → All Q xs
  All-map Q f [] ps = tt
  All-map Q f (x ∷ xs) (p, ps) = (f x p, All-map Q f xs ps)

  All-drop : (n : ℕ) (xs : List Register) → All P xs → All P (drop n xs)
  unfolding drop
  All-drop zero xs ps = ps
  All-drop (suc n) [] ps = tt
  All-drop (suc n) (x ∷ xs) (p, ps) = All-drop n xs ps

contains-init :
    (r : Register) (xs : List Register) (x : Register)
    → contains r (xs ++ x ∷ []) ≡ (if contains r xs then true else same r x)
unfolding contains
contains-init r [] x = ground arith
contains-init r (y ∷ xs) x = ground (arith, contains-init r xs x)

same_sym : (x y : Register) → same x y ≡ same y x
unfolding same
same_sym x y = ground arith

Unique-init :
    (xs : List Register) (x : Register)
    → Unique (xs ++ x ∷ [])
    → Unique xs × (contains x xs ≡ false)
unfolding contains
Unique-init [] x u = (tt, refl)
Unique-init (y ∷ xs) x (n, u) =
    let (us, m) = Unique-init xs x u in
    let e = contains-init y xs x in
    ((ground (arith, e, n), us), ground (arith, e, n, m, same_sym x y))

Unique-drop : (n : ℕ) (xs : List Register) → Unique xs → Unique (drop n xs)
unfolding drop
Unique-drop zero xs u = u
Unique-drop (suc n) [] u = tt
Unique-drop (suc n) (x ∷ xs) (_, u) = Unique-drop n xs u

length-drop : (n : ℕ) (xs : List Register) → length (drop n xs) ≡ length xs - n
unfolding drop
length-drop zero xs = omega arith
length-drop (suc n) [] = omega arith
length-drop (suc n) (x ∷ xs) = omega (arith, length-drop n xs)

abbrev pub fresh : Bool → ℕ → Register
fresh c idx = record { is_int = c; data_name = RegisterName.j idx }

same-fresh :
    (c : Bool) (idx : ℕ) (x : Register) → OldName idx x.data_name → same (fresh c idx) x ≡ false
unfolding same
same-fresh c idx x h = ground (arith, h)

contains-fresh :
    (c : Bool) (idx : ℕ) (xs : List Register)
    → All (λ r. OldName idx r.data_name) xs
    → contains (fresh c idx) xs ≡ false
unfolding contains
contains-fresh c idx [] ps = refl
contains-fresh c idx (x ∷ xs) (p, ps) =
    ground (arith, same-fresh c idx x p, contains-fresh c idx xs ps)

OldName-suc : (idx : ℕ) (x : Register) → OldName idx x.data_name → OldName (suc idx) x.data_name
OldName-suc idx x h = ground (arith, h)

Good-suc :
    (idx : ℕ) (reserved : List Register) (c : Bool) (r : Register)
    → Good idx reserved c r
    → Good (suc idx) reserved c r
Good-suc idx reserved c r (a, b, e, o) = (a, b, e, OldName-suc idx r o)

-- What `pop` does: the last available register, or a `j` register.
pub pop-cases :
    (c : Bool) (q : RegisterQueue)
    → ((rest : List Register) × (x : Register) × (available c q ≡ rest ++ x ∷ [])
        × (pop c q ≡ (x, set_available c rest q)))
      ⊎ ((available c q ≡ []) × (pop c q ≡ (fresh c q.idx, record q { idx = suc q.idx })))
unfolding pop
pop-cases c q = elim (Option-cases (pop_last (available c q))) [
  | inl e ↦ inr (pop_last-none (available c q) e, ground (arith, e))
  | inr ((rest, x), e) ↦ inl (rest, x, pop_last-some (available c q) rest x e, ground (arith, e))
]

-- The result of `pop`, in a valid queue.
abbrev pub Popped : Bool → RegisterQueue → Register × RegisterQueue → Type 0
Popped c q (r, q') =
    (IsValid q' × (q'.reserved_registers ≡ q.reserved_registers))
    × Good q'.idx q.reserved_registers c r
    × (contains r (available c q') ≡ false)

Popped-last :
    (c : Bool) (q : RegisterQueue) (rest : List Register) (x : Register)
    → IsValid q
    → available c q ≡ rest ++ x ∷ []
    → Popped c q (x, set_available c rest q)
Popped-last true q rest x ((goods, u), other, old) e =
    let G = Good q.idx q.reserved_registers true in
    let (goods', good) = All-init G rest x (subst (All G) e goods) in
    let (u', n) = Unique-init rest x (subst Unique e u) in
    ((((goods', u'), other, old), refl), good, n)
Popped-last false q rest x (other, (goods, u), old) e =
    let G = Good q.idx q.reserved_registers false in
    let (goods', good) = All-init G rest x (subst (All G) e goods) in
    let (u', n) = Unique-init rest x (subst Unique e u) in
    (((other, (goods', u'), old), refl), good, n)

Popped-fresh :
    (c : Bool) (q : RegisterQueue)
    → IsValid q
    → available c q ≡ []
    → Popped c q (fresh c q.idx, record q { idx = suc q.idx })
unfolding contains is_allocated
Popped-fresh c q ((goods, u), (goods', u'), old) e =
    let step = λ (d : Bool).
      All-map (Good q.idx q.reserved_registers d) (Good (suc q.idx) q.reserved_registers d)
        (Good-suc q.idx q.reserved_registers d) in
    let old' =
      All-map (λ r. OldName q.idx r.data_name) (λ r. OldName (suc q.idx) r.data_name)
        (OldName-suc q.idx) q.reserved_registers old in
    let reserved = contains-fresh c q.idx q.reserved_registers old in
    (
      (((step true _ goods, u), (step false _ goods', u'), old'), refl),
      (refl, refl, reserved, omega arith),
      ground (arith, e),
    )

-- In a valid queue, `pop` gives a register of the class asked for that is allocated, not reserved
-- and no longer available, and the queue it leaves is valid and has the same reserved registers.
pub pop-IsValid : (c : Bool) (q : RegisterQueue) → IsValid q → Popped c q (pop c q)
pop-IsValid c q valid = elim (pop-cases c q) [
  | inl (rest, x, e, popped) ↦ subst (Popped c q) (sym popped) (Popped-last c q rest x valid e)
  | inr (e, popped) ↦ subst (Popped c q) (sym popped) (Popped-fresh c q valid e)
]

-- A limit that is not negative is met.
limit_registers-pos :
    (n : ℕ) (q : RegisterQueue)
    → IsValid q
    → (q' : RegisterQueue) × (limit_registers (pos n) q ≡ ok q')
      × IsValid q'
      × (length q'.available_int_registers ≤ n)
      × (length q'.available_float_registers ≤ n)
unfolding limit_registers keep_last
limit_registers-pos zero q (_, _, old) = (
  record q { available_int_registers = []; available_float_registers = [] },
  refl,
  ((tt, tt), (tt, tt), old),
  omega arith,
  omega arith,
)
limit_registers-pos (suc n) q ((goods, u), (goods', u'), old) =
    let ints = q.available_int_registers in
    let floats = q.available_float_registers in
    let i = length ints - suc n in
    let f = length floats - suc n in
    (
      record q { available_int_registers = drop i ints; available_float_registers = drop f floats },
      ground arith,
      (
        (All-drop _ i ints goods, Unique-drop i ints u),
        (All-drop _ f floats goods', Unique-drop f floats u'),
        old,
      ),
      omega (arith, length-drop i ints),
      omega (arith, length-drop f floats),
    )

-- `limit_registers` raises for a negative limit, and otherwise leaves a valid queue valid, with at
-- most that many registers available of each class.
pub limit_registers-IsValid :
    (limit : ℤ) (q : RegisterQueue)
    → IsValid q
    → ((q' : RegisterQueue) × (n : ℕ) × (limit ≡ pos n)
        × (limit_registers limit q ≡ ok q')
        × IsValid q'
        × (length q'.available_int_registers ≤ n)
        × (length q'.available_float_registers ≤ n))
      ⊎ ((n : ℕ) × (limit ≡ negsuc n) × (limit_registers limit q ≡ err value_error))
unfolding limit_registers
limit_registers-IsValid (negsuc n) q valid = inr (n, refl, refl)
limit_registers-IsValid (pos n) q valid =
    let (q', e, v, i, f) = limit_registers-pos n q valid in inl (q', n, refl, e, v, i, f)
