-- ===== src/Ir/Store.antt =====
-- The objects of xdsl/ir/core.py as cells of a store. An object is a number; all objects exist, as
-- in Python, and an unused one has the fields of its constructor. A method is a state passing
-- function: what was written before a raise stays written.
use xdsl.Prelude.{ℕ, Bool, true, false, Option, none, some, List, ◌==◌, if◌then◌else◌}
use xdsl.Result.{Exn, Result, ok, err}

-- The fields of `Operation` that the methods below use.
pub record Operation : Type 0 where
  pub parent : Option ℕ
  pub next_op : Option ℕ
  pub prev_op : Option ℕ
  pub operands : List ℕ
  pub results : List ℕ
  pub regions : List ℕ

pub record Block : Type 0 where
  pub args : List ℕ
  pub first_op : Option ℕ
  pub last_op : Option ℕ
  pub parent : Option ℕ

pub record Region : Type 0 where
  pub blocks : List ℕ
  pub parent : Option ℕ

-- The use of an SSA value: the operation and the index of its operand.
pub record Use : Type 0 where
  pub operation : ℕ
  pub index : ℕ

-- `uses` is a Python set: a list of its members, in which order and repetitions mean nothing.
pub record SsaValue : Type 0 where
  pub uses : List Use
  pub name_hint : Option ℕ

pub record Ir : Type 0 where
  pub op : ℕ → Operation
  pub block : ℕ → Block
  pub region : ℕ → Region
  pub value : ℕ → SsaValue

abbrev pub M {ℓ} : Type ℓ → Type ℓ
M A = Ir → Result A × Ir

module _ {ℓ κ} {A : Type ℓ} {B : Type κ} where
  abbrev pub continue : Result A → (A → M B) → M B
  continue (ok a) f s = f a s
  continue (err e) f s = (err e, s)

  infixl 5 ◌>>=◌
  abbrev pub ◌>>=◌ : M A → (A → M B) → M B
  ◌>>=◌ m f s = continue (m s).0 f (m s).1

infixl 5 ◌>>◌
abbrev pub ◌>>◌ {ℓ} : {B : Type ℓ} → M (Unit {0}) → M B → M B
m >> k = m >>= λ _. k

abbrev pub pure {ℓ} : {A : Type ℓ} → A → M A
pure a s = (ok a, s)

abbrev pub raise {ℓ} : {A : Type ℓ} → Exn → M A
raise e s = (err e, s)

-- `if not test: raise e`, and `assert test`
abbrev pub check : Bool → Exn → M (Unit {0})
check true e = pure tt
check false e = raise e

abbrev pub gets {ℓ} : {A : Type ℓ} → (Ir → A) → M A
gets f s = (ok (f s), s)

abbrev pub modify : (Ir → Ir) → M (Unit {0})
modify f s = (ok tt, f s)

abbrev pub update {ℓ} : {A : Type ℓ} → (ℕ → A) → ℕ → A → ℕ → A
update f i v j = if j == i then v else f j

-- Assignments to one attribute of an object.
abbrev pub set_parent : ℕ → Option ℕ → Ir → Ir
set_parent o p s = record s { op = update s.op o (record (s.op o) { parent = p }) }

abbrev pub set_next : ℕ → Option ℕ → Ir → Ir
set_next o p s = record s { op = update s.op o (record (s.op o) { next_op = p }) }

abbrev pub set_prev : ℕ → Option ℕ → Ir → Ir
set_prev o p s = record s { op = update s.op o (record (s.op o) { prev_op = p }) }

abbrev pub set_first : ℕ → Option ℕ → Ir → Ir
set_first b p s = record s { block = update s.block b (record (s.block b) { first_op = p }) }

abbrev pub set_last : ℕ → Option ℕ → Ir → Ir
set_last b p s = record s { block = update s.block b (record (s.block b) { last_op = p }) }

-- `x is y` on references that may be None
abbrev pub is_ref : Option ℕ → ℕ → Bool
is_ref none o = false
is_ref (some p) o = p == o

abbrev pub is_none {ℓ} : {A : Type ℓ} → Option A → Bool
is_none none = true
is_none (some a) = false
