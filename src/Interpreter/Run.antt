-- ===== src/Interpreter/Run.antt =====
-- `Interpreter` of xdsl/interpreter.py, on the operations and blocks of the store. An implementation runs
-- on the state of the interpreter, so that it may run regions itself. The loops run on fuel: `blocks`
-- for the outer one, `ops` for the inner one.
use xdsl.Prelude.{ℕ, zero, suc, Bool, true, false, List, [], ◌∷◌, length, Option, none, some, ◌==◌}
use xdsl.Prelude.Dict.{Dict, lookup}
use xdsl.Result.{Exn, Result, ok, err, interpretation, out_of_fuel}
use xdsl.Ir.Store.{Ir}
use xdsl.Interpreter.Scopes.{InterpreterContext, setitem, push_scope, pop_scope, get_values, zip}

-- The context, and what implementations keep besides it.
pub record Interpreter (V S : Type 0) : Type 0 where
  pub ctx : InterpreterContext V
  pub impl_data : S

-- A method is a state passing function: what was written before a raise stays written.
abbrev pub R : Type 0 → Type 0 → Type 0 → Type 0
R V S A = Interpreter V S → Result A × Interpreter V S

pub data TerminatorValue (V : Type 0) : Type 0 where
  returned_values : List V → TerminatorValue V
  successor : ℕ → List V → TerminatorValue V

pub record OpImplResult (V : Type 0) : Type 0 where
  pub values : List V
  pub terminator_value : Option (TerminatorValue V)

-- An implementation, of an operation on the values of its operands.
abbrev pub OpImpl : Type 0 → Type 0 → Type 0
OpImpl V S = ℕ → List V → R V S (OpImplResult V)

module _ {V S : Type 0} where
  module _ {A B : Type 0} where
    abbrev pub continue : Result A → (A → R V S B) → R V S B
    continue (ok a) f s = f a s
    continue (err e) f s = (err e, s)

    infixl 5 ◌>>=◌
    abbrev pub ◌>>=◌ : R V S A → (A → R V S B) → R V S B
    ◌>>=◌ m f s = continue (m s).0 f (m s).1

  infixl 5 ◌>>◌
  abbrev pub ◌>>◌ : {B : Type 0} → R V S (Unit {0}) → R V S B → R V S B
  m >> k = m >>= λ _. k

  abbrev pub pure : {A : Type 0} → A → R V S A
  pure a s = (ok a, s)

  abbrev pub raise : {A : Type 0} → Exn → R V S A
  raise e s = (err e, s)

  -- A change of the context that may raise, which leaves it where it was then.
  abbrev pub with_ctx : Result (InterpreterContext V) → R V S (Unit {0})
  with_ctx (ok ctx) s = (ok tt, record s { ctx = ctx })
  with_ctx (err e) s = (err e, s)

  abbrev pub interpreter_assert : Bool → R V S (Unit {0})
  interpreter_assert true = pure tt
  interpreter_assert false = raise interpretation

  unfoldable pub read_values : List ℕ → R V S (List V)
  unfolding get_values
  read_values values s = (get_values values s.ctx, s)

  unfoldable pub set_values : List (ℕ × V) → R V S (Unit {0})
  unfolding setitem
  set_values [] s = (ok tt, s)
  set_values ((ssa_value, result_value) ∷ pairs) s =
      (with_ctx (setitem ssa_value result_value s.ctx) >> set_values pairs) s

  unfoldable pub enter : ℕ → R V S (Unit {0})
  unfolding push_scope
  enter name s = (ok tt, record s { ctx = push_scope name s.ctx })

  unfoldable pub leave : R V S (Unit {0})
  unfolding pop_scope
  leave s = with_ctx (pop_scope s.ctx) s

  -- `for _ in range(scope_count): self.pop_scope()`
  unfoldable pub leave_scopes : ℕ → R V S (Unit {0})
  unfolding leave
  leave_scopes zero = pure tt
  leave_scopes (suc scope_count) = leave >> leave_scopes scope_count

  -- `_InterpreterFunctionImpls.run`, at the entry for the type of the operation.
  unfoldable pub run_impl : Option (OpImpl V S) → OpImpl V S
  run_impl none op args = raise interpretation
  run_impl (some impl) op args = impl op args

  -- The next turn, unless the operation was a terminator.
  abbrev pub unless_terminated :
      R V S (Option (TerminatorValue V))
      → Option (TerminatorValue V)
      → R V S (Option (TerminatorValue V))
  unless_terminated next none = next
  unless_terminated next (some terminator) = pure (some terminator)

  -- The end of a turn of the outer loop; `loop` is the loop with less fuel.
  abbrev pub after_block :
      (ℕ → List V → R V S (List V × ℕ)) → ℕ → Option (TerminatorValue V) → R V S (List V × ℕ)
  after_block loop scope_count none = pure ([], scope_count)
  after_block loop scope_count (some (returned_values values)) = pure (values, scope_count)
  after_block loop scope_count (some (successor block args)) = loop block args

  module _ (impls : Dict (OpImpl V S)) (type_of : ℕ → ℕ) (ir : Ir) where
    unfoldable pub run : OpImpl V S
    unfolding run_impl
    run op args = run_impl (lookup (type_of op) impls) op args

    -- `run_op` of an operation
    unfoldable pub run_op : ℕ → List V → R V S (List V)
    unfolding run
    run_op op inputs = run op inputs >>= λ result. pure result.values

    -- One turn of the inner loop of `run_ssacfg_region`.
    unfoldable pub run_one : ℕ → R V S (Option (TerminatorValue V))
    unfolding run read_values set_values
    run_one op = read_values (ir.op op).operands >>= λ inputs. run op inputs >>= λ result.
        interpreter_assert (length (ir.op op).results == length result.values)
        >> set_values (zip (ir.op op).results result.values)
        >> pure result.terminator_value

    unfoldable pub run_ops : ℕ → Option ℕ → R V S (Option (TerminatorValue V))
    unfolding run_one
    run_ops zero op = raise out_of_fuel
    run_ops (suc ops) none = pure none
    run_ops (suc ops) (some op) = run_one op >>= unless_terminated (run_ops ops (ir.op op).next_op)

    -- The outer loop: the results, and the number of scopes entered.
    unfoldable pub run_blocks : ℕ → ℕ → ℕ → ℕ → ℕ → List V → R V S (List V × ℕ)
    unfolding run_ops enter set_values
    run_blocks zero ops name scope_count block args = raise out_of_fuel
    run_blocks (suc blocks) ops name scope_count block args =
        enter name
        >> set_values (zip (ir.block block).args args)
        >> run_ops ops (ir.block block).first_op
        >>= after_block (run_blocks blocks ops name (suc scope_count)) (suc scope_count)

    -- `run_ssacfg_region`, on the blocks of the region
    unfoldable pub run_region_blocks : ℕ → ℕ → List ℕ → List V → ℕ → R V S (List V)
    unfolding run_blocks leave_scopes
    run_region_blocks blocks ops [] args name = pure []
    run_region_blocks blocks ops (block ∷ _) args name =
        run_blocks blocks ops name 0 block args >>= λ (results, scope_count).
        leave_scopes scope_count >> pure results

    unfoldable pub run_ssacfg_region : ℕ → ℕ → ℕ → List V → ℕ → R V S (List V)
    unfolding run_region_blocks
    run_ssacfg_region blocks ops region args name =
        run_region_blocks blocks ops (ir.region region).blocks args name
