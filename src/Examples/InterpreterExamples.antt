-- ===== src/Examples/InterpreterExamples.antt =====
-- A region 0 whose block 0 has the arguments 20 and 21, an operation 1 that adds them up to 22, and
-- an operation 2 that returns 22.
use xdsl.Prelude.{
  ℕ, suc, ◌+◌, ◌≡◌, refl, false, List, [], ◌∷◌, none, some, ◌==◌, if◌then◌else◌, arith,
}
use xdsl.Prelude.Dict.{Dict, insert, Absent}
use xdsl.Result.{ok, err, interpretation, traverse, value_error}
use xdsl.Ir.Store.{Ir, update}
use xdsl.Ir.Block.{add_op, add_ops, is_ancestor}
use xdsl.Ir.Block.Holds.{IsValid}
use xdsl.Ir.Block.Many.{add_ops-IsValid}
use xdsl.Interpreter.Scopes.{
  InterpreterContext, root, scope, getitem, setitem, get_values, push_scope, pop_scope, zip,
}
use xdsl.Interpreter.Impls.{
  InterpreterFunctionImpls, register_from, register_items, register_casts, register_external,
}
use xdsl.Interpreter.Run.{
  Interpreter, OpImpl, returned_values, set_values, read_values, run, run_impl, run_one, run_ops,
  run_blocks, run_region_blocks, run_ssacfg_region, enter, leave, leave_scopes,
}
use xdsl.Interpreter.Region.{run_ssacfg_region-AreBalanced}
use xdsl.Interpreter.Balanced.{Restores}
use xdsl.Interpreter.Listed.{run_list, run_ops-run_list}
use xdsl.Interpreter.Values.{set_values-get_values}
use xdsl.Interpreter.Registers.{HasOutcome, register_from-HasOutcome}

abbrev bare : Ir
bare = record {
  op = λ o. record {
    parent = none;
    next_op = none;
    prev_op = none;
    operands = if o == 1 then 20 ∷ 21 ∷ [] else 22 ∷ [];
    results = if o == 1 then 22 ∷ [] else [];
    regions = [];
  };
  block = λ _. record { args = 20 ∷ 21 ∷ []; first_op = none; last_op = none; parent = none };
  region = λ _. record { blocks = 0 ∷ []; parent = none };
  value = λ _. record { uses = []; name_hint = none };
}

abbrev no_ops : ℕ → List ℕ
no_ops _ = []

abbrev ops_of : ℕ → List ℕ
ops_of = update no_ops 0 (1 ∷ 2 ∷ [])

bare-IsValid : IsValid bare no_ops
bare-IsValid = record {
  holds = λ b. record { first = refl; last = refl; linked = tt };
  member = λ b o e. cc;
  free = λ o e. (refl, refl);
}

abbrev ir : Ir
ir = (add_ops 4 0 (1 ∷ 2 ∷ []) bare).1

ir-IsValid : IsValid ir ops_of
unfolding is_ancestor
ir-IsValid =
    (add_ops-IsValid 4 0 (1 ∷ 2 ∷ []) bare no_ops bare-IsValid (
      record { detached = refl; outside = refl },
      refl,
      (record { detached = refl; outside = refl }, refl, tt),
    )).1

-- The implementations keep a count of the operations that were run.
abbrev S : Type 0
S = ℕ

abbrev count : Interpreter ℕ S → Interpreter ℕ S
count s = record s { impl_data = suc s.impl_data }

abbrev add : OpImpl ℕ S
add op (a ∷ b ∷ []) s = (ok (record { values = (a + b) ∷ []; terminator_value = none }), count s)
add op _ s = (err interpretation, s)

abbrev return : OpImpl ℕ S
return op values s =
    (ok (record { values = []; terminator_value = some (returned_values values) }), count s)

abbrev impls : Dict (OpImpl ℕ S)
impls = (1, add) ∷ (2, return) ∷ []

abbrev type_of : ℕ → ℕ
type_of op = op

abbrev start : Interpreter ℕ S
start = record { ctx = root 0 []; impl_data = 0 }

abbrev counted : Interpreter ℕ S
counted = record { ctx = root 0 []; impl_data = 2 }

three_and_four :
    run_ssacfg_region impls type_of ir 1 3 0 (3 ∷ 4 ∷ []) 5 start ≡ (ok (7 ∷ []), counted)
unfolding run_ssacfg_region run_region_blocks run_blocks run_ops run_one run run_impl read_values
    get_values getitem traverse set_values setitem insert enter push_scope leave_scopes leave
    pop_scope add_ops add_op is_ancestor
three_and_four = refl

add-IsBalanced : (op : ℕ) (args : List ℕ) (s : Interpreter ℕ S) → Restores s.ctx (add op args s)
add-IsBalanced op (a ∷ b ∷ []) s = refl
add-IsBalanced op [] s = tt
add-IsBalanced op (a ∷ []) s = tt
add-IsBalanced op (a ∷ b ∷ c ∷ args) s = tt

run_ssacfg_region-AreBalanced_example : counted.ctx ≡ start.ctx
run_ssacfg_region-AreBalanced_example =
    run_ssacfg_region-AreBalanced impls type_of ir (add-IsBalanced, ((λ op args s. refl), tt)) 1 3 0
      (3 ∷ 4 ∷ []) 5 start counted (7 ∷ []) three_and_four

run_ops-run_list_example :
    run_ops impls type_of ir 3 (some 1) ≡ run_list impls type_of ir (1 ∷ 2 ∷ [])
unfolding add_ops add_op is_ancestor
run_ops-run_list_example = run_ops-run_list impls type_of ir ops_of 0 3 ir-IsValid (omega arith)

-- In a scope below one that has 20.
abbrev below : Interpreter ℕ S
below = record { ctx = scope 5 [] (root 0 ((20, 1) ∷ [])); impl_data = 0 }

set_values-get_values_example :
    (ctx : InterpreterContext ℕ) × (set_values (zip (20 ∷ 21 ∷ []) (3 ∷ 4 ∷ [])) below
      ≡ (ok tt, record below { ctx = ctx }))
    × (get_values (20 ∷ 21 ∷ []) ctx ≡ ok (3 ∷ 4 ∷ []))
    × ((j : ℕ) → Absent j (20 ∷ 21 ∷ []) → getitem j ctx ≡ getitem j below.ctx)
set_values-get_values_example =
    set_values-get_values (20 ∷ 21 ∷ []) (3 ∷ 4 ∷ []) below (ground arith) (refl, (refl, tt)) refl

-- Values that are too few leave the last name without one.
set_values_short :
    set_values (zip (20 ∷ 21 ∷ []) (3 ∷ [])) start
    ≡ (ok tt, record start { ctx = root 0 ((20, 3) ∷ []) })
unfolding set_values setitem insert
set_values_short = refl

abbrev registered : InterpreterFunctionImpls ℕ ℕ ℕ
registered = record {
  impl_dict = (1, 10) ∷ [];
  cast_impl_dict = [];
  external_funcs_dict = (2, 20) ∷ [];
}

abbrev given : InterpreterFunctionImpls ℕ ℕ ℕ
given = record {
  impl_dict = (3, 11) ∷ [];
  cast_impl_dict = (4, 40) ∷ [];
  external_funcs_dict = (2, 21) ∷ [];
}

-- The implementations that come before the one that is there already are registered.
register_from_conflict : register_from false given registered ≡ (
  err value_error,
  record {
    impl_dict = (1, 10) ∷ (3, 11) ∷ [];
    cast_impl_dict = (4, 40) ∷ [];
    external_funcs_dict = (2, 20) ∷ [];
  },
)
unfolding register_from register_casts register_external register_items insert
register_from_conflict = refl

register_from-HasOutcome_example :
    HasOutcome false given registered (register_from false given registered)
register_from-HasOutcome_example =
    register_from-HasOutcome false given registered ((tt, tt), (tt, tt), (tt, tt))
