-- ===== src/Interpreter/Calls.antt =====
-- The calls of `Interpreter` (xdsl/interpreter.py): of operations by themselves and by their symbols, of
-- external functions, and of casts; and the data that implementations keep on it. An attribute, and a pair
-- of classes, is the number of an interned object.
use xdsl.Prelude.{
  ℕ, ◌≡◌, refl, Bool, true, List, [], ◌∷◌, Option, none, some, ◌==◌, if◌then◌else◌, arith,
}
use xdsl.Prelude.Dict.{Dict, lookup, insert, lookup-insert}
use xdsl.Result.{Result, ok, err, or_raise, interpretation}
use xdsl.Result
use xdsl.Ir.Store.{Ir, is_none}
use xdsl.Interpreter.Run.{R, OpImpl, ◌>>=◌, pure, raise, run_op, run_ssacfg_region}

-- `Operation | str`
pub data Callee : Type 0 where
  an_op a_symbol : ℕ → Callee

-- The default name of a scope, "unknown".
abbrev pub unknown_text : ℕ
unknown_text = 4

abbrev pub ExtFunc : Type 0 → Type 0 → Type 0
ExtFunc V S = ℕ → List V → R V S (List V)

module _ {V S : Type 0} where
  unfoldable pub get_op_for_symbol : Dict ℕ → ℕ → R V S ℕ
  get_op_for_symbol symbol_table symbol s =
      (or_raise (lookup symbol symbol_table) interpretation, s)

  -- The operation that is called, with the name of the call.
  unfoldable pub resolve : Dict ℕ → Callee → R V S (ℕ × ℕ)
  unfolding get_op_for_symbol
  resolve symbol_table (an_op op) = pure (unknown_text, op)
  resolve symbol_table (a_symbol name) =
      get_op_for_symbol symbol_table name >>= λ op. pure (name, op)

  -- `_InterpreterFunctionImpls.call_external`, at the entry for the name.
  unfoldable pub call_found : Option (ExtFunc V S) → ExtFunc V S
  call_found none op args = raise interpretation
  call_found (some ext_func) op args = ext_func op args

  unfoldable pub call_external : Dict (ExtFunc V S) → ℕ → ExtFunc V S
  unfolding call_found
  call_external external_funcs_dict sym_name = call_found (lookup sym_name external_funcs_dict)

  module _ (impls : Dict (OpImpl V S)) (external_funcs_dict : Dict (ExtFunc V S)) (type_of : ℕ → ℕ)
      (symbol_table : Dict ℕ) (ir : Ir) where
    -- `run_op`, of an operation or a symbol
    unfoldable pub run_callee : Callee → List V → R V S (List V)
    unfolding resolve run_op
    run_callee op inputs =
        resolve symbol_table op >>= λ (name, op'). run_op impls type_of ir op' inputs

    abbrev has_no_ops : List ℕ → Bool
    has_no_ops [] = true
    has_no_ops (block ∷ _) = is_none (ir.block block).first_op

    -- The end of `call_op`, at the region that can be called, if there is one.
    unfoldable pub call_region : ℕ → ℕ → ℕ → ℕ → List V → Option ℕ → R V S (List V)
    unfolding run_ssacfg_region call_external
    call_region blocks ops name op inputs none = raise interpretation
    call_region blocks ops name op inputs (some body) =
        if has_no_ops (ir.region body).blocks
        then call_external external_funcs_dict name op inputs
        else run_ssacfg_region impls type_of ir blocks ops body inputs name

    -- `call_op`; `callable_region` gives the region of an operation that has the trait
    -- `CallableOpInterface`.
    unfoldable pub call_op : (ℕ → Option ℕ) → ℕ → ℕ → Callee → List V → R V S (List V)
    unfolding resolve call_region
    call_op callable_region blocks ops op inputs = resolve symbol_table op >>= λ (name, op').
        call_region blocks ops name op' inputs (callable_region op')

module _ {V : Type 0} (class_of : ℕ → ℕ) (pair : ℕ → ℕ → ℕ) where
  -- `cast_value`, with `_InterpreterFunctionImpls.cast`
  unfoldable pub cast_value : Dict (ℕ → ℕ → V → Result V) → ℕ → ℕ → V → Result V
  cast_value cast_impl_dict o r value =
      if o == r
      then ok value
      else Result.◌>>=◌
          (or_raise (lookup (pair (class_of o) (class_of r)) cast_impl_dict) interpretation)
          (λ impl. impl o r value)

module _ {D : Type 0} where
  -- The data of a class of functions, or none yet.
  abbrev or_empty : Option (Dict D) → Dict D
  or_empty none = []
  or_empty (some functions_data) = functions_data

  -- The data under the key, and the data after that: what `factory` returns is stored where it is missing.
  unfoldable pub get_or_make : D → ℕ → Dict D → Option D → D × Dict D
  get_or_make factory key functions_data none = (factory, insert key factory functions_data)
  get_or_make factory key functions_data (some data_) = (data_, functions_data)

  unfoldable pub get_data : ℕ → ℕ → D → Dict (Dict D) → D × Dict (Dict D)
  unfolding get_or_make
  get_data functions key factory impl_data =
      let functions_data = or_empty (lookup functions impl_data) in
      let (data_, functions_data') =
        get_or_make factory key functions_data (lookup key functions_data) in
      (data_, insert functions functions_data' impl_data)

  get_or_make-lookup :
      (factory : D) (key : ℕ) (d : Dict D) (o : Option D)
      → lookup key d ≡ o
      → lookup key (get_or_make factory key d o).1 ≡ some (get_or_make factory key d o).0
  unfolding get_or_make
  get_or_make-lookup factory key d none e = ground (arith, lookup-insert key key factory d)
  get_or_make-lookup factory key d (some x) e = e

  -- Once data has been got, it is got again, whatever the factory.
  pub get_data-get_data :
      (functions key : ℕ) (factory factory' : D) (impl_data : Dict (Dict D))
      → (get_data functions key factory' (get_data functions key factory impl_data).1).0
        ≡ (get_data functions key factory impl_data).0
  unfolding get_data get_or_make
  get_data-get_data functions key factory factory' impl_data =
      let fd = or_empty (lookup functions impl_data) in
      let made = get_or_make factory key fd (lookup key fd) in
      let l1 : lookup functions (insert functions made.1 impl_data) ≡ some made.1 =
        ground (arith, lookup-insert functions functions made.1 impl_data) in
      let l2 : lookup key made.1 ≡ some made.0 =
        get_or_make-lookup factory key fd (lookup key fd) refl in
      rw l1 (rw l2 refl)
