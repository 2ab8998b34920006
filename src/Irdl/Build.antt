-- ===== src/Irdl/Build.antt =====
-- `irdl_build_arg_list` and `irdl_op_init` of xdsl/irdl/irdl.py.
use xdsl.Prelude.{ℕ, true, not, ◌&&◌, List, [], ◌∷◌, ◌++◌, length, ltb, ◌==◌, if◌then◌else◌}
use xdsl.Prelude.Dict.{Dict, insert}
use xdsl.Result.{Result, ok, guard, value_error, ◌>>=◌, ◌>>◌}
use xdsl.Irdl.{
  Construct, operand, result, region, successor, DefKind, is_variadic, is_optional, SizeOption,
  OpDef, SizeAttr, dense_array, Op, attribute_name,
}

-- An argument of the builder: `None`, a sequence, or a value that is neither.
pub data BuildArg : Type 0 where
  nothing : BuildArg
  sequence : List ℕ → BuildArg
  value : ℕ → BuildArg

-- `irdl_build_operations_arg` for values
abbrev pub irdl_build_operations_arg : BuildArg → BuildArg
irdl_build_operations_arg nothing = sequence []
irdl_build_operations_arg (sequence vs) = sequence vs
irdl_build_operations_arg (value v) = value v

-- One turn of the loop: what it adds to `res` and to `arg_sizes`.
unfoldable pub build_arg : DefKind → BuildArg → Result (List ℕ × List ℕ)
build_arg arg_def nothing = do guard (is_optional arg_def) value_error; ok ([], [])
build_arg arg_def (sequence vs) = do
  guard (is_variadic arg_def) value_error
  guard (not (is_optional arg_def && ltb 1 (length vs))) value_error
  ok (vs, length vs ∷ [])
build_arg arg_def (value v) = ok (v ∷ [], 1 ∷ [])

unfoldable pub build_args : List DefKind → List BuildArg → Result (List ℕ × List ℕ)
unfolding build_arg
build_args (arg_def ∷ defs) (arg ∷ args) = do
  (vs, sizes) ← build_arg arg_def arg
  (res, arg_sizes) ← build_args defs args
  ok (vs ++ res, sizes ++ arg_sizes)
build_args _ _ = ok ([], [])

unfoldable pub irdl_build_arg_list : List BuildArg → List DefKind → Result (List ℕ × List ℕ)
unfolding build_args
irdl_build_arg_list args arg_defs = do
  guard (length args == length arg_defs) value_error
  build_args arg_defs args

-- The sizes that the builder has computed for each construct.
pub record Sizes : Type 0 where
  pub operands : List ℕ
  pub results : List ℕ
  pub regions : List ℕ
  pub successors : List ℕ

abbrev pub sizes_of : Sizes → Construct → List ℕ
sizes_of sizes operand = sizes.operands
sizes_of sizes result = sizes.results
sizes_of sizes region = sizes.regions
sizes_of sizes successor = sizes.successors

-- The loop over the options: `container[attribute_name] = DenseArrayBase.from_list(i32, sizes)`
unfoldable pub set_sizes :
    Sizes → List SizeOption → Dict SizeAttr × Dict SizeAttr → Dict SizeAttr × Dict SizeAttr
unfolding insert
set_sizes sizes [] dicts = dicts
set_sizes sizes (o ∷ os) (properties, attributes) =
    let attr = dense_array true (sizes_of sizes o.construct) in
    let name = attribute_name o.construct in
    if o.as_property
    then set_sizes sizes os (insert name attr properties, attributes)
    else set_sizes sizes os (properties, insert name attr attributes)

-- The arguments of `irdl_op_init`. Those that are `None` are removed from the dictionaries already; a
-- result is its type.
pub record InitArgs : Type 0 where
  pub operands : List BuildArg
  pub result_types : List BuildArg
  pub regions : List BuildArg
  pub successors : List BuildArg
  pub properties : Dict SizeAttr
  pub attributes : Dict SizeAttr

abbrev pub map_args : (BuildArg → BuildArg) → List BuildArg → List BuildArg
map_args f [] = []
map_args f (arg ∷ args) = f arg ∷ map_args f args

-- The operation with the built arguments, each with its sizes.
unfoldable pub built_op :
    OpDef → InitArgs → List ℕ × List ℕ → List ℕ × List ℕ → List ℕ × List ℕ → List ℕ × List ℕ → Op
unfolding set_sizes
built_op op_def given (operands, operand_sizes) (results, result_sizes) (regions, region_sizes)
      (successors, successor_sizes) =
    let sizes : Sizes = record {
      operands = operand_sizes;
      results = result_sizes;
      regions = region_sizes;
      successors = successor_sizes;
    } in
    let (properties, attributes) =
      set_sizes sizes op_def.options (given.properties, given.attributes) in
    record {
      operands = operands;
      results = results;
      regions = regions;
      successors = successors;
      properties = properties;
      attributes = attributes;
    }

unfoldable pub irdl_op_init : OpDef → InitArgs → Result Op
unfolding irdl_build_arg_list built_op
irdl_op_init op_def given = do
  operands ← irdl_build_arg_list (map_args irdl_build_operations_arg given.operands) op_def.operands
  results ← irdl_build_arg_list given.result_types op_def.results
  regions ← irdl_build_arg_list (map_args irdl_build_operations_arg given.regions) op_def.regions
  successors ← irdl_build_arg_list given.successors op_def.successors
  ok (built_op op_def given operands results regions successors)
