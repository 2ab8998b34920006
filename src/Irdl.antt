-- ===== src/Irdl.antt =====
-- The segments of variadic arguments of operations, xdsl/irdl/irdl.py: their sizes, the arguments of one
-- definition, and the building of an operation. The names of definitions and attributes are numbers, an
-- argument (an operand, a result, a region or a successor) is a number, and sizes are not negative.
pub mod Build
pub mod Layout
pub mod Access
pub mod Stored
pub mod Init
pub mod Verify
use xdsl.Prelude.{
  ℕ, suc, ◌+◌, ◌-◌, Bool, true, false, not, ◌&&◌, ◌||◌, Option, none, some, List, [], ◌∷◌, length,
  ltb, ◌==◌, if◌then◌else◌,
}
use xdsl.Prelude.Slices.{take, drop}
use xdsl.Prelude.Dict.{Dict, lookup}
use xdsl.Result.{Result, ok, err, guard, index, verify, assertion, exception, ◌>>=◌, ◌>>◌}

pub data Construct : Type 0 where
  operand result region successor : Construct

-- The class of a definition: neither of the following, `VariadicDef` and not `OptionalDef`, `OptionalDef`.
pub data DefKind : Type 0 where
  single variadic optional : DefKind

-- `isinstance(arg_def, VariadicDef)`
abbrev pub is_variadic : DefKind → Bool
is_variadic single = false
is_variadic variadic = true
is_variadic optional = true

abbrev pub is_optional : DefKind → Bool
is_optional single = false
is_optional variadic = false
is_optional optional = true

-- An `AttrSizedSegments` for the construct.
pub record SizeOption : Type 0 where
  pub construct : Construct
  pub as_property : Bool

pub record OpDef : Type 0 where
  pub operands : List DefKind
  pub results : List DefKind
  pub regions : List DefKind
  pub successors : List DefKind
  pub options : List SizeOption

-- An attribute: a `DenseArrayBase`, with whether its elements are `i32`, and its data; or another.
pub data SizeAttr : Type 0 where
  dense_array : Bool → List ℕ → SizeAttr
  another : SizeAttr

-- The fields of `Operation` that hold arguments and attributes.
pub record Op : Type 0 where
  pub operands : List ℕ
  pub results : List ℕ
  pub regions : List ℕ
  pub successors : List ℕ
  pub properties : Dict SizeAttr
  pub attributes : Dict SizeAttr

abbrev pub get_construct_defs : OpDef → Construct → List DefKind
get_construct_defs op_def operand = op_def.operands
get_construct_defs op_def result = op_def.results
get_construct_defs op_def region = op_def.regions
get_construct_defs op_def successor = op_def.successors

abbrev pub get_op_constructs : Op → Construct → List ℕ
get_op_constructs op operand = op.operands
get_op_constructs op result = op.results
get_op_constructs op region = op.regions
get_op_constructs op successor = op.successors

-- The `attribute_name` of the option for the construct.
abbrev pub attribute_name : Construct → ℕ
attribute_name operand = 0
attribute_name result = 1
attribute_name region = 2
attribute_name successor = 3

-- `isinstance(o, get_attr_size_option(construct))`
abbrev pub is_size_option : Construct → SizeOption → Bool
is_size_option construct o = attribute_name o.construct == attribute_name construct

-- `next((o for o in options if isinstance(o, attribute_option)), None)`
abbrev pub find_option : Construct → List SizeOption → Option SizeOption
find_option construct [] = none
find_option construct (o ∷ os) =
    if is_size_option construct o then some o else find_option construct os

-- The loop of `get_variadic_sizes_from_attr`
unfoldable pub sizes_from : List DefKind → List ℕ → Result (List ℕ)
sizes_from (arg_def ∷ defs) (arg_size ∷ sizes) = do
  guard (not (is_optional arg_def && ltb 1 arg_size)) verify
  guard (is_variadic arg_def || arg_size == 1) verify
  rest ← sizes_from defs sizes
  ok (if is_variadic arg_def then arg_size ∷ rest else rest)
sizes_from _ _ = ok []

-- `get_variadic_sizes_from_attr`, on what the container has under the name
unfoldable pub get_variadic_sizes_from_attr : Option SizeAttr → List DefKind → Result (List ℕ)
unfolding sizes_from
get_variadic_sizes_from_attr none defs = err verify
get_variadic_sizes_from_attr (some another) defs = err verify
get_variadic_sizes_from_attr (some (dense_array is_i32 def_sizes)) defs = do
  guard is_i32 verify
  guard (length def_sizes == length defs) verify
  sizes_from defs def_sizes

-- `len(variadic_defs)`
unfoldable pub count_variadic : List DefKind → ℕ
count_variadic [] = 0
count_variadic (d ∷ ds) = if is_variadic d then suc (count_variadic ds) else count_variadic ds

-- The sizes without an attribute, for this many variadic definitions.
unfoldable pub inferred_sizes : ℕ → ℕ → ℕ → Result (List ℕ)
inferred_sizes variadic_defs args defs =
    if variadic_defs == 0
    then guard (args == defs) verify >> ok []
    else if variadic_defs == 1
    then guard (not (ltb (suc args) defs)) verify >> ok ((suc args - defs) ∷ [])
    else err assertion

abbrev pub container : Op → SizeOption → Dict SizeAttr
container op o = if o.as_property then op.properties else op.attributes

-- The sizes, with the option for the construct or without one.
unfoldable pub sizes_by : Option SizeOption → Op → OpDef → Construct → Result (List ℕ)
unfolding get_variadic_sizes_from_attr count_variadic inferred_sizes
sizes_by (some option) op op_def construct =
    get_variadic_sizes_from_attr (lookup (attribute_name construct) (container op option))
      (get_construct_defs op_def construct)
sizes_by none op op_def construct =
    let defs = get_construct_defs op_def construct in
    inferred_sizes (count_variadic defs) (length (get_op_constructs op construct)) (length defs)

unfoldable pub get_variadic_sizes : Op → OpDef → Construct → Result (List ℕ)
unfolding sizes_by
get_variadic_sizes op op_def construct =
    sizes_by (find_option construct op_def.options) op op_def construct

abbrev pub sum : List ℕ → ℕ
sum [] = 0
sum (n ∷ ns) = n + sum ns

-- What the accessor of a definition gives: `None`, an argument, or a list of them.
pub data Accessed : Type 0 where
  absent : Accessed
  one : ℕ → Accessed
  many : List ℕ → Accessed

-- The arguments of a definition of this kind, from the place on where they begin.
unfoldable pub read_argument : DefKind → List ℕ → ℕ → ℕ → List ℕ → Result Accessed
unfolding take drop
read_argument single variadic_sizes previous_var_args begin_arg args = do
  arg ← index args begin_arg
  ok (one arg)
read_argument variadic variadic_sizes previous_var_args begin_arg args = do
  arg_size ← index variadic_sizes previous_var_args
  ok (many (take arg_size (drop begin_arg args)))
read_argument optional variadic_sizes previous_var_args begin_arg args = do
  arg_size ← index variadic_sizes previous_var_args
  if arg_size == 0 then ok absent else (do arg ← index args begin_arg; ok (one arg))

-- `arg_def_idx` is at least `previous_var_args`, the number of variadic definitions before it.
unfoldable pub get_operand_result_or_region : Op → OpDef → ℕ → ℕ → Construct → Result Accessed
unfolding get_variadic_sizes read_argument take
get_operand_result_or_region op op_def arg_def_idx previous_var_args construct = do
  variadic_sizes ← get_variadic_sizes op op_def construct
  arg_def ← index (get_construct_defs op_def construct) arg_def_idx
  read_argument arg_def variadic_sizes previous_var_args
      (arg_def_idx - previous_var_args + sum (take previous_var_args variadic_sizes))
      (get_op_constructs op construct)

-- The accessors of the definitions: the index of each, and the number of variadic ones before it.
unfoldable pub accessors_from : ℕ → ℕ → List DefKind → List (ℕ × ℕ)
accessors_from arg_idx previous_variadics [] = []
accessors_from arg_idx previous_variadics (arg_def ∷ defs) =
    (arg_idx, previous_variadics)
    ∷ accessors_from (suc arg_idx)
        (if is_variadic arg_def then suc previous_variadics else previous_variadics) defs

abbrev is_none {ℓ} : {A : Type ℓ} → Option A → Bool
is_none none = true
is_none (some a) = false

-- `irdl_op_arg_definition`: it raises for several variadic definitions without an option.
unfoldable pub irdl_op_arg_definition : Construct → OpDef → Result (List (ℕ × ℕ))
unfolding accessors_from count_variadic
irdl_op_arg_definition construct op_def =
    let defs = get_construct_defs op_def construct in
    guard (not (ltb 1 (count_variadic defs) && is_none (find_option construct op_def.options)))
      exception
    >> ok (accessors_from 0 0 defs)
