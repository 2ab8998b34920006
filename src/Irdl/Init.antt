-- ===== src/Irdl/Init.antt =====
-- An operation that `irdl_op_init` has built gives its arguments back, definition by definition.
use xdsl.Prelude.{
  ℕ, zero, suc, ◌≤◌, ◌≡◌, refl, ap, subst, ◌∙◌, ◌⊎◌, inl, inr, Bool, true, false, none, some, List,
  [], ◌∷◌, length, get_elem?, ◌==◌, if◌then◌else◌, arith, Option-cases,
}
use xdsl.Result.{ok, guard, guard-ok, value_error, >>=-eq-ok}
use xdsl.Irdl.{
  Construct, operand, result, region, successor, DefKind, SizeOption, OpDef, Op, get_construct_defs,
  get_op_constructs, sizes_by, find_option, get_variadic_sizes, get_variadic_sizes_from_attr,
  get_operand_result_or_region, irdl_op_arg_definition, count_variadic, accessors_from,
}
use xdsl.Irdl.Build.{
  BuildArg, irdl_build_operations_arg, map_args, irdl_build_arg_list, Sizes, sizes_of, set_sizes,
  InitArgs, built_op, irdl_op_init,
}
use xdsl.Irdl.Layout.{
  AllPresent, given_values, blocks_of, concat, lengths, Laid, variadic_part, build_args-Laid,
  sizes_from-lengths, length-lengths, inferred_sizes-length,
}
use xdsl.Irdl.Access.{accessed, previous, accessors_from-previous, read_argument-Laid}
use xdsl.Irdl.Stored.{side, set_sizes-find}

-- The arguments for a construct as the builder sees them.
abbrev pub given_args : InitArgs → Construct → List BuildArg
given_args given operand = map_args irdl_build_operations_arg given.operands
given_args given result = given.result_types
given_args given region = map_args irdl_build_operations_arg given.regions
given_args given successor = given.successors

-- What the builder has made of the arguments for each construct, and of the attributes.
abbrev Built : OpDef → InitArgs → Op → Sizes → Type 0
Built op_def given op sizes =
    ((construct : Construct)
      → irdl_build_arg_list (given_args given construct) (get_construct_defs op_def construct)
        ≡ ok (get_op_constructs op construct, sizes_of sizes construct))
    × ((b : Bool)
        → (if b then op.properties else op.attributes)
          ≡ side b (set_sizes sizes op_def.options (given.properties, given.attributes)))

module _ (op_def : OpDef) (given : InitArgs) (a b c d : List ℕ × List ℕ) where
  abbrev built_sizes : Sizes
  built_sizes = record { operands = a.1; results = b.1; regions = c.1; successors = d.1 }

  built_op-args :
      irdl_build_arg_list (given_args given operand) op_def.operands ≡ ok a
      → irdl_build_arg_list given.result_types op_def.results ≡ ok b
      → irdl_build_arg_list (given_args given region) op_def.regions ≡ ok c
      → irdl_build_arg_list given.successors op_def.successors ≡ ok d
      → (construct : Construct)
      → irdl_build_arg_list (given_args given construct) (get_construct_defs op_def construct)
        ≡ ok (
          get_op_constructs (built_op op_def given a b c d) construct,
          sizes_of built_sizes construct,
        )
  unfolding built_op
  built_op-args ea eb ec ed operand = ea
  built_op-args ea eb ec ed result = eb
  built_op-args ea eb ec ed region = ec
  built_op-args ea eb ec ed successor = ed

  built_op-side :
      (x : Bool)
      → side x
          ((built_op op_def given a b c d).properties, (built_op op_def given a b c d).attributes)
        ≡ side x (set_sizes built_sizes op_def.options (given.properties, given.attributes))
  unfolding built_op
  built_op-side true = refl
  built_op-side false = refl

irdl_op_init-Built :
    (op_def : OpDef) (given : InitArgs) (op : Op)
    → irdl_op_init op_def given ≡ ok op
    → (sizes : Sizes) × Built op_def given op sizes
unfolding irdl_op_init
irdl_op_init-Built op_def given op h =
    let (a, ea, h1) =
      >>=-eq-ok (irdl_build_arg_list (given_args given operand) op_def.operands) _ h in
    let (b, eb, h2) = >>=-eq-ok (irdl_build_arg_list given.result_types op_def.results) _ h1 in
    let (c, ec, h3) =
      >>=-eq-ok (irdl_build_arg_list (given_args given region) op_def.regions) _ h2 in
    let (d, ed, e) = >>=-eq-ok (irdl_build_arg_list given.successors op_def.successors) _ h3 in
    let same : built_op op_def given a b c d ≡ op = (cc) in
    let sizes = built_sizes op_def given a b c d in
    (
      sizes,
      subst (λ x. Built op_def given x sizes) same
          (built_op-args op_def given a b c d ea eb ec ed, built_op-side op_def given a b c d),
    )

-- The arguments lie one after the other, with the sizes of each.
irdl_build_arg_list-Laid :
    (args : List BuildArg) (defs : List DefKind) (r : List ℕ × List ℕ)
    → irdl_build_arg_list args defs ≡ ok r
    → AllPresent args
    → Laid defs (blocks_of args) × (r ≡ (concat (blocks_of args), lengths (blocks_of args)))
unfolding irdl_build_arg_list
irdl_build_arg_list-Laid args defs r h p =
    let (u, g, h') = >>=-eq-ok (guard (length args == length defs) value_error) _ h in
    build_args-Laid defs args r h' (ground (arith, guard-ok _ _ g)) p

-- What `irdl_op_arg_definition` has let pass.
arg_definition-cases :
    (construct : Construct) (op_def : OpDef) (accessors : List (ℕ × ℕ))
    → irdl_op_arg_definition construct op_def ≡ ok accessors
    → (((o : SizeOption) × (find_option construct op_def.options ≡ some o))
        ⊎ ((find_option construct op_def.options ≡ none)
            × (count_variadic (get_construct_defs op_def construct) ≤ 1)))
      × (accessors ≡ accessors_from 0 0 (get_construct_defs op_def construct))
unfolding irdl_op_arg_definition
arg_definition-cases construct op_def accessors h =
    elim (Option-cases (find_option construct op_def.options)) [
      | inl e ↦ (inr (e, ground (arith, h, e)), ground (arith, h, e))
      | inr (o, e) ↦ (inl (o, e), ground (arith, h, e))
    ]

-- The sizes that the accessors read are those of the arguments that were given.
get_variadic_sizes-Built :
    (construct : Construct) (op_def : OpDef) (given : InitArgs) (op : Op) (sizes : Sizes)
    (accessors : List (ℕ × ℕ)) (bs : List (List ℕ))
    → irdl_op_arg_definition construct op_def ≡ ok accessors
    → ((b : Bool)
        → (if b then op.properties else op.attributes)
          ≡ side b (set_sizes sizes op_def.options (given.properties, given.attributes)))
    → Laid (get_construct_defs op_def construct) bs
    → get_op_constructs op construct ≡ concat bs
    → sizes_of sizes construct ≡ lengths bs
    → get_variadic_sizes op op_def construct
      ≡ ok (variadic_part (get_construct_defs op_def construct) bs)
unfolding get_variadic_sizes sizes_by get_variadic_sizes_from_attr
get_variadic_sizes-Built construct op_def given op sizes accessors bs h dicts laid args lens =
    let defs = get_construct_defs op_def construct in
    elim ((arg_definition-cases construct op_def accessors h).0) [
      | inl (o, e) ↦
          let stored =
            set_sizes-find sizes op_def.options construct (given.properties, given.attributes) o
              e in
          rw (e, dicts o.as_property, stored, lens)
            (ground (arith, length-lengths defs bs laid, sizes_from-lengths defs bs laid))
      | inr (e, few) ↦ rw (e, args) (inferred_sizes-length defs bs laid few)
    ]

get_elem?-blocks_of :
    (args : List BuildArg) (i : ℕ) (arg : BuildArg)
    → get_elem? args i ≡ some arg
    → get_elem? (blocks_of args) i ≡ some (given_values arg)
get_elem?-blocks_of [] i arg h = cc
get_elem?-blocks_of (a ∷ args) zero arg h = ground (arith, h)
get_elem?-blocks_of (a ∷ args) (suc i) arg h = get_elem?-blocks_of args i arg h

-- The accessor of the definition at `i`, once the sizes are those of the arguments.
get_operand_result_or_region-Laid :
    (construct : Construct) (op_def : OpDef) (op : Op) (bs : List (List ℕ)) (i : ℕ) (d : DefKind)
    (b : List ℕ)
    → get_variadic_sizes op op_def construct
      ≡ ok (variadic_part (get_construct_defs op_def construct) bs)
    → get_op_constructs op construct ≡ concat bs
    → Laid (get_construct_defs op_def construct) bs
    → get_elem? (get_construct_defs op_def construct) i ≡ some d
    → get_elem? bs i ≡ some b
    → get_operand_result_or_region op op_def i
        (previous (get_construct_defs op_def construct) i)
        construct
      ≡ ok (accessed d b)
unfolding get_operand_result_or_region
get_operand_result_or_region-Laid construct op_def op bs i d b sizes args laid e k =
    rw (sizes, e, args) (read_argument-Laid (get_construct_defs op_def construct) bs i d b laid e k)

-- The arguments of an operation that was built, and the sizes that are read off it.
pub irdl_op_init-sizes :
    (construct : Construct) (op_def : OpDef) (given : InitArgs) (op : Op) (accessors : List (ℕ × ℕ))
    → irdl_op_arg_definition construct op_def ≡ ok accessors
    → irdl_op_init op_def given ≡ ok op
    → AllPresent (given_args given construct)
    → let defs = get_construct_defs op_def construct in
      let bs = blocks_of (given_args given construct) in
      Laid defs bs
      × (get_op_constructs op construct ≡ concat bs)
      × (get_variadic_sizes op op_def construct ≡ ok (variadic_part defs bs))
irdl_op_init-sizes construct op_def given op accessors h k p =
    let (sizes, (lists, dicts)) = irdl_op_init-Built op_def given op k in
    let bs = blocks_of (given_args given construct) in
    let defs = get_construct_defs op_def construct in
    let (laid, pairs) = irdl_build_arg_list-Laid _ defs _ (lists construct) p in
    let args : get_op_constructs op construct ≡ concat bs = ap (λ x. x.0) pairs in
    let lens : sizes_of sizes construct ≡ lengths bs = ap (λ x. x.1) pairs in
    (
      laid,
      args,
      get_variadic_sizes-Built construct op_def given op sizes accessors bs h dicts laid args lens,
    )

-- Where `irdl_op_arg_definition` accepts the definitions of a construct, and `irdl_op_init` builds an
-- operation of which no argument for that construct is `None` (a `None` for an operand or a region is
-- an empty list): the accessor that the former made for the definition at `i` gives back the argument
-- that the latter was given for it, as a single argument, a list, or `None` for an empty optional one.
pub irdl_op_init-get_operand_result_or_region :
    (construct : Construct) (op_def : OpDef) (given : InitArgs) (op : Op) (accessors : List (ℕ × ℕ))
    (i : ℕ) (accessor : ℕ × ℕ) (d : DefKind) (arg : BuildArg)
    → irdl_op_arg_definition construct op_def ≡ ok accessors
    → irdl_op_init op_def given ≡ ok op
    → AllPresent (given_args given construct)
    → get_elem? accessors i ≡ some accessor
    → get_elem? (get_construct_defs op_def construct) i ≡ some d
    → get_elem? (given_args given construct) i ≡ some arg
    → get_operand_result_or_region op op_def accessor.0 accessor.1 construct
      ≡ ok (accessed d (given_values arg))
irdl_op_init-get_operand_result_or_region construct op_def given op accessors i accessor d arg h k p
      at_i def_i arg_i =
    let bs = blocks_of (given_args given construct) in
    let defs = get_construct_defs op_def construct in
    let (laid, args, sizes) = irdl_op_init-sizes construct op_def given op accessors h k p in
    let same = (arg_definition-cases construct op_def accessors h).1 in
    let place =
      accessors_from-previous defs 0 0 i (subst (λ x. get_elem? x i ≡ some accessor) same at_i) in
    let read =
      get_operand_result_or_region-Laid construct op_def op bs i d (given_values arg) sizes args
        laid def_i (get_elem?-blocks_of _ i arg arg_i) in
    let idx : accessor.0 ≡ i = ap (λ x. x.0) place ∙ (omega arith) in
    let prev : accessor.1 ≡ previous defs i = ap (λ x. x.1) place ∙ (omega arith) in
    rw (idx, prev) read
