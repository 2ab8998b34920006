-- ===== src/Examples/IrdlExamples.antt =====
-- The builder and the accessors at an operation with a single, a variadic and an optional operand, whose
-- sizes are a property.
use xdsl.Prelude.{ℕ, suc, ltb, if◌then◌else◌, ◌≡◌, refl, true, false, [], ◌∷◌}
use xdsl.Result.{Result, value_error, ok, err, verify}
use xdsl.Irdl.{
  operand, result, single, variadic, optional, OpDef, Op, dense_array, many, irdl_op_arg_definition,
  get_operand_result_or_region, get_variadic_sizes,
}
use xdsl.Irdl.Build.{InitArgs, nothing, sequence, value, irdl_op_init}
use xdsl.Irdl.Verify.{irdl_op_verify_arg_list, verify_blocks, irdl_op_verify_arg_list-blocks}
use xdsl.Irdl.Init.{irdl_op_init-get_operand_result_or_region}

abbrev three_defs : OpDef
three_defs = record {
  operands = single ∷ variadic ∷ optional ∷ [];
  results = [];
  regions = [];
  successors = [];
  options = record { construct = operand; as_property = true } ∷ [];
}

abbrev three_args : InitArgs
three_args = record {
  operands = value 4 ∷ sequence (5 ∷ 6 ∷ []) ∷ nothing ∷ [];
  result_types = [];
  regions = [];
  successors = [];
  properties = [];
  attributes = [];
}

abbrev three_op : Op
three_op = record {
  operands = 4 ∷ 5 ∷ 6 ∷ [];
  results = [];
  regions = [];
  successors = [];
  properties = (0, dense_array true (1 ∷ 2 ∷ 0 ∷ [])) ∷ [];
  attributes = [];
}

three_accessors : irdl_op_arg_definition operand three_defs ≡ ok ((0, 0) ∷ (1, 0) ∷ (2, 1) ∷ [])
unfolding irdl_op_arg_definition
three_accessors = refl

three_built : irdl_op_init three_defs three_args ≡ ok three_op
unfolding irdl_op_init
three_built = refl

irdl_op_init-get_operand_result_or_region_example :
    get_operand_result_or_region three_op three_defs 1 0 operand ≡ ok (many (5 ∷ 6 ∷ []))
irdl_op_init-get_operand_result_or_region_example =
    irdl_op_init-get_operand_result_or_region operand three_defs three_args three_op
      ((0, 0) ∷ (1, 0) ∷ (2, 1) ∷ []) 1 (1, 0) variadic (sequence (5 ∷ 6 ∷ [])) three_accessors
      three_built tt refl refl refl

-- Two optional results, the first of them `None`: the builder stores one size, and the sizes of the
-- operation that it returns are refused.
abbrev optional_defs : OpDef
optional_defs = record {
  operands = [];
  results = optional ∷ optional ∷ [];
  regions = [];
  successors = [];
  options = record { construct = result; as_property = false } ∷ [];
}

abbrev optional_op : Op
optional_op = record {
  operands = [];
  results = 7 ∷ [];
  regions = [];
  successors = [];
  properties = [];
  attributes = (1, dense_array true (1 ∷ [])) ∷ [];
}

optional_built :
    irdl_op_init optional_defs (record {
      operands = [];
      result_types = nothing ∷ value 7 ∷ [];
      regions = [];
      successors = [];
      properties = [];
      attributes = [];
    })
    ≡ ok optional_op
unfolding irdl_op_init
optional_built = refl

optional_refused : get_variadic_sizes optional_op optional_defs result ≡ err verify
unfolding get_variadic_sizes
optional_refused = refl

-- A constraint that every argument below 10 satisfies, and that counts them.
abbrev below_10 : ℕ → ℕ → ℕ → Result ℕ
below_10 def_idx arg count = if ltb arg 10 then ok (suc count) else err value_error

three_verified :
    irdl_op_verify_arg_list below_10 (λ _. false) (λ _. 1) operand three_op three_defs 0 ≡ ok 3
unfolding irdl_op_verify_arg_list
three_verified = refl

irdl_op_verify_arg_list-blocks_example :
    irdl_op_verify_arg_list below_10 (λ _. false) (λ _. 1) operand three_op three_defs 0
    ≡ verify_blocks below_10 (λ _. false) (λ _. 1) operand 0 ((4 ∷ []) ∷ (5 ∷ 6 ∷ []) ∷ [] ∷ []) 0
irdl_op_verify_arg_list-blocks_example =
    irdl_op_verify_arg_list-blocks below_10 (λ _. false) (λ _. 1) operand three_defs three_args
      three_op ((0, 0) ∷ (1, 0) ∷ (2, 1) ∷ []) 0 three_accessors three_built tt
