-- ===== src/Examples/PassesExamples.antt =====
-- A pass 4 with the options `5: int | None = None`, `6: list[str]` and `7: bool = <default 8>`, made
-- from `4{9 6=10,11}`, where 9 is the text of 5 with a dash.
use xdsl.Prelude.{ℕ, ◌≡◌, refl, true, List, [], ◌∷◌, none, some, ◌==◌, if◌then◌else◌, arith}
use xdsl.Prelude.Dict.{Dict, keys, Distinct, insert, delete}
use xdsl.Prelude.Int.{pos}
use xdsl.Result.{Result, ok, err, ◌>>=◌, ◌>>◌, guard, value_error, zero_division, traverse}
use xdsl.Pipeline.{
  Token, ident, PipelinePassSpec, string, integer, parse_pipeline, element_of, more_values,
  parse_arg_value, parse_pass_args, end_of_argument, end_of_pass,
}
use xdsl.Pipeline.Layout.{layout}
use xdsl.Examples.PipelineExamples.{numbers}
use xdsl.Passes.Hints.{
  int_class, bool_class, str_class, none_type, list_of, union, nil, cons, isa, isa_list, all,
  in_list,
}
use xdsl.Passes.Spec.{
  PassClass, Pass, no_value, several, default_value, from_pass_spec, set_fields, take_argument,
  convert_pass_arg_to_type, as_argument, as_list, is_optional, get_default, normalize_items,
  normalize_arg_names, pass_of, setup_pipeline,
}
use xdsl.Passes.Refines.{option_names, option_values, from_pass_spec-option_values}
use xdsl.Passes.Typed.{option_fields, HaveTypes, from_pass_spec-HaveTypes}
use xdsl.Passes.Setup.{AreMade, setup_pipeline-parse_pipeline}
use xdsl.Passes.Run.{apply, apply-append}

abbrev replace : ℕ → ℕ
replace t = if t == 9 then 5 else t

abbrev cls : PassClass ℕ
cls = record {
  name = 4;
  fields =
      record {
        name = 5;
        init = true;
        type_ = union (cons int_class (cons none_type nil));
        default = none;
        default_factory = none;
      }
      ∷ record {
        name = 6;
        init = true;
        type_ = list_of str_class;
        default = none;
        default_factory = none;
      }
      ∷ record {
        name = 7;
        init = true;
        type_ = bool_class;
        default = some 8;
        default_factory = none;
      }
      ∷ [];
}

abbrev spec : PipelinePassSpec ℕ
spec = record { name = 4; args = (9, []) ∷ (6, string 10 ∷ string 11 ∷ []) ∷ [] }

abbrev made : Pass ℕ ℕ
made = record {
  name = 4;
  options = (5, no_value) ∷ (6, several (string 10 ∷ string 11 ∷ [])) ∷ (7, default_value 8) ∷ [];
}

option_names-Distinct : Distinct (option_names cls.fields)
option_names-Distinct = ground arith

args-Distinct : Distinct (keys spec.args)
args-Distinct = ground arith

from_pass_spec-made : from_pass_spec replace cls spec ≡ ok made
unfolding from_pass_spec set_fields normalize_items insert delete take_argument
    convert_pass_arg_to_type as_argument as_list isa isa_list is_optional get_default
from_pass_spec-made = refl

-- `4{6=10,11 12=1}`: there is no option 12.
from_pass_spec-left :
    from_pass_spec {F = ℕ} replace cls
      (record { name = 4; args = (6, string 10 ∷ []) ∷ (12, integer (pos 1) ∷ []) ∷ [] })
    ≡ err value_error
unfolding from_pass_spec set_fields normalize_items insert delete take_argument
    convert_pass_arg_to_type as_argument as_list isa isa_list is_optional get_default
from_pass_spec-left = refl

from_pass_spec-option_values_example : from_pass_spec replace cls spec ≡ (
    guard true value_error >> normalize_arg_names replace spec.args >>= λ args.
    option_values cls.fields args >>= λ options.
    guard (all (λ k. in_list k (option_names cls.fields)) (keys args)) value_error
    >> ok (record { name = 4; options = options }))
from_pass_spec-option_values_example =
    from_pass_spec-option_values replace cls spec option_names-Distinct args-Distinct

from_pass_spec-HaveTypes_example :
    (made.name ≡ 4) × (spec.name ≡ 4) × HaveTypes (option_fields cls.fields) made.options
from_pass_spec-HaveTypes_example =
    from_pass_spec-HaveTypes replace cls spec made option_names-Distinct args-Distinct
      from_pass_spec-made

-- The pipeline `3,4{9 6=10,11}`, of a pass without options and the one above.
abbrev plain : PassClass ℕ
plain = record { name = 3; fields = [] }

abbrev available : Dict (PassClass ℕ)
available = (4, cls) ∷ (3, plain) ∷ []

abbrev tokens : List Token
tokens = layout ((3, []) ∷ (4, (9, []) ∷ (6, ident 10 ∷ ident 11 ∷ []) ∷ []) ∷ [])

abbrev pipeline : List (PipelinePassSpec ℕ)
pipeline = record { name = 3; args = [] } ∷ spec ∷ []

abbrev passes : List (Pass ℕ ℕ)
passes = record { name = 3; options = [] } ∷ made ∷ []

tokens_parsed : parse_pipeline numbers 3 3 tokens ≡ ok pipeline
unfolding parse_pipeline parse_pass_args parse_arg_value more_values element_of end_of_argument
    end_of_pass insert
tokens_parsed = refl

pipeline_set_up : setup_pipeline replace available pipeline ≡ ok passes
unfolding setup_pipeline traverse pass_of from_pass_spec set_fields normalize_items insert delete
    take_argument convert_pass_arg_to_type as_argument as_list isa isa_list is_optional get_default
pipeline_set_up = refl

setup_pipeline-parse_pipeline_example : AreMade available pipeline passes
setup_pipeline-parse_pipeline_example =
    setup_pipeline-parse_pipeline numbers replace available 3 3 tokens pipeline passes
      (option_names-Distinct, (tt, tt)) tokens_parsed pipeline_set_up

-- Passes that write their number behind the state, and a callback that writes 0; the pass 9 raises.
abbrev write : ℕ → List ℕ → Result (List ℕ)
write p m = if p == 9 then err zero_division else ok (p ∷ m)

abbrev between : ℕ → List ℕ → ℕ → Result (List ℕ)
between p m q = ok (0 ∷ m)

apply_three : apply write between (1 ∷ 2 ∷ 3 ∷ []) [] ≡ ok (3 ∷ 0 ∷ 2 ∷ 0 ∷ 1 ∷ [])
unfolding apply
apply_three = refl

apply-append_example : apply write between (1 ∷ 2 ∷ 3 ∷ 9 ∷ []) [] ≡ (
    apply write between (1 ∷ 2 ∷ []) [] >>= λ m'.
    between 2 m' 3 >>= λ m''. apply write between (3 ∷ 9 ∷ []) m'')
apply-append_example = apply-append write between 1 3 (2 ∷ []) (9 ∷ []) []
