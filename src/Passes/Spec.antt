-- ===== src/Passes/Spec.antt =====
-- Passes made from their specifications, xdsl/passes.py, with the names of arguments from
-- xdsl/utils/parse_pipeline.py and the pipeline of xdsl/xdsl_opt_main.py. A text is the number of
-- an interned string.
use xdsl.Prelude.{
  ℕ, Bool, not, ◌||◌, List, [], ◌∷◌, Option, none, some, ◌==◌, if◌then◌else◌, is_some,
}
use xdsl.Prelude.Dict.{Dict, lookup, insert, delete}
use xdsl.Result.{
  Result, ok, err, ◌>>=◌, ◌>>◌, guard, or_raise, value_error, key_error, exception, traverse,
}
use xdsl.Pipeline.{PassArgElementType, PipelinePassSpec}
use xdsl.Passes.Hints.{Hint, union, isa, isa_list, has_none, can_be_none}

abbrev pub name_text : ℕ
name_text = 3

-- What an option of a pass is set to: an argument, `None`, or a default of the field.
pub data Argument (F D : Type 0) : Type 0 where
  no_value : Argument F D
  one : PassArgElementType F → Argument F D
  several : List (PassArgElementType F) → Argument F D
  default_value : D → Argument F D

-- A field of a dataclass. `default_factory` is what the factory returns.
pub record Field (D : Type 0) : Type 0 where
  pub name : ℕ
  pub init : Bool
  pub type_ : Hint
  pub default : Option D
  pub default_factory : Option D

pub record PassClass (D : Type 0) : Type 0 where
  pub name : ℕ
  pub fields : List (Field D)

-- An instance of a pass: its class's name, and its options.
pub record Pass (F D : Type 0) : Type 0 where
  pub name : ℕ
  pub options : Dict (Argument F D)

module _ {D : Type 0} where
  unfoldable pub is_optional : Field D → Bool
  is_optional f = can_be_none f.type_ || (is_some f.default || is_some f.default_factory)

  -- The fields that are options: `op_field.name == "name" or not op_field.init` is false.
  abbrev pub is_option : Field D → Bool
  is_option f = not ((f.name == name_text) || not f.init)

-- `if len(spec.args) != 0: raise`
abbrev pub no_arguments_left {ℓ} : {V : Type ℓ} → Dict V → Result (Unit {0})
no_arguments_left [] = ok tt
no_arguments_left (a ∷ args) = err value_error

module _ {F : Type 0} where
  -- The loop of `normalize_arg_names` over the items that there were.
  unfoldable pub normalize_items :
      (ℕ → ℕ)
      → Dict (List (PassArgElementType F))
      → Dict (List (PassArgElementType F))
      → Result (Dict (List (PassArgElementType F)))
  normalize_items replace [] args = ok args
  normalize_items replace ((k, v) ∷ items) args =
      let rest = normalize_items replace items (insert (replace k) v (delete k args)) in
      or_raise (lookup k args) key_error >>= λ deleted. rest

  -- `replace` is `str.replace("-", "_")`.
  unfoldable pub normalize_arg_names :
      (ℕ → ℕ) → Dict (List (PassArgElementType F)) → Result (Dict (List (PassArgElementType F)))
  unfolding normalize_items
  normalize_arg_names replace args = normalize_items replace args args

module _ {F D : Type 0} where
  -- The checks of a value that is not the missing one.
  unfoldable pub as_list : List (PassArgElementType F) → Hint → Result (Argument F D)
  unfolding isa_list
  as_list vs h = if isa_list vs h then ok (several vs) else err value_error

  unfoldable pub as_argument : List (PassArgElementType F) → Hint → Result (Argument F D)
  unfolding isa as_list
  as_argument (v ∷ []) h = if isa v h then ok (one v) else as_list (v ∷ []) h
  as_argument vs h = as_list vs h

  unfoldable pub convert_pass_arg_to_type :
      List (PassArgElementType F) → Hint → Result (Argument F D)
  unfolding as_argument
  convert_pass_arg_to_type [] (union hs) = if has_none hs then ok no_value else err value_error
  convert_pass_arg_to_type vs h = as_argument vs h

  -- The value of a factory, where there is one.
  abbrev pub from_factory : Option D → Argument F D
  from_factory (some d) = default_value d
  from_factory none = no_value

  abbrev pub from_default : Option D → Option D → Argument F D
  from_default (some d) factory = default_value d
  from_default none factory = from_factory factory

  unfoldable pub get_default : Field D → Argument F D
  get_default f = from_default f.default f.default_factory

  -- What one turn of the loop over the fields does with the arguments that are left: the value of
  -- the option, and the arguments without its own.
  unfoldable pub take_argument :
      Field D
      → Option (List (PassArgElementType F))
      → Dict (List (PassArgElementType F))
      → Result (Argument F D × Dict (List (PassArgElementType F)))
  unfolding is_optional get_default convert_pass_arg_to_type
  take_argument f none args = if is_optional f then ok (get_default f, args) else err value_error
  take_argument f (some value) args =
      convert_pass_arg_to_type value f.type_ >>= λ v. ok (v, delete f.name args)

  -- The loop over the fields, with the options set so far.
  unfoldable pub set_fields :
      List (Field D)
      → Dict (Argument F D)
      → Dict (List (PassArgElementType F))
      → Result (Dict (Argument F D) × Dict (List (PassArgElementType F)))
  unfolding take_argument
  set_fields [] arg_dict args = ok (arg_dict, args)
  set_fields (f ∷ fs) arg_dict args =
      if is_option f
      then (take_argument f (lookup f.name args) args >>= λ (v, args').
          set_fields fs (insert f.name v arg_dict) args')
      else set_fields fs arg_dict args

  unfoldable pub from_pass_spec : (ℕ → ℕ) → PassClass D → PipelinePassSpec F → Result (Pass F D)
  unfolding normalize_arg_names set_fields
  from_pass_spec replace cls spec = do
    guard (spec.name == cls.name) value_error
    args ← normalize_arg_names replace spec.args
    (arg_dict, left) ← set_fields cls.fields [] args
    no_arguments_left left
    ok (record { name = cls.name; options = arg_dict })

  -- `if p.name not in self.available_passes`
  abbrev pub check_available : Dict (PassClass D) → List (PipelinePassSpec F) → Result (Unit {0})
  check_available available [] = ok tt
  check_available available (p ∷ ps) =
      guard (is_some (lookup p.name available)) exception >> check_available available ps

  -- `self.available_passes[p.name].from_pass_spec(p)`
  unfoldable pub pass_of : (ℕ → ℕ) → Dict (PassClass D) → PipelinePassSpec F → Result (Pass F D)
  unfolding from_pass_spec
  pass_of replace available p =
      or_raise (lookup p.name available) key_error >>= λ cls. from_pass_spec replace cls p

  unfoldable pub setup_pipeline :
      (ℕ → ℕ) → Dict (PassClass D) → List (PipelinePassSpec F) → Result (List (Pass F D))
  unfolding pass_of
  setup_pipeline replace available pipeline =
      check_available available pipeline >> traverse (pass_of replace available) pipeline
