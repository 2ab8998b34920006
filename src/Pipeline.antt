-- ===== src/Pipeline.antt =====
-- The parser of pass pipelines, xdsl/utils/parse_pipeline.py, on the tokens that its lexer yields. A
-- text is the number of an interned string. The loops run on fuel: `passes` for those over
-- passes, `arguments` for those over the arguments of one.
pub mod Layout
use xdsl.Prelude.{ℕ, zero, suc, Bool, true, false, List, [], ◌∷◌, ◌==◌, if◌then◌else◌}
use xdsl.Prelude.Int.{ℤ}
use xdsl.Prelude.Dict.{Dict, insert}
use xdsl.Result.{Result, ok, err, ◌>>=◌, parse_error, exception, out_of_fuel}

-- The kind of a token, with its text where the parser reads it.
pub data Token : Type 0 where
  eof l_brace r_brace equals space comma : Token
  ident number string_lit : ℕ → Token

abbrev true_text : ℕ
true_text = 1

abbrev false_text : ℕ
false_text = 2

pub data PassArgElementType (F : Type 0) : Type 0 where
  string : ℕ → PassArgElementType F
  integer : ℤ → PassArgElementType F
  boolean : Bool → PassArgElementType F
  float : F → PassArgElementType F

pub record PipelinePassSpec (F : Type 0) : Type 0 where
  pub name : ℕ
  pub args : Dict (List (PassArgElementType F))

-- What Python reads from the text of a literal: `"." in text`, `int`, `float` and
-- `ast.literal_eval`.
pub record Literals (F : Type 0) : Type 0 where
  pub has_dot : ℕ → Bool
  pub int_of : ℕ → ℤ
  pub float_of : ℕ → F
  pub literal_eval : ℕ → ℕ

-- Whether there is more to come after an argument or a pass, and the rest.
abbrev pub More : Type 0
More = Result (Bool × List Token)

unfoldable pub end_of_argument : List Token → More
end_of_argument [] = err exception
end_of_argument (space ∷ ts) = ok (true, ts)
end_of_argument (r_brace ∷ ts) = ok (false, ts)
end_of_argument (_ ∷ ts) = err parse_error

unfoldable pub end_of_pass : List Token → More
end_of_pass [] = err exception
end_of_pass (eof ∷ ts) = ok (false, ts)
end_of_pass (comma ∷ ts) = ok (true, ts)
end_of_pass (_ ∷ ts) = err parse_error

module _ {F : Type 0} (python : Literals F) where
  -- `_parse_arg_value_element`, at the token that it reads
  unfoldable pub element_of : Token → Result (PassArgElementType F)
  element_of (string_lit t) = ok (string (python.literal_eval t))
  element_of (number t) =
      ok (if python.has_dot t then float (python.float_of t) else integer (python.int_of t))
  element_of (ident t) =
      ok (
        if t == true_text
        then boolean true
        else if t == false_text
        then boolean false
        else string t)
  element_of _ = err parse_error

  -- The loop of `_parse_arg_value`, which looks at a token before it takes it.
  unfoldable pub more_values : List Token → Result (List (PassArgElementType F) × List Token)
  unfolding element_of
  more_values [] = err exception
  more_values (comma ∷ []) = err exception
  more_values (comma ∷ t ∷ ts) =
      element_of t >>= (λ v. more_values ts >>= (λ (vs, rest). ok (v ∷ vs, rest)))
  more_values ts = ok ([], ts)

  unfoldable pub parse_arg_value : List Token → Result (List (PassArgElementType F) × List Token)
  unfolding more_values
  parse_arg_value [] = err exception
  parse_arg_value (t ∷ ts) =
      element_of t >>= (λ v. more_values ts >>= (λ (vs, rest). ok (v ∷ vs, rest)))

  unfoldable pub parse_pass_args :
      ℕ
      → Dict (List (PassArgElementType F))
      → List Token
      → Result (Dict (List (PassArgElementType F)) × List Token)
  unfolding parse_arg_value end_of_argument
  parse_pass_args zero args ts = err out_of_fuel
  parse_pass_args (suc arguments) args (r_brace ∷ ts) = ok (args, ts)
  parse_pass_args (suc arguments) args (ident name ∷ space ∷ ts) =
      parse_pass_args arguments (insert name [] args) ts
  parse_pass_args (suc arguments) args (ident name ∷ r_brace ∷ ts) = ok (insert name [] args, ts)
  parse_pass_args (suc arguments) args (ident name ∷ equals ∷ ts) =
      parse_arg_value ts >>= (λ (value, rest). end_of_argument rest >>= (λ (more, ts').
        if more
        then parse_pass_args arguments (insert name value args) ts'
        else ok (insert name value args, ts')))
  parse_pass_args (suc arguments) args (ident name ∷ []) = err exception
  parse_pass_args (suc arguments) args [] = err exception
  parse_pass_args (suc arguments) args _ = err parse_error

  unfoldable pub parse_pipeline : ℕ → ℕ → List Token → Result (List (PipelinePassSpec F))
  unfolding parse_pass_args end_of_pass
  parse_pipeline zero arguments ts = err out_of_fuel
  parse_pipeline (suc passes) arguments (eof ∷ ts) = ok []
  parse_pipeline (suc passes) arguments (ident name ∷ eof ∷ ts) =
      ok (record { name = name; args = [] } ∷ [])
  parse_pipeline (suc passes) arguments (ident name ∷ comma ∷ ts) =
      parse_pipeline passes arguments ts
      >>= (λ specs. ok (record { name = name; args = [] } ∷ specs))
  parse_pipeline (suc passes) arguments (ident name ∷ l_brace ∷ ts) =
      parse_pass_args arguments [] ts >>= (λ (args, rest). end_of_pass rest >>= (λ (more, ts').
        if more
        then parse_pipeline passes arguments ts'
          >>= (λ specs. ok (record { name = name; args = args } ∷ specs))
        else ok (record { name = name; args = args } ∷ [])))
  parse_pipeline (suc passes) arguments (ident name ∷ []) = err exception
  parse_pipeline (suc passes) arguments [] = err exception
  parse_pipeline (suc passes) arguments _ = err parse_error
