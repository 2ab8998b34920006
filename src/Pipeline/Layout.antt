-- ===== src/Pipeline/Layout.antt =====
-- The tokens of a written pipeline, and what xdsl/utils/parse_pipeline.py makes of them.
use mathlib.Core.Path.{ap₂}
use xdsl.Prelude.{
  ℕ, zero, suc, ◌≡◌, refl, sym, ap, ◌∙◌, ◌<◌, List, [], ◌∷◌, length, arith, Bool, true, false,
  if◌then◌else◌,
}
use xdsl.Prelude.Dict.{Dict, insert}
use xdsl.Result.{ok, ◌>>=◌}
use xdsl.Pipeline.{
  Token, eof, l_brace, r_brace, equals, space, comma, ident, PassArgElementType, PipelinePassSpec,
  Literals, element_of, more_values, parse_arg_value, parse_pass_args, parse_pipeline,
  end_of_argument, end_of_pass,
}

-- Values after the first, an argument, the arguments and the passes, each before other tokens.
abbrev pub layout_values : List Token → List Token → List Token
layout_values [] ts = ts
layout_values (v ∷ vs) ts = comma ∷ v ∷ layout_values vs ts

abbrev pub layout_argument : ℕ × List Token → List Token → List Token
layout_argument (name, []) ts = ident name ∷ ts
layout_argument (name, v ∷ vs) ts = ident name ∷ equals ∷ v ∷ layout_values vs ts

abbrev pub layout_arguments : List (ℕ × List Token) → List Token → List Token
layout_arguments [] ts = r_brace ∷ ts
layout_arguments (a ∷ []) ts = layout_argument a (r_brace ∷ ts)
layout_arguments (a ∷ b ∷ as_) ts = layout_argument a (space ∷ layout_arguments (b ∷ as_) ts)

-- A pass with its arguments, which are written only where there are any.
abbrev pub layout_pass : ℕ × List (ℕ × List Token) → List Token → List Token
layout_pass (name, []) ts = ident name ∷ ts
layout_pass (name, a ∷ as_) ts = ident name ∷ l_brace ∷ layout_arguments (a ∷ as_) ts

abbrev pub layout : List (ℕ × List (ℕ × List Token)) → List Token
layout [] = eof ∷ []
layout (p ∷ []) = layout_pass p (eof ∷ [])
layout (p ∷ q ∷ ps) = layout_pass p (comma ∷ layout (q ∷ ps))

-- What follows an argument: a space where there is another, a brace after the last.
abbrev pub end_token : Bool → Token
end_token true = space
end_token false = r_brace

module _ {F : Type 0} (python : Literals F) where
  -- The tokens are values, and these are they.
  abbrev pub Reads : List Token → List (PassArgElementType F) → Type 0
  Reads [] [] = Unit
  Reads (t ∷ ts) (v ∷ vs) = (element_of python t ≡ ok v) × Reads ts vs
  Reads _ _ = ⊥

  more_values-layout :
      (ts : List Token) (vs : List (PassArgElementType F)) (more : Bool) (rest : List Token)
      → Reads ts vs
      → more_values python (layout_values ts (end_token more ∷ rest))
        ≡ ok (vs, end_token more ∷ rest)
  unfolding more_values
  more_values-layout [] [] true rest h = refl
  more_values-layout [] [] false rest h = refl
  more_values-layout (t ∷ ts) (v ∷ vs) more rest (h, hs) =
      rw (h, more_values) (rw (more_values-layout ts vs more rest hs) refl)
  more_values-layout [] (v ∷ vs) more rest h = absurd h
  more_values-layout (t ∷ ts) [] more rest h = absurd h

  parse_arg_value-layout :
      (t : Token) (ts : List Token) (vs : List (PassArgElementType F)) (more : Bool)
      (rest : List Token)
      → Reads (t ∷ ts) vs
      → parse_arg_value python (t ∷ layout_values ts (end_token more ∷ rest))
        ≡ ok (vs, end_token more ∷ rest)
  unfolding parse_arg_value
  parse_arg_value-layout t ts [] more rest h = absurd h
  parse_arg_value-layout t ts (v ∷ vs) more rest (h, hs) =
      rw h (rw (more_values-layout ts vs more rest hs) refl)

  end_of_argument-layout :
      (more : Bool) (rest : List Token) → end_of_argument (end_token more ∷ rest) ≡ ok (more, rest)
  unfolding end_of_argument
  end_of_argument-layout true rest = refl
  end_of_argument-layout false rest = refl

  -- One argument: its value goes into the dictionary, and the loop goes on, or ends.
  parse_pass_args-argument :
      (n : ℕ) (args : Dict (List (PassArgElementType F))) (name : ℕ) (ts : List Token)
      (vs : List (PassArgElementType F)) (more : Bool) (rest : List Token)
      → Reads ts vs
      → parse_pass_args python (suc n) args (layout_argument (name, ts) (end_token more ∷ rest)) ≡ (
          if more
          then parse_pass_args python n (insert name vs args) rest
          else ok (insert name vs args, rest))
  unfolding parse_pass_args
  parse_pass_args-argument n args name [] [] true rest h = refl
  parse_pass_args-argument n args name [] [] false rest h = refl
  parse_pass_args-argument n args name [] (v ∷ vs) more rest h = absurd h
  parse_pass_args-argument n args name (t ∷ ts) vs more rest h =
      rw (parse_arg_value-layout t ts vs more rest h) (rw (end_of_argument-layout more rest) refl)

  -- The values of all arguments of all passes are read from their tokens.
  abbrev pub ReadsArguments : List (ℕ × List Token) → Dict (List (PassArgElementType F)) → Type 0
  ReadsArguments [] [] = Unit
  ReadsArguments ((k, ts) ∷ as_) ((k', vs) ∷ d) = (k ≡ k') × Reads ts vs × ReadsArguments as_ d
  ReadsArguments _ _ = ⊥

  -- `d[k] = v` for all items in order
  abbrev pub insert_all :
      Dict (List (PassArgElementType F))
      → Dict (List (PassArgElementType F))
      → Dict (List (PassArgElementType F))
  insert_all [] args = args
  insert_all ((k, v) ∷ d) args = insert_all d (insert k v args)

  parse_pass_args-layout :
      (n : ℕ) (args : Dict (List (PassArgElementType F))) (as_ : List (ℕ × List Token))
      (d : Dict (List (PassArgElementType F))) (rest : List Token)
      → ReadsArguments as_ d
      → length as_ < n
      → parse_pass_args python n args (layout_arguments as_ rest) ≡ ok (insert_all d args, rest)
  unfolding parse_pass_args
  parse_pass_args-layout zero args as_ d rest h g = absurd (omega arith)
  parse_pass_args-layout (suc n) args [] [] rest h g = refl
  parse_pass_args-layout (suc n) args ((k, ts) ∷ []) ((k', vs) ∷ []) rest (e, h, _) g =
      parse_pass_args-argument n args k ts vs false rest h ∙ ap (λ j. ok (insert j vs args, rest)) e
  parse_pass_args-layout (suc n) args ((k, ts) ∷ b ∷ as_) ((k', vs) ∷ d) rest (e, h, hs) g =
      parse_pass_args-argument n args k ts vs true (layout_arguments (b ∷ as_) rest) h
      ∙ (parse_pass_args-layout n (insert k vs args) (b ∷ as_) d rest hs (omega arith)
          ∙ ap (λ j. ok (insert_all d (insert j vs args), rest)) e)
  parse_pass_args-layout (suc n) args (a ∷ []) (x ∷ y ∷ d) rest (_, _, h) g = absurd h
  parse_pass_args-layout (suc n) args [] (x ∷ d) rest h g = absurd h
  parse_pass_args-layout (suc n) args (a ∷ as_) [] rest h g = absurd h

  -- The passes with their arguments, as they are read from the tokens.
  abbrev pub ReadsPasses : ℕ → List (ℕ × List (ℕ × List Token)) → List (PipelinePassSpec F) → Type 0
  ReadsPasses arguments [] [] = Unit
  ReadsPasses arguments ((name, as_) ∷ ps) (spec ∷ specs) =
      (spec.name ≡ name)
      × ((d : Dict (List (PassArgElementType F))) × ReadsArguments as_ d
          × (spec.args ≡ insert_all d []))
      × (length as_ < arguments)
      × ReadsPasses arguments ps specs
  ReadsPasses arguments _ _ = ⊥

  -- One pass before the end, and before another pass.
  parse_pipeline-last :
      (n arguments name : ℕ) (as_ : List (ℕ × List Token)) (d : Dict (List (PassArgElementType F)))
      → ReadsArguments as_ d
      → length as_ < arguments
      → parse_pipeline python (suc n) arguments (layout_pass (name, as_) (eof ∷ []))
        ≡ ok (record { name = name; args = insert_all d [] } ∷ [])
  unfolding parse_pipeline end_of_pass
  parse_pipeline-last n arguments name [] [] h g = refl
  parse_pipeline-last n arguments name [] (x ∷ d) h g = absurd h
  parse_pipeline-last n arguments name (a ∷ as_) d h g =
      rw (parse_pass_args-layout arguments [] (a ∷ as_) d (eof ∷ []) h g) refl

  parse_pipeline-comma :
      (n arguments name : ℕ) (as_ : List (ℕ × List Token)) (d : Dict (List (PassArgElementType F)))
      (ts : List Token)
      → ReadsArguments as_ d
      → length as_ < arguments
      → parse_pipeline python (suc n) arguments (layout_pass (name, as_) (comma ∷ ts)) ≡ (
          parse_pipeline python n arguments ts
          >>= (λ specs. ok (record { name = name; args = insert_all d [] } ∷ specs)))
  unfolding parse_pipeline end_of_pass
  parse_pipeline-comma n arguments name [] [] ts h g = refl
  parse_pipeline-comma n arguments name [] (x ∷ d) ts h g = absurd h
  parse_pipeline-comma n arguments name (a ∷ as_) d ts h g =
      rw (parse_pass_args-layout arguments [] (a ∷ as_) d (comma ∷ ts) h g) refl

  spec-eq :
      (spec : PipelinePassSpec F) {name : ℕ} {args : Dict (List (PassArgElementType F))}
      → spec.name ≡ name
      → spec.args ≡ args
      → record { name = name; args = args } ≡ spec
  spec-eq spec e f = sym (ap₂ (λ n d. record { name = n; args = d }) e f)

  -- Parsing the tokens of a written pipeline gives its passes in their order, each with the
  -- dictionary of its arguments and their values, for every number of passes, arguments and
  -- values, where there is more fuel than passes and than arguments of a pass.
  pub parse_pipeline-layout :
      (passes arguments : ℕ) (ps : List (ℕ × List (ℕ × List Token)))
      (specs : List (PipelinePassSpec F))
      → ReadsPasses arguments ps specs
      → length ps < passes
      → parse_pipeline python passes arguments (layout ps) ≡ ok specs
  unfolding parse_pipeline
  parse_pipeline-layout zero arguments ps specs h g = absurd (omega arith)
  parse_pipeline-layout (suc n) arguments [] [] h g = refl
  parse_pipeline-layout (suc n) arguments ((name, as_) ∷ []) (spec ∷ []) (e, (d, h, f), l, _) g =
      parse_pipeline-last n arguments name as_ d h l ∙ ap (λ s. ok (s ∷ [])) (spec-eq spec e f)
  parse_pipeline-layout (suc n) arguments ((name, as_) ∷ p ∷ ps) (spec ∷ specs)
        (e, (d, h, f), l, hs) g =
      let rest = parse_pipeline-layout n arguments (p ∷ ps) specs hs (omega arith) in
      parse_pipeline-comma n arguments name as_ d (layout (p ∷ ps)) h l
      ∙ (ap (λ r. r >>= (λ specs. ok (record { name = name; args = insert_all d [] } ∷ specs))) rest
          ∙ ap (λ s. ok (s ∷ specs)) (spec-eq spec e f))
  parse_pipeline-layout (suc n) arguments (a ∷ []) (x ∷ y ∷ specs) (_, _, _, h) g = absurd h
  parse_pipeline-layout (suc n) arguments [] (x ∷ specs) h g = absurd h
  parse_pipeline-layout (suc n) arguments (a ∷ ps) [] h g = absurd h
