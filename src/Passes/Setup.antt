-- ===== src/Passes/Setup.antt =====
-- The pipeline that xdsl/xdsl_opt_main.py makes of the passes that it parses.
use xdsl.Prelude.{
  ℕ, suc, Bool, true, false, ◌≡◌, subst, ◌∙◌, sym, List, [], ◌∷◌, some, if◌then◌else◌, Bool-cases,
  ◌==◌, inl, inr, arith,
}
use xdsl.Prelude.Dict.{Dict, lookup, insert, keys, Distinct, insert-Distinct}
use xdsl.Result.{Result, ok, err, ◌>>=◌, or_raise, key_error, >>=-eq-ok, traverse}
use xdsl.Pipeline.{
  Token, eof, l_brace, r_brace, equals, space, comma, ident, PassArgElementType, PipelinePassSpec,
  Literals, parse_arg_value, parse_pass_args, parse_pipeline, end_of_argument, end_of_pass,
}
use xdsl.Passes.Spec.{PassClass, Pass, pass_of, setup_pipeline, check_available}
use xdsl.Passes.Refines.{option_names}
use xdsl.Passes.Typed.{HaveTypes, option_fields, from_pass_spec-HaveTypes}

-- What a value has where one is returned.
abbrev Returning {ℓ κ} : {A : Type ℓ} → (A → Type κ) → Result A → Type κ
Returning Has (err e) = Unit
Returning Has (ok a) = Has a

Returning->>= {ℓ ℓ' κ} :
    {A : Type ℓ} {B : Type ℓ'} (Has : B → Type κ) (r : Result A) (next : A → Result B)
    → ((a : A) → Returning Has (next a))
    → Returning Has (r >>= next)
Returning->>= Has (err e) next h = tt
Returning->>= Has (ok a) next h = h a

-- The same, where the next step rests on what the value of the first has.
Returning->>=-of {ℓ ℓ' κ κ'} :
    {A : Type ℓ} {B : Type ℓ'} (Has₁ : A → Type κ') (Has : B → Type κ) (r : Result A)
    (next : A → Result B)
    → Returning Has₁ r
    → ((a : A) → Has₁ a → Returning Has (next a))
    → Returning Has (r >>= next)
Returning->>=-of Has₁ Has (err e) next h₁ h = tt
Returning->>=-of Has₁ Has (ok a) next h₁ h = h a h₁

Returning-if {ℓ κ} :
    {A : Type ℓ} (Has : A → Type κ) (b : Bool) (r r' : Result A)
    → Returning Has r
    → Returning Has r'
    → Returning Has (if b then r else r')
Returning-if Has true r r' h h' = h
Returning-if Has false r r' h h' = h'

module _ {F : Type 0} where
  -- The arguments of every pass have distinct names.
  abbrev pub DistinctSpecs : List (PipelinePassSpec F) → Type 0
  DistinctSpecs [] = Unit
  DistinctSpecs (p ∷ ps) = Distinct (keys p.args) × DistinctSpecs ps

module _ {F : Type 0} (python : Literals F) where
  abbrev DistinctArgs : Dict (List (PassArgElementType F)) × List Token → Type 0
  DistinctArgs (args, ts) = Distinct (keys args)

  parse_pass_args-Distinct :
      (arguments : ℕ) (args : Dict (List (PassArgElementType F))) (ts : List Token)
      → Distinct (keys args)
      → Returning DistinctArgs (parse_pass_args python arguments args ts)
  unfolding parse_pass_args
  parse_pass_args-Distinct (suc n) args (r_brace ∷ ts) h = h
  parse_pass_args-Distinct (suc n) args (ident name ∷ space ∷ ts) h =
      parse_pass_args-Distinct n (insert name [] args) ts (insert-Distinct name [] args h)
  parse_pass_args-Distinct (suc n) args (ident name ∷ r_brace ∷ ts) h =
      insert-Distinct name [] args h
  parse_pass_args-Distinct (suc n) args (ident name ∷ equals ∷ ts) h =
      Returning->>= DistinctArgs (parse_arg_value python ts) _ (λ (value, rest).
        let h' = insert-Distinct name value args h in
        Returning->>= DistinctArgs (end_of_argument rest) _ (λ (more, ts').
          Returning-if DistinctArgs more _ _
            (parse_pass_args-Distinct n (insert name value args) ts' h') h'))
  parse_pass_args-Distinct n args ts h = tt

  -- A pass before those that are parsed after it.
  Returning-cons :
      (p : PipelinePassSpec F) (r : Result (List (PipelinePassSpec F)))
      → Distinct (keys p.args)
      → Returning DistinctSpecs r
      → Returning DistinctSpecs (r >>= λ specs. ok (p ∷ specs))
  Returning-cons p (err e) h hs = tt
  Returning-cons p (ok ps) h hs = (h, hs)

  parse_pipeline-Distinct :
      (passes arguments : ℕ) (ts : List Token)
      → Returning DistinctSpecs (parse_pipeline python passes arguments ts)
  unfolding parse_pipeline
  parse_pipeline-Distinct (suc passes) n (eof ∷ ts) = tt
  parse_pipeline-Distinct (suc passes) n (ident name ∷ eof ∷ ts) = (tt, tt)
  parse_pipeline-Distinct (suc passes) n (ident name ∷ comma ∷ ts) =
      Returning-cons _ (parse_pipeline python passes n ts) tt (parse_pipeline-Distinct passes n ts)
  parse_pipeline-Distinct (suc passes) n (ident name ∷ l_brace ∷ ts) =
      Returning->>=-of DistinctArgs DistinctSpecs (parse_pass_args python n [] ts) _
        (parse_pass_args-Distinct n [] ts tt)
        (λ (args, rest) h. Returning->>= DistinctSpecs (end_of_pass rest) _ (λ (more, ts').
          Returning-if DistinctSpecs more _ _
            (Returning-cons _ (parse_pipeline python passes n ts') h
              (parse_pipeline-Distinct passes n ts'))
            (h, tt)))
  parse_pipeline-Distinct passes n ts = tt

module _ {D : Type 0} where
  -- The names of the options of every class that is available are distinct.
  abbrev pub DistinctOptions : Dict (PassClass D) → Type 0
  DistinctOptions [] = Unit
  DistinctOptions ((n, cls) ∷ d) = Distinct (option_names cls.fields) × DistinctOptions d

  DistinctOptions-lookup :
      (n : ℕ) (d : Dict (PassClass D)) (cls : PassClass D)
      → DistinctOptions d
      → lookup n d ≡ some cls
      → Distinct (option_names cls.fields)
  DistinctOptions-lookup n [] cls h e = cc
  DistinctOptions-lookup n ((k, c) ∷ d) cls (h, hs) e = elim (Bool-cases (n == k)) [
    | inl t ↦
        let s : c ≡ cls = ground (arith, t, e) in
        subst (λ c'. Distinct (option_names c'.fields)) s h
    | inr t ↦ DistinctOptions-lookup n d cls hs (ground (arith, t, e))
  ]

module _ {F D : Type 0} where
  -- A pass for each specification, of the class that is available under its name.
  abbrev pub AreMade : Dict (PassClass D) → List (PipelinePassSpec F) → List (Pass F D) → Type 0
  AreMade available [] [] = Unit
  AreMade available (spec ∷ specs) (p ∷ ps) =
      ((cls : PassClass D) × (lookup spec.name available ≡ some cls)
        × (p.name ≡ spec.name)
        × HaveTypes (option_fields cls.fields) p.options)
      × AreMade available specs ps
  AreMade _ _ _ = ⊥

  traverse-AreMade :
      (replace : ℕ → ℕ) (available : Dict (PassClass D)) (specs : List (PipelinePassSpec F))
      (ps : List (Pass F D))
      → DistinctOptions available
      → DistinctSpecs specs
      → traverse (pass_of replace available) specs ≡ ok ps
      → AreMade available specs ps
  unfolding traverse pass_of
  traverse-AreMade replace available [] ps d h e =
      let s : [] ≡ ps = ground (arith, e) in subst (AreMade available []) s tt
  traverse-AreMade replace available (spec ∷ specs) ps d (h, hs) e =
      let (p, ep, e1) = >>=-eq-ok (pass_of replace available spec) _ e in
      let (ps', eps, e2) = >>=-eq-ok (traverse (pass_of replace available) specs) _ e1 in
      let (cls, ec, ep') = >>=-eq-ok (or_raise (lookup spec.name available) key_error) _ ep in
      let l : lookup spec.name available ≡ some cls = ground (arith, ec) in
      let (same, named, types) =
        from_pass_spec-HaveTypes replace cls spec p
          (DistinctOptions-lookup spec.name available cls d l) h ep' in
      let s : p ∷ ps' ≡ ps = ground (arith, e2) in
      subst (AreMade available (spec ∷ specs)) s
        ((cls, l, same ∙ sym named, types), traverse-AreMade replace available specs ps' d hs eps)

  -- Where a pipeline is parsed and set up, and the options of each class that is available have
  -- distinct names: it has a pass for each specification, in their order, of the class that is
  -- available under its name, with options of the types of its fields.
  pub setup_pipeline-parse_pipeline :
      (python : Literals F) (replace : ℕ → ℕ) (available : Dict (PassClass D))
      (passes arguments : ℕ) (ts : List Token) (specs : List (PipelinePassSpec F))
      (ps : List (Pass F D))
      → DistinctOptions available
      → parse_pipeline python passes arguments ts ≡ ok specs
      → setup_pipeline replace available specs ≡ ok ps
      → AreMade available specs ps
  unfolding setup_pipeline
  setup_pipeline-parse_pipeline python replace available passes arguments ts specs ps d e e' =
      let (u, ec, et) = >>=-eq-ok (check_available available specs) _ e' in
      let h =
        subst (Returning DistinctSpecs) e (parse_pipeline-Distinct python passes arguments ts) in
      traverse-AreMade replace available specs ps d h et
