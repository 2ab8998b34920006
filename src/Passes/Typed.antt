-- ===== src/Passes/Typed.antt =====
-- The types of the options of a pass that is made from its specification.
use xdsl.Prelude.{
  ℕ, true, ◌≡◌, refl, subst, ◌∙◌, sym, List, [], ◌∷◌, Option, none, some, ◌==◌, ==_iff, ◌⊎◌, inl,
  inr, if◌then◌else◌, Bool-cases, arith,
}
use xdsl.Prelude.Dict.{Dict, lookup, keys, Distinct}
use xdsl.Result.{Result, ok, ◌>>=◌, ◌>>◌, guard, value_error, >>=-eq-ok, guard-ok}
use xdsl.Pipeline.{PassArgElementType, PipelinePassSpec}
use xdsl.Passes.Hints.{
  Hint, Hints, union, any_hint, int_class, float_class, bool_class, str_class, none_type, list_of,
  literal, isa, isa_list, can_be_none, has_none, all, in_list,
}
use xdsl.Passes.Spec.{
  Field, PassClass, Pass, Argument, no_value, one, several, default_value, is_option, is_optional,
  get_default, as_list, as_argument, convert_pass_arg_to_type, from_pass_spec, normalize_arg_names,
}
use xdsl.Passes.Refines.{option_names, option_value, option_values, from_pass_spec-option_values}

module _ {D : Type 0} where
  -- The fields that are options.
  abbrev pub option_fields : List (Field D) → List (Field D)
  option_fields [] = []
  option_fields (f ∷ fs) = if is_option f then f ∷ option_fields fs else option_fields fs

module _ {F D : Type 0} where
  -- A value that a field may have: one of its type, `None` where the type allows it, or a default.
  abbrev pub HasType : Field D → Argument F D → Type 0
  HasType f no_value = can_be_none f.type_ ≡ true
  HasType f (one v) = isa v f.type_ ≡ true
  HasType f (several vs) = isa_list vs f.type_ ≡ true
  HasType f (default_value d) = (f.default ≡ some d) ⊎ (f.default_factory ≡ some d)

  -- The same of an argument that is given, which is no default.
  abbrev IsGiven : Hint → Argument F D → Type 0
  IsGiven h no_value = can_be_none h ≡ true
  IsGiven h (one v) = isa v h ≡ true
  IsGiven h (several vs) = isa_list vs h ≡ true
  IsGiven h (default_value d) = ⊥

  IsGiven-HasType : (f : Field D) (a : Argument F D) → IsGiven f.type_ a → HasType f a
  IsGiven-HasType f no_value g = g
  IsGiven-HasType f (one v) g = g
  IsGiven-HasType f (several vs) g = g
  IsGiven-HasType f (default_value d) g = absurd g

  as_list-IsGiven :
      (vs : List (PassArgElementType F)) (h : Hint) (a : Argument F D)
      → as_list vs h ≡ ok a
      → IsGiven h a
  unfolding as_list
  as_list-IsGiven vs h a e = elim (Bool-cases (isa_list vs h)) [
    | inl t ↦ let s : several vs ≡ a = ground (arith, t, e) in subst (IsGiven h) s t
    | inr t ↦ ground (arith, t, e)
  ]

  as_argument-IsGiven :
      (vs : List (PassArgElementType F)) (h : Hint) (a : Argument F D)
      → as_argument vs h ≡ ok a
      → IsGiven h a
  unfolding as_argument
  as_argument-IsGiven [] h a e = as_list-IsGiven [] h a e
  as_argument-IsGiven (v ∷ []) h a e = elim (Bool-cases (isa v h)) [
    | inl t ↦ let s : one v ≡ a = ground (arith, t, e) in subst (IsGiven h) s t
    | inr t ↦ as_list-IsGiven (v ∷ []) h a (ground (arith, t, e))
  ]
  as_argument-IsGiven (v ∷ w ∷ vs) h a e = as_list-IsGiven (v ∷ w ∷ vs) h a e

  -- What an empty argument is converted to where the type is a union.
  no_value-IsGiven :
      (hs : Hints) (a : Argument F D)
      → convert_pass_arg_to_type [] (union hs) ≡ ok a
      → IsGiven (union hs) a
  unfolding convert_pass_arg_to_type
  no_value-IsGiven hs a e = elim (Bool-cases (has_none hs)) [
    | inl t ↦ let s : no_value ≡ a = ground (arith, t, e) in subst (IsGiven (union hs)) s t
    | inr t ↦ ground (arith, t, e)
  ]

  convert_pass_arg_to_type-IsGiven :
      (vs : List (PassArgElementType F)) (h : Hint) (a : Argument F D)
      → convert_pass_arg_to_type vs h ≡ ok a
      → IsGiven h a
  unfolding convert_pass_arg_to_type
  convert_pass_arg_to_type-IsGiven [] (union hs) a e = no_value-IsGiven hs a e
  convert_pass_arg_to_type-IsGiven [] any_hint a e = as_argument-IsGiven [] any_hint a e
  convert_pass_arg_to_type-IsGiven [] int_class a e = as_argument-IsGiven [] int_class a e
  convert_pass_arg_to_type-IsGiven [] float_class a e = as_argument-IsGiven [] float_class a e
  convert_pass_arg_to_type-IsGiven [] bool_class a e = as_argument-IsGiven [] bool_class a e
  convert_pass_arg_to_type-IsGiven [] str_class a e = as_argument-IsGiven [] str_class a e
  convert_pass_arg_to_type-IsGiven [] none_type a e = as_argument-IsGiven [] none_type a e
  convert_pass_arg_to_type-IsGiven [] (list_of h) a e = as_argument-IsGiven [] (list_of h) a e
  convert_pass_arg_to_type-IsGiven [] (literal ts) a e = as_argument-IsGiven [] (literal ts) a e
  convert_pass_arg_to_type-IsGiven (v ∷ vs) h a e = as_argument-IsGiven (v ∷ vs) h a e

module _ {D : Type 0} where
  get_default-HasType :
      (F : Type 0) (f : Field D) (default factory : Option D)
      → f.default ≡ default
      → f.default_factory ≡ factory
      → is_optional f ≡ true
      → HasType {F = F} f (get_default f)
  unfolding get_default is_optional
  get_default-HasType F f (some d) factory e e' t = rw e (inl refl)
  get_default-HasType F f none (some d) e e' t = rw (e, e') (inr refl)
  get_default-HasType F f none none e e' t = rw (e, e') (ground (arith, t, e, e'))

module _ {F D : Type 0} where
  option_value-HasType :
      (f : Field D) (o : Option (List (PassArgElementType F))) (a : Argument F D)
      → option_value f o ≡ ok a
      → HasType f a
  option_value-HasType f none a e = elim (Bool-cases (is_optional f)) [
    | inl t ↦
        let s : get_default f ≡ a = ground (arith, t, e) in
        subst (HasType f) s (get_default-HasType F f f.default f.default_factory refl refl t)
    | inr t ↦ ground (arith, t, e)
  ]
  option_value-HasType f (some vs) a e =
      IsGiven-HasType f a (convert_pass_arg_to_type-IsGiven vs f.type_ a e)

  -- Options that that are these fields' in their order.
  abbrev pub HaveTypes : List (Field D) → Dict (Argument F D) → Type 0
  HaveTypes [] [] = Unit
  HaveTypes (f ∷ fs) ((k, a) ∷ os) = (k ≡ f.name) × HasType f a × HaveTypes fs os
  HaveTypes _ _ = ⊥

  option_values-HaveTypes :
      (fs : List (Field D)) (args : Dict (List (PassArgElementType F))) (os : Dict (Argument F D))
      → option_values fs args ≡ ok os
      → HaveTypes (option_fields fs) os
  option_values-HaveTypes [] args os e =
      let s : [] ≡ os = ground (arith, e) in subst (HaveTypes []) s tt
  option_values-HaveTypes (f ∷ fs) args os e = elim (Bool-cases (is_option f)) [
    | inl t ↦
        let next : Argument F D → Result (Dict (Argument F D)) =
          λ v. option_values fs args >>= λ vs. ok ((f.name, v) ∷ vs) in
        let e1 : (option_value f (lookup f.name args) >>= next) ≡ ok os = ground (arith, t, e) in
        let (v, ev, e') = >>=-eq-ok (option_value f (lookup f.name args)) next e1 in
        let (vs, evs, e'') = >>=-eq-ok (option_values fs args) (λ vs. ok ((f.name, v) ∷ vs)) e' in
        let s : (f.name, v) ∷ vs ≡ os = ground (arith, e'') in
        rw t (
          subst (HaveTypes (f ∷ option_fields fs)) s (
            refl,
            option_value-HasType f (lookup f.name args) v ev,
            option_values-HaveTypes fs args vs evs,
          ))
    | inr t ↦ rw t (option_values-HaveTypes fs args os (ground (arith, t, e)))
  ]

  -- Where the options of a class have distinct names, and so have the arguments: a pass that is made
  -- has its class's name, and for each option of the class, in their order, a value of the type of
  -- the field, `None` where the type is a union with `None`, or the default.
  pub from_pass_spec-HaveTypes :
      (replace : ℕ → ℕ) (cls : PassClass D) (spec : PipelinePassSpec F) (p : Pass F D)
      → Distinct (option_names cls.fields)
      → Distinct (keys spec.args)
      → from_pass_spec replace cls spec ≡ ok p
      → (p.name ≡ cls.name)
        × (spec.name ≡ cls.name)
        × HaveTypes (option_fields cls.fields) p.options
  from_pass_spec-HaveTypes replace cls spec p n h e =
      let e0 = sym (from_pass_spec-option_values replace cls spec n h) ∙ e in
      let (args, ea, e1) =
        >>=-eq-ok
          (guard (spec.name == cls.name) value_error >> normalize_arg_names replace spec.args) _
          e0 in
      let (u, eg, en) = >>=-eq-ok (guard (spec.name == cls.name) value_error) _ ea in
      let (os, eo, e2) = >>=-eq-ok (option_values cls.fields args) _ e1 in
      let (u', eg', e3) =
        >>=-eq-ok (guard (all (λ k. in_list k (option_names cls.fields)) (keys args)) value_error) _
          e2 in
      let same : spec.name ≡ cls.name =
        (==_iff spec.name cls.name).0 (guard-ok (spec.name == cls.name) value_error eg) in
      let made : Pass F D = record { name = cls.name; options = os } in
      let s : made ≡ p = ground (arith, e3) in
      subst
        (λ q.
          (q.name ≡ cls.name)
          × (spec.name ≡ cls.name)
          × HaveTypes (option_fields cls.fields) q.options)
        s (refl, same, option_values-HaveTypes cls.fields args os eo)
