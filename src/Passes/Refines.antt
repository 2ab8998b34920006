-- ===== src/Passes/Refines.antt =====
-- Making a pass from its specification, without the deletions: each option is read off the arguments
-- as they were.
use xdsl.Prelude.{
  ℕ, ◌≡◌, refl, subst, ◌≢◌, sym, List, [], ◌∷◌, Option, none, some, ◌==◌, if◌then◌else◌, inl, inr,
  Bool-cases, arith,
}
use xdsl.Prelude.Dict.{
  Dict, lookup, insert, delete, keys, Absent, Distinct, lookup-delete, delete-Distinct,
  insert-Distinct,
}
use xdsl.Result.{
  Result, ok, err, ◌>>=◌, ◌>>◌, guard, or_raise, value_error, key_error, Result-cases, >>=-eq-ok,
}
use xdsl.Pipeline.{PassArgElementType, PipelinePassSpec}
use xdsl.Passes.Hints.{all, in_list}
use xdsl.Passes.Spec.{
  Field, PassClass, Pass, Argument, is_option, is_optional, get_default, convert_pass_arg_to_type,
  take_argument, set_fields, no_arguments_left, from_pass_spec, normalize_arg_names,
  normalize_items,
}
use xdsl.Passes.Items.{delete_all, insert_all, delete-none, insert_all-nil, no_arguments_left-all}

module _ {D : Type 0} where
  -- The names of the fields that are options.
  abbrev pub option_names : List (Field D) → List ℕ
  option_names [] = []
  option_names (f ∷ fs) = if is_option f then f.name ∷ option_names fs else option_names fs

module _ {F D : Type 0} where
  -- The value of an option, by the argument for it where there is one.
  abbrev pub option_value : Field D → Option (List (PassArgElementType F)) → Result (Argument F D)
  option_value f none = if is_optional f then ok (get_default f) else err value_error
  option_value f (some value) = convert_pass_arg_to_type value f.type_

  -- The options of the fields in their order.
  abbrev pub option_values :
      List (Field D) → Dict (List (PassArgElementType F)) → Result (Dict (Argument F D))
  option_values [] args = ok []
  option_values (f ∷ fs) args =
      let rest = option_values fs args in
      if is_option f
      then (option_value f (lookup f.name args) >>= λ v. rest >>= λ vs. ok ((f.name, v) ∷ vs))
      else rest

module _ {F : Type 0} where
  normalize_items-Distinct :
      (replace : ℕ → ℕ) (items args args' : Dict (List (PassArgElementType F)))
      → Distinct (keys args)
      → normalize_items replace items args ≡ ok args'
      → Distinct (keys args')
  unfolding normalize_items
  normalize_items-Distinct replace [] args args' h e = ground (arith, e, h)
  normalize_items-Distinct replace ((k, v) ∷ items) args args' h e =
      let (found, l, e') = >>=-eq-ok (or_raise (lookup k args) key_error) _ e in
      let h' = insert-Distinct (replace k) v (delete k args) (delete-Distinct k args h) in
      normalize_items-Distinct replace items (insert (replace k) v (delete k args)) args' h' e'

module _ {F D : Type 0} where
  -- A turn of the loop gives the value of the option, and deletes the argument for it.
  take_argument-value :
      (f : Field D) (o : Option (List (PassArgElementType F)))
      (args : Dict (List (PassArgElementType F)))
      → lookup f.name args ≡ o
      → take_argument f o args ≡ (option_value f o >>= λ v. ok (v, delete f.name args))
  unfolding take_argument
  take_argument-value f none args e =
      rw (delete-none f.name args e)
        (elim (Bool-cases (is_optional f)) [ inl t ↦ rw t refl | inr t ↦ rw t refl ])
  take_argument-value f (some value) args e = refl

  option_values-delete :
      (k : ℕ) (fs : List (Field D)) (args : Dict (List (PassArgElementType F)))
      → Distinct (keys args)
      → Absent k (option_names fs)
      → option_values fs (delete k args) ≡ option_values fs args
  option_values-delete k [] args h a = refl
  option_values-delete k (f ∷ fs) args h a =
      let l = lookup-delete f.name k args h in
      elim (Bool-cases (is_option f)) [
        | inl e ↦
            let (n, a') : (k ≢ f.name) × Absent k (option_names fs) = ground (arith, e, a) in
            let l' : lookup f.name (delete k args) ≡ lookup f.name args = ground (arith, l, n) in
            rw (e, l', option_values-delete k fs args h a') refl
        | inr e ↦
            let a' : Absent k (option_names fs) = ground (arith, e, a) in
            rw e (option_values-delete k fs args h a')
      ]

  keys-option_values :
      (fs : List (Field D)) (args : Dict (List (PassArgElementType F))) (vs : Dict (Argument F D))
      → option_values fs args ≡ ok vs
      → keys vs ≡ option_names fs
  keys-option_values [] args vs e = ground (arith, e)
  keys-option_values (f ∷ fs) args vs e = elim (Bool-cases (is_option f)) [
    | inl t ↦
        let next : Argument F D → Result (Dict (Argument F D)) =
          λ v. option_values fs args >>= λ vs. ok ((f.name, v) ∷ vs) in
        let e1 : (option_value f (lookup f.name args) >>= next) ≡ ok vs = ground (arith, t, e) in
        let (v, ev, e') = >>=-eq-ok (option_value f (lookup f.name args)) next e1 in
        let (vs', evs, e'') = >>=-eq-ok (option_values fs args) (λ vs. ok ((f.name, v) ∷ vs)) e' in
        ground (arith, t, e'', keys-option_values fs args vs' evs)
    | inr t ↦ rw t (keys-option_values fs args vs (ground (arith, t, e)))
  ]

  set_fields-values :
      (fs : List (Field D)) (d : Dict (Argument F D)) (args : Dict (List (PassArgElementType F)))
      → Distinct (keys args)
      → Distinct (option_names fs)
      → set_fields fs d args
        ≡ (option_values fs args >>= λ vs. ok (insert_all vs d, delete_all (option_names fs) args))
  unfolding set_fields
  set_fields-values [] d args h n = refl
  set_fields-values (f ∷ fs) d args h n = elim (Bool-cases (is_option f)) [
    | inl e ↦
        let (a, n') : Absent f.name (option_names fs) × Distinct (option_names fs) =
          ground (arith, e, n) in
        rw (e, take_argument-value f (lookup f.name args) args refl)
          (elim (Result-cases (option_value f (lookup f.name args))) [
            | inl (v, ev) ↦
                rw
                  (
                    ev,
                    set_fields-values fs (insert f.name v d) (delete f.name args)
                        (delete-Distinct f.name args h) n',
                    option_values-delete f.name fs args h a,
                  )
                  (elim (Result-cases (option_values fs args)) [
                    | inl (vs, evs) ↦ rw evs refl
                    | inr (x, evs) ↦ rw evs refl
                  ])
            | inr (x, ev) ↦ rw ev refl
          ])
    | inr e ↦ rw e (set_fields-values fs d args h (ground (arith, e, n)))
  ]

  -- The arguments that are left over are those that are for no option.
  set_fields-nil :
      (fs : List (Field D)) (args : Dict (List (PassArgElementType F)))
      (next : Dict (Argument F D) → Result (Pass F D))
      → Distinct (keys args)
      → Distinct (option_names fs)
      → (set_fields fs [] args >>= λ (options, left). no_arguments_left left >> next options) ≡ (
          option_values fs args >>= λ options.
          guard (all (λ k. in_list k (option_names fs)) (keys args)) value_error >> next options)
  set_fields-nil fs args next h n =
      rw (set_fields-values fs [] args h n) (elim (Result-cases (option_values fs args)) [
        | inl (vs, e) ↦
            let distinct : Distinct (keys vs) =
              subst Distinct (sym (keys-option_values fs args vs e)) n in
            rw (e, insert_all-nil vs distinct, no_arguments_left-all (option_names fs) args h) refl
        | inr (x, e) ↦ rw e refl
      ])

  -- Where the options of a class have distinct names, and so have the arguments: `from_pass_spec`
  -- raises where the names of the pass differ; otherwise it gives every option its value by the
  -- argument for it as it was given, and then raises where an argument is for none of the options.
  pub from_pass_spec-option_values :
      (replace : ℕ → ℕ) (cls : PassClass D) (spec : PipelinePassSpec F)
      → Distinct (option_names cls.fields)
      → Distinct (keys spec.args)
      → from_pass_spec replace cls spec ≡ (
          guard (spec.name == cls.name) value_error
          >> normalize_arg_names replace spec.args
          >>= λ args. option_values cls.fields args >>= λ options.
              guard (all (λ k. in_list k (option_names cls.fields)) (keys args)) value_error
              >> ok (record { name = cls.name; options = options }))
  unfolding from_pass_spec normalize_arg_names
  from_pass_spec-option_values replace cls spec n h = elim (Bool-cases (spec.name == cls.name)) [
    | inl e ↦ rw e (elim (Result-cases (normalize_arg_names replace spec.args)) [
      | inl (args, ea) ↦
          let h' = normalize_items-Distinct replace spec.args spec.args args h ea in
          rw ea (
            set_fields-nil cls.fields args
              (λ options. ok (record { name = cls.name; options = options })) h' n)
      | inr (x, ea) ↦ rw ea refl
    ])
    | inr e ↦ rw e refl
  ]
