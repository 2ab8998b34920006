-- ===== src/Interpreter/Registers.antt =====
-- Registering implementations: which are found after it, and when it raises.
use xdsl.Prelude.{
  ℕ, Bool, true, false, not, ◌&&◌, ◌||◌, ◌≡◌, refl, ◌∙◌, [], ◌∷◌, Option, none, some, Bool-cases,
  inl, inr, is_some, arith,
}
use xdsl.Prelude.Dict.{Dict, lookup, insert, keys, lookup-insert, lookup-Absent, Absent, Distinct}
use xdsl.Result.{Result, ok, err, value_error}
use xdsl.Interpreter.Impls.{
  InterpreterFunctionImpls, Registered, after, register_items, register_external, register_casts,
  register_from,
}

-- The first option that is there.
abbrev pub or_old {ℓ} : {X : Type ℓ} → Option X → Option X → Option X
or_old (some x) old = some x
or_old none old = old

module _ {X : Type 0} where
  -- None of the items has a key of the dictionary.
  abbrev pub are_new : Dict X → Dict X → Bool
  are_new [] d = true
  are_new ((k, x) ∷ items) d = not (is_some (lookup k d)) && are_new items d

  -- Each item is found, and what was there under another key.
  abbrev pub Merges : Dict X → Dict X → Dict X → Type 0
  Merges items d d' = (j : ℕ) → lookup j d' ≡ or_old (lookup j items) (lookup j d)

  -- Registering goes on exactly where it may, and keeps what it must not override.
  abbrev pub Registers : Bool → Dict X → Dict X → Result (Unit {0}) × Dict X → Type 0
  Registers override items d (ok done, d') =
      ((override || are_new items d) ≡ true) × Merges items d d'
  Registers override items d (err e, d') =
      ((override || are_new items d) ≡ false)
      × (e ≡ value_error)
      × ((j : ℕ) (x : X) → lookup j d ≡ some x → lookup j d' ≡ some x)

  are_new-insert :
      (k : ℕ) (x : X) (items d : Dict X)
      → Absent k (keys items)
      → are_new items (insert k x d) ≡ are_new items d
  are_new-insert k x [] d a = refl
  are_new-insert k x ((k', x') ∷ items) d (n, a) =
      ground (arith, lookup-insert k' k x d, n, are_new-insert k x items d a)

  merge-cons :
      (j k : ℕ) (x : X) (items d : Dict X)
      → Absent k (keys items)
      → or_old (lookup j items) (lookup j (insert k x d))
        ≡ or_old (lookup j ((k, x) ∷ items)) (lookup j d)
  merge-cons j k x items d a = ground (arith, lookup-insert j k x d, lookup-Absent k items a)

  -- An item that is registered, before the others.
  Registers-cons :
      (override : Bool) (k : ℕ) (x : X) (items d : Dict X) (r : Result (Unit {0}) × Dict X)
      → Absent k (keys items)
      → (is_some (lookup k d) && not override) ≡ false
      → Registers override items (insert k x d) r
      → Registers override ((k, x) ∷ items) d r
  Registers-cons true k x items d (ok done, d') a t (g, m) =
      (refl, λ j. m j ∙ merge-cons j k x items d a)
  Registers-cons false k x items d (ok done, d') a t (g, m) =
      (ground (arith, g, t, are_new-insert k x items d a), λ j. m j ∙ merge-cons j k x items d a)
  Registers-cons true k x items d (err e, d') a t (g, same, kept) = cc
  Registers-cons false k x items d (err e, d') a t (g, same, kept) = (
    ground (arith, g, t, are_new-insert k x items d a),
    same,
    λ j y l. kept j y (ground (arith, t, l, lookup-insert j k x d)),
  )

  register_items-Registers :
      (override : Bool) (items d : Dict X)
      → Distinct (keys items)
      → Registers override items d (register_items override items d)
  unfolding register_items
  register_items-Registers override [] d h = (ground arith, λ j. refl)
  register_items-Registers override ((k, x) ∷ items) d (a, h) =
      elim (Bool-cases (is_some (lookup k d) && not override)) [
        | inl t ↦ rw t (ground (arith, t), refl, λ j y l. l)
        | inr t ↦ rw t (
            Registers-cons override k x items d (register_items override items (insert k x d)) a t
              (register_items-Registers override items (insert k x d) h))
      ]

module _ {X : Type 0} where
  -- What is there stays.
  abbrev pub Keeps : Dict X → Dict X → Type 0
  Keeps d d' = (j : ℕ) (x : X) → lookup j d ≡ some x → lookup j d' ≡ some x

  are_new-lookup :
      (items d : Dict X) (j : ℕ) (x : X)
      → are_new items d ≡ true
      → lookup j d ≡ some x
      → lookup j items ≡ none
  are_new-lookup [] d j x t l = refl
  are_new-lookup ((k, y) ∷ items) d j x t l =
      let rest : are_new items d ≡ true = ground (arith, t) in
      ground (arith, t, l, are_new-lookup items d j x rest l)

  -- Registering without overriding keeps what is there, whether it ends or raises.
  Registers-Keeps :
      (items d : Dict X) (r : Result (Unit {0})) (d' : Dict X)
      → Registers false items d (r, d')
      → Keeps d d'
  Registers-Keeps items d (ok done) d' (t, m) j x l = rw (m j, are_new-lookup items d j x t l) l
  Registers-Keeps items d (err e) d' (t, same, kept) j x l = kept j x l

module _ {I C E : Type 0} where
  -- No implementation is for something that has one.
  abbrev pub all_new : InterpreterFunctionImpls I C E → InterpreterFunctionImpls I C E → Bool
  all_new ft self =
      are_new ft.impl_dict self.impl_dict
      && (are_new ft.cast_impl_dict self.cast_impl_dict
          && are_new ft.external_funcs_dict self.external_funcs_dict)

  abbrev pub HasOutcome :
      Bool
      → InterpreterFunctionImpls I C E
      → InterpreterFunctionImpls I C E
      → Registered I C E
      → Type 0
  HasOutcome override ft self (ok done, self') =
      ((override || all_new ft self) ≡ true)
      × Merges ft.impl_dict self.impl_dict self'.impl_dict
      × Merges ft.cast_impl_dict self.cast_impl_dict self'.cast_impl_dict
      × Merges ft.external_funcs_dict self.external_funcs_dict self'.external_funcs_dict
  HasOutcome override ft self (err e, self') =
      ((override || all_new ft self) ≡ false)
      × (e ≡ value_error)
      × Keeps self.impl_dict self'.impl_dict
      × Keeps self.cast_impl_dict self'.cast_impl_dict
      × Keeps self.external_funcs_dict self'.external_funcs_dict

  abbrev DistinctKeys : InterpreterFunctionImpls I C E → Type 0
  DistinctKeys ft =
      Distinct (keys ft.impl_dict)
      × Distinct (keys ft.cast_impl_dict)
      × Distinct (keys ft.external_funcs_dict)

  after-HasOutcome :
      (override : Bool) (ft self : InterpreterFunctionImpls I C E) (r1 : Result (Unit {0}))
      (d1 : Dict I) (r2 : Result (Unit {0})) (d2 : Dict C) (r3 : Result (Unit {0})) (d3 : Dict E)
      → Registers override ft.impl_dict self.impl_dict (r1, d1)
      → Registers override ft.cast_impl_dict self.cast_impl_dict (r2, d2)
      → Registers override ft.external_funcs_dict self.external_funcs_dict (r3, d3)
      → HasOutcome override ft self (
          after r1
            (after r2
              (r3, record { impl_dict = d1; cast_impl_dict = d2; external_funcs_dict = d3 })
              (record self { impl_dict = d1; cast_impl_dict = d2 }))
            (record self { impl_dict = d1 }))
  after-HasOutcome override ft self (ok _) d1 (ok _) d2 (ok _) d3 (t1, m1) (t2, m2) (t3, m3) =
      (ground (arith, t1, t2, t3), m1, m2, m3)
  after-HasOutcome false ft self (err e) d1 r2 d2 r3 d3 (t, same, kept) h2 h3 =
      (ground (arith, t), same, kept, λ j x l. l, λ j x l. l)
  after-HasOutcome false ft self (ok u) d1 (err e) d2 r3 d3 h1 (t, same, kept) h3 = (
    ground (arith, t, h1.0),
    same,
    Registers-Keeps ft.impl_dict self.impl_dict (ok u) d1 h1,
    kept,
    λ j x l. l,
  )
  after-HasOutcome false ft self (ok u) d1 (ok u') d2 (err e) d3 h1 h2 (t, same, kept) = (
    ground (arith, t, h1.0, h2.0),
    same,
    Registers-Keeps ft.impl_dict self.impl_dict (ok u) d1 h1,
    Registers-Keeps ft.cast_impl_dict self.cast_impl_dict (ok u') d2 h2,
    kept,
  )
  after-HasOutcome true ft self (err e) d1 r2 d2 r3 d3 h1 h2 h3 = absurd (ground (arith, h1.0))
  after-HasOutcome true ft self (ok u) d1 (err e) d2 r3 d3 h1 h2 h3 = absurd (ground (arith, h2.0))
  after-HasOutcome true ft self (ok u) d1 (ok u') d2 (err e) d3 h1 h2 h3 =
      absurd (ground (arith, h3.0))

  -- Where the implementations that are given have distinct keys: `register_from` ends exactly where
  -- it may override or nothing has an implementation already, and then each implementation that is
  -- given is found, and what was there for anything else; otherwise it raises a `ValueError`, and
  -- what was there stays.
  pub register_from-HasOutcome :
      (override : Bool) (ft self : InterpreterFunctionImpls I C E)
      → DistinctKeys ft
      → HasOutcome override ft self (register_from override ft self)
  unfolding register_from register_casts register_external
  register_from-HasOutcome override ft self (h1, h2, h3) =
      after-HasOutcome override ft self _ _ _ _ _ _
        (register_items-Registers override ft.impl_dict self.impl_dict h1)
        (register_items-Registers override ft.cast_impl_dict self.cast_impl_dict h2)
        (register_items-Registers override ft.external_funcs_dict self.external_funcs_dict h3)
