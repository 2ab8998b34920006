-- ===== src/Interpreter/Impls.antt =====
-- `_InterpreterFunctionImpls` of xdsl/interpreter.py: the implementations that are registered. A class,
-- a pair of classes and a name are each the number of an interned object. Registering is a state
-- passing function: what was written before a raise stays written.
use xdsl.Prelude.{Bool, not, ◌&&◌, [], ◌∷◌, if◌then◌else◌, is_some}
use xdsl.Prelude.Dict.{Dict, lookup, insert}
use xdsl.Result.{Result, ok, err, value_error}

-- The implementations of operations, casts and external functions. Those of a class of functions, which
-- `register_impls` collects, and those of an interpreter have the same form.
pub record InterpreterFunctionImpls (I C E : Type 0) : Type 0 where
  pub impl_dict : Dict I
  pub cast_impl_dict : Dict C
  pub external_funcs_dict : Dict E

-- One of the three loops of `register_from`.
unfoldable pub register_items {ℓ} :
    {X : Type ℓ} → Bool → Dict X → Dict X → Result (Unit {0}) × Dict X
register_items override [] d = (ok tt, d)
register_items override ((key, impl) ∷ items) d =
    if is_some (lookup key d) && not override
    then (err value_error, d)
    else register_items override items (insert key impl d)

-- What registering returns or raises, and the implementations after it.
abbrev pub Registered : Type 0 → Type 0 → Type 0 → Type 0
Registered I C E = Result (Unit {0}) × InterpreterFunctionImpls I C E

module _ {I C E : Type 0} where
  -- What follows a loop that ends.
  abbrev pub after :
      Result (Unit {0}) → Registered I C E → InterpreterFunctionImpls I C E → Registered I C E
  after (ok done) next self = next
  after (err e) next self = (err e, self)

  unfoldable pub register_external :
      Bool → InterpreterFunctionImpls I C E → InterpreterFunctionImpls I C E → Registered I C E
  unfolding register_items
  register_external override ft self =
      let (r, d) = register_items override ft.external_funcs_dict self.external_funcs_dict in
      (r, record self { external_funcs_dict = d })

  unfoldable pub register_casts :
      Bool → InterpreterFunctionImpls I C E → InterpreterFunctionImpls I C E → Registered I C E
  unfolding register_external
  register_casts override ft self =
      let (r, d) = register_items override ft.cast_impl_dict self.cast_impl_dict in
      let self' = record self { cast_impl_dict = d } in
      after r (register_external override ft self') self'

  unfoldable pub register_from :
      Bool → InterpreterFunctionImpls I C E → InterpreterFunctionImpls I C E → Registered I C E
  unfolding register_casts
  register_from override ft self =
      let (r, d) = register_items override ft.impl_dict self.impl_dict in
      let self' = record self { impl_dict = d } in after r (register_casts override ft self') self'
