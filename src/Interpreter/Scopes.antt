-- ===== src/Interpreter/Scopes.antt =====
-- `InterpreterContext` of xdsl/interpreter.py: the values of SSA values, in a stack of scopes. An SSA
-- value is its number in the store, a name the number of an interned string.
use xdsl.Prelude.{ℕ, not, List, [], ◌∷◌, ◌++◌, Option, none, some, is_some}
use xdsl.Prelude.Dict.{Dict, lookup, insert}
use xdsl.Result.{Result, ok, err, ◌>>◌, guard, interpretation, traverse}

-- A context whose `parent` is `None`, and one with a parent.
pub data InterpreterContext (V : Type 0) : Type 0 where
  root : ℕ → Dict V → InterpreterContext V
  scope : ℕ → Dict V → InterpreterContext V → InterpreterContext V

module _ {V : Type 0} where
  -- `return self.env[key]` where the key is there, and otherwise what follows.
  abbrev pub or_else : Option V → Result V → Result V
  or_else (some v) other = ok v
  or_else none other = other

  unfoldable pub getitem : ℕ → InterpreterContext V → Result V
  getitem key (root name env) = or_else (lookup key env) (err interpretation)
  getitem key (scope name env parent) = or_else (lookup key env) (getitem key parent)

  unfoldable pub setitem : ℕ → V → InterpreterContext V → Result (InterpreterContext V)
  setitem key value (root name env) =
      guard (not (is_some (lookup key env))) interpretation >> ok (root name (insert key value env))
  setitem key value (scope name env parent) =
      guard (not (is_some (lookup key env))) interpretation
      >> ok (scope name (insert key value env) parent)

  unfoldable pub stack : InterpreterContext V → List (InterpreterContext V)
  stack (root name env) = root name env ∷ []
  stack (scope name env parent) = stack parent ++ scope name env parent ∷ []

  -- `push_scope` and `pop_scope` of the interpreter, on its context.
  unfoldable pub push_scope : ℕ → InterpreterContext V → InterpreterContext V
  push_scope name ctx = scope name [] ctx

  unfoldable pub pop_scope : InterpreterContext V → Result (InterpreterContext V)
  pop_scope (root name env) = err interpretation
  pop_scope (scope name env parent) = ok parent

  unfoldable pub get_values : List ℕ → InterpreterContext V → Result (List V)
  unfolding getitem
  get_values values ctx = traverse (λ value. getitem value ctx) values

-- `zip`, which ends with the shorter list.
abbrev pub zip {ℓ κ} : {A : Type ℓ} {B : Type κ} → List A → List B → List (A × B)
zip (x ∷ xs) (y ∷ ys) = (x, y) ∷ zip xs ys
zip _ _ = []
