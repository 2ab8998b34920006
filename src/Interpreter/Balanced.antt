-- ===== src/Interpreter/Balanced.antt =====
-- Running the operations of a block leaves all scopes but the innermost as they were.
use xdsl.Prelude.{
  ℕ, zero, suc, ◌≡◌, refl, ap, List, [], ◌∷◌, Option, none, some, Bool, true, false, length, ◌==◌,
  sym, Bool-cases, inl, inr, arith,
}
use xdsl.Prelude.Dict.{Dict, lookup, insert}
use xdsl.Result.{Exn, Result, ok, err, guard, interpretation}
use xdsl.Result
use xdsl.Ir.Store.{Ir}
use xdsl.Interpreter.Scopes.{InterpreterContext, root, scope, setitem, pop_scope, get_values, zip}
use xdsl.Interpreter.Run.{
  Interpreter, R, OpImpl, TerminatorValue, continue, pure, ◌>>◌, with_ctx, interpreter_assert,
  read_values, set_values, run_impl, run, run_one, unless_terminated, run_ops,
}

module _ {V S A : Type 0} where
  -- Where a value is returned, the context is the one given.
  abbrev pub Restores : InterpreterContext V → Result A × Interpreter V S → Type 0
  Restores ctx (ok a, s) = s.ctx ≡ ctx
  Restores ctx (err e, s) = Unit

  -- Where a value is returned, leaving the scope gives what is given.
  abbrev pub Leaves : Result (InterpreterContext V) → Result A × Interpreter V S → Type 0
  Leaves out (ok a, s) = pop_scope s.ctx ≡ out
  Leaves out (err e, s) = Unit

  Restores-Leaves :
      (r : Result A × Interpreter V S) (s : Interpreter V S)
      → Restores s.ctx r
      → Leaves (pop_scope s.ctx) r
  Restores-Leaves (ok a, s') s h = ap pop_scope h
  Restores-Leaves (err e, s') s h = tt

module _ {V S A B : Type 0} where
  pub continue-Leaves :
      (out : Result (InterpreterContext V)) (r : Result A × Interpreter V S) (f : A → R V S B)
      → Leaves out r
      → ((a : A) (s : Interpreter V S) → pop_scope s.ctx ≡ out → Leaves out (f a s))
      → Leaves out (continue r.0 f r.1)
  continue-Leaves out (ok a, s) f h g = g a s h
  continue-Leaves out (err e, s) f h g = tt

guard-ok_eq :
    {A : Type 0} (b : Bool) (x : Exn) (a a' : A) → Result.◌>>◌ (guard b x) (ok a) ≡ ok a' → a ≡ a'
guard-ok_eq true x a a' e = ground (arith, e)
guard-ok_eq false x a a' e = cc

module _ {V : Type 0} where
  setitem-pop_scope :
      (k : ℕ) (v : V) (ctx ctx' : InterpreterContext V)
      → setitem k v ctx ≡ ok ctx'
      → pop_scope ctx' ≡ pop_scope ctx
  unfolding setitem pop_scope
  setitem-pop_scope k v (root name env) ctx' e =
      ap pop_scope (sym (guard-ok_eq _ interpretation (root name (insert k v env)) ctx' e))
  setitem-pop_scope k v (scope name env parent) ctx' e =
      ap pop_scope (sym (guard-ok_eq _ interpretation (scope name (insert k v env) parent) ctx' e))

module _ {V S : Type 0} where
  with_ctx-Leaves :
      (r : Result (InterpreterContext V)) (s : Interpreter V S)
      → ((ctx' : InterpreterContext V) → r ≡ ok ctx' → pop_scope ctx' ≡ pop_scope s.ctx)
      → Leaves (pop_scope s.ctx) (with_ctx r s)
  with_ctx-Leaves (ok ctx) s h = h ctx refl
  with_ctx-Leaves (err e) s h = tt

  pub set_values-Leaves :
      (pairs : List (ℕ × V)) (s : Interpreter V S) → Leaves (pop_scope s.ctx) (set_values pairs s)
  unfolding set_values
  set_values-Leaves [] s = refl
  set_values-Leaves ((k, v) ∷ pairs) s =
      continue-Leaves (pop_scope s.ctx) (with_ctx (setitem k v s.ctx) s) (λ _. set_values pairs)
        (with_ctx-Leaves (setitem k v s.ctx) s (setitem-pop_scope k v s.ctx))
        (λ _ s' e. rw (← e) (set_values-Leaves pairs s'))

  -- An implementation that leaves the scopes as they were where it returns.
  abbrev pub IsBalanced : OpImpl V S → Type 0
  IsBalanced impl = (op : ℕ) (args : List V) (s : Interpreter V S) → Restores s.ctx (impl op args s)

  abbrev pub AreBalanced : Dict (OpImpl V S) → Type 0
  AreBalanced [] = Unit
  AreBalanced ((k, impl) ∷ impls) = IsBalanced impl × AreBalanced impls

  run_impl-IsBalanced :
      (key : ℕ) (impls : Dict (OpImpl V S))
      → AreBalanced impls
      → IsBalanced (run_impl (lookup key impls))
  unfolding run_impl
  run_impl-IsBalanced key [] h = λ op args s. tt
  run_impl-IsBalanced key ((k, impl) ∷ impls) (h, hs) = elim (Bool-cases (key == k)) [
    | inl e ↦ rw e h
    | inr e ↦ rw e (run_impl-IsBalanced key impls hs)
  ]

  module _ (impls : Dict (OpImpl V S)) (type_of : ℕ → ℕ) (ir : Ir) (b : AreBalanced impls) where
    run-Leaves :
        (op : ℕ) (args : List V) (s : Interpreter V S)
        → Leaves (pop_scope s.ctx) (run impls type_of ir op args s)
    unfolding run
    run-Leaves op args s =
        Restores-Leaves (run impls type_of ir op args s) s
          (run_impl-IsBalanced (type_of op) impls b op args s)

    assert-Leaves :
        (test : Bool) (s : Interpreter V S) → Leaves (pop_scope s.ctx) (interpreter_assert test s)
    assert-Leaves true s = refl
    assert-Leaves false s = tt

    value-Leaves :
        {A : Type 0} (r : Result A) (s : Interpreter V S) → Leaves (pop_scope s.ctx) (r, s)
    value-Leaves (ok a) s = refl
    value-Leaves (err e) s = tt

    -- What follows a step that leaves the scope where it was.
    then-Leaves :
        {A B : Type 0} (s : Interpreter V S) (r : Result A × Interpreter V S) (f : A → R V S B)
        → Leaves (pop_scope s.ctx) r
        → ((a : A) (s' : Interpreter V S) → Leaves (pop_scope s'.ctx) (f a s'))
        → Leaves (pop_scope s.ctx) (continue r.0 f r.1)
    then-Leaves s r f h g = continue-Leaves (pop_scope s.ctx) r f h (λ a s' e. rw (← e) (g a s'))

    run_one-Leaves :
        (op : ℕ) (s : Interpreter V S) → Leaves (pop_scope s.ctx) (run_one impls type_of ir op s)
    unfolding run_one read_values
    run_one-Leaves op s =
        then-Leaves s (read_values (ir.op op).operands s) _
          (value-Leaves (get_values (ir.op op).operands s.ctx) s)
          (λ inputs s1.
            then-Leaves s1 (run impls type_of ir op inputs s1) _ (run-Leaves op inputs s1)
              (λ result s2.
                let values = set_values (zip (ir.op op).results result.values) in
                let test = length (ir.op op).results == length result.values in
                then-Leaves s2 ((interpreter_assert test >> values) s2)
                  (λ _. pure result.terminator_value)
                  (then-Leaves s2 (interpreter_assert test s2) (λ _. values) (assert-Leaves test s2)
                    (λ _ s3. set_values-Leaves (zip (ir.op op).results result.values) s3))
                  (λ _ s4. refl)))

    unless-Leaves :
        (t : Option (TerminatorValue V)) (next : R V S (Option (TerminatorValue V)))
        (s : Interpreter V S)
        → Leaves (pop_scope s.ctx) (next s)
        → Leaves (pop_scope s.ctx) (unless_terminated next t s)
    unless-Leaves none next s h = h
    unless-Leaves (some t) next s h = refl

    pub run_ops-Leaves :
        (ops : ℕ) (op : Option ℕ) (s : Interpreter V S)
        → Leaves (pop_scope s.ctx) (run_ops impls type_of ir ops op s)
    unfolding run_ops
    run_ops-Leaves zero op s = tt
    run_ops-Leaves (suc ops) none s = refl
    run_ops-Leaves (suc ops) (some op) s =
        then-Leaves s (run_one impls type_of ir op s) _ (run_one-Leaves op s) (λ t s'.
          unless-Leaves t (run_ops impls type_of ir ops (ir.op op).next_op) s'
            (run_ops-Leaves ops (ir.op op).next_op s'))
