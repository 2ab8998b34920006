-- ===== src/Interpreter/Region.antt =====
-- Running a region leaves the scopes as they were.
use xdsl.Prelude.{ℕ, zero, suc, ◌≡◌, refl, subst, List, [], ◌∷◌, Option, none, some, arith}
use xdsl.Prelude.Dict.{Dict}
use xdsl.Result.{Result, ok, err}
use xdsl.Result
use xdsl.Ir.Store.{Ir}
use xdsl.Interpreter.Scopes.{InterpreterContext, push_scope, pop_scope, zip}
use xdsl.Interpreter.Run.{
  Interpreter, R, OpImpl, TerminatorValue, returned_values, successor, continue, pure, ◌>>◌,
  set_values, enter, leave, leave_scopes, run_ops, after_block, run_blocks, run_region_blocks,
  run_ssacfg_region,
}
use xdsl.Interpreter.Balanced.{
  Restores, Leaves, continue-Leaves, set_values-Leaves, AreBalanced, run_ops-Leaves,
}

-- Leaving as many scopes as given.
abbrev pop_scopes : {V : Type 0} → ℕ → InterpreterContext V → Result (InterpreterContext V)
pop_scopes zero ctx = ok ctx
pop_scopes (suc n) ctx = Result.◌>>=◌ (pop_scope ctx) (pop_scopes n)

module _ {V S : Type 0} where
  -- Leaving the scopes that were counted gives the context.
  abbrev Counts : InterpreterContext V → Result (List V × ℕ) × Interpreter V S → Type 0
  Counts ctx (ok (results, n), s) = pop_scopes n s.ctx ≡ ok ctx
  Counts ctx (err e, s) = Unit

  continue-Counts :
      {A : Type 0} (ctx : InterpreterContext V) (out : Result (InterpreterContext V))
      (r : Result A × Interpreter V S) (f : A → R V S (List V × ℕ))
      → Leaves out r
      → ((a : A) (s : Interpreter V S) → pop_scope s.ctx ≡ out → Counts ctx (f a s))
      → Counts ctx (continue r.0 f r.1)
  continue-Counts ctx out (ok a, s) f h g = g a s h
  continue-Counts ctx out (err e, s) f h g = tt

  leave_scopes-Restores :
      (n : ℕ) (ctx : InterpreterContext V) (s : Interpreter V S)
      → pop_scopes n s.ctx ≡ ok ctx
      → leave_scopes n s ≡ (ok tt, record s { ctx = ctx })
  unfolding leave_scopes leave
  leave_scopes-Restores zero ctx s h = let e : s.ctx ≡ ctx = ground (arith, h) in rw e refl
  leave_scopes-Restores (suc n) ctx s h =
      let (ctx', e, h') = Result.>>=-eq-ok (pop_scope s.ctx) (pop_scopes n) h in
      rw e (leave_scopes-Restores n ctx (record s { ctx = ctx' }) h')

  after_block-Counts :
      (loop : ℕ → List V → R V S (List V × ℕ)) (n : ℕ) (t : Option (TerminatorValue V))
      (ctx : InterpreterContext V) (s : Interpreter V S)
      → pop_scopes n s.ctx ≡ ok ctx
      → ((block : ℕ) (args : List V) → Counts ctx (loop block args s))
      → Counts ctx (after_block loop n t s)
  after_block-Counts loop n none ctx s h g = h
  after_block-Counts loop n (some (returned_values values)) ctx s h g = h
  after_block-Counts loop n (some (successor block args)) ctx s h g = g block args

  end-Restores :
      (ctx : InterpreterContext V) (r : Result (List V × ℕ) × Interpreter V S)
      → Counts ctx r
      → Restores ctx (continue r.0 (λ (results, n). leave_scopes n >> pure results) r.1)
  end-Restores ctx (ok (results, n), s) h = rw (leave_scopes-Restores n ctx s h) refl
  end-Restores ctx (err e, s) h = tt

  module _ (impls : Dict (OpImpl V S)) (type_of : ℕ → ℕ) (ir : Ir) (b : AreBalanced impls) where
    run_blocks-Counts :
        (blocks ops name n block : ℕ) (args : List V) (ctx : InterpreterContext V)
        (s : Interpreter V S)
        → pop_scopes n s.ctx ≡ ok ctx
        → Counts ctx (run_blocks impls type_of ir blocks ops name n block args s)
    unfolding run_blocks enter push_scope pop_scope
    run_blocks-Counts zero ops name n block args ctx s h = tt
    run_blocks-Counts (suc blocks) ops name n block args ctx s h =
        let entered : Interpreter V S = record s { ctx = push_scope name s.ctx } in
        let values = set_values (zip (ir.block block).args args) in
        let body = run_ops impls type_of ir ops (ir.block block).first_op in
        let out = pop_scope (push_scope name s.ctx) in
        continue-Counts ctx out (continue (values entered).0 (λ _. body) (values entered).1) _
          (continue-Leaves out (values entered) (λ _. body)
            (set_values-Leaves (zip (ir.block block).args args) entered)
            (λ _ s' e.
              rw (← e) (run_ops-Leaves impls type_of ir b ops (ir.block block).first_op s')))
          (λ t s' e.
            let h' : pop_scopes (suc n) s'.ctx ≡ ok ctx = rw e h in
            after_block-Counts (run_blocks impls type_of ir blocks ops name (suc n)) (suc n) t ctx
              s' h'
              (λ block' args'. run_blocks-Counts blocks ops name (suc n) block' args' ctx s' h'))

    run_region_blocks-Restores :
        (blocks ops : ℕ) (region : List ℕ) (args : List V) (name : ℕ) (s : Interpreter V S)
        → Restores s.ctx (run_region_blocks impls type_of ir blocks ops region args name s)
    unfolding run_region_blocks
    run_region_blocks-Restores blocks ops [] args name s = refl
    run_region_blocks-Restores blocks ops (block ∷ region) args name s =
        end-Restores s.ctx (run_blocks impls type_of ir blocks ops name 0 block args s)
          (run_blocks-Counts blocks ops name 0 block args s.ctx s refl)

    -- Where `run_ssacfg_region` returns, the context is as it was, if the implementations that are
    -- registered leave it so: as many scopes are left as were entered, and never the outermost one.
    pub run_ssacfg_region-AreBalanced :
        (blocks ops region : ℕ) (args : List V) (name : ℕ) (s s' : Interpreter V S)
        (results : List V)
        → run_ssacfg_region impls type_of ir blocks ops region args name s ≡ (ok results, s')
        → s'.ctx ≡ s.ctx
    unfolding run_ssacfg_region
    run_ssacfg_region-AreBalanced blocks ops region args name s s' results e =
        subst (Restores s.ctx) e
          (run_region_blocks-Restores blocks ops (ir.region region).blocks args name s)
