-- ===== src/Interpreter/Values.antt =====
-- The values that `set_values` assigns, and those that it leaves.
use xdsl.Prelude.{
  ℕ, ◌≡◌, ◌≢◌, refl, ◌∙◌, sym, List, [], ◌∷◌, none, length, ◌==◌, if◌then◌else◌, Bool-cases, inl,
  inr, arith,
}
use xdsl.Prelude.Dict.{Dict, lookup, insert, lookup-insert, Absent, Distinct}
use xdsl.Result.{Result, ok, traverse}
use xdsl.Interpreter.Scopes.{
  InterpreterContext, root, scope, or_else, getitem, setitem, get_values, zip,
}
use xdsl.Interpreter.Run.{Interpreter, set_values}

if_ne : {A : Type 0} (a b : A) (j k : ℕ) → j ≢ k → (if j == k then a else b) ≡ b
if_ne a b j k n = ground (arith, n)

if_self : {A : Type 0} (a b : A) (k : ℕ) → (if k == k then a else b) ≡ a
if_self a b k = ground arith

module _ {V : Type 0} where
  -- The innermost scope.
  abbrev pub env : InterpreterContext V → Dict V
  env (root name d) = d
  env (scope name d parent) = d

  abbrev pub AreFresh : List ℕ → InterpreterContext V → Type 0
  AreFresh [] ctx = Unit
  AreFresh (k ∷ ks) ctx = (lookup k (env ctx) ≡ none) × AreFresh ks ctx

  or_else-insert :
      (j k : ℕ) (v : V) (d : Dict V) (other : Result V)
      → or_else (lookup j (insert k v d)) other
        ≡ (if j == k then ok v else or_else (lookup j d) other)
  or_else-insert j k v d other = elim (Bool-cases (j == k)) [
    | inl e ↦ rw (lookup-insert j k v d, e) refl
    | inr e ↦ rw (lookup-insert j k v d, e) refl
  ]

  -- Assigning to a name that is not in the innermost scope.
  abbrev Assigned : ℕ → V → InterpreterContext V → InterpreterContext V → Type 0
  Assigned k v ctx ctx' =
      (setitem k v ctx ≡ ok ctx')
      × ((j : ℕ) → getitem j ctx' ≡ (if j == k then ok v else getitem j ctx))
      × ((j : ℕ) → j ≢ k → lookup j (env ctx') ≡ lookup j (env ctx))

  setitem-getitem :
      (k : ℕ) (v : V) (ctx : InterpreterContext V)
      → lookup k (env ctx) ≡ none
      → (ctx' : InterpreterContext V) × Assigned k v ctx ctx'
  unfolding setitem getitem
  setitem-getitem k v (root name d) h = (
    root name (insert k v d),
    (rw h refl, λ j. or_else-insert j k v d _, λ j n. ground (arith, lookup-insert j k v d, n)),
  )
  setitem-getitem k v (scope name d parent) h = (
    scope name (insert k v d) parent,
    (rw h refl, λ j. or_else-insert j k v d _, λ j n. ground (arith, lookup-insert j k v d, n)),
  )

  AreFresh-Assigned :
      (ks : List ℕ) (k : ℕ) (v : V) (ctx ctx' : InterpreterContext V)
      → Assigned k v ctx ctx'
      → Absent k ks
      → AreFresh ks ctx
      → AreFresh ks ctx'
  AreFresh-Assigned [] k v ctx ctx' a n h = tt
  AreFresh-Assigned (j ∷ ks) k v ctx ctx' (e, g, l) (n, ns) (h, hs) =
      (l j (λ e'. n (sym e')) ∙ h, AreFresh-Assigned ks k v ctx ctx' (e, g, l) ns hs)

module _ {V S : Type 0} where
  -- `set_values` of values for as many distinct names, none of which is in the innermost scope,
  -- returns; `get_values` then gives the values, and other names have the values they had.
  pub set_values-get_values :
      (names : List ℕ) (values : List V) (s : Interpreter V S)
      → Distinct names
      → AreFresh names s.ctx
      → length names ≡ length values
      → (ctx : InterpreterContext V) × (set_values (zip names values) s
          ≡ (ok tt, record s { ctx = ctx }))
        × (get_values names ctx ≡ ok values)
        × ((j : ℕ) → Absent j names → getitem j ctx ≡ getitem j s.ctx)
  unfolding set_values get_values traverse
  set_values-get_values [] [] s d h l = (s.ctx, refl, refl, λ j a. refl)
  set_values-get_values [] (v ∷ values) s d h l = absurd (omega arith)
  set_values-get_values (k ∷ names) [] s d h l = absurd (omega arith)
  set_values-get_values (k ∷ names) (v ∷ values) s (a, d) (h, hs) l =
      let (ctx1, (e, g, free)) = setitem-getitem k v s.ctx h in
      let s1 : Interpreter V S = record s { ctx = ctx1 } in
      let (ctx2, e2, g2, other) =
        set_values-get_values names values s1 d
          (AreFresh-Assigned names k v s.ctx ctx1 (e, g, free) a hs) (omega arith) in
      let found : getitem k ctx2 ≡ ok v = other k a ∙ g k ∙ if_self _ _ k in
      (ctx2, rw e e2, rw (found, g2) refl, λ j (n, na). other j na ∙ g j ∙ if_ne _ _ j k n)
