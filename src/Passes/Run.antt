-- ===== src/Passes/Run.antt =====
-- `PipelinePass.apply` of xdsl/passes.py: passes one after the other, with a callback in between. A
-- pass changes the module, whose states are `M`, or raises.
use xdsl.Prelude.{◌≡◌, refl, List, [], ◌∷◌, ◌++◌, inl, inr}
use xdsl.Result.{Result, ok, err, ◌>>=◌, index_error, Result-cases}

module _ {P : Type 0} where
  -- `zip(self.passes[:-1], self.passes[1:])`
  abbrev pub all_but_last : List P → List P
  all_but_last [] = []
  all_but_last (p ∷ []) = []
  all_but_last (p ∷ q ∷ ps) = p ∷ all_but_last (q ∷ ps)

  abbrev pub all_but_first : List P → List P
  all_but_first [] = []
  all_but_first (p ∷ ps) = ps

  abbrev pub zip : List P → List P → List (P × P)
  zip (p ∷ ps) (q ∷ qs) = (p, q) ∷ zip ps qs
  zip _ _ = []

  abbrev pub last : List P → Result P
  last [] = err index_error
  last (p ∷ []) = ok p
  last (p ∷ q ∷ ps) = last (q ∷ ps)

module _ {P M : Type 0} (apply_pass : P → M → Result M) (callback : P → M → P → Result M) where
  -- The loop over a pass and the next.
  unfoldable pub apply_pairs : List (P × P) → M → Result M
  apply_pairs [] m = ok m
  apply_pairs ((prev, next) ∷ pairs) m =
      apply_pass prev m >>= λ m'. callback prev m' next >>= λ m''. apply_pairs pairs m''

  unfoldable pub apply : List P → M → Result M
  unfolding apply_pairs
  apply [] m = ok m
  apply (p ∷ ps) m = apply_pairs (zip (all_but_last (p ∷ ps)) (all_but_first (p ∷ ps))) m >>= λ m'.
      last (p ∷ ps) >>= λ final. apply_pass final m'

  -- A pipeline of one pass is the pass, and of more is the first pass, the callback between it and the
  -- second, and the pipeline of the others.
  apply-one : (p : P) (m : M) → apply (p ∷ []) m ≡ apply_pass p m
  unfolding apply
  apply-one p m = refl

  apply-cons :
      (p q : P) (ps : List P) (m : M)
      → apply (p ∷ q ∷ ps) m
        ≡ (apply_pass p m >>= λ m'. callback p m' q >>= λ m''. apply (q ∷ ps) m'')
  unfolding apply
  apply-cons p q ps m = elim (Result-cases (apply_pass p m)) [
    | inl (m', e) ↦ rw e (elim (Result-cases (callback p m' q)) [
      | inl (m'', c) ↦ rw c refl
      | inr (x, c) ↦ rw c refl
    ])
    | inr (x, e) ↦ rw e refl
  ]

  -- The pass before a list of passes.
  abbrev last_of : P → List P → P
  last_of p [] = p
  last_of p (q ∷ ps) = last_of q ps

  -- Two pipelines that are one, neither of them empty, run the passes of the first, the callback
  -- between its last pass and the first of the second, and the passes of the second; an exception
  -- ends the whole where it is raised.
  pub apply-append :
      (p q : P) (ps qs : List P) (m : M)
      → apply (p ∷ ps ++ q ∷ qs) m
        ≡ (apply (p ∷ ps) m >>= λ m'. callback (last_of p ps) m' q >>= λ m''. apply (q ∷ qs) m'')
  apply-append p q [] qs m = rw (apply-one p m) (apply-cons p q qs m)
  apply-append p q (p' ∷ ps) qs m =
      rw (apply-cons p p' (ps ++ q ∷ qs) m, apply-cons p p' ps m)
        (elim (Result-cases (apply_pass p m)) [
          | inl (m', e) ↦ rw e (elim (Result-cases (callback p m' p')) [
            | inl (m'', c) ↦ rw c (apply-append p' q ps qs m'')
            | inr (x, c) ↦ rw c refl
          ])
          | inr (x, e) ↦ rw e refl
        ])
