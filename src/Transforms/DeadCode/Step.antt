-- ===== src/Transforms/DeadCode/Step.antt =====
-- One operation in the walk of dead code elimination, and what it leaves of the others.
use xdsl.Prelude.{
  ℕ, suc, ◌≡◌, ◌≢◌, refl, ◌∙◌, Bool, true, false, List, [], ◌∷◌, Option, some, get_elem?, arith,
}
use xdsl.Result.{ok}
use xdsl.Ir.Store.{Ir, M, Use, update}
use xdsl.Ir.Uses.{has_use, is_empty}
use xdsl.Ir.Erase.References.{Tracks}
use xdsl.Ir.Erase.Unused.{SameOperands}
use xdsl.PatternRewriter.{PatternRewriter, pattern_rewriter}
use xdsl.PatternRewriter.Methods.{iter_affected_ops_reversed}
use xdsl.PatternRewriter.Walker.{rewrite_op_regions, after_match, rewrite_op}
use xdsl.Transforms.DeadCode.{all_unused, is_dead, walker, match_and_rewrite}

-- None of the values is an operand.
abbrev pub NotOperands : List ℕ → List ℕ → Type 0
NotOperands [] operands = Unit
NotOperands (v ∷ vs) operands = ((i : ℕ) → get_elem? operands i ≢ some v) × NotOperands vs operands

is_empty-has_use : (us : List Use) → is_empty us ≡ false → (u : Use) × (has_use u us ≡ true)
unfolding has_use
is_empty-has_use [] h = cc
is_empty-has_use (u ∷ us) h = (u, ground arith)

has_use-is_empty : (u : Use) (us : List Use) → has_use u us ≡ true → is_empty us ≡ false
unfolding has_use
has_use-is_empty u [] h = cc
has_use-is_empty u (w ∷ us) h = refl

-- What is used stays so, where only an operation that does not use it goes.
is_empty-Tracks :
    (there : ℕ → Bool) (x v : ℕ) (s s' : Ir)
    → Tracks there s
    → Tracks (update there x false) s'
    → SameOperands s s'
    → ((i : ℕ) → get_elem? (s.op x).operands i ≢ some v)
    → is_empty (s.value v).uses ≡ false
    → is_empty (s'.value v).uses ≡ false
is_empty-Tracks there x v s s' t t' same n e =
    let (u, used) = is_empty-has_use (s.value v).uses e in
    let now : get_elem? (s'.op u.operation).operands u.index
        ≡ get_elem? (s.op u.operation).operands u.index =
      rw (same u.operation).0 refl in
    let place = (t v u.operation u.index).0 used in
    let other : u.operation ≢ x = λ e'. n u.index (rw (← e') (place.1)) in
    has_use-is_empty u (s'.value v).uses
      ((t' v u.operation u.index).1 (ground (arith, place.0, other), now ∙ place.1))

pub all_unused-Tracks :
    (there : ℕ → Bool) (x : ℕ) (vs : List ℕ) (s s' : Ir)
    → Tracks there s
    → Tracks (update there x false) s'
    → SameOperands s s'
    → NotOperands vs (s.op x).operands
    → all_unused s vs ≡ false
    → all_unused s' vs ≡ false
all_unused-Tracks there x [] s s' t t' same n h = cc
all_unused-Tracks there x (v ∷ vs) s s' t t' same (n, ns) h = ground (
  arith,
  h,
  is_empty-Tracks there x v s s' t t' same n,
  all_unused-Tracks there x vs s s' t t' same ns,
)

module _ (depth d fuel : ℕ) (erased : ℕ → ℕ) (is_pure : ℕ → Bool) where
  abbrev pub step : ℕ → M (Option ℕ)
  step = rewrite_op (suc depth) fuel (walker (suc d) fuel erased is_pure)

  -- An operation without regions that is not dead.
  pub step-kept :
      (x : ℕ) (s : Ir)
      → is_dead is_pure s x ≡ false
      → (s.op x).regions ≡ []
      → step x s ≡ (ok (s.op x).prev_op, s)
  unfolding rewrite_op match_and_rewrite after_match rewrite_op_regions
  step-kept x s e g = rw (e, g) refl

  pub step-erased :
      (x : ℕ) (s s' : Ir) (r' : PatternRewriter)
      → match_and_rewrite (suc d) fuel erased is_pure x (pattern_rewriter x) s ≡ (ok tt, (r', s'))
      → r' ≡ record (pattern_rewriter x) {
        has_done_action = true;
        has_erased_matched_operation = true;
      }
      → step x s ≡ (ok (s.op x).prev_op, s')
  unfolding rewrite_op after_match iter_affected_ops_reversed
  step-erased x s s' r' e e' = rw (e, e') refl
