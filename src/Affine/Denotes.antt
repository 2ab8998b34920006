-- ===== src/Affine/Denotes.antt =====
-- What it means that the simplifying arithmetic of affine expressions is right, and the lemmas
-- about folding that the operations share. The operations are in the children.
pub mod Add
pub mod Mul
pub mod Rest
pub mod Division
use xdsl.Prelude.{ℕ, suc, ◌+◌, ◌<◌, ◌≡◌, refl, ap, true, false, none, List, arith}
use xdsl.Prelude.Int.{ℤ, eqb_ℤ, eq_of_parts}
use xdsl.Result.{Result, ok}
use xdsl.Affine.Expr.{AffineBinaryOpKind, AffineExpr, constant, binary, eval}
use xdsl.Affine.Arith.{BinaryOp, try_fold_constant, is_value, is_constant, spine}

-- `e` has the value, or the exception, of the unsimplified operation at every input.
pub record Denotes (kind : AffineBinaryOpKind) (self other e : AffineExpr) : Type 0 where
  pub at :
      (dims symbols : List ℤ) → eval e dims symbols ≡ eval (binary kind self other) dims symbols

-- The operation returns, and what it returns has that value.
abbrev pub Meets : AffineBinaryOpKind → AffineExpr → AffineExpr → Result AffineExpr → Type 0
Meets kind self other r = (e : AffineExpr) × (r ≡ ok e) × Denotes kind self other e

pub Denotes-refl :
    (kind : AffineBinaryOpKind) (self other : AffineExpr)
    → Denotes kind self other (binary kind self other)
Denotes-refl kind self other = record { at = λ dims symbols. refl }

pub eq_of_eqb_ℤ : (a b : ℤ) → eqb_ℤ a b ≡ true → a ≡ b
eq_of_eqb_ℤ a b h = eq_of_parts a b (ground arith)

-- The right side is no constant, so there is nothing to fold.
pub try_fold_constant-nonconstant :
    (self other : AffineExpr) (kind : AffineBinaryOpKind)
    → is_constant other ≡ false
    → try_fold_constant self other kind ≡ ok none
unfolding try_fold_constant is_constant
try_fold_constant-nonconstant (constant v) (constant w) kind h = cc
try_fold_constant-nonconstant (constant v) _ kind h = refl
try_fold_constant-nonconstant _ other kind h = refl

pub is_value-nonconstant :
    (other : AffineExpr) (v : ℤ) → is_constant other ≡ false → is_value other v ≡ false
unfolding is_value is_constant
is_value-nonconstant (constant w) v h = cc
is_value-nonconstant _ v h = refl

pub try_fold_constant-nonconstant_left :
    (self other : AffineExpr) (kind : AffineBinaryOpKind)
    → is_constant self ≡ false
    → try_fold_constant self other kind ≡ ok none
unfolding try_fold_constant is_constant
try_fold_constant-nonconstant_left (constant v) other kind h = cc
try_fold_constant-nonconstant_left _ other kind h = refl

-- What the recursive call owes for the left side of a nested operation with constants.
abbrev pub AgainMeets : AffineBinaryOpKind → (ℤ → ℤ → ℤ) → BinaryOp → AffineExpr → ℤ → Type 0
AgainMeets kind op again self c =
    (lhs : AffineExpr) (k : ℤ)
    → self ≡ binary kind lhs (constant k)
    → Meets kind lhs (constant (op k c)) (again lhs (constant (op k c)))

pub spine-binary :
    {self lhs rhs : AffineExpr} {kind : AffineBinaryOpKind}
    → self ≡ binary kind lhs rhs
    → spine self ≡ suc (spine lhs)
unfolding spine
spine-binary e = ap spine e

abbrev pub MeetsBelow : AffineBinaryOpKind → ℕ → BinaryOp → Type 0
MeetsBelow kind fuel again =
    (self other : AffineExpr)
    → spine self + spine other < fuel
    → Meets kind self other (again self other)
