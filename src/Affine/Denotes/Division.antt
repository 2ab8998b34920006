-- ===== src/Affine/Denotes/Division.antt =====
-- `floor_div`, `ceil_div` and `__mod__` of affine_expr.py, whose right side must be a constant. A
-- constant left side is divided by the `match` of `_try_fold_constant`, any other by the chain of
-- tests of `eval`.
use xdsl.Prelude.{ℕ, ◌*◌, ◌≡◌, ◌≢◌, refl, ap, ◌∙◌, false, List, arith}
use xdsl.Prelude.Int.{
  ℤ, pos, ◌+ℤ◌, ◌-ℤ◌, ◌*ℤ◌, neg, floor_div_ℤ, mod_ℤ, eqb_ℤ, int_laws, *ℤ_parts, neg_parts, pos_part,
  neg_part,
}
use xdsl.Prelude.Division.{IsRemainder, mod_ℤ-IsRemainder, floor_div_ℤ-mod_ℤ}
use xdsl.Result.{ok, err, not_implemented, zero_division, ◌>>=◌}
use xdsl.Affine.Expr.{floor_div, ceil_div, modulo, AffineExpr, constant, binary, apply_kind, eval}
use xdsl.Affine.Arith.{is_constant, floor_div_expr, ceil_div_expr, mod_expr}
use xdsl.Affine.Denotes.{try_fold_constant-nonconstant, eq_of_eqb_ℤ}

eval-floor_div_expr :
    (self : AffineExpr) (c : ℤ) (dims symbols : List ℤ)
    → (do e ← floor_div_expr self (constant c); eval e dims symbols)
      ≡ eval (binary floor_div self (constant c)) dims symbols
unfolding floor_div_expr eval is_constant apply_kind
eval-floor_div_expr (constant v) c dims symbols = ground arith
eval-floor_div_expr self c dims symbols = refl

eval-ceil_div_expr :
    (self : AffineExpr) (c : ℤ) (dims symbols : List ℤ)
    → (do e ← ceil_div_expr self (constant c); eval e dims symbols)
      ≡ eval (binary ceil_div self (constant c)) dims symbols
unfolding ceil_div_expr eval is_constant apply_kind
eval-ceil_div_expr (constant v) c dims symbols = ground arith
eval-ceil_div_expr self c dims symbols = refl

eval-mod_expr :
    (self : AffineExpr) (c : ℤ) (dims symbols : List ℤ)
    → (do e ← mod_expr self (constant c); eval e dims symbols)
      ≡ eval (binary modulo self (constant c)) dims symbols
unfolding mod_expr eval is_constant apply_kind
eval-mod_expr (constant v) c dims symbols = ground arith
eval-mod_expr self c dims symbols = refl

floor_div_expr-refused :
    (self other : AffineExpr)
    → is_constant other ≡ false
    → floor_div_expr self other ≡ err not_implemented
unfolding floor_div_expr
floor_div_expr-refused self other h = rw (try_fold_constant-nonconstant self other floor_div h, h)

ceil_div_expr-refused :
    (self other : AffineExpr)
    → is_constant other ≡ false
    → ceil_div_expr self other ≡ err not_implemented
unfolding ceil_div_expr
ceil_div_expr-refused self other h = rw (try_fold_constant-nonconstant self other ceil_div h, h)

mod_expr-refused :
    (self other : AffineExpr)
    → is_constant other ≡ false
    → mod_expr self other ≡ err not_implemented
unfolding mod_expr
mod_expr-refused self other h = rw (try_fold_constant-nonconstant self other modulo h, h)

nonzero : (c : ℤ) → c ≢ pos 0 → eqb_ℤ c (pos 0) ≡ false
nonzero c h = ground (arith, eq_of_eqb_ℤ c (pos 0))

-- The least multiple that is not below, as `-(-v // c)` computes it.
ceil_remainder : (v c : ℤ) → neg (floor_div_ℤ (neg v) c) *ℤ c -ℤ v ≡ mod_ℤ (neg v) c
unfolding mod_ℤ
ceil_remainder v c =
    let q = floor_div_ℤ (neg v) c in
    omega (
      int_laws,
      *ℤ_parts q c,
      *ℤ_parts (neg q) c,
      ap (λ (t : ℕ). t * pos_part c) (neg_parts q),
      ap (λ (t : ℕ). t * neg_part c) (neg_parts q),
    )

-- By zero, each of them raises: in building where `self` is a constant, and else in evaluating.
quotients-by_zero :
    (self : AffineExpr) (v : ℤ) (dims symbols : List ℤ)
    → eval self dims symbols ≡ ok v
    → ((do e ← floor_div_expr self (constant (pos 0)); eval e dims symbols) ≡ err zero_division)
      × ((do e ← mod_expr self (constant (pos 0)); eval e dims symbols) ≡ err zero_division)
      × ((do e ← ceil_div_expr self (constant (pos 0)); eval e dims symbols) ≡ err zero_division)
unfolding eval apply_kind
quotients-by_zero self v dims symbols p = (
  eval-floor_div_expr self (pos 0) dims symbols ∙ rw p,
  eval-mod_expr self (pos 0) dims symbols ∙ rw p,
  eval-ceil_div_expr self (pos 0) dims symbols ∙ rw p,
)

-- For a constant `c` other than zero and an expression `self` that evaluates to `v`, constant or not:
-- building `self.floor_div(c)`, `self % c` and `self.ceil_div(c)` and evaluating them gives numbers
-- `q`, `m` and `u` such that v = q * c + m, and both `m` and u * c - v are remainders by `c`, which
-- are zero or of the sign of `c`, and nearer to zero than `c`.
pub mod_expr-IsRemainder :
    (self : AffineExpr) (c v : ℤ) (dims symbols : List ℤ)
    → eval self dims symbols ≡ ok v
    → c ≢ pos 0
    → (q m u : ℤ) × ((do e ← floor_div_expr self (constant c); eval e dims symbols) ≡ ok q)
      × ((do e ← mod_expr self (constant c); eval e dims symbols) ≡ ok m)
      × ((do e ← ceil_div_expr self (constant c); eval e dims symbols) ≡ ok u)
      × (v ≡ q *ℤ c +ℤ m)
      × IsRemainder c m
      × IsRemainder c (u *ℤ c -ℤ v)
unfolding eval apply_kind
mod_expr-IsRemainder self c v dims symbols p h =
    let z = nonzero c h in
    (
      floor_div_ℤ v c,
      mod_ℤ v c,
      neg (floor_div_ℤ (neg v) c),
      eval-floor_div_expr self c dims symbols ∙ rw (p, z),
      eval-mod_expr self c dims symbols ∙ rw (p, z),
      eval-ceil_div_expr self c dims symbols ∙ rw (p, z),
      floor_div_ℤ-mod_ℤ v c,
      mod_ℤ-IsRemainder v c h,
      rw (ceil_remainder v c) (mod_ℤ-IsRemainder (neg v) c h),
    )
