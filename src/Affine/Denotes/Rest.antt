-- ===== src/Affine/Denotes/Rest.antt =====
-- The other arithmetic of affine_expr.py: `__neg__`, `__sub__` and `__rsub__`.
use xdsl.Prelude.{◌≡◌, ◌≢◌, refl, ap, ◌∙◌, Bool, true, ◌||◌, List, inl, inr, arith}
use xdsl.Prelude.Int.{ℤ, pos_part, neg_part, negsuc, ◌-ℤ◌, neg, +ℤ-neg, *ℤ-minus_one, int_laws}
use xdsl.Result.{Result, ok, ◌>>=◌, Result-cases}
use xdsl.Affine.Expr.{add, mul, AffineExpr, constant, apply_kind, eval}
use xdsl.Affine.Arith.{is_constant, neg_expr, sub_expr, rsub_expr}
use xdsl.Affine.Denotes.{Denotes}
use xdsl.Affine.Denotes.Add.{add_expr-Meets}
use xdsl.Affine.Denotes.Mul.{mul_expr-Meets}

-- The value of `self - other` at given dimensions and symbols, the left side evaluated first.
abbrev pub difference : AffineExpr → AffineExpr → List ℤ → List ℤ → Result ℤ
difference self other dims symbols = do
  l ← eval self dims symbols
  r ← eval other dims symbols
  ok (l -ℤ r)

minus_Denotes :
    (other minus : AffineExpr) (dims symbols : List ℤ)
    → Denotes mul other (constant (negsuc 0)) minus
    → eval minus dims symbols ≡ (do r ← eval other dims symbols; ok (neg r))
unfolding eval apply_kind
minus_Denotes other minus dims symbols d =
    d.at dims symbols ∙ (elim (Result-cases (eval other dims symbols)) [
      | inl (v, e) ↦ rw e (ap ok (*ℤ-minus_one v))
      | inr (x, e) ↦ rw e
    ])

difference_of_sum :
    (self other minus e : AffineExpr) (dims symbols : List ℤ)
    → eval minus dims symbols ≡ (do r ← eval other dims symbols; ok (neg r))
    → Denotes add self minus e
    → eval e dims symbols ≡ difference self other dims symbols
unfolding eval apply_kind
difference_of_sum self other minus e dims symbols m d =
    d.at dims symbols
    ∙ rw m (elim (Result-cases (eval other dims symbols)) [
      | inl (w, q) ↦ rw q (elim (Result-cases (eval self dims symbols)) [
        | inl (v, p) ↦ rw p (ap ok (+ℤ-neg v w))
        | inr (x, p) ↦ rw p
      ])
      | inr (x, q) ↦ rw q
    ])

or_true : (b : Bool) → (b || true) ≡ true
or_true b = ground arith

-- `self - other` always returns an expression, and its value at all dimensions and symbols is the
-- difference of the values of the two sides, or the exception that evaluating them in order raises.
pub sub_expr-difference :
    (self other : AffineExpr)
    → (e : AffineExpr) × (sub_expr self other ≡ ok e)
      × ((dims symbols : List ℤ) → eval e dims symbols ≡ difference self other dims symbols)
unfolding sub_expr is_constant
sub_expr-difference self other =
    let (m, mr, md) = mul_expr-Meets other (constant (negsuc 0)) (or_true (is_constant other)) in
    let (e, er, ed) = add_expr-Meets self m in
    (
      e,
      rw mr er,
      λ dims symbols.
          difference_of_sum self other m e dims symbols (minus_Denotes other m dims symbols md) ed,
    )

-- `-self` always returns an expression, whose value is the negation of the value of `self`, or the
-- exception that evaluating `self` raises.
pub neg_expr-neg :
    (self : AffineExpr)
    → (e : AffineExpr) × (neg_expr self ≡ ok e)
      × ((dims symbols : List ℤ)
          → eval e dims symbols ≡ (do v ← eval self dims symbols; ok (neg v)))
unfolding neg_expr is_constant eval
neg_expr-neg (constant value) = (constant (neg value), refl, λ dims symbols. refl)
neg_expr-neg self =
    let (m, mr, md) = mul_expr-Meets self (constant (negsuc 0)) refl in
    (m, mr, λ dims symbols. minus_Denotes self m dims symbols md)

minus_anticomm : (v w : ℤ) → v ≢ w → v -ℤ w ≢ w -ℤ v
minus_anticomm v w h e = h (omega (int_laws, ap pos_part e, ap neg_part e))

-- `other - self` of an `int`, which Python hands to `self.__rsub__(other)`, always returns an
-- expression; where the two values differ, its value is not `other - self`.
pub rsub_expr-reversed :
    (self other : AffineExpr) (dims symbols : List ℤ) (v w : ℤ)
    → eval self dims symbols ≡ ok v
    → eval other dims symbols ≡ ok w
    → v ≢ w
    → (e : AffineExpr) × (rsub_expr self other ≡ ok e)
      × (eval e dims symbols ≡ ok (v -ℤ w))
      × (eval e dims symbols ≢ ok (w -ℤ v))
unfolding rsub_expr
rsub_expr-reversed self other dims symbols v w p q h =
    let (e, er, ed) = sub_expr-difference self other in
    let value : eval e dims symbols ≡ ok (v -ℤ w) = rw (ed dims symbols, p, q) in
    (e, er, value, λ r. minus_anticomm v w h (cc (value, r)))
