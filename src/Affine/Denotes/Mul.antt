-- ===== src/Affine/Denotes/Mul.antt =====
-- `__mul__` of affine_expr.py: its result denotes the product, and a product of two expressions
-- that are no constants is refused.
use xdsl.Prelude.{
  ℕ, zero, suc, ◌+◌, ◌<◌, ◌≡◌, refl, sym, ap, ◌∙◌, true, false, none, arith, Bool-cases, inl, inr,
  ◌||◌,
}
use xdsl.Prelude.Int.{ℤ, pos, ◌*ℤ◌, ◌*ℤ◌, eqb_ℤ, *ℤ-one, *ℤ_assoc, *ℤ_comm}
use xdsl.Result.{ok, err, not_implemented, Result-cases}
use xdsl.Affine.Expr.{mul, mul, AffineExpr, constant, binary, apply_kind, eval}
use xdsl.Affine.Arith.{
  BinaryOp, is_constant, regroup_mul, mul_canonical, mul_body, mul_loop, mul_expr, spine,
}
use xdsl.Affine.Denotes.{
  Denotes, Denotes-refl, Meets, AgainMeets, eq_of_eqb_ℤ, try_fold_constant-nonconstant,
  is_value-nonconstant, try_fold_constant-nonconstant_left, spine-binary,
}

mul-one_Denotes : (self : AffineExpr) (c : ℤ) → c ≡ pos 1 → Denotes mul self (constant c) self
unfolding eval apply_kind
mul-one_Denotes self c z = record {
  at = λ dims symbols. rw z (elim (Result-cases (eval self dims symbols)) [
    | inl (v, e) ↦ rw e (ap ok (sym (*ℤ-one v)))
    | inr (x, e) ↦ rw e
  ]);
}

mul-regroup_Denotes :
    (lhs e : AffineExpr) (k c : ℤ)
    → Denotes mul lhs (constant (k *ℤ c)) e
    → Denotes mul (binary mul lhs (constant k)) (constant c) e
unfolding eval apply_kind
mul-regroup_Denotes lhs e k c h = record {
  at = λ dims symbols. h.at dims symbols ∙ (elim (Result-cases (eval lhs dims symbols)) [
    | inl (v, e) ↦ rw e (ap ok (sym (*ℤ_assoc v k c)))
    | inr (x, e) ↦ rw e
  ]);
}

regroup_mul-nonconstant :
    (again : BinaryOp) (self other : AffineExpr)
    → is_constant other ≡ false
    → regroup_mul again self other ≡ ok none
unfolding regroup_mul
regroup_mul-nonconstant again (binary mul lhs rhs) other h =
    rw (try_fold_constant-nonconstant rhs other mul h)
regroup_mul-nonconstant again _ other h = refl

mul_canonical-nonconstant :
    (again : BinaryOp) (self other : AffineExpr)
    → is_constant other ≡ false
    → mul_canonical again self other ≡ err not_implemented
unfolding mul_canonical
mul_canonical-nonconstant again self other h = rw (
  try_fold_constant-nonconstant self other mul h,
  is_value-nonconstant other (pos 1) h,
  regroup_mul-nonconstant again self other h,
  h,
)

-- A constant other than 1 on the right, over a left side that is no constant.
mul_canonical-regroup :
    (again : BinaryOp) (self : AffineExpr) (c : ℤ)
    → is_constant self ≡ false
    → eqb_ℤ c (pos 1) ≡ false
    → AgainMeets mul ◌*ℤ◌ again self c
    → Meets mul self (constant c) (mul_canonical again self (constant c))
unfolding mul_canonical is_constant
mul_canonical-regroup again (constant v) c h z m = cc
mul_canonical-regroup again (binary mul lhs (constant k)) c h z m =
    let (e, r, d) = m lhs k refl in (e, rw (z, r), mul-regroup_Denotes lhs e k c d)
mul_canonical-regroup again (binary mul lhs rhs) c h z m =
    (_, rw z, Denotes-refl mul (binary mul lhs rhs) (constant c))
mul_canonical-regroup again self c h z m = (_, rw z, Denotes-refl mul self (constant c))

-- A constant on the right: drop it, regroup or keep it.
mul_canonical-constant :
    (again : BinaryOp) (self : AffineExpr) (c : ℤ)
    → is_constant self ≡ false
    → AgainMeets mul ◌*ℤ◌ again self c
    → Meets mul self (constant c) (mul_canonical again self (constant c))
mul_canonical-constant again self c h m = elim (Bool-cases (eqb_ℤ c (pos 1))) [
  | inl z ↦ (
    self,
    unfold mul_canonical in rw (try_fold_constant-nonconstant_left self (constant c) mul h, z),
    mul-one_Denotes self c (eq_of_eqb_ℤ c (pos 1) z),
  )
  | inr z ↦ mul_canonical-regroup again self c h z m
]

mul_comm_Denotes :
    (other e : AffineExpr) (v : ℤ)
    → Denotes mul other (constant v) e
    → Denotes mul (constant v) other e
unfolding eval apply_kind
mul_comm_Denotes other e v h = record {
  at = λ dims symbols. h.at dims symbols ∙ (elim (Result-cases (eval other dims symbols)) [
    | inl (w, q) ↦ rw q (ap ok (*ℤ_comm w v))
    | inr (x, q) ↦ rw q
  ]);
}

mul_constants_Denotes : (v w : ℤ) → Denotes mul (constant v) (constant w) (constant (w *ℤ v))
unfolding eval apply_kind
mul_constants_Denotes v w = record { at = λ dims symbols. ap ok (*ℤ_comm w v) }

abbrev ConstantBelow : ℕ → BinaryOp → Type 0
ConstantBelow fuel again =
    (self : AffineExpr) (c : ℤ)
    → spine self < fuel
    → Meets mul self (constant c) (again self (constant c))

-- One call of `__mul__` with a constant is right if the calls on smaller left sides are.
module _ (fuel : ℕ) (again : BinaryOp) (below : ConstantBelow fuel again) where
  mul_again : (self : AffineExpr) (c : ℤ) → spine self < suc fuel → AgainMeets mul ◌*ℤ◌ again self c
  mul_again self c h lhs k e = below lhs (k *ℤ c) (omega (arith, spine-binary e))

  mul_to_constant :
      (v : ℤ) (other : AffineExpr)
      → spine other < suc fuel
      → Meets mul (constant v) other (mul_body again (constant v) other)
  unfolding mul_body apply_kind is_constant
  mul_to_constant v (constant w) h = (constant (w *ℤ v), refl, mul_constants_Denotes v w)
  mul_to_constant v other h =
      let (e, r, d) = mul_canonical-constant again other v refl (mul_again other v h) in
      (e, r, mul_comm_Denotes other e v d)

  mul_constant : ConstantBelow (suc fuel) (mul_body again)
  unfolding mul_body is_constant spine
  mul_constant (constant v) c h = mul_to_constant v (constant c) h
  mul_constant self c h = mul_canonical-constant again self c refl (mul_again self c h)

mul_loop-ConstantBelow : (fuel : ℕ) → ConstantBelow fuel (mul_loop fuel)
unfolding mul_loop
mul_loop-ConstantBelow zero self c h = absurd (omega arith)
mul_loop-ConstantBelow (suc fuel) self c h =
    mul_constant fuel (mul_loop fuel) (mul_loop-ConstantBelow fuel) self c h

-- With a constant on either side, `self * other` returns an expression, whose value at all
-- dimensions and symbols is the product of the values of the two sides, or the exception that
-- evaluating their product raises.
pub mul_expr-Meets :
    (self other : AffineExpr)
    → (is_constant self || is_constant other) ≡ true
    → Meets mul self other (mul_expr self other)
unfolding mul_expr mul_loop is_constant
mul_expr-Meets (constant v) other h =
    mul_to_constant (spine (constant v) + spine other) (mul_loop (spine (constant v) + spine other))
      (mul_loop-ConstantBelow (spine (constant v) + spine other)) v other (omega arith)
mul_expr-Meets self (constant c) h =
    mul_loop-ConstantBelow (suc (spine self + spine (constant c))) self c (omega arith)
mul_expr-Meets self other h = cc

-- With no constant on either side, `self * other` raises `NotImplementedError`.
pub mul_expr-refused :
    (self other : AffineExpr)
    → is_constant self ≡ false
    → is_constant other ≡ false
    → mul_expr self other ≡ err not_implemented
unfolding mul_expr mul_loop is_constant
mul_expr-refused (constant v) other h k = cc
mul_expr-refused self other h k =
    mul_canonical-nonconstant (mul_loop (spine self + spine other)) self other k
