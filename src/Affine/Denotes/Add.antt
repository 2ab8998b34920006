-- ===== src/Affine/Denotes/Add.antt =====
-- `__add__` of affine_expr.py: its result denotes the sum.
use xdsl.Prelude.{
  ℕ, zero, suc, ◌+◌, ◌<◌, ◌≡◌, refl, sym, ap, ◌∙◌, false, none, arith, Bool-cases, inl, inr,
}
use xdsl.Prelude.Int.{ℤ, pos, ◌+ℤ◌, eqb_ℤ, +ℤ-zero, +ℤ_assoc, +ℤ_comm}
use xdsl.Result.{ok, Result-cases}
use xdsl.Affine.Expr.{add, AffineExpr, constant, binary, apply_kind, eval}
use xdsl.Affine.Arith.{
  BinaryOp, is_constant, regroup_add, add_canonical, add_body, add_loop, add_expr, spine,
}
use xdsl.Affine.Denotes.{
  Denotes, Denotes-refl, Meets, MeetsBelow, AgainMeets, eq_of_eqb_ℤ, try_fold_constant-nonconstant,
  is_value-nonconstant, try_fold_constant-nonconstant_left, spine-binary,
}

add-zero_Denotes : (self : AffineExpr) (c : ℤ) → c ≡ pos 0 → Denotes add self (constant c) self
unfolding eval apply_kind
add-zero_Denotes self c z = record {
  at = λ dims symbols. rw z (elim (Result-cases (eval self dims symbols)) [
    | inl (v, e) ↦ rw e (ap ok (sym (+ℤ-zero v)))
    | inr (x, e) ↦ rw e
  ]);
}

add-regroup_Denotes :
    (lhs e : AffineExpr) (k c : ℤ)
    → Denotes add lhs (constant (k +ℤ c)) e
    → Denotes add (binary add lhs (constant k)) (constant c) e
unfolding eval apply_kind
add-regroup_Denotes lhs e k c h = record {
  at = λ dims symbols. h.at dims symbols ∙ (elim (Result-cases (eval lhs dims symbols)) [
    | inl (v, e) ↦ rw e (ap ok (sym (+ℤ_assoc v k c)))
    | inr (x, e) ↦ rw e
  ]);
}

regroup_add-nonconstant :
    (again : BinaryOp) (self other : AffineExpr)
    → is_constant other ≡ false
    → regroup_add again self other ≡ ok none
unfolding regroup_add
regroup_add-nonconstant again (binary add lhs rhs) other h =
    rw (try_fold_constant-nonconstant rhs other add h)
regroup_add-nonconstant again _ other h = refl

add_canonical-nonconstant :
    (again : BinaryOp) (self other : AffineExpr)
    → is_constant other ≡ false
    → add_canonical again self other ≡ ok (binary add self other)
unfolding add_canonical
add_canonical-nonconstant again self other h = rw (
  try_fold_constant-nonconstant self other add h,
  is_value-nonconstant other (pos 0) h,
  regroup_add-nonconstant again self other h,
)

-- A constant other than 0 on the right, over a left side that is no constant.
add_canonical-regroup :
    (again : BinaryOp) (self : AffineExpr) (c : ℤ)
    → is_constant self ≡ false
    → eqb_ℤ c (pos 0) ≡ false
    → AgainMeets add ◌+ℤ◌ again self c
    → Meets add self (constant c) (add_canonical again self (constant c))
unfolding add_canonical is_constant
add_canonical-regroup again (constant v) c h z m = cc
add_canonical-regroup again (binary add lhs (constant k)) c h z m =
    let (e, r, d) = m lhs k refl in (e, rw (z, r), add-regroup_Denotes lhs e k c d)
add_canonical-regroup again (binary add lhs rhs) c h z m =
    (_, rw z, Denotes-refl add (binary add lhs rhs) (constant c))
add_canonical-regroup again self c h z m = (_, rw z, Denotes-refl add self (constant c))

-- A constant on the right: drop it, regroup or keep it.
add_canonical-constant :
    (again : BinaryOp) (self : AffineExpr) (c : ℤ)
    → is_constant self ≡ false
    → AgainMeets add ◌+ℤ◌ again self c
    → Meets add self (constant c) (add_canonical again self (constant c))
add_canonical-constant again self c h m = elim (Bool-cases (eqb_ℤ c (pos 0))) [
  | inl z ↦ (
    self,
    unfold add_canonical in rw (try_fold_constant-nonconstant_left self (constant c) add h, z),
    add-zero_Denotes self c (eq_of_eqb_ℤ c (pos 0) z),
  )
  | inr z ↦ add_canonical-regroup again self c h z m
]

add_comm_Denotes :
    (other e : AffineExpr) (v : ℤ)
    → Denotes add other (constant v) e
    → Denotes add (constant v) other e
unfolding eval apply_kind
add_comm_Denotes other e v h = record {
  at = λ dims symbols. h.at dims symbols ∙ (elim (Result-cases (eval other dims symbols)) [
    | inl (w, q) ↦ rw q (ap ok (+ℤ_comm w v))
    | inr (x, q) ↦ rw q
  ]);
}

add_constants_Denotes : (v w : ℤ) → Denotes add (constant v) (constant w) (constant (w +ℤ v))
unfolding eval apply_kind
add_constants_Denotes v w = record { at = λ dims symbols. ap ok (+ℤ_comm w v) }

-- One call of `__add__` is right if the calls on smaller left sides are.
module _ (fuel : ℕ) (again : BinaryOp) (below : MeetsBelow add fuel again) where
  add_again : (self : AffineExpr) (c : ℤ) → spine self < suc fuel → AgainMeets add ◌+ℤ◌ again self c
  unfolding spine
  add_again self c h lhs k e = below lhs (constant (k +ℤ c)) (omega (arith, spine-binary e))

  add_to_constant :
      (v : ℤ) (other : AffineExpr)
      → spine other < suc fuel
      → Meets add (constant v) other (add_body again (constant v) other)
  unfolding add_body apply_kind is_constant
  add_to_constant v (constant w) h = (constant (w +ℤ v), refl, add_constants_Denotes v w)
  add_to_constant v other h =
      let (e, r, d) = add_canonical-constant again other v refl (add_again other v h) in
      (e, r, add_comm_Denotes other e v d)

  add_constant :
      (self : AffineExpr) (c : ℤ)
      → spine self < suc fuel
      → Meets add self (constant c) (add_body again self (constant c))
  unfolding add_body apply_kind spine is_constant
  add_constant (constant v) c h = add_to_constant v (constant c) h
  add_constant self c h = add_canonical-constant again self c refl (add_again self c h)

  add_body-Meets : MeetsBelow add (suc fuel) (add_body again)
  unfolding add_body spine is_constant
  add_body-Meets (constant v) other h = add_to_constant v other (omega arith)
  add_body-Meets self (constant c) h = add_constant self c (omega arith)
  add_body-Meets self other h = (
    binary add self other,
    add_canonical-nonconstant again self other refl,
    Denotes-refl add self other,
  )

-- With more rounds than operations down the left sides `__add__` returns, and denotes the sum.
add_loop-Meets : (fuel : ℕ) → MeetsBelow add fuel (add_loop fuel)
unfolding add_loop
add_loop-Meets zero self other h = absurd (omega arith)
add_loop-Meets (suc fuel) self other h =
    add_body-Meets fuel (add_loop fuel) (add_loop-Meets fuel) self other h

-- `self + other` always returns an expression, and its value at all dimensions and symbols is the
-- sum of the values of the two sides, or the exception that evaluating their sum raises.
pub add_expr-Meets : (self other : AffineExpr) → Meets add self other (add_expr self other)
unfolding add_expr
add_expr-Meets self other = add_loop-Meets (suc (spine self + spine other)) self other (omega arith)
