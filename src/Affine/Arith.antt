-- ===== src/Affine/Arith.antt =====
-- The arithmetic of affine expressions with its simplifications (xdsl/ir/affine/affine_expr.py).
-- `__add__` and `_simplify_add` call each other on a smaller left side, so the recursive call is a
-- parameter of their bodies, and the loop is closed on fuel; likewise for `__mul__`. An `int`
-- operand is passed as the constant that the source makes of it.
use xdsl.Prelude.{ℕ, zero, suc, ◌+◌, Bool, true, false, Option, none, some, if◌then◌else◌}
use xdsl.Prelude.Int.{ℤ, pos, negsuc, neg, ◌+ℤ◌, ◌*ℤ◌, floor_div_ℤ, mod_ℤ, eqb_ℤ}
use xdsl.Result.{Result, ok, err, not_implemented, zero_division, out_of_fuel, ◌>>=◌, ◌>>◌, guard}
use xdsl.Affine.Expr.{
  AffineBinaryOpKind, add, mul, modulo, floor_div, ceil_div, AffineExpr, constant, binary,
}

-- The `match kind` of `_try_fold_constant`, on the values of two constants.
unfoldable pub fold_kind : AffineBinaryOpKind → ℤ → ℤ → Result AffineExpr
fold_kind add v w = ok (constant (v +ℤ w))
fold_kind mul v w = ok (constant (v *ℤ w))
fold_kind modulo v w = if eqb_ℤ w (pos 0) then err zero_division else ok (constant (mod_ℤ v w))
fold_kind floor_div v w =
    if eqb_ℤ w (pos 0) then err zero_division else ok (constant (floor_div_ℤ v w))
fold_kind ceil_div v w =
    if eqb_ℤ w (pos 0) then err zero_division else ok (constant (neg (floor_div_ℤ (neg v) w)))

unfoldable pub try_fold_constant :
    AffineExpr → AffineExpr → AffineBinaryOpKind → Result (Option AffineExpr)
unfolding fold_kind
try_fold_constant (constant v) (constant w) kind = do e ← fold_kind kind v w; ok (some e)
try_fold_constant _ _ kind = ok none

-- `isinstance(e, AffineConstantExpr)`
unfoldable pub is_constant : AffineExpr → Bool
is_constant (constant value) = true
is_constant _ = false

-- `isinstance(e, AffineConstantExpr) and e.value == v`
unfoldable pub is_value : AffineExpr → ℤ → Bool
is_value (constant value) v = eqb_ℤ value v
is_value _ v = false

-- `if isinstance(self, AffineConstantExpr): self, other = other, self`
unfoldable pub constant_to_right : AffineExpr → AffineExpr → AffineExpr × AffineExpr
constant_to_right (constant value) other = (other, constant value)
constant_to_right self other = (self, other)

abbrev pub BinaryOp : Type 0
BinaryOp = AffineExpr → AffineExpr → Result AffineExpr

-- `self.lhs + fold`, if there was something to fold
unfoldable pub again_if : BinaryOp → AffineExpr → Option AffineExpr → Result (Option AffineExpr)
again_if again lhs none = ok none
again_if again lhs (some fold) = do e ← again lhs fold; ok (some e)

unfoldable pub regroup_add : BinaryOp → AffineExpr → AffineExpr → Result (Option AffineExpr)
unfolding try_fold_constant again_if
regroup_add again (binary add lhs rhs) other = do
  fold ← try_fold_constant rhs other add
  again_if again lhs fold
regroup_add again _ other = ok none

unfoldable pub simplify_add : BinaryOp → AffineExpr → AffineExpr → Result (Option AffineExpr)
unfolding try_fold_constant is_value regroup_add
simplify_add again self other = do
  fold ← try_fold_constant self other add
  elim fold [
    | some e ↦ ok (some e)
    | none ↦ if is_value other (pos 0) then ok (some self) else regroup_add again self other
  ]

unfoldable pub add_canonical : BinaryOp → AffineExpr → AffineExpr → Result AffineExpr
unfolding simplify_add
add_canonical again self other = do
  simplified ← simplify_add again self other
  elim simplified [ some e ↦ ok e | none ↦ ok (binary add self other) ]

unfoldable pub add_body : BinaryOp → AffineExpr → AffineExpr → Result AffineExpr
unfolding constant_to_right add_canonical
add_body again self other =
    let (self', other') = constant_to_right self other in add_canonical again self' other'

unfoldable pub add_loop : ℕ → BinaryOp
unfolding add_body
add_loop zero self other = err out_of_fuel
add_loop (suc fuel) self other = add_body (add_loop fuel) self other

-- The number of operations down the left sides.
unfoldable pub spine : AffineExpr → ℕ
spine (binary kind lhs rhs) = suc (spine lhs)
spine _ = 0

-- `__add__`, and `__radd__`, which calls it
unfoldable pub add_expr : AffineExpr → AffineExpr → Result AffineExpr
unfolding add_loop spine
add_expr self other = add_loop (suc (spine self + spine other)) self other

unfoldable pub regroup_mul : BinaryOp → AffineExpr → AffineExpr → Result (Option AffineExpr)
unfolding try_fold_constant again_if
regroup_mul again (binary mul lhs rhs) other = do
  fold ← try_fold_constant rhs other mul
  again_if again lhs fold
regroup_mul again _ other = ok none

unfoldable pub simplify_mul : BinaryOp → AffineExpr → AffineExpr → Result (Option AffineExpr)
unfolding try_fold_constant is_value regroup_mul
simplify_mul again self other = do
  fold ← try_fold_constant self other mul
  elim fold [
    | some e ↦ ok (some e)
    | none ↦ if is_value other (pos 1) then ok (some self) else regroup_mul again self other
  ]

unfoldable pub mul_canonical : BinaryOp → AffineExpr → AffineExpr → Result AffineExpr
unfolding simplify_mul is_constant
mul_canonical again self other = do
  simplified ← simplify_mul again self other
  elim simplified [
    | some e ↦ ok e
    | none ↦ guard (is_constant other) not_implemented >> ok (binary mul self other)
  ]

unfoldable pub mul_body : BinaryOp → AffineExpr → AffineExpr → Result AffineExpr
unfolding constant_to_right mul_canonical
mul_body again self other =
    let (self', other') = constant_to_right self other in mul_canonical again self' other'

unfoldable pub mul_loop : ℕ → BinaryOp
unfolding mul_body
mul_loop zero self other = err out_of_fuel
mul_loop (suc fuel) self other = mul_body (mul_loop fuel) self other

-- `__mul__`, and `__rmul__`, which calls it
unfoldable pub mul_expr : AffineExpr → AffineExpr → Result AffineExpr
unfolding mul_loop spine
mul_expr self other = mul_loop (suc (spine self + spine other)) self other

-- `__neg__`
unfoldable pub neg_expr : AffineExpr → Result AffineExpr
unfolding mul_expr
neg_expr (constant value) = ok (constant (neg value))
neg_expr self = mul_expr self (constant (negsuc 0))

-- `__sub__`; `-1 * other` calls `other.__rmul__(-1)`
unfoldable pub sub_expr : AffineExpr → AffineExpr → Result AffineExpr
unfolding add_expr mul_expr
sub_expr self other = do minus ← mul_expr other (constant (negsuc 0)); add_expr self minus

-- `__rsub__`, which Python calls as `self.__rsub__(other)` for `other - self`
unfoldable pub rsub_expr : AffineExpr → AffineExpr → Result AffineExpr
unfolding sub_expr
rsub_expr self other = sub_expr self other

-- `AffineExpr.floor_div`
unfoldable pub floor_div_expr : AffineExpr → AffineExpr → Result AffineExpr
unfolding try_fold_constant is_constant
floor_div_expr self other = do
  fold ← try_fold_constant self other floor_div
  elim fold [
    | some e ↦ ok e
    | none ↦ guard (is_constant other) not_implemented >> ok (binary floor_div self other)
  ]

-- `AffineExpr.ceil_div`
unfoldable pub ceil_div_expr : AffineExpr → AffineExpr → Result AffineExpr
unfolding try_fold_constant is_constant
ceil_div_expr self other = do
  fold ← try_fold_constant self other ceil_div
  elim fold [
    | some e ↦ ok e
    | none ↦ guard (is_constant other) not_implemented >> ok (binary ceil_div self other)
  ]

-- `__mod__`
unfoldable pub mod_expr : AffineExpr → AffineExpr → Result AffineExpr
unfolding try_fold_constant is_constant
mod_expr self other = do
  fold ← try_fold_constant self other modulo
  elim fold [
    | some e ↦ ok e
    | none ↦ guard (is_constant other) not_implemented >> ok (binary modulo self other)
  ]
