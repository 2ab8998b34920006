-- ===== src/Affine/Expr.antt =====
-- The affine expressions of xdsl/ir/affine/affine_expr.py, their evaluation and substitution.
-- Positions are not negative: the constructors are called with the indices of dimensions and
-- symbols.
use xdsl.Prelude.{ℕ, List, none, some, if◌then◌else◌, get_elem?}
use xdsl.Prelude.Int.{ℤ, pos, ◌+ℤ◌, ◌*ℤ◌, neg, floor_div_ℤ, mod_ℤ, eqb_ℤ}
use xdsl.Result.{Result, ok, err, zero_division, ◌>>=◌, index}

pub data AffineBinaryOpKind : Type 0 where
  add mul modulo floor_div ceil_div : AffineBinaryOpKind

pub data AffineExpr : Type 0 where
  constant : ℤ → AffineExpr
  dimension : ℕ → AffineExpr
  symbol : ℕ → AffineExpr
  binary : AffineBinaryOpKind → AffineExpr → AffineExpr → AffineExpr

-- The chain of tests at the end of `eval`, on the values of the two sides. `//` and `%` by zero
-- raise `ZeroDivisionError`.
unfoldable pub apply_kind : AffineBinaryOpKind → ℤ → ℤ → Result ℤ
apply_kind add lhs rhs = ok (lhs +ℤ rhs)
apply_kind mul lhs rhs = ok (lhs *ℤ rhs)
apply_kind modulo lhs rhs = if eqb_ℤ rhs (pos 0) then err zero_division else ok (mod_ℤ lhs rhs)
apply_kind floor_div lhs rhs =
    if eqb_ℤ rhs (pos 0) then err zero_division else ok (floor_div_ℤ lhs rhs)
apply_kind ceil_div lhs rhs =
    if eqb_ℤ rhs (pos 0) then err zero_division else ok (neg (floor_div_ℤ (neg lhs) rhs))

unfoldable pub eval : AffineExpr → List ℤ → List ℤ → Result ℤ
eval (constant value) dims symbols = ok value
eval (dimension position) dims symbols = index dims position
eval (symbol position) dims symbols = index symbols position
eval (binary kind lhs rhs) dims symbols = do
  l ← eval lhs dims symbols
  r ← eval rhs dims symbols
  apply_kind kind l r

-- `xs[position]`, or the expression itself where the position is out of range.
unfoldable pub get_or : AffineExpr → List AffineExpr → ℕ → AffineExpr
get_or self new position = elim (get_elem? new position) [ none ↦ self | some e ↦ e ]

unfoldable pub replace_dims_and_symbols :
    AffineExpr → List AffineExpr → List AffineExpr → AffineExpr
unfolding get_or
replace_dims_and_symbols (constant value) new_dims new_symbols = constant value
replace_dims_and_symbols (dimension position) new_dims new_symbols =
    get_or (dimension position) new_dims position
replace_dims_and_symbols (symbol position) new_dims new_symbols =
    get_or (symbol position) new_symbols position
replace_dims_and_symbols (binary kind lhs rhs) new_dims new_symbols =
    binary kind (replace_dims_and_symbols lhs new_dims new_symbols)
      (replace_dims_and_symbols rhs new_dims new_symbols)

-- `AffineExpr.compose`, on the results of the map.
unfoldable pub compose : AffineExpr → List AffineExpr → AffineExpr
unfolding replace_dims_and_symbols
compose self results = replace_dims_and_symbols self results List.[]
