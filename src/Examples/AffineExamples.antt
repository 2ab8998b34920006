-- ===== src/Examples/AffineExamples.antt =====
-- The theorems on affine expressions and maps at small ones.
use xdsl.Prelude.{◌≡◌, ◌≢◌, refl, List, [], ◌∷◌, ◌++◌, arith, map, range, length}
use xdsl.Prelude.Int.{ℤ, pos, negsuc, neg, ◌+ℤ◌, ◌-ℤ◌, ◌*ℤ◌, floor_div_ℤ}
use xdsl.Prelude.Division.{IsRemainder}
use xdsl.Result.{ok, ◌>>=◌, traverse}
use xdsl.Affine.Expr.{AffineExpr, add, mul, constant, dimension, symbol, binary}
use xdsl.Affine.Expr
use xdsl.Affine.Arith.{
  is_constant, add_expr, mul_expr, neg_expr, rsub_expr, floor_div_expr, ceil_div_expr, mod_expr,
}
use xdsl.Affine.Denotes.{Meets}
use xdsl.Affine.Denotes.Add.{add_expr-Meets}
use xdsl.Affine.Denotes.Mul.{mul_expr-Meets}
use xdsl.Affine.Denotes.Rest.{neg_expr-neg, rsub_expr-reversed}
use xdsl.Affine.Denotes.Division.{mod_expr-IsRemainder}
use xdsl.Affine.Map
use xdsl.Affine.Map.{AffineMap}
use xdsl.Affine.Map.Compose.{compose-eval}
use xdsl.Affine.Map.Inverse.{inverse_permutation-identity}

-- d0 + 3
abbrev shifted_dim : AffineExpr
shifted_dim = binary add (dimension 0) (constant (pos 3))

-- (d0 + 3) + -3 is d0, since the constants fold to 0.
add_cancels : add_expr shifted_dim (constant (negsuc 2)) ≡ ok (dimension 0)
unfolding add_expr ◌+ℤ◌
add_cancels = refl

mul_swaps : mul_expr (constant (pos 2)) shifted_dim ≡ ok (binary mul shifted_dim (constant (pos 2)))
unfolding mul_expr
mul_swaps = refl

add_expr-Meets_example :
    Meets add shifted_dim (constant (negsuc 2)) (add_expr shifted_dim (constant (negsuc 2)))
add_expr-Meets_example = add_expr-Meets shifted_dim (constant (negsuc 2))

mul_expr-Meets_example :
    Meets mul (constant (pos 2)) shifted_dim (mul_expr (constant (pos 2)) shifted_dim)
unfolding is_constant
mul_expr-Meets_example = mul_expr-Meets (constant (pos 2)) shifted_dim refl

neg_expr-neg_example :
    (e : AffineExpr) × (neg_expr shifted_dim ≡ ok e)
    × ((dims symbols : List ℤ)
        → Expr.eval e dims symbols ≡ (do v ← Expr.eval shifted_dim dims symbols; ok (neg v)))
neg_expr-neg_example = neg_expr-neg shifted_dim

-- `5 - d0` at d0 = 2
rsub_expr-reversed_example :
    (e : AffineExpr) × (rsub_expr (dimension 0) (constant (pos 5)) ≡ ok e)
    × (Expr.eval e (pos 2 ∷ []) [] ≡ ok (pos 2 -ℤ pos 5))
    × (Expr.eval e (pos 2 ∷ []) [] ≢ ok (pos 5 -ℤ pos 2))
unfolding Expr.eval
rsub_expr-reversed_example =
    rsub_expr-reversed (dimension 0) (constant (pos 5)) (pos 2 ∷ []) [] (pos 2) (pos 5) refl refl
      (ground arith)

-- A constant that is folded: -7 by 4.
ceil_of_constants :
    ceil_div_expr (constant (negsuc 6)) (constant (pos 4)) ≡ ok (constant (negsuc 0))
unfolding ceil_div_expr floor_div_ℤ neg
ceil_of_constants = refl

-- The quotients and the remainder of d0 by 4 at d0 = -7.
mod_expr-IsRemainder_example :
    (q m u : ℤ) × ((do
      e ← floor_div_expr (dimension 0) (constant (pos 4))
      Expr.eval e (negsuc 6 ∷ []) [])
      ≡ ok q)
    × ((do e ← mod_expr (dimension 0) (constant (pos 4)); Expr.eval e (negsuc 6 ∷ []) []) ≡ ok m)
    × ((do e ← ceil_div_expr (dimension 0) (constant (pos 4)); Expr.eval e (negsuc 6 ∷ []) [])
        ≡ ok u)
    × (negsuc 6 ≡ q *ℤ pos 4 +ℤ m)
    × IsRemainder (pos 4) m
    × IsRemainder (pos 4) (u *ℤ pos 4 -ℤ negsuc 6)
unfolding Expr.eval
mod_expr-IsRemainder_example =
    mod_expr-IsRemainder (dimension 0) (pos 4) (negsuc 6) (negsuc 6 ∷ []) [] refl (ground arith)

-- (d0, d1)[s0] -> (d0 + s0) after (d0)[s0] -> (d0 * 2, s0)
abbrev outer : AffineMap
outer = record {
  num_dims = 2;
  num_symbols = 1;
  results = binary add (dimension 0) (symbol 0) ∷ dimension 1 ∷ [];
}

abbrev inner : AffineMap
inner = record {
  num_dims = 1;
  num_symbols = 1;
  results = binary mul (dimension 0) (constant (pos 2)) ∷ symbol 0 ∷ [];
}

inner_runs : Map.eval inner (pos 5 ∷ []) (pos 9 ∷ []) ≡ ok (pos 10 ∷ pos 9 ∷ [])
unfolding Map.eval Expr.eval Expr.apply_kind traverse ◌*ℤ◌
inner_runs = refl

compose-eval_example :
    (m : AffineMap) × (Map.compose outer inner ≡ ok m)
    × (Map.eval m (pos 5 ∷ []) ((pos 7 ∷ []) ++ pos 9 ∷ [])
        ≡ Map.eval outer (pos 10 ∷ pos 9 ∷ []) (pos 7 ∷ []))
compose-eval_example =
    compose-eval outer inner (pos 5 ∷ []) (pos 7 ∷ []) (pos 9 ∷ []) (pos 10 ∷ pos 9 ∷ [])
      (omega arith) (omega arith) refl refl inner_runs

-- (d0, d1, d2) -> (d1, d2, d0), whose inverse is (d0, d1, d2) -> (d2, d0, d1)
abbrev rotation : AffineMap
rotation = record {
  num_dims = 3;
  num_symbols = 0;
  results = dimension 1 ∷ dimension 2 ∷ dimension 0 ∷ [];
}

inverse_permutation-identity_example :
    ((Map.identity 3).num_dims ≡ length rotation.results)
    × ((Map.identity 3).num_symbols ≡ 0)
    × ((Map.identity 3).results ≡ map dimension (range 0 3))
unfolding Map.inverse_permutation Map.identity traverse
inverse_permutation-identity_example = inverse_permutation-identity rotation (Map.identity 3) refl
