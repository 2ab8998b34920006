-- ===== src/Affine/Map.antt =====
-- Affine maps (xdsl/ir/affine/affine_map.py): construction, composition, evaluation and the inverse
-- of a permutation. The -1 of a dimension that `inverse_permutation` has not found is `none`.
pub mod Compose
pub mod Inverse
use xdsl.Prelude.{
  ℕ, suc, ◌+◌, ◌-◌, Option, none, some, List, [], ◌∷◌, ◌++◌, map, length, set, range, replicate,
  ltb, ◌==◌, ◌⊎◌, inl, inr, if◌then◌else◌,
}
use xdsl.Prelude.Int.{ℤ}
use xdsl.Result.{
  Result, ok, err, value_error, index_error, assertion, ◌>>=◌, ◌>>◌, guard, index, traverse,
}
use xdsl.Affine.Expr
use xdsl.Affine.Expr.{AffineExpr, constant, dimension, symbol}

pub record AffineMap : Type 0 where
  pub num_dims : ℕ
  pub num_symbols : ℕ
  pub results : List AffineExpr

unfoldable pub constant_map : ℤ → AffineMap
constant_map value = record { num_dims = 0; num_symbols = 0; results = constant value ∷ [] }

unfoldable pub point_map : List ℤ → AffineMap
point_map values = record { num_dims = 0; num_symbols = 0; results = map constant values }

unfoldable pub identity : ℕ → AffineMap
identity rank = record { num_dims = rank; num_symbols = 0; results = map dimension (range 0 rank) }

unfoldable pub transpose_map : AffineMap
transpose_map = record { num_dims = 2; num_symbols = 0; results = dimension 1 ∷ dimension 0 ∷ [] }

unfoldable pub empty : AffineMap
empty = record { num_dims = 0; num_symbols = 0; results = [] }

-- `AffineExpr.constant(r) if isinstance(r, int) else r`, on a result of the callable
unfoldable pub result_expr : AffineExpr ⊎ ℤ → AffineExpr
result_expr (inl e) = e
result_expr (inr value) = constant value

-- `from_callable`: `func` is called on the dimensions and the symbols; `num_args` is the number of
-- its parameters, which the source asks of Python.
unfoldable pub from_callable :
    (List AffineExpr → List (AffineExpr ⊎ ℤ)) → ℕ → Option (ℕ × ℕ) → Result AffineMap
unfolding result_expr
from_callable func num_args none = ok (record {
  num_dims = num_args;
  num_symbols = 0;
  results = map result_expr (func (map dimension (range 0 num_args)));
})
from_callable func num_args (some (num_dims, num_symbols)) = do
  guard (num_args == num_dims + num_symbols) value_error
  ok (record {
    num_dims = num_dims;
    num_symbols = num_symbols;
    results =
        map result_expr
          (func (map dimension (range 0 num_dims) ++ map symbol (range 0 num_symbols)));
  })

unfoldable pub replace_dims_and_symbols :
    AffineMap → List AffineExpr → List AffineExpr → ℕ → ℕ → AffineMap
replace_dims_and_symbols self new_dims new_symbols result_num_dims result_num_symbols = record {
  num_dims = result_num_dims;
  num_symbols = result_num_symbols;
  results = map (λ e. Expr.replace_dims_and_symbols e new_dims new_symbols) self.results;
}

-- The composition, once the ranks match.
unfoldable pub compose_matching : AffineMap → AffineMap → AffineMap
unfolding replace_dims_and_symbols
compose_matching self other =
    let num_dims = other.num_dims in
    let num_symbols = self.num_symbols + other.num_symbols in
    let new_dims = map dimension (range 0 num_dims) in
    let new_symbols = map symbol (range self.num_symbols (num_symbols - self.num_symbols)) in
    let new_map = replace_dims_and_symbols other new_dims new_symbols num_dims num_symbols in
    record {
      num_dims = num_dims;
      num_symbols = num_symbols;
      results = map (λ e. Expr.compose e new_map.results) self.results;
    }

unfoldable pub compose : AffineMap → AffineMap → Result AffineMap
unfolding compose_matching
compose self other = do
  guard (self.num_dims == length other.results) value_error
  ok (compose_matching self other)

unfoldable pub eval : AffineMap → List ℤ → List ℤ → Result (List ℤ)
eval self dims symbols = do
  guard (length dims == self.num_dims) assertion
  guard (length symbols == self.num_symbols) assertion
  traverse (λ e. Expr.eval e dims symbols) self.results

-- `found_dims[position] = i`, which raises `IndexError` out of range
unfoldable pub found_dim : List (Option ℕ) → ℕ → ℕ → Result (List (Option ℕ))
found_dim found position i =
    if ltb position (length found) then ok (set found position (some i)) else err index_error

-- The loop over `enumerate(self.results)`, from the index `i` on.
unfoldable pub find_dims : List AffineExpr → ℕ → List (Option ℕ) → Result (List (Option ℕ))
unfolding found_dim
find_dims [] i found = ok found
find_dims (dimension position ∷ results) i found = do
  found ← found_dim found position i
  find_dims results (suc i) found
find_dims (_ ∷ results) i found = find_dims results (suc i) found

-- The indices found, or `none` if there is a -1 among them.
unfoldable pub all_found : List (Option ℕ) → Option (List ℕ)
all_found [] = some []
all_found (none ∷ found) = none
all_found (some i ∷ found) = elim (all_found found) [ none ↦ none | some is ↦ some (i ∷ is) ]

unfoldable pub select_results : AffineMap → Option (List ℕ) → Result (Option AffineMap)
select_results self none = ok none
select_results self (some found) = do
  results ← traverse (index self.results) found
  ok (some (record { num_dims = length self.results; num_symbols = 0; results = results }))

unfoldable pub inverse_permutation : AffineMap → Result (Option AffineMap)
unfolding find_dims all_found select_results
inverse_permutation self = do
  guard (self.num_symbols == 0) value_error
  found ← find_dims self.results 0 (replicate self.num_dims none)
  select_results self (all_found found)
