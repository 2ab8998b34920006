-- ===== src/Affine/Map/Compose.antt =====
-- `AffineMap.compose` of affine_map.py is the composition of the functions that the maps denote.
use xdsl.Prelude.{
  ℕ, ◌+◌, ◌-◌, ◌<◌, ◌≡◌, refl, sym, ap, ◌∙◌, List, [], ◌∷◌, ◌++◌, map, length, range, arith, ◌==◌,
  ==_iff, get_elem?-append_left, get_elem?-append_right, get_elem?-range, get_elem?-map,
  get_elem?-some, length-append, length-map, ◌≢◌,
}
use xdsl.Prelude.Int.{ℤ}
use xdsl.Result.{
  ok, err, value_error, index_error, assertion, guard, guard-ok, or_raise, >>=-eq-ok,
  length-traverse, index, traverse, traverse-index,
}
use xdsl.Affine.Expr
use xdsl.Affine.Expr.{AffineExpr, constant, dimension, symbol, binary, get_or}
use xdsl.Affine.Map.{AffineMap, compose, compose_matching, eval}

-- The positions that an expression uses are below the numbers of dimensions and symbols.
abbrev pub IsScoped : ℕ → ℕ → AffineExpr → Type 0
IsScoped num_dims num_symbols (constant value) = Unit
IsScoped num_dims num_symbols (dimension position) = position < num_dims
IsScoped num_dims num_symbols (symbol position) = position < num_symbols
IsScoped num_dims num_symbols (binary kind lhs rhs) =
    IsScoped num_dims num_symbols lhs × IsScoped num_dims num_symbols rhs

abbrev pub AllScoped : ℕ → ℕ → List AffineExpr → Type 0
AllScoped num_dims num_symbols [] = Unit
AllScoped num_dims num_symbols (e ∷ es) =
    IsScoped num_dims num_symbols e × AllScoped num_dims num_symbols es

abbrev pub IsScopedMap : AffineMap → Type 0
IsScopedMap m = AllScoped m.num_dims m.num_symbols m.results

-- Substitution: the replacements' values are what the positions read afterwards.
replace-eval :
    (e : AffineExpr) (num_dims num_symbols : ℕ) (new_dims new_symbols : List AffineExpr)
    (dims symbols dims' symbols' : List ℤ)
    → ((p : ℕ)
        → p < num_dims
        → Expr.eval (get_or (dimension p) new_dims p) dims symbols ≡ index dims' p)
    → ((p : ℕ)
        → p < num_symbols
        → Expr.eval (get_or (symbol p) new_symbols p) dims symbols ≡ index symbols' p)
    → IsScoped num_dims num_symbols e
    → Expr.eval (Expr.replace_dims_and_symbols e new_dims new_symbols) dims symbols
      ≡ Expr.eval e dims' symbols'
unfolding Expr.eval Expr.replace_dims_and_symbols
replace-eval (constant v) nd ns new_dims new_symbols dims symbols dims' symbols' hd hs s = refl
replace-eval (dimension p) nd ns new_dims new_symbols dims symbols dims' symbols' hd hs s = hd p s
replace-eval (symbol p) nd ns new_dims new_symbols dims symbols dims' symbols' hd hs s = hs p s
replace-eval (binary k l r) nd ns new_dims new_symbols dims symbols dims' symbols' hd hs s = rw (
  replace-eval l nd ns new_dims new_symbols dims symbols dims' symbols' hd hs s.0,
  replace-eval r nd ns new_dims new_symbols dims symbols dims' symbols' hd hs s.1,
)

traverse-map-eval :
    (es : List AffineExpr) (num_dims num_symbols : ℕ) (new_dims new_symbols : List AffineExpr)
    (dims symbols dims' symbols' : List ℤ)
    → ((p : ℕ)
        → p < num_dims
        → Expr.eval (get_or (dimension p) new_dims p) dims symbols ≡ index dims' p)
    → ((p : ℕ)
        → p < num_symbols
        → Expr.eval (get_or (symbol p) new_symbols p) dims symbols ≡ index symbols' p)
    → AllScoped num_dims num_symbols es
    → traverse
        (λ e. Expr.eval e dims symbols)
        (map (λ e. Expr.replace_dims_and_symbols e new_dims new_symbols) es)
      ≡ traverse (λ e. Expr.eval e dims' symbols') es
unfolding traverse
traverse-map-eval [] nd ns new_dims new_symbols dims symbols dims' symbols' hd hs s = refl
traverse-map-eval (e ∷ es) nd ns new_dims new_symbols dims symbols dims' symbols' hd hs s = rw (
  replace-eval e nd ns new_dims new_symbols dims symbols dims' symbols' hd hs s.0,
  traverse-map-eval es nd ns new_dims new_symbols dims symbols dims' symbols' hd hs s.1,
)

-- The value at a position of a traversed list.
index-traverse :
    (es : List AffineExpr) (dims symbols values : List ℤ) (p : ℕ)
    → p < length es
    → traverse (λ e. Expr.eval e dims symbols) es ≡ ok values
    → Expr.eval (get_or (dimension p) es p) dims symbols ≡ index values p
unfolding get_or
index-traverse es dims symbols values p h t =
    let (e, g) = get_elem?-some es p h in
    rw (g, get_or) (traverse-index (λ e. Expr.eval e dims symbols) es values p e t g)

get_or-range :
    (e : AffineExpr) (make : ℕ → AffineExpr) (i n p : ℕ)
    → p < n
    → get_or e (map make (range i n)) p ≡ make (i + p)
unfolding get_or
get_or-range e make i n p h =
    rw (get_elem?-map make (range i n) p (get_elem?-range i n p h), get_or)

-- What a successful evaluation says of its arguments.
pub eval-ok :
    (m : AffineMap) (dims symbols values : List ℤ)
    → eval m dims symbols ≡ ok values
    → (length dims ≡ m.num_dims)
      × (length symbols ≡ m.num_symbols)
      × (traverse (λ e. Expr.eval e dims symbols) m.results ≡ ok values)
unfolding eval
eval-ok m dims symbols values h =
    let (_, d, h') = >>=-eq-ok (guard (length dims == m.num_dims) assertion) _ h in
    let (_, s, h'') = >>=-eq-ok (guard (length symbols == m.num_symbols) assertion) _ h' in
    let d' = guard-ok _ _ d in
    let s' = guard-ok _ _ s in (ground (arith, d'), ground (arith, s'), h'')

pub eval-traverse :
    (m : AffineMap) (dims symbols : List ℤ)
    → length dims ≡ m.num_dims
    → length symbols ≡ m.num_symbols
    → eval m dims symbols ≡ traverse (λ e. Expr.eval e dims symbols) m.results
unfolding eval
eval-traverse m dims symbols d s =
    rw ((==_iff (length dims) m.num_dims).1 d, (==_iff (length symbols) m.num_symbols).1 s)

module _ (self other : AffineMap) (dims s1 s2 mid : List ℤ) (len1 : length s1 ≡ self.num_symbols)
    (inner : eval other dims s2 ≡ ok mid) where
  -- The results of the inner map, its symbols shifted behind those of the outer map.
  shifted : List AffineExpr
  shifted =
      map
        (λ e. Expr.replace_dims_and_symbols e (map dimension (range 0 other.num_dims)) (
          map symbol
            (range self.num_symbols (self.num_symbols + other.num_symbols - self.num_symbols))))
        other.results

  shifted-eval : IsScopedMap other → traverse (λ e. Expr.eval e dims (s1 ++ s2)) shifted ≡ ok mid
  unfolding shifted Expr.eval
  shifted-eval s =
      let (ld, ls, run) = eval-ok other dims s2 mid inner in
      traverse-map-eval other.results other.num_dims other.num_symbols _ _ dims (s1 ++ s2) dims s2
        (λ p h.
          rw (get_or-range (dimension p) dimension 0 other.num_dims p h)
            (ap (index dims) (omega arith)))
        (λ p h.
          rw
            (get_or-range (symbol p) symbol self.num_symbols
              (self.num_symbols + other.num_symbols - self.num_symbols) p (omega arith))
            (rw (← len1) (ap (λ o. or_raise o index_error) (get_elem?-append_right s1 s2 p))))
        s
      ∙ run

  outer_eval :
      IsScopedMap self
      → IsScopedMap other
      → self.num_dims ≡ length other.results
      → traverse (λ e. Expr.eval e dims (s1 ++ s2)) (map (λ e. Expr.compose e shifted) self.results)
        ≡ traverse (λ e. Expr.eval e mid s1) self.results
  unfolding shifted Expr.eval Expr.compose get_or
  outer_eval scoped scoped' ranks =
      traverse-map-eval self.results self.num_dims self.num_symbols shifted [] dims (s1 ++ s2) mid
        s1
        (λ p h.
          index-traverse shifted dims (s1 ++ s2) mid p
            (omega (
              arith,
              length-map
                  (λ e. Expr.replace_dims_and_symbols e (map dimension (range 0 other.num_dims)) (
                    map symbol (
                      range self.num_symbols
                        (self.num_symbols + other.num_symbols - self.num_symbols))))
                  other.results,
            ))
            (shifted-eval scoped'))
        (λ p h. ap (λ o. or_raise o index_error) (get_elem?-append_left s1 s2 p (omega arith)))
        scoped

-- Of two maps whose expressions stay within their dimensions and symbols, where the outer one has as
-- many dimensions as the inner one has results: `self.compose(other)` returns a map, and evaluating
-- it at the inner dimensions and at the symbols of `self` followed by those of `other` is evaluating
-- `self` at the results of `other`, wherever `other` evaluates.
pub compose-eval :
    (self other : AffineMap) (dims s1 s2 mid : List ℤ)
    → IsScopedMap self
    → IsScopedMap other
    → self.num_dims ≡ length other.results
    → length s1 ≡ self.num_symbols
    → eval other dims s2 ≡ ok mid
    → (m : AffineMap) × (compose self other ≡ ok m) × (eval m dims (s1 ++ s2) ≡ eval self mid s1)
unfolding compose shifted
compose-eval self other dims s1 s2 mid scoped scoped' ranks len1 inner =
    let (ld, ls, run) = eval-ok other dims s2 mid inner in
    (
      compose_matching self other,
      rw ((==_iff _ _).1 ranks),
      eval-traverse (compose_matching self other) dims (s1 ++ s2) ld
            (omega (arith, length-append s1 s2))
          ∙ outer_eval self other dims s1 s2 mid len1 inner scoped scoped' ranks
          ∙ sym (
              eval-traverse self mid s1
                (omega (arith, length-traverse (λ e. Expr.eval e dims s2) other.results mid run))
                len1),
    )

-- Maps whose ranks do not match are refused.
pub compose-refused :
    (self other : AffineMap)
    → self.num_dims ≢ length other.results
    → compose self other ≡ err value_error
unfolding compose
compose-refused self other h = ground arith
