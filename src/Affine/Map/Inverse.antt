-- ===== src/Affine/Map/Inverse.antt =====
-- `AffineMap.inverse_permutation` of affine_map.py: which map it returns.
use xdsl.Prelude.{
  ℕ, zero, suc, ◌+◌, ◌<◌, ◌≡◌, ◌≢◌, refl, sym, ap, ◌∙◌, Option, none, some, List, [], ◌∷◌, map,
  length, set, range, replicate, arith, ltb, ◌==◌, get_elem?, get_elem?-set_self, get_elem?-set_ne,
  length-set, inl, inr, Bool-cases, Option-cases,
}
use xdsl.Result.{ok, value_error, >>=-eq-ok, guard, index, traverse}
use xdsl.Affine.Expr.{AffineExpr, dimension}
use xdsl.Affine.Map.{
  AffineMap, found_dim, find_dims, all_found, select_results, inverse_permutation,
}

-- Each dimension that was found has the index of a result that is that dimension.
abbrev FoundIn : List AffineExpr → List (Option ℕ) → Type 0
FoundIn results found =
    (p i : ℕ) → get_elem? found p ≡ some (some i) → get_elem? results i ≡ some (dimension p)

FoundIn-set :
    (results : List AffineExpr) (found : List (Option ℕ)) (p i : ℕ)
    → get_elem? results i ≡ some (dimension p)
    → p < length found
    → FoundIn results found
    → FoundIn results (set found p (some i))
FoundIn-set results found p i at within h q j e = elim (Bool-cases (p == q)) [
  | inl same ↦
      let s : p ≡ q = ground (arith, same) in
      ground (arith, at, s, get_elem?-set_self found p (some i) within, e)
  | inr other ↦
      let n : p ≢ q = ground (arith, other) in
      h q j (sym (get_elem?-set_ne found p q (some i) n) ∙ e)
]

FoundIn-found_dim :
    (results : List AffineExpr) (found found' : List (Option ℕ)) (p i : ℕ)
    → get_elem? results i ≡ some (dimension p)
    → found_dim found p i ≡ ok found'
    → FoundIn results found
    → FoundIn results found' × (length found' ≡ length found)
unfolding found_dim
FoundIn-found_dim results found found' p i at e h = elim (Bool-cases (ltb p (length found))) [
  | inr out ↦ cc (rw out at e)
  | inl within ↦
      let e' : set found p (some i) ≡ found' = ground (arith, e, within) in
      (
        rw (← e') (FoundIn-set results found p i at (ground (arith, within)) h),
        rw (← e') (length-set found p (some i)),
      )
]

-- `todo` is what is left of `results` from the index `i` on.
abbrev RestFrom : List AffineExpr → ℕ → List AffineExpr → Type 0
RestFrom results i todo =
    (j : ℕ) (a : AffineExpr) → get_elem? todo j ≡ some a → get_elem? results (i + j) ≡ some a

RestFrom-suc :
    (results todo : List AffineExpr) (i : ℕ) (x : AffineExpr)
    → RestFrom results i (x ∷ todo)
    → RestFrom results (suc i) todo
RestFrom-suc results todo i x h j a e =
    let n : suc i + j ≡ i + suc j = omega arith in rw n (h (suc j) a e)

RestFrom-head :
    (results todo : List AffineExpr) (i : ℕ) (x : AffineExpr)
    → RestFrom results i (x ∷ todo)
    → get_elem? results i ≡ some x
RestFrom-head results todo i x h = let n : i + 0 ≡ i = omega arith in rw n at (h 0 x refl)

FoundIn-find_dims :
    (results todo : List AffineExpr) (i : ℕ) (found found' : List (Option ℕ))
    → RestFrom results i todo
    → FoundIn results found
    → find_dims todo i found ≡ ok found'
    → FoundIn results found' × (length found' ≡ length found)
unfolding find_dims
FoundIn-find_dims results [] i found found' l h e =
    let e' : found ≡ found' = ground (arith, e) in (rw (← e') h, ap length (sym e'))
FoundIn-find_dims results (dimension p ∷ todo) i found found' l h e =
    let (mid, step, rest) = >>=-eq-ok (found_dim found p i) _ e in
    let at = RestFrom-head results todo i (dimension p) l in
    let (h', len) = FoundIn-found_dim results found mid p i at step h in
    let l' = RestFrom-suc results todo i (dimension p) l in
    let (h'', len') = FoundIn-find_dims results todo (suc i) mid found' l' h' rest in
    (h'', len' ∙ len)
FoundIn-find_dims results (x ∷ todo) i found found' l h e =
    FoundIn-find_dims results todo (suc i) found found' (RestFrom-suc results todo i x l) h e

FoundIn-replicate : (results : List AffineExpr) (n : ℕ) → FoundIn results (replicate n none)
FoundIn-replicate results zero p i e = cc
FoundIn-replicate results (suc n) zero i e = cc
FoundIn-replicate results (suc n) (suc p) i e = absurd (none_at n p i e)
  where
    none_at : (n p i : ℕ) → get_elem? (replicate n none) p ≡ some (some i) → ⊥
    none_at zero p i e = cc
    none_at (suc n) zero i e = cc
    none_at (suc n) (suc p) i e = none_at n p i e

-- The results selected at found indices are the dimensions in order, from `k` on.
selected :
    (results : List AffineExpr) (found : List (Option ℕ)) (is : List ℕ) (k : ℕ)
    → ((p i : ℕ)
        → get_elem? found p ≡ some (some i)
        → get_elem? results i ≡ some (dimension (k + p)))
    → all_found found ≡ some is
    → traverse (index results) is ≡ ok (map dimension (range k (length found)))
unfolding all_found traverse
selected results [] is k h e = let e' : [] ≡ is = ground (arith, e) in rw (← e')
selected results (none ∷ found) is k h e = cc
selected results (some i ∷ found) is k h e = elim (Option-cases (all_found found)) [
  | inl n ↦ cc (rw n at e)
  | inr (js, s) ↦
      let e' : i ∷ js ≡ is = ground (arith, e, s) in
      let n : k + 0 ≡ k = omega arith in
      let at : get_elem? results i ≡ some (dimension k) = rw n at (h 0 i refl) in
      rw (
        ← e',
        at,
        selected results found js (suc k)
            (λ p j g. let n' : suc k + p ≡ k + suc p = omega arith in rw n' (h (suc p) j g)) s,
      )
]

select_results-some :
    (self inverse : AffineMap) (is : List ℕ) (results : List AffineExpr)
    → traverse (index self.results) is ≡ ok results
    → select_results self (some is) ≡ ok (some inverse)
    → (inverse.num_dims ≡ length self.results)
      × (inverse.num_symbols ≡ 0)
      × (inverse.results ≡ results)
unfolding select_results
select_results-some self inverse is results t h = ground (arith, rw t at h)

length-replicate {ℓ} : {A : Type ℓ} (n : ℕ) (a : A) → length (replicate n a) ≡ n
length-replicate zero a = refl
length-replicate (suc n) a = ap suc (length-replicate n a)

-- Whenever `inverse_permutation` returns a map, that map has one dimension for each result of `self`,
-- no symbols, and its results are all the dimensions of `self` in their order, whatever the
-- permutation was.
pub inverse_permutation-identity :
    (self inverse : AffineMap)
    → inverse_permutation self ≡ ok (some inverse)
    → (inverse.num_dims ≡ length self.results)
      × (inverse.num_symbols ≡ 0)
      × (inverse.results ≡ map dimension (range 0 self.num_dims))
unfolding inverse_permutation
inverse_permutation-identity self inverse h =
    let (_, g, h') = >>=-eq-ok (guard (self.num_symbols == 0) value_error) _ h in
    let (found, run, h'') =
      >>=-eq-ok (find_dims self.results 0 (replicate self.num_dims none)) _ h' in
    let (in_results, len) =
      FoundIn-find_dims self.results self.results 0 (replicate self.num_dims none) found
        (λ j a e. let n : 0 + j ≡ j = omega arith in rw n e)
        (FoundIn-replicate self.results self.num_dims) run in
    elim (Option-cases (all_found found)) [
      | inl n ↦ cc (rw (n, select_results) at h'')
      | inr (is, s) ↦
          let order =
            selected self.results found is 0
              (λ p i e. let n : 0 + p ≡ p = omega arith in rw n (in_results p i e)) s in
          let (d, n, r) = select_results-some self inverse is _ order (rw s at h'') in
          (
            d,
            n,
            r ∙ ap (λ k. map dimension (range 0 k)) (len ∙ length-replicate self.num_dims none),
          )
    ]
