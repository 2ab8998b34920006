-- ===== src/Interpreters/ShapedArray/Offset.antt =====
-- The place of an element of a shaped array in its list of data.
use native.Mathlib.Nat.{mul-le-mul_left}
use mathlib.Core.Path.{ap₂, subst₂}
use mathlib.Core.List.{reverse-cons, reverse-reverse}
use xdsl.Prelude.{
  ℕ, suc, ◌≡◌, ◌≢◌, refl, sym, ap, ◌∙◌, ◌⊎◌, inl, inr, ◌+◌, ◌*◌, ◌≤◌, ◌<◌, List, [], ◌∷◌, ◌++◌,
  reverse, length, set, get_elem?-set_self, get_elem?-set_ne, length-set, arith,
}
use xdsl.Result.{ok, index, or_raise, index_error}
use xdsl.Interpreters.ShapedArray.{
  ShapedArray, prod, accumulate, all_but_last, sum_of_products, offset, load, store,
}

-- As many indices as dimensions, each below its dimension.
abbrev pub InBounds : List ℕ → List ℕ → Type 0
InBounds [] [] = Unit
InBounds (i ∷ is) (d ∷ ds) = (i < d) × InBounds is ds
InBounds _ _ = ⊥

-- The number whose digits are the indices, the least significant first, in the bases of the shape.
abbrev digits : List ℕ → List ℕ → ℕ
digits (i ∷ is) (d ∷ ds) = i + d * digits is ds
digits _ _ = 0

all_but_last-accumulate :
    (ds : List ℕ) (x acc : ℕ)
    → all_but_last (x ∷ accumulate ds acc) ≡ x ∷ all_but_last (accumulate ds acc)
unfolding all_but_last accumulate
all_but_last-accumulate [] x acc = refl
all_but_last-accumulate (d ∷ ds) x acc = refl

sum_of_products-digits :
    (is ds : List ℕ) (acc : ℕ)
    → InBounds is ds
    → sum_of_products is (all_but_last (accumulate ds acc)) ≡ acc * digits is ds
unfolding sum_of_products accumulate
sum_of_products-digits [] [] acc h = omega arith
sum_of_products-digits (i ∷ is) (d ∷ ds) acc (h, hs) =
    let rest = sum_of_products-digits is ds (acc * d) hs in
    rw (all_but_last-accumulate ds acc (acc * d)) (omega (arith, rest))
sum_of_products-digits [] (d ∷ ds) acc h = absurd h
sum_of_products-digits (i ∷ is) [] acc h = absurd h

digits-prod : (is ds : List ℕ) → InBounds is ds → digits is ds < prod ds
unfolding prod
digits-prod [] [] h = omega arith
digits-prod (i ∷ is) (d ∷ ds) (h, hs) =
    let le = mul-le-mul_left d (digits-prod is ds hs) in omega (arith, le)
digits-prod [] (d ∷ ds) h = absurd h
digits-prod (i ∷ is) [] h = absurd h

compare-cases : (a b : ℕ) → (a ≡ b) ⊎ ((suc a ≤ b) ⊎ (suc b ≤ a))
compare-cases a b = ground arith

-- A digit and the rest, from the number.
digit-eq : (d i o j p : ℕ) → i < d → j < d → i + d * o ≡ j + d * p → (i ≡ j) × (o ≡ p)
digit-eq d i o j p h g e =
    let same : o ≡ p = elim (compare-cases o p) [
      | inl eq ↦ eq
      | inr (inl lt) ↦ let le = mul-le-mul_left d lt in absurd (omega (arith, le))
      | inr (inr gt) ↦ let le = mul-le-mul_left d gt in absurd (omega (arith, le))
    ] in
    (let m = ap (λ (t : ℕ). d * t) same in omega (arith, m), same)

digits-injective :
    (is js ds : List ℕ) → InBounds is ds → InBounds js ds → digits is ds ≡ digits js ds → is ≡ js
digits-injective [] [] [] h g e = refl
digits-injective (i ∷ is) (j ∷ js) (d ∷ ds) (h, hs) (g, gs) e =
    let (head, tail) = digit-eq d i (digits is ds) j (digits js ds) h g e in
    ap₂ ◌∷◌ head (digits-injective is js ds hs gs tail)
digits-injective [] (j ∷ js) [] h g e = absurd g
digits-injective [] (j ∷ js) (d ∷ ds) h g e = absurd h
digits-injective (i ∷ is) [] [] h g e = absurd h
digits-injective (i ∷ is) [] (d ∷ ds) h g e = absurd g
digits-injective [] [] (d ∷ ds) h g e = absurd h
digits-injective (i ∷ is) (j ∷ js) [] h g e = absurd h

InBounds-append :
    (is ds : List ℕ) (i d : ℕ) → InBounds is ds → i < d → InBounds (is ++ i ∷ []) (ds ++ d ∷ [])
InBounds-append [] [] i d h g = (g, tt)
InBounds-append (j ∷ is) (e ∷ ds) i d (h, hs) g = (h, InBounds-append is ds i d hs g)
InBounds-append [] (d' ∷ ds) i d h g = absurd h
InBounds-append (i' ∷ is) [] i d h g = absurd h

InBounds-reverse : (is ds : List ℕ) → InBounds is ds → InBounds (reverse is) (reverse ds)
InBounds-reverse [] [] h = tt
InBounds-reverse (i ∷ is) (d ∷ ds) (h, hs) =
    let rest = InBounds-append (reverse is) (reverse ds) i d (InBounds-reverse is ds hs) h in
    subst₂ InBounds (sym (reverse-cons i is)) (sym (reverse-cons d ds)) rest
InBounds-reverse [] (d ∷ ds) h = absurd h
InBounds-reverse (i ∷ is) [] h = absurd h

prod-append : (ds es : List ℕ) → prod (ds ++ es) ≡ prod ds * prod es
unfolding prod
prod-append [] es = omega arith
prod-append (d ∷ ds) es = rw (prod-append ds es) (omega arith)

prod-reverse : (ds : List ℕ) → prod (reverse ds) ≡ prod ds
unfolding prod
prod-reverse [] = refl
prod-reverse (d ∷ ds) =
    rw (reverse-cons d ds)
      (rw (prod-append (reverse ds) (d ∷ [])) (rw (prod-reverse ds) (omega arith)))

length-InBounds : (is ds : List ℕ) → InBounds is ds → length is ≡ length ds
length-InBounds [] [] h = refl
length-InBounds (i ∷ is) (d ∷ ds) (h, hs) = ap suc (length-InBounds is ds hs)
length-InBounds [] (d ∷ ds) h = absurd h
length-InBounds (i ∷ is) [] h = absurd h

ok-injective : {a b : ℕ} → ok a ≡ ok b → a ≡ b
ok-injective h = cc

eq_or_not : (a b : ℕ) → (a ≡ b) ⊎ (a ≢ b)
eq_or_not a b = ground arith

module _ {ℓ} {A : Type ℓ} where
  -- The offset of indices in bounds, as a number.
  offset-digits :
      (self : ShapedArray A) (is : List ℕ)
      → InBounds is self.shape
      → (offset is self ≡ ok (digits (reverse is) (reverse self.shape)))
        × (digits (reverse is) (reverse self.shape) < prod self.shape)
  unfolding offset
  offset-digits self is h =
      let r = InBounds-reverse is self.shape h in
      let e = sum_of_products-digits (reverse is) (reverse self.shape) 1 r in
      let l = length-InBounds is self.shape h in
      let b = digits-prod (reverse is) (reverse self.shape) r in
      (ground (arith, e, l), omega (arith, b, prod-reverse self.shape))

  same-offset :
      (self : ShapedArray A) (is js : List ℕ)
      → InBounds is self.shape
      → InBounds js self.shape
      → digits (reverse is) (reverse self.shape) ≡ digits (reverse js) (reverse self.shape)
      → is ≡ js
  same-offset self is js h g same =
      let r =
        digits-injective (reverse is) (reverse js) (reverse self.shape)
          (InBounds-reverse is self.shape h) (InBounds-reverse js self.shape g) same in
      sym (reverse-reverse is) ∙ (ap reverse r ∙ reverse-reverse js)

  -- `offset` of indices in bounds returns a place below the size of the array, and indices in
  -- bounds for which it returns the same place are the same.
  pub offset-injective :
      (self : ShapedArray A) (is js : List ℕ)
      → InBounds is self.shape
      → InBounds js self.shape
      → offset is self ≡ offset js self
      → ((n : ℕ) × (offset is self ≡ ok n) × (n < prod self.shape)) × (is ≡ js)
  offset-injective self is js h g e =
      let (at, below) = offset-digits self is h in
      let (at', _) = offset-digits self js g in
      ((_, at, below), same-offset self is js h g (ok-injective (sym at ∙ (e ∙ at'))))

  store-ok :
      (self : ShapedArray A) (is : List ℕ) (value : A) {n : ℕ}
      → offset is self ≡ ok n
      → n < length self.data_list
      → store is value self ≡ ok (record self { data_list = set self.data_list n value })
  unfolding store
  store-ok self is value e h = ground (arith, e, h)

  load-ok :
      (self : ShapedArray A) (is : List ℕ) {n : ℕ}
      → offset is self ≡ ok n
      → load is self ≡ index self.data_list n
  unfolding load
  load-ok self is e = ground (arith, e)

  -- In an array with as many elements as its shape has places, `store` at indices in bounds
  -- returns an array with that shape and as many elements, from which `load` at those indices
  -- gives the value, and at other indices in bounds what it gave before.
  pub load-store :
      (self : ShapedArray A) (is js : List ℕ) (value : A)
      → length self.data_list ≡ prod self.shape
      → InBounds is self.shape
      → InBounds js self.shape
      → (after : ShapedArray A) × (store is value self ≡ ok after)
        × (after.shape ≡ self.shape)
        × (length after.data_list ≡ prod self.shape)
        × (load is after ≡ ok value)
        × ((is ≡ js) ⊎ (load js after ≡ load js self))
  unfolding offset
  load-store self is js value size h g =
      let n = digits (reverse is) (reverse self.shape) in
      let m = digits (reverse js) (reverse self.shape) in
      let (e, b) = offset-digits self is h in
      let (e', _) = offset-digits self js g in
      let after = record self { data_list = set self.data_list n value } in
      let n< : n < length self.data_list = omega (arith, size, b) in
      (
        after,
        store-ok self is value e n<,
        refl,
        length-set self.data_list n value ∙ size,
        load-ok after is e
            ∙ ap (λ o. or_raise o index_error) (get_elem?-set_self self.data_list n value n<),
        elim (eq_or_not n m) [
          | inl eq ↦ inl (same-offset self is js h g eq)
          | inr ne ↦ inr (
              load-ok after js e'
              ∙ (ap (λ o. or_raise o index_error) (get_elem?-set_ne self.data_list n m value ne)
                  ∙ sym (load-ok self js e')))
        ],
      )
