-- ===== src/Result.antt =====
-- Python code that may raise: a value, or the class of the exception. Shared by all components.
use xdsl.Prelude.{
  ◌≡◌, refl, Bool, true, false, Option, none, some, List, [], ◌∷◌, ℕ, zero, suc, get_elem?, length,
  ◌⊎◌, inl, inr, arith,
}

pub data Exn : Type 0 where
  value_error not_implemented index_error zero_division key_error assertion exception parse_error
        verify interpretation out_of_fuel :
      Exn

pub data Result {ℓ} (A : Type ℓ) : Type ℓ where
  ok : A → Result A
  err : Exn → Result A

-- `if not test: raise exn`
abbrev pub guard : Bool → Exn → Result (Unit {0})
guard false exn = err exn
guard true exn = ok tt

module _ {ℓ κ} {A : Type ℓ} {B : Type κ} where
  infixl 5 ◌>>=◌
  abbrev pub ◌>>=◌ : Result A → (A → Result B) → Result B
  err exn >>= next = err exn
  ok value >>= next = next value

  -- A successful chain has a successful first step, and the rest succeeds on its value.
  pub >>=-eq-ok :
      (first : Result A) (next : A → Result B) {result : B}
      → (first >>= next) ≡ ok result
      → (value : A) × (first ≡ ok value) × (next value ≡ ok result)
  >>=-eq-ok (err exn) next h = cc
  >>=-eq-ok (ok value) next h = (value, refl, h)

infixl 5 ◌>>◌
abbrev pub ◌>>◌ {ℓ} : {B : Type ℓ} → Result (Unit {0}) → Result B → Result B
first >> next = first >>= λ done. next

-- The value of an option, or an exception where there is none.
abbrev pub or_raise {ℓ} : {A : Type ℓ} → Option A → Exn → Result A
or_raise none e = err e
or_raise (some a) e = ok a

-- `xs[i]` on a tuple or list, for an index that is not negative.
abbrev pub index {ℓ} : {A : Type ℓ} → List A → ℕ → Result A
index xs i = or_raise (get_elem? xs i) Exn.index_error

-- A comprehension whose body may raise.
unfoldable pub traverse {ℓ κ} :
    {A : Type ℓ} {B : Type κ} → (A → Result B) → List A → Result (List B)
traverse f [] = ok []
traverse f (x ∷ xs) = do y ← f x; ys ← traverse f xs; ok (y ∷ ys)

pub Result-cases {ℓ} :
    {A : Type ℓ} (r : Result A) → ((a : A) × (r ≡ ok a)) ⊎ ((e : Exn) × (r ≡ err e))
Result-cases (ok a) = inl (a, refl)
Result-cases (err e) = inr (e, refl)

-- What a comprehension collects at a position is the value of the body there.
pub traverse-index {ℓ κ} :
    {A : Type ℓ} {B : Type κ} (f : A → Result B) (xs : List A) (ys : List B) (p : ℕ) (x : A)
    → traverse f xs ≡ ok ys
    → get_elem? xs p ≡ some x
    → f x ≡ index ys p
unfolding traverse
traverse-index f [] ys p x t g = cc
traverse-index f (x' ∷ xs) ys zero x t g =
    let (y, fy, t') = >>=-eq-ok (f x') _ t in
    let (ys', fys, e) = >>=-eq-ok (traverse f xs) _ t' in ground (arith, fy, e, g)
traverse-index f (x' ∷ xs) ys (suc p) x t g =
    let (y, fy, t') = >>=-eq-ok (f x') _ t in
    let (ys', fys, e) = >>=-eq-ok (traverse f xs) _ t' in
    let rest = traverse-index f xs ys' p x fys g in ground (arith, rest, e)

pub length-traverse {ℓ κ} :
    {A : Type ℓ} {B : Type κ} (f : A → Result B) (xs : List A) (ys : List B)
    → traverse f xs ≡ ok ys
    → length ys ≡ length xs
unfolding traverse
length-traverse f [] ys t = ground arith
length-traverse f (x ∷ xs) ys t =
    let (y, fy, t') = >>=-eq-ok (f x) _ t in
    let (ys', fys, e) = >>=-eq-ok (traverse f xs) _ t' in
    let rest = length-traverse f xs ys' fys in ground (arith, rest, e)

pub guard-ok : (b : Bool) (e : Exn) {u : Unit {0}} → guard b e ≡ ok u → b ≡ true
guard-ok true e h = refl
guard-ok false e h = cc
