-- ===== src/Interpreters/ShapedArray.antt =====
-- xdsl/interpreters/shaped_array.py, at indices that are not negative.
pub mod Offset
use xdsl.Prelude.{
  ℕ, ◌+◌, ◌*◌, not, List, [], ◌∷◌, reverse, length, set, replicate, ltb, ◌==◌, if◌then◌else◌,
}
use xdsl.Result.{Result, ok, err, ◌>>=◌, index, value_error, index_error}

pub record ShapedArray {ℓ} (A : Type ℓ) : Type ℓ where
  pub data_list : List A
  pub shape : List ℕ

unfoldable pub prod : List ℕ → ℕ
prod [] = 1
prod (d ∷ ds) = d * prod ds

-- The constructor, at a list of data or at one element.
abbrev pub of_list {ℓ} : {A : Type ℓ} → List A → List ℕ → ShapedArray A
of_list data_list shape = record { data_list = data_list; shape = shape }

abbrev pub of_element {ℓ} : {A : Type ℓ} → A → List ℕ → ShapedArray A
of_element element shape = record { data_list = replicate (prod shape) element; shape = shape }

-- `accumulate(xs, operator.mul, initial=acc)`
unfoldable pub accumulate : List ℕ → ℕ → List ℕ
accumulate [] acc = acc ∷ []
accumulate (x ∷ xs) acc = acc ∷ accumulate xs (acc * x)

-- `xs[:-1]`
unfoldable pub all_but_last : List ℕ → List ℕ
all_but_last [] = []
all_but_last (x ∷ []) = []
all_but_last (x ∷ y ∷ xs) = x ∷ all_but_last (y ∷ xs)

-- `sum(map(operator.mul, xs, ys))`
unfoldable pub sum_of_products : List ℕ → List ℕ → ℕ
sum_of_products (x ∷ xs) (y ∷ ys) = x * y + sum_of_products xs ys
sum_of_products _ _ = 0

module _ {ℓ} {A : Type ℓ} where
  unfoldable pub offset : List ℕ → ShapedArray A → Result ℕ
  unfolding accumulate all_but_last sum_of_products
  offset indices self =
      let prod_dims = all_but_last (accumulate (reverse self.shape) 1) in
      if not (length indices == length self.shape)
      then err value_error
      else ok (sum_of_products (reverse indices) prod_dims)

  unfoldable pub load : List ℕ → ShapedArray A → Result A
  unfolding offset
  load indices self = offset indices self >>= (λ i. index self.data_list i)

  unfoldable pub store : List ℕ → A → ShapedArray A → Result (ShapedArray A)
  unfolding offset
  store indices value self = offset indices self >>= (λ i.
      if ltb i (length self.data_list)
      then ok (record self { data_list = set self.data_list i value })
      else err index_error)
