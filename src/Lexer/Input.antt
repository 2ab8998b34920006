-- ===== src/Lexer/Input.antt =====
-- `Input` and `Span` of xdsl/utils/lexer.py, and parts of a text. Positions are not negative.
use xdsl.Prelude.{
  ℕ, zero, suc, ◌-◌, ◌≡◌, Option, none, some, List, [], ◌∷◌, length, get_elem?, ltb, if◌then◌else◌,
  arith,
}
use xdsl.Prelude.Slices.{take, drop}

pub record Input : Type 0 where
  pub content : List ℕ

-- `Input.at`
unfoldable pub at : ℕ → Input → Option ℕ
at i self = get_elem? self.content i

-- `Input.slice`
unfoldable pub slice : ℕ → ℕ → Input → Option (List ℕ)
unfolding take drop
slice start end self =
    if ltb (length self.content) end
    then none
    else some (take (end - start) (drop start self.content))

pub record Span : Type 0 where
  pub start : ℕ
  pub end : ℕ
  pub input : Input

-- `Span.text`
unfoldable pub text : Span → List ℕ
unfolding take drop
text self = take (self.end - self.start) (drop self.start self.input.content)

-- One character further on.
pub drop-suc {ℓ} :
    {A : Type ℓ} (n : ℕ) (xs : List A) (y : A) (ys : List A)
    → drop n xs ≡ y ∷ ys
    → drop (suc n) xs ≡ ys
unfolding drop
drop-suc zero [] y ys h = cc
drop-suc zero (x ∷ xs) y ys h = ground (arith, h)
drop-suc (suc n) [] y ys h = cc
drop-suc (suc n) (x ∷ xs) y ys h = drop-suc n xs y ys h

pub get_elem?-drop {ℓ} :
    {A : Type ℓ} (n : ℕ) (xs : List A) (y : A) (ys : List A)
    → drop n xs ≡ y ∷ ys
    → get_elem? xs n ≡ some y
unfolding drop
get_elem?-drop zero [] y ys h = cc
get_elem?-drop zero (x ∷ xs) y ys h = ground (arith, h)
get_elem?-drop (suc n) [] y ys h = cc
get_elem?-drop (suc n) (x ∷ xs) y ys h = get_elem?-drop n xs y ys h
