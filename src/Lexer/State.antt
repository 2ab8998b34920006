-- ===== src/Lexer/State.antt =====
-- The state of the `Lexer` of xdsl/utils/lexer.py, and the methods that read characters. `str.isalpha`
-- and `str.isnumeric` of a character are parameters; they know all of Unicode.
use xdsl.Prelude.{
  ℕ, suc, ◌+◌, ◌-◌, Bool, true, false, Option, none, some, List, [], ◌∷◌, length, ltb,
  if◌then◌else◌,
}
use xdsl.Prelude.Slices.{drop}
use xdsl.Result.{Exn, Result, ok, err, parse_error}
use xdsl.Lexer.Input.{Input, at, slice}
use xdsl.Lexer.Kind.{Kind, Token, text_eq}
use xdsl.Lexer.Regex.{match_whitespace}

pub record Lexer : Type 0 where
  pub input : Input
  pub pos : ℕ

pub record Chars : Type 0 where
  pub isalpha : ℕ → Bool
  pub isnumeric : ℕ → Bool

abbrev pub L {ℓ} : Type ℓ → Type ℓ
L A = Lexer → Result (A × Lexer)

infixl 5 ◌>>=◌
abbrev pub ◌>>=◌ {ℓ κ} : {A : Type ℓ} {B : Type κ} → L A → (A → L B) → L B
◌>>=◌ m f s = elim (m s) [ err e ↦ err e | ok (a, s') ↦ f a s' ]

infixl 5 ◌>>◌
abbrev pub ◌>>◌ {ℓ} : {B : Type ℓ} → L (Unit {0}) → L B → L B
m >> k = m >>= λ done. k

abbrev pub raise {ℓ} : {A : Type ℓ} → Exn → L A
raise e s = err e

-- Go on only if the test holds; otherwise the text is refused.
abbrev pub checked {ℓ} : {A : Type ℓ} → Bool → L A → L A
checked true m s = m s
checked false m s = err parse_error

-- `if ...: return ...`, one after the other, and then the text is refused.
abbrev pub first_of {ℓ} : {A : Type ℓ} → List (Bool × L A) → L A
first_of [] s = err parse_error
first_of ((b, m) ∷ rest) s = if b then m s else first_of rest s

abbrev pub advance : ℕ → L (Unit {0})
advance size s = ok (tt, record s { pos = s.pos + size })

-- The text from the position on, which the regular expressions match.
abbrev pub rest_of : Lexer → List ℕ
rest_of s = drop s.pos s.input.content

-- `_is_in_bounds`, for a size that is not 0
unfoldable pub is_in_bounds : ℕ → Lexer → Bool
is_in_bounds size s = ltb (s.pos + size - 1) (length s.input.content)

unfoldable pub get_chars : ℕ → L (Option (List ℕ))
unfolding slice
get_chars size s = ok (slice s.pos (s.pos + size) s.input, record s { pos = s.pos + size })

-- `_get_chars()`, a single character
unfoldable pub get_char : L (Option ℕ)
unfolding at
get_char s = ok (at s.pos s.input, record s { pos = suc s.pos })

unfoldable pub peek_chars : ℕ → Lexer → Option (List ℕ)
unfolding slice
peek_chars size s = slice s.pos (s.pos + size) s.input

-- `self._peek_chars(size) == spelling`
unfoldable pub peeks : ℕ → List ℕ → Lexer → Bool
unfolding peek_chars text_eq
peeks size spelling s = elim (peek_chars size s) [ none ↦ false | some cs ↦ text_eq cs spelling ]

-- `_consume_regex` at a position of the text, for an expression that always matches, and for one that
-- may not
unfoldable pub consume_regex : (List ℕ → ℕ) → L (Unit {0})
unfolding drop
consume_regex regex s = advance (regex (rest_of s)) s

unfoldable pub consume_match : Option ℕ → L Bool
consume_match none s = ok (false, s)
consume_match (some n) s = ok (true, record s { pos = s.pos + n })

unfoldable pub consume_regex? : (List ℕ → Option ℕ) → L Bool
unfolding drop consume_match
consume_regex? regex s = consume_match (regex (rest_of s)) s

unfoldable pub consume_whitespace : L (Unit {0})
unfolding consume_regex match_whitespace
consume_whitespace = consume_regex (match_whitespace false)

unfoldable pub form_token : Kind → ℕ → L Token
form_token kind start_pos s =
    ok
      (record { kind = kind; span = record { start = start_pos; end = s.pos; input = s.input } }, s)
