-- ===== src/Lexer/Regex.antt =====
-- The regular expressions of the lexer, xdsl/utils/lexer.py: the length of the match at the start of a
-- text, or none. `\s` is that of ASCII.
use xdsl.Prelude.{
  ℕ, zero, suc, ◌+◌, Bool, true, false, ◌&&◌, ◌||◌, not, Option, none, some, List, [], ◌∷◌, leb,
  ◌==◌, if◌then◌else◌,
}
use xdsl.Prelude.Slices.{drop}

abbrev pub within : ℕ → ℕ → ℕ → Bool
within lo hi c = leb lo c && leb c hi

unfoldable pub is_digit : ℕ → Bool
is_digit c = within b'0' b'9' c

unfoldable pub is_letter : ℕ → Bool
is_letter c = within b'a' b'z' c || within b'A' b'Z' c

unfoldable pub is_hexdigit : ℕ → Bool
unfolding is_digit
is_hexdigit c = is_digit c || within b'a' b'f' c || within b'A' b'F' c

-- Tab, newline, vertical tab, form feed, carriage return and space.
unfoldable pub is_space : ℕ → Bool
is_space c = within 9 13 c || c == b' '

-- `[...]*`
unfoldable pub match_star : (ℕ → Bool) → List ℕ → ℕ
match_star p [] = 0
match_star p (c ∷ cs) = elim (p c) [ true ↦ suc (match_star p cs) | false ↦ 0 ]

abbrev starts_with_slash : List ℕ → Bool
starts_with_slash [] = false
starts_with_slash (c ∷ cs) = c == b'/'

-- Whether the text goes on as whitespace, and as a comment, after a character of it.
unfoldable pub whitespace_step : Bool → ℕ → List ℕ → Option Bool
unfolding is_space
whitespace_step true c cs = some (not (c == b'\n'))
whitespace_step false c cs =
    if is_space c
    then some false
    else if (c == b'/') && starts_with_slash cs
    then some true
    else none

-- `((//[^\n]*(\n)?)|(\s+))*`, in a comment or not
unfoldable pub match_whitespace : Bool → List ℕ → ℕ
unfolding is_space whitespace_step
match_whitespace in_comment [] = 0
match_whitespace in_comment (c ∷ cs) = elim (whitespace_step in_comment c cs) [
  | none ↦ 0
  | some in_comment' ↦ suc (match_whitespace in_comment' cs)
]

unfoldable pub is_bare_char : ℕ → Bool
unfolding is_letter is_digit
is_bare_char c = is_letter c || is_digit c || c == b'_' || c == b'$' || c == b'.'

-- `[a-zA-Z0-9_$.]*`
unfoldable pub match_bare_identifier_suffix : List ℕ → ℕ
unfolding match_star is_bare_char
match_bare_identifier_suffix = match_star is_bare_char

unfoldable pub is_suffix_start : ℕ → Bool
unfolding is_letter
is_suffix_start c = is_letter c || c == b'$' || c == b'.' || c == b'_' || c == b'-'

unfoldable pub is_suffix_char : ℕ → Bool
unfolding is_suffix_start is_digit
is_suffix_char c = is_suffix_start c || is_digit c

-- `([0-9]+|[a-zA-Z$._-][a-zA-Z0-9$._-]*)`
unfoldable pub match_suffix_id : List ℕ → Option ℕ
unfolding match_star is_digit is_suffix_start is_suffix_char
match_suffix_id [] = none
match_suffix_id (c ∷ cs) =
    if is_digit c
    then some (suc (match_star is_digit cs))
    else if is_suffix_start c
    then some (suc (match_star is_suffix_char cs))
    else none

unfoldable pub is_unescaped : ℕ → Bool
is_unescaped c = not (c == b'"' || c == b'\\' || c == b'\n' || c == 11 || c == 12)

-- `[^"\\\n\v\f]*`
unfoldable pub match_unescaped : List ℕ → ℕ
unfolding match_star is_unescaped
match_unescaped = match_star is_unescaped

unfoldable pub match_hexdigits : List ℕ → ℕ
unfolding match_star is_hexdigit
match_hexdigits = match_star is_hexdigit

unfoldable pub match_digits : List ℕ → ℕ
unfolding match_star is_digit
match_digits = match_star is_digit

-- `[0-9]+`, after a prefix of this length
unfoldable pub match_exponent_digits : ℕ → List ℕ → ℕ
unfolding match_star is_digit
match_exponent_digits before cs = elim (match_star is_digit cs) [
  | zero ↦ 0
  | suc n ↦ before + suc n
]

-- `([eE][+-]?[0-9]+)?`
unfoldable pub match_exponent : List ℕ → ℕ
unfolding match_exponent_digits
match_exponent [] = 0
match_exponent (e ∷ []) = 0
match_exponent (e ∷ c ∷ cs) =
    if e == b'e' || e == b'E'
    then if c == b'+' || c == b'-'
      then match_exponent_digits 2 cs
      else match_exponent_digits 1 (c ∷ cs)
    else 0

-- `\.[0-9]*([eE][+-]?[0-9]+)?`
unfoldable pub match_fractional_suffix : List ℕ → Option ℕ
unfolding match_star is_digit match_exponent drop
match_fractional_suffix [] = none
match_fractional_suffix (c ∷ cs) =
    let digits = match_star is_digit cs in
    if c == b'.' then some (suc digits + match_exponent (drop digits cs)) else none
