-- ===== src/Lexer/Kind.antt =====
-- `Token.Kind` of xdsl/utils/lexer.py, and the spellings of punctuation.
use xdsl.Prelude.{
  ℕ, Bool, true, false, Option, none, some, List, [], ◌∷◌, ◌&&◌, ◌==◌, if◌then◌else◌,
}
use xdsl.Result.{Result, or_raise, assertion}
use xdsl.Lexer.Input.{Span}

pub data Kind : Type 0 where
  eof : Kind
  bare_ident at_ident hash_ident percent_ident caret_ident exclamation_ident : Kind
  float_lit integer_lit string_lit : Kind
  arrow colon comma ellipsis equal greater l_brace l_paren l_square less minus plus question : Kind
  r_brace r_paren r_square star vertical_bar file_metadata_begin file_metadata_end : Kind

pub record Token : Type 0 where
  pub kind : Kind
  pub span : Span

-- Equality of texts.
unfoldable pub text_eq : List ℕ → List ℕ → Bool
text_eq [] [] = true
text_eq (x ∷ xs) (y ∷ ys) = (x == y) && text_eq xs ys
text_eq _ _ = false

-- `get_punctuation_spelling_to_kind_dict`
abbrev pub punctuation_spelling_to_kind : List (List ℕ × Kind)
punctuation_spelling_to_kind =
    (b'-' ∷ b'>' ∷ [], arrow)
    ∷ (b':' ∷ [], colon)
    ∷ (b',' ∷ [], comma)
    ∷ (b'.' ∷ b'.' ∷ b'.' ∷ [], ellipsis)
    ∷ (b'=' ∷ [], equal)
    ∷ (b'>' ∷ [], greater)
    ∷ (b'{' ∷ [], l_brace)
    ∷ (b'(' ∷ [], l_paren)
    ∷ (b'[' ∷ [], l_square)
    ∷ (b'<' ∷ [], less)
    ∷ (b'-' ∷ [], minus)
    ∷ (b'+' ∷ [], plus)
    ∷ (b'?' ∷ [], question)
    ∷ (b'}' ∷ [], r_brace)
    ∷ (b')' ∷ [], r_paren)
    ∷ (b']' ∷ [], r_square)
    ∷ (b'*' ∷ [], star)
    ∷ (b'|' ∷ [], vertical_bar)
    ∷ (b'{' ∷ b'-' ∷ b'#' ∷ [], file_metadata_begin)
    ∷ (b'#' ∷ b'-' ∷ b'}' ∷ [], file_metadata_end)
    ∷ []

-- `dict[spelling]`
unfoldable pub find_spelling : List ℕ → List (List ℕ × Kind) → Option Kind
unfolding text_eq
find_spelling spelling [] = none
find_spelling spelling ((s, k) ∷ rest) =
    if text_eq spelling s then some k else find_spelling spelling rest

unfoldable pub is_spelling_of_punctuation : List ℕ → Bool
unfolding find_spelling
is_spelling_of_punctuation spelling = elim (find_spelling spelling punctuation_spelling_to_kind) [
  | none ↦ false
  | some k ↦ true
]

unfoldable pub get_punctuation_kind_from_spelling : List ℕ → Result Kind
unfolding find_spelling
get_punctuation_kind_from_spelling spelling =
    or_raise (find_spelling spelling punctuation_spelling_to_kind) assertion
