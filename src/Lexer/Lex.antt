-- ===== src/Lexer/Lex.antt =====
-- The tokens of the `Lexer` of xdsl/utils/lexer.py, as functions of its state. The loop over a string
-- literal runs on fuel.
use xdsl.Prelude.{
  ℕ, zero, suc, ◌-◌, Bool, false, ◌&&◌, ◌||◌, Option, none, some, List, [], ◌∷◌, length, ltb, ◌==◌,
  if◌then◌else◌,
}
use xdsl.Result.{Result, ok, err, parse_error, assertion, out_of_fuel}
use xdsl.Lexer.Input.{at}
use xdsl.Lexer.Kind.{Kind, Token, find_spelling}
use xdsl.Lexer.Regex.{
  is_hexdigit, match_bare_identifier_suffix, match_suffix_id, match_unescaped, match_hexdigits,
  match_digits, match_fractional_suffix,
}
use xdsl.Lexer.State.{
  Chars, L, Lexer, advance, checked, consume_regex, consume_regex?, consume_whitespace, first_of,
  form_token, get_char, is_in_bounds, peeks, ◌>>=◌, ◌>>◌,
}

unfoldable pub lex_bare_identifier : ℕ → L Token
unfolding consume_regex match_bare_identifier_suffix form_token
lex_bare_identifier start_pos = do
  consume_regex match_bare_identifier_suffix
  form_token Kind.bare_ident start_pos

-- The characters that may follow a backslash.
abbrev pub is_escape : Option ℕ → Bool
is_escape none = false
is_escape (some c) = c == b'"' || c == b'\\' || c == b'n' || c == b't'

-- What the loop does with the character behind the unescaped ones: it returns, raises or goes on.
pub data StringStep : Type 0 where
  closed failed escaped continued : StringStep

unfoldable pub string_step : Option ℕ → StringStep
string_step none = continued
string_step (some c) =
    if c == b'"'
    then closed
    else if c == b'\n' || c == 11 || c == 12
    then failed
    else if c == b'\\'
    then escaped
    else continued

-- One turn of the loop; `again` is the next.
unfoldable pub string_escape : L Token → L Token
unfolding get_char
string_escape again = do escaped_char ← get_char; checked (is_escape escaped_char) again

unfoldable pub string_from : L Token → ℕ → StringStep → L Token
unfolding form_token string_escape
string_from again start_pos closed s = form_token Kind.string_lit start_pos s
string_from again start_pos failed s = err parse_error
string_from again start_pos escaped s = string_escape again s
string_from again start_pos continued s = again s

unfoldable pub string_turn : L Token → ℕ → L Token
unfolding consume_regex match_unescaped get_char string_step string_from
string_turn again start_pos = do
  consume_regex match_unescaped
  current_char ← get_char
  string_from again start_pos (string_step current_char)

unfoldable pub lex_string_literal : ℕ → ℕ → L Token
unfolding is_in_bounds string_turn
lex_string_literal zero start_pos s = err out_of_fuel
lex_string_literal (suc fuel) start_pos s =
    checked (is_in_bounds 1 s) (string_turn (lex_string_literal fuel start_pos) start_pos) s

-- The fuel for a string literal in this text.
abbrev pub string_fuel : Lexer → ℕ
string_fuel s = suc (length s.input.content)

-- A token with the span of another, and the kind of an at-identifier.
abbrev pub as_at_ident : L Token → L Token
as_at_ident m = do token ← m; form_token Kind.at_ident token.span.start

module _ (chars : Chars) where
  unfoldable pub lex_at_ident_from : ℕ → Option ℕ → L Token
  unfolding lex_bare_identifier lex_string_literal form_token
  lex_at_ident_from start_pos none s = err parse_error
  lex_at_ident_from start_pos (some c) s =
      if chars.isalpha c || c == b'_'
      then as_at_ident (lex_bare_identifier start_pos) s
      else if c == b'"'
      then as_at_ident (lex_string_literal (string_fuel s) start_pos) s
      else err parse_error

  unfoldable pub lex_at_ident : ℕ → L Token
  unfolding lex_at_ident_from get_char
  lex_at_ident start_pos = do current_char ← get_char; lex_at_ident_from start_pos current_char

-- The kind of an identifier with this character before it.
unfoldable pub prefix_kind : Option ℕ → Result Kind
prefix_kind none = err assertion
prefix_kind (some c) =
    if c == b'#'
    then ok Kind.hash_ident
    else if c == b'!'
    then ok Kind.exclamation_ident
    else if c == b'^'
    then ok Kind.caret_ident
    else if c == b'%'
    then ok Kind.percent_ident
    else err assertion

unfoldable pub lex_suffix : Result Kind → ℕ → L Token
unfolding consume_regex? match_suffix_id form_token
lex_suffix (err e) start_pos s = err e
lex_suffix (ok kind) start_pos s =
    (do matched ← consume_regex? match_suffix_id; checked matched (form_token kind start_pos)) s

unfoldable pub lex_prefixed_ident : ℕ → L Token
unfolding prefix_kind at lex_suffix
lex_prefixed_ident start_pos s =
    if s.pos == 0
    then err assertion
    else lex_suffix (prefix_kind (at (s.pos - 1) s.input)) start_pos s

abbrev is_some_and : (ℕ → Bool) → Option ℕ → Bool
is_some_and p none = false
is_some_and p (some c) = p c

-- The test for `0x` and a hexadecimal digit.
unfoldable pub is_hexadecimal : Lexer → Bool
unfolding at peeks is_in_bounds
is_hexadecimal s =
    is_some_and (λ c. c == b'0') (at (s.pos - 1) s.input)
    && peeks 1 (b'x' ∷ []) s
    && is_in_bounds 2 s
    && is_some_and is_hexdigit (at (suc s.pos) s.input)

unfoldable pub lex_number : ℕ → L Token
unfolding is_hexadecimal consume_regex match_hexdigits match_digits consume_regex?
    match_fractional_suffix form_token
lex_number start_pos s =
    if is_hexadecimal s
    then (do advance 2; consume_regex match_hexdigits; form_token Kind.integer_lit start_pos) s
    else (do
      consume_regex match_digits
      matched ← consume_regex? match_fractional_suffix
      form_token (if matched then Kind.float_lit else Kind.integer_lit) start_pos)
        s

-- `single_char_punctuation`
abbrev pub single_char_punctuation : List (List ℕ × Kind)
single_char_punctuation =
    (b':' ∷ [], Kind.colon)
    ∷ (b',' ∷ [], Kind.comma)
    ∷ (b'(' ∷ [], Kind.l_paren)
    ∷ (b')' ∷ [], Kind.r_paren)
    ∷ (b'}' ∷ [], Kind.r_brace)
    ∷ (b'[' ∷ [], Kind.l_square)
    ∷ (b']' ∷ [], Kind.r_square)
    ∷ (b'<' ∷ [], Kind.less)
    ∷ (b'>' ∷ [], Kind.greater)
    ∷ (b'=' ∷ [], Kind.equal)
    ∷ (b'+' ∷ [], Kind.plus)
    ∷ (b'*' ∷ [], Kind.star)
    ∷ (b'?' ∷ [], Kind.question)
    ∷ (b'|' ∷ [], Kind.vertical_bar)
    ∷ []

-- A token that is longer where the text goes on as given.
unfoldable pub lex_longer : ℕ → List ℕ → Kind → Kind → ℕ → L Token
unfolding peeks form_token
lex_longer size more longer shorter start_pos s =
    if peeks size more s
    then (advance size >> form_token longer start_pos) s
    else form_token shorter start_pos s

-- `self._get_chars(2) != ".."`
unfoldable pub lex_ellipsis : ℕ → L Token
unfolding peeks form_token
lex_ellipsis start_pos s =
    checked (peeks 2 (b'.' ∷ b'.' ∷ []) s) (advance 2 >> form_token Kind.ellipsis start_pos) s

module _ (chars : Chars) where
  -- The tests of `lex` that come after the punctuation of one character.
  unfoldable pub lex_cases : ℕ → ℕ → Lexer → List (Bool × L Token)
  unfolding lex_ellipsis lex_longer peeks lex_at_ident lex_prefixed_ident lex_string_literal
      lex_number form_token
  lex_cases c start_pos s =
      (c == b'.', lex_ellipsis start_pos)
      ∷ (c == b'-', lex_longer 1 (b'>' ∷ []) Kind.arrow Kind.minus start_pos)
      ∷ (c == b'{', lex_longer 2 (b'-' ∷ b'#' ∷ []) Kind.file_metadata_begin Kind.l_brace start_pos)
      ∷ (
        (c == b'#') && peeks 2 (b'-' ∷ b'}' ∷ []) s,
        advance 2 >> form_token Kind.file_metadata_end start_pos,
      )
      ∷ (c == b'@', lex_at_ident chars start_pos)
      ∷ (c == b'#' || c == b'!' || c == b'^' || c == b'%', lex_prefixed_ident start_pos)
      ∷ (c == b'"', lex_string_literal (string_fuel s) start_pos)
      ∷ (chars.isnumeric c, lex_number start_pos)
      ∷ []

  unfoldable pub lex_other : ℕ → ℕ → L Token
  unfolding lex_cases
  lex_other c start_pos s = first_of (lex_cases c start_pos s) s

  -- On what `single_char_punctuation` has for the character.
  unfoldable pub lex_single : Option Kind → ℕ → ℕ → L Token
  unfolding lex_other form_token
  lex_single none c start_pos s = lex_other c start_pos s
  lex_single (some kind) c start_pos s = form_token kind start_pos s

  -- `lex` behind the whitespace, at the character that it has read.
  unfoldable pub lex_from : ℕ → Option ℕ → L Token
  unfolding lex_bare_identifier find_spelling lex_single form_token
  lex_from start_pos none s = form_token Kind.eof start_pos s
  lex_from start_pos (some c) s =
      if chars.isalpha c || c == b'_'
      then lex_bare_identifier start_pos s
      else lex_single (find_spelling (c ∷ []) single_char_punctuation) c start_pos s

  -- `lex` at a position of the text
  unfoldable pub lex_inside : L Token
  unfolding consume_whitespace get_char lex_from
  lex_inside s =
      (do consume_whitespace; (λ t. (do current_char ← get_char; lex_from t.pos current_char) t)) s

  -- At a position behind the text, the whitespace matches at its end.
  unfoldable pub lex : L Token
  unfolding lex_inside
  lex s =
      let size = length s.input.content in
      if ltb size s.pos then lex_inside (record s { pos = size }) else lex_inside s
