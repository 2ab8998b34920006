-- ===== src/Parser.antt =====
-- `ParserState` and `BaseParser` of xdsl/parser/base_parser.py, on the lexer. A list is parsed on fuel. The
-- values of literals are computed by Python, `int` and `ast.literal_eval`, which are parameters.
pub mod Steady
pub mod Literals
pub mod Lists
pub mod AffineParser
use xdsl.Prelude.{
  ℕ, zero, suc, Bool, true, false, Option, none, some, List, [], ◌∷◌, ◌==◌, if◌then◌else◌,
}
use xdsl.Result.{Exn, Result, ok, err, parse_error, assertion, value_error, out_of_fuel}
use xdsl.Lexer.Kind.{Kind, Token, get_punctuation_kind_from_spelling}
use xdsl.Lexer.State.{Lexer, Chars}
use xdsl.Lexer.Lex.{lex}

-- A number for each kind.
abbrev pub kind_code : Kind → ℕ
kind_code Kind.eof = 0
kind_code Kind.bare_ident = 1
kind_code Kind.at_ident = 2
kind_code Kind.hash_ident = 3
kind_code Kind.percent_ident = 4
kind_code Kind.caret_ident = 5
kind_code Kind.exclamation_ident = 6
kind_code Kind.float_lit = 7
kind_code Kind.integer_lit = 8
kind_code Kind.string_lit = 9
kind_code Kind.arrow = 10
kind_code Kind.colon = 11
kind_code Kind.comma = 12
kind_code Kind.ellipsis = 13
kind_code Kind.equal = 14
kind_code Kind.greater = 15
kind_code Kind.l_brace = 16
kind_code Kind.l_paren = 17
kind_code Kind.l_square = 18
kind_code Kind.less = 19
kind_code Kind.minus = 20
kind_code Kind.plus = 21
kind_code Kind.question = 22
kind_code Kind.r_brace = 23
kind_code Kind.r_paren = 24
kind_code Kind.r_square = 25
kind_code Kind.star = 26
kind_code Kind.vertical_bar = 27
kind_code Kind.file_metadata_begin = 28
kind_code Kind.file_metadata_end = 29

-- `==` of kinds
abbrev pub same_kind : Kind → Kind → Bool
same_kind a b = kind_code a == kind_code b

pub record ParserState : Type 0 where
  pub lexer : Lexer
  pub current_token : Token

abbrev pub P {ℓ} : Type ℓ → Type ℓ
P A = ParserState → Result (A × ParserState)

-- What a parser goes on with.
abbrev pub continue {ℓ κ} :
    {A : Type ℓ} {B : Type κ} → Result (A × ParserState) → (A → P B) → Result (B × ParserState)
continue (err e) f = err e
continue (ok (a, p)) f = f a p

infixl 5 ◌>>=◌
abbrev pub ◌>>=◌ {ℓ κ} : {A : Type ℓ} {B : Type κ} → P A → (A → P B) → P B
◌>>=◌ m f p = continue (m p) f

infixl 5 ◌>>◌
abbrev pub ◌>>◌ {ℓ κ} : {A : Type ℓ} {B : Type κ} → P A → P B → P B
m >> k = m >>= λ done. k

abbrev pub pure {ℓ} : {A : Type ℓ} → A → P A
pure a p = ok (a, p)

abbrev pub raise {ℓ} : {A : Type ℓ} → Exn → P A
raise e p = err e

-- The parser state with the next token.
abbrev pub with_token {ℓ} : {A : Type ℓ} → A → Result (Token × Lexer) → Result (A × ParserState)
with_token a (err e) = err e
with_token a (ok (token, lexer)) = ok (a, record { lexer = lexer; current_token = token })

-- `Delimiter`
pub data Delimiter : Type 0 where
  paren angle square braces undelimited : Delimiter

abbrev pub delimiter_value : Delimiter → Option (List ℕ × List ℕ)
delimiter_value paren = some (b'(' ∷ [], b')' ∷ [])
delimiter_value angle = some (b'<' ∷ [], b'>' ∷ [])
delimiter_value square = some (b'[' ∷ [], b']' ∷ [])
delimiter_value braces = some (b'{' ∷ [], b'}' ∷ [])
delimiter_value undelimited = none

-- `expect`, on what the function has returned
abbrev pub or_parse_error {ℓ} : {A : Type ℓ} → Option A → P A
or_parse_error none = raise parse_error
or_parse_error (some a) = pure a

abbrev pub expect {ℓ} : {A : Type ℓ} → P (Option A) → P A
expect try_parse = try_parse >>= or_parse_error

abbrev pub has_kind : Kind → List Kind → Bool
has_kind k [] = false
has_kind k (k' ∷ ks) = if same_kind k k' then true else has_kind k ks

module _ (chars : Chars) where
  -- `_resume_from` a position
  unfoldable pub resume_from : ℕ → P (Unit {0})
  unfolding lex
  resume_from pos p = with_token tt (lex chars (record p.lexer { pos = pos }))

  -- `_consume_token()`
  unfoldable pub consume_token : P Token
  unfolding lex
  consume_token p = with_token p.current_token (lex chars p.lexer)

  -- `_consume_token(expected_kind)`
  unfoldable pub consume_expected : Kind → P Token
  unfolding consume_token
  consume_expected expected_kind p =
      if same_kind p.current_token.kind expected_kind then consume_token p else err assertion

  unfoldable pub parse_optional_token : Kind → P (Option Token)
  unfolding consume_expected
  parse_optional_token expected_kind p =
      if same_kind p.current_token.kind expected_kind
      then (do token ← consume_expected expected_kind; pure (some token)) p
      else ok (none, p)

  unfoldable pub parse_token : Kind → P Token
  unfolding consume_expected
  parse_token expected_kind p =
      if same_kind p.current_token.kind expected_kind
      then consume_expected expected_kind p
      else err parse_error

  unfoldable pub parse_optional_token_in : List Kind → P (Option Token)
  unfolding consume_token
  parse_optional_token_in expected_kinds p =
      if has_kind p.current_token.kind expected_kinds
      then (do token ← consume_token; pure (some token)) p
      else ok (none, p)

  abbrev pub found {ℓ} : {A : Type ℓ} → A → Option Token → P (Option A)
  found a none = pure none
  found a (some token) = pure (some a)

  abbrev pub with_kind {ℓ} : {A : Type ℓ} → Result Kind → (Kind → P A) → P A
  with_kind (err e) f = raise e
  with_kind (ok kind) f = f kind

  unfoldable pub parse_optional_punctuation : List ℕ → P (Option (List ℕ))
  unfolding parse_optional_token get_punctuation_kind_from_spelling
  parse_optional_punctuation punctuation =
      with_kind (get_punctuation_kind_from_spelling punctuation)
        (λ kind. do token ← parse_optional_token kind; found punctuation token)

  unfoldable pub parse_punctuation : List ℕ → P (List ℕ)
  unfolding parse_token get_punctuation_kind_from_spelling
  parse_punctuation punctuation =
      with_kind (get_punctuation_kind_from_spelling punctuation)
        (λ kind. do parse_token kind; pure punctuation)

  module _ {ℓ} {A : Type ℓ} where
    -- The loop over the elements behind the first; `again` is the next turn.
    abbrev pub after_comma : P (List A) → P A → Option Token → P (List A)
    after_comma again parse none = pure []
    after_comma again parse (some token) = do elem ← parse; elems ← again; pure (elem ∷ elems)

    unfoldable pub more_elems : ℕ → P A → P (List A)
    unfolding parse_optional_token
    more_elems zero parse = raise out_of_fuel
    more_elems (suc fuel) parse = do
      comma ← parse_optional_token Kind.comma
      after_comma (more_elems fuel parse) parse comma

    -- The elements, of which there is at least one.
    unfoldable pub parse_elems : ℕ → P A → P (List A)
    unfolding more_elems
    parse_elems fuel parse = do elem ← parse; elems ← more_elems fuel parse; pure (elem ∷ elems)

    -- Behind the opening punctuation: the list, and the closing one.
    abbrev pub unless_closed : P (List A) → List ℕ → Option (List ℕ) → P (List A)
    unless_closed elems right (some closed) = pure []
    unless_closed elems right none = do result ← elems; parse_punctuation right; pure result

    unfoldable pub parse_closing : ℕ → P A → List ℕ → P (List A)
    unfolding parse_elems parse_punctuation parse_optional_punctuation
    parse_closing fuel parse right = do
      closed ← parse_optional_punctuation right
      unless_closed (parse_elems fuel parse) right closed

    abbrev pub delimited : Option (List ℕ × List ℕ) → ℕ → P A → P (List A)
    delimited none fuel parse = parse_elems fuel parse
    delimited (some (left, right)) fuel parse = do
      parse_punctuation left
      parse_closing fuel parse right

    unfoldable pub parse_comma_separated_list : ℕ → Delimiter → P A → P (List A)
    unfolding parse_elems parse_closing parse_punctuation
    parse_comma_separated_list fuel delimiter parse =
        delimited (delimiter_value delimiter) fuel parse

    abbrev pub if_opened : P (List A) → Option (List ℕ) → P (Option (List A))
    if_opened rest none = pure none
    if_opened rest (some left) = do elems ← rest; pure (some elems)

    abbrev pub optional_delimited : Option (List ℕ × List ℕ) → ℕ → P A → P (Option (List A))
    optional_delimited none fuel parse = raise value_error
    optional_delimited (some (left, right)) fuel parse = do
      opened ← parse_optional_punctuation left
      if_opened (parse_closing fuel parse right) opened

    unfoldable pub parse_optional_comma_separated_list : ℕ → Delimiter → P A → P (Option (List A))
    unfolding parse_closing parse_optional_punctuation
    parse_optional_comma_separated_list fuel delimiter parse =
        optional_delimited (delimiter_value delimiter) fuel parse

    abbrev pub if_first : ℕ → P A → Option A → P (Option (List A))
    if_first fuel parse none = pure none
    if_first fuel parse (some elem) = do elems ← more_elems fuel parse; pure (some (elem ∷ elems))

    unfoldable pub parse_optional_undelimited_comma_separated_list :
        ℕ → P (Option A) → P A → P (Option (List A))
    unfolding more_elems
    parse_optional_undelimited_comma_separated_list fuel parse_optional parse =
        parse_optional >>= if_first fuel parse
