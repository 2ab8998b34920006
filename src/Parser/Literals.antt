-- ===== src/Parser/Literals.antt =====
-- Literals, identifiers and keywords of xdsl/parser/base_parser.py. `int` of a text in a base, and the
-- contents of a string literal, are Python's, and parameters.
use xdsl.Prelude.{
  ℕ, Bool, true, false, ◌&&◌, ◌||◌, Option, none, some, List, [], ◌∷◌, if◌then◌else◌,
}
use xdsl.Prelude.Int.{ℤ, pos, neg}
use xdsl.Prelude.Slices.{take}
use xdsl.Result.{Result, ok, err, parse_error, value_error}
use xdsl.Lexer.Input.{text}
use xdsl.Lexer.Kind.{Kind, Token, text_eq}
use xdsl.Lexer.State.{Chars}
use xdsl.Parser.{
  P, ◌>>=◌, ◌>>◌, pure, raise, expect, consume_token, consume_expected, parse_optional_token,
  same_kind,
}

-- `int(text, base)`, and `ast.literal_eval(text)` of a string literal.
pub record Builtins : Type 0 where
  pub int : List ℕ → ℕ → Result ℕ
  pub literal_eval : List ℕ → Result (List ℕ)

abbrev true_text : List ℕ
true_text = b't' ∷ b'r' ∷ b'u' ∷ b'e' ∷ []

abbrev false_text : List ℕ
false_text = b'f' ∷ b'a' ∷ b'l' ∷ b's' ∷ b'e' ∷ []

-- A value that Python has computed, or its exception.
abbrev pub lift {ℓ} : {A : Type ℓ} → Result A → P A
lift (err e) p = err e
lift (ok a) p = ok (a, p)

abbrev pub lift_some {ℓ} : {A : Type ℓ} → Result A → P (Option A)
lift_some (err e) p = err e
lift_some (ok a) p = ok (some a, p)

-- `Token.text`
unfoldable pub token_text : Token → List ℕ
unfolding text
token_text token = text token.span

module _ (chars : Chars) where
  unfoldable pub parse_optional_boolean : P (Option Bool)
  unfolding token_text text_eq consume_expected
  parse_optional_boolean p =
      let current = p.current_token in
      if same_kind current.kind Kind.bare_ident && text_eq (token_text current) true_text
      then (do consume_expected chars Kind.bare_ident; pure (some true)) p
      else if same_kind current.kind Kind.bare_ident && text_eq (token_text current) false_text
      then (do consume_expected chars Kind.bare_ident; pure (some false)) p
      else ok (none, p)

  unfoldable pub parse_boolean : P Bool
  unfolding parse_optional_boolean
  parse_boolean = expect parse_optional_boolean

  abbrev pub identifier_of : Option Token → P (Option (List ℕ))
  identifier_of none = pure none
  identifier_of (some token) = pure (some (token_text token))

  unfoldable pub parse_optional_identifier : P (Option (List ℕ))
  unfolding parse_optional_token token_text
  parse_optional_identifier = parse_optional_token chars Kind.bare_ident >>= identifier_of

  unfoldable pub parse_identifier : P (List ℕ)
  unfolding parse_optional_identifier
  parse_identifier = expect parse_optional_identifier

  unfoldable pub parse_optional_characters : List ℕ → P (Option (List ℕ))
  unfolding token_text text_eq consume_token
  parse_optional_characters characters p =
      if text_eq (token_text p.current_token) characters
      then (do consume_token chars; pure (some characters)) p
      else ok (none, p)

  unfoldable pub parse_characters : List ℕ → P (List ℕ)
  unfolding parse_optional_characters
  parse_characters characters = expect (parse_optional_characters characters)

  unfoldable pub parse_optional_keyword : List ℕ → P (Option (List ℕ))
  unfolding token_text text_eq consume_expected
  parse_optional_keyword keyword p =
      if same_kind p.current_token.kind Kind.bare_ident
        && text_eq (token_text p.current_token) keyword
      then (do consume_expected chars Kind.bare_ident; pure (some keyword)) p
      else ok (none, p)

  unfoldable pub parse_keyword : List ℕ → P (List ℕ)
  unfolding parse_optional_keyword
  parse_keyword keyword = expect (parse_optional_keyword keyword)

  module _ (builtins : Builtins) where
    -- `get_int_value`
    unfoldable pub get_int_value : Token → Result ℕ
    unfolding token_text take text_eq
    get_int_value token =
        let start = take 2 (token_text token) in
        if same_kind token.kind Kind.integer_lit
        then (if text_eq start (b'0' ∷ b'x' ∷ []) || text_eq start (b'0' ∷ b'X' ∷ [])
            then builtins.int (token_text token) 16
            else builtins.int (token_text token) 10)
        else err value_error

    -- The sign in front of a number.
    unfoldable pub sign : Bool → ℕ → ℤ
    unfolding neg
    sign true n = neg (pos n)
    sign false n = pos n

    unfoldable pub parse_magnitude : Bool → Option Token → P (Option ℤ)
    unfolding get_int_value sign
    parse_magnitude true none = raise parse_error
    parse_magnitude false none = pure none
    parse_magnitude is_negative (some int_token) =
        lift (get_int_value int_token) >>= λ value. pure (some (sign is_negative value))

    abbrev is_some {ℓ} : {A : Type ℓ} → Option A → Bool
    is_some none = false
    is_some (some a) = true

    -- `is_negative`
    unfoldable pub parse_minus : Bool → P Bool
    unfolding parse_optional_token
    parse_minus false = pure false
    parse_minus true = do minus ← parse_optional_token chars Kind.minus; pure (is_some minus)

    unfoldable pub parse_number_from : Bool → Option Bool → P (Option ℤ)
    unfolding parse_minus parse_optional_token parse_magnitude
    parse_number_from allow_negative (some boolean) = pure (some (pos (if boolean then 1 else 0)))
    parse_number_from allow_negative none = do
      is_negative ← parse_minus allow_negative
      int_token ← parse_optional_token chars Kind.integer_lit
      parse_magnitude is_negative int_token

    unfoldable pub parse_optional_integer : Bool → Bool → P (Option ℤ)
    unfolding parse_optional_boolean parse_number_from
    parse_optional_integer true allow_negative =
        parse_optional_boolean >>= parse_number_from allow_negative
    parse_optional_integer false allow_negative = parse_number_from allow_negative none

    unfoldable pub parse_integer : Bool → Bool → P ℤ
    unfolding parse_optional_integer
    parse_integer allow_boolean allow_negative =
        expect (parse_optional_integer allow_boolean allow_negative)

    abbrev pub string_of : Option Token → P (Option (List ℕ))
    string_of none = pure none
    string_of (some token) = lift_some (builtins.literal_eval (token_text token))

    unfoldable pub parse_optional_str_literal : P (Option (List ℕ))
    unfolding parse_optional_token token_text
    parse_optional_str_literal = parse_optional_token chars Kind.string_lit >>= string_of

    unfoldable pub parse_str_literal : P (List ℕ)
    unfolding parse_optional_str_literal
    parse_str_literal = expect parse_optional_str_literal
