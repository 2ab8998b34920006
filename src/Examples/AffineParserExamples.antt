-- ===== src/Examples/AffineParserExamples.antt =====
-- The parser of affine maps on `(d)[s] -> (d + s * 2, -d mod 3)`, with a small `int`.
use xdsl.Prelude.{ℕ, ◌-◌, ◌≡◌, refl, Option, none, some, List, [], ◌∷◌}
use xdsl.Prelude.Int.{pos, negsuc}
use xdsl.Result.{Result, ok, err, value_error}
use xdsl.Lexer.Input.{Input}
use xdsl.Lexer.Kind.{Kind}
use xdsl.Lexer.Regex.{is_letter, is_digit}
use xdsl.Lexer.State.{Chars}
use xdsl.Affine.Expr.{constant, dimension, symbol, binary, add, mul, modulo}
use xdsl.Parser.{ParserState, ◌>>◌, resume_from}
use xdsl.Parser.Literals.{Builtins}
use xdsl.Parser.AffineParser.{parse_affine_map}

abbrev basic_chars : Chars
basic_chars = record { isalpha = is_letter; isnumeric = is_digit }

-- One digit.
abbrev digit_value : List ℕ → ℕ → Result ℕ
digit_value [] base = err value_error
digit_value (c ∷ cs) base = ok (c - b'0')

abbrev one_digit : Builtins
one_digit = record { int = digit_value; literal_eval = λ t. ok t }

-- `(d)[s]->(d+s*2,-d mod 3)`
abbrev map_input : Input
map_input = record {
  content =
      b'(' ∷ b'd' ∷ b')' ∷ b'[' ∷ b's' ∷ b']' ∷ b'-' ∷ b'>' ∷ b'(' ∷ b'd' ∷ b'+' ∷ b's' ∷ b'*'
      ∷ b'2' ∷ b',' ∷ b'-' ∷ b'd' ∷ b' ' ∷ b'm' ∷ b'o' ∷ b'd' ∷ b' ' ∷ b'3' ∷ b')' ∷ [];
}

abbrev map_state : ParserState
map_state = record {
  lexer = record { input = map_input; pos = 0 };
  current_token = record {
    kind = Kind.eof;
    span = record { start = 0; end = 0; input = map_input };
  };
}

abbrev result_of {ℓ} : {A : Type ℓ} → Result (A × ParserState) → Option A
result_of (err e) = none
result_of (ok (a, p)) = some a

map_parsed :
    result_of ((resume_from basic_chars 0 >> parse_affine_map basic_chars one_digit 10) map_state)
    ≡ some (record {
      num_dims = 1;
      num_symbols = 1;
      results =
          binary add (dimension 0) (binary mul (symbol 0) (constant (pos 2)))
          ∷ binary modulo (binary mul (dimension 0) (constant (negsuc 0))) (constant (pos 3))
          ∷ [];
    })
unfolding resume_from parse_affine_map is_letter is_digit
map_parsed = refl
