-- ===== src/Examples/ParserExamples.antt =====
-- The parser on `(a, b)`, whose first token is read.
use xdsl.Prelude.{◌≡◌, refl, [], ◌∷◌, inr, arith}
use xdsl.Result.{ok}
use xdsl.Lexer.Input.{Input}
use xdsl.Lexer.Kind.{Kind}
use xdsl.Lexer.Regex.{is_letter, is_digit}
use xdsl.Lexer.State.{Chars}
use xdsl.Parser.{ParserState, Delimiter, parse_comma_separated_list}
use xdsl.Parser.Steady.{left, Goes}
use xdsl.Parser.Literals.{parse_identifier}
use xdsl.Parser.Lists.{parse_identifier-IsSteady, parse_comma_separated_list-Goes}

abbrev latin_chars : Chars
latin_chars = record { isalpha = is_letter; isnumeric = is_digit }

abbrev pair_input : Input
pair_input = record { content = b'(' ∷ b'a' ∷ b',' ∷ b' ' ∷ b'b' ∷ b')' ∷ [] }

abbrev pair_state : ParserState
pair_state = record {
  lexer = record { input = pair_input; pos = 1 };
  current_token = record {
    kind = Kind.l_paren;
    span = record { start = 0; end = 1; input = pair_input };
  };
}

abbrev pair_end : ParserState
pair_end = record {
  lexer = record { input = pair_input; pos = 7 };
  current_token = record {
    kind = Kind.eof;
    span = record { start = 6; end = 7; input = pair_input };
  };
}

pair_parsed :
    parse_comma_separated_list latin_chars 10 Delimiter.paren
      (parse_identifier latin_chars)
      pair_state
    ≡ ok ((b'a' ∷ []) ∷ (b'b' ∷ []) ∷ [], pair_end)
unfolding parse_comma_separated_list parse_identifier is_letter is_digit
pair_parsed = refl

parse_comma_separated_list-Goes_example : Goes (left pair_state.lexer) (
    parse_comma_separated_list latin_chars 10 Delimiter.paren
      (parse_identifier latin_chars)
      pair_state)
parse_comma_separated_list-Goes_example =
    parse_comma_separated_list-Goes latin_chars (parse_identifier latin_chars)
      (parse_identifier-IsSteady latin_chars) 10 Delimiter.paren pair_state (inr (omega arith))
      (omega arith)
