-- ===== src/Parser/Lists.antt =====
-- The lists that the parser of xdsl/parser/base_parser.py reads end.
use xdsl.Prelude.{ℕ, zero, suc, ◌<◌, refl, Option, none, some, List, [], ◌∷◌, arith}
use xdsl.Result.{Result, ok, err}
use xdsl.Lexer.Kind.{Kind, Token, get_punctuation_kind_from_spelling}
use xdsl.Lexer.State.{Chars}
use xdsl.Parser.{
  ParserState, P, continue, parse_optional_token, or_parse_error, parse_optional_punctuation,
  parse_punctuation, after_comma, more_elems, parse_elems, unless_closed, parse_closing, Delimiter,
  delimited, parse_comma_separated_list,
}
use xdsl.Parser.Steady.{
  left, Reads, Goes, IsSteady, Finds, continue-Goes, Goes-le, continue-Finds, IsSpelling,
  parse_punctuation-IsSteady, parse_optional_punctuation-Finds, parse_optional_token-Finds,
}
use xdsl.Parser.Literals.{identifier_of, parse_optional_identifier, parse_identifier}

-- An optional parser that must find something.
pub or_parse_error-Goes {ℓ} :
    {A : Type ℓ} (r : Result (Option A × ParserState)) (n : ℕ)
    → Finds n r
    → Goes n (continue r or_parse_error)
or_parse_error-Goes (err e) n h = h
or_parse_error-Goes (ok (none, p)) n h = λ e. cc e
or_parse_error-Goes (ok (some a, p)) n (h, lt) = (h, omega (arith, lt))

module _ (chars : Chars) where
  identifier_of-Finds :
      (n : ℕ) (r : Result (Option Token × ParserState))
      → Finds n r
      → Finds n (continue r (identifier_of chars))
  identifier_of-Finds n (err e) h = h
  identifier_of-Finds n (ok (none, p)) h = h
  identifier_of-Finds n (ok (some t, p)) h = h

  pub parse_identifier-IsSteady : IsSteady (parse_identifier chars)
  unfolding parse_identifier parse_optional_identifier
  parse_identifier-IsSteady p reads =
      or_parse_error-Goes (parse_optional_identifier chars p) (left p.lexer) (
        identifier_of-Finds (left p.lexer) (parse_optional_token chars Kind.bare_ident p)
          (parse_optional_token-Finds chars Kind.bare_ident p (λ e. absurd (omega arith)) reads))

  module _ {ℓ} {A : Type ℓ} (parse : P A) (steady : IsSteady parse) where
    more_elems-Goes :
        (fuel : ℕ) (p : ParserState)
        → Reads p
        → left p.lexer < fuel
        → Goes (left p.lexer) (more_elems chars fuel parse p)
    unfolding more_elems
    more_elems-Goes zero p reads h = absurd (omega (arith, h))
    more_elems-Goes (suc fuel) p reads h =
        let n = left p.lexer in
        continue-Finds n n (parse_optional_token chars Kind.comma p)
          (after_comma chars (more_elems chars fuel parse) parse)
          (parse_optional_token-Finds chars Kind.comma p (λ e. absurd (omega arith)) reads)
          (λ p' r le. (r, le))
          (λ t p' r lt. continue-Goes (left p'.lexer) n (parse p') _ (steady p' r) (λ a p'' r' le'.
            continue-Goes (left p''.lexer) n (more_elems chars fuel parse p'') _
              (more_elems-Goes fuel p'' r' (omega (arith, lt, le', h)))
              (λ rest q r'' le''. (r'', omega (arith, lt, le', le'')))))

    parse_elems-Goes :
        (fuel : ℕ) (p : ParserState)
        → Reads p
        → left p.lexer < fuel
        → Goes (left p.lexer) (parse_elems chars fuel parse p)
    unfolding parse_elems
    parse_elems-Goes fuel p reads h =
        let n = left p.lexer in
        continue-Goes n n (parse p) _ (steady p reads) (λ a p' r le.
          continue-Goes (left p'.lexer) n (more_elems chars fuel parse p') _
            (more_elems-Goes fuel p' r (omega (arith, le, h)))
            (λ rest q r' le'. (r', omega (arith, le, le'))))

    parse_closing-Goes :
        (fuel : ℕ) (right : List ℕ) (p : ParserState)
        → IsSpelling chars right
        → Reads p
        → left p.lexer < fuel
        → Goes (left p.lexer) (parse_closing chars fuel parse right p)
    unfolding parse_closing
    parse_closing-Goes fuel right p closing reads h =
        let n = left p.lexer in
        continue-Finds n n (parse_optional_punctuation chars right p)
          (unless_closed chars (parse_elems chars fuel parse) right)
          (parse_optional_punctuation-Finds chars right p closing reads)
          (λ p' r le.
            continue-Goes (left p'.lexer) n (parse_elems chars fuel parse p') _
              (parse_elems-Goes fuel p' r (omega (arith, le, h)))
              (λ rest q r' le'.
                continue-Goes (left q.lexer) n (parse_punctuation chars right q) _
                  (parse_punctuation-IsSteady chars right closing q r')
                  (λ x q' r'' le''. (r'', omega (arith, le, le', le'')))))
          (λ x p' r lt. (r, omega (arith, lt)))

    delimited-Goes :
        (fuel : ℕ) (l right : List ℕ) (p : ParserState)
        → IsSpelling chars l
        → IsSpelling chars right
        → Reads p
        → left p.lexer < fuel
        → Goes (left p.lexer) (delimited chars (some (l, right)) fuel parse p)
    unfolding parse_closing
    delimited-Goes fuel l right p opening closing reads h =
        let n = left p.lexer in
        continue-Goes n n (parse_punctuation chars l p) _
          (parse_punctuation-IsSteady chars l opening p reads)
          (λ x p' r le.
            Goes-le (left p'.lexer) n (parse_closing chars fuel parse right p') le
              (parse_closing-Goes fuel right p' closing r (omega (arith, le, h))))

    -- `parse_comma_separated_list` with any delimiter and a parser of elements that raises or goes on
    -- without going back, at a state whose lexer is in the text unless it has read the end of the
    -- file, with fuel for what is left of the text: it never runs out of fuel, so it raises one of the
    -- code's exceptions or returns a list, at such a state again, with no more of the text left.
    pub parse_comma_separated_list-Goes :
        (fuel : ℕ) (delimiter : Delimiter) (p : ParserState)
        → Reads p
        → left p.lexer < fuel
        → Goes (left p.lexer) (parse_comma_separated_list chars fuel delimiter parse p)
    unfolding parse_comma_separated_list get_punctuation_kind_from_spelling IsSpelling
    parse_comma_separated_list-Goes fuel Delimiter.paren p reads h =
        delimited-Goes fuel (b'(' ∷ []) (b')' ∷ []) p
          (Kind.l_paren, (refl, λ e. absurd (omega arith)))
          (Kind.r_paren, (refl, λ e. absurd (omega arith))) reads h
    parse_comma_separated_list-Goes fuel Delimiter.angle p reads h =
        delimited-Goes fuel (b'<' ∷ []) (b'>' ∷ []) p (Kind.less, (refl, λ e. absurd (omega arith)))
          (Kind.greater, (refl, λ e. absurd (omega arith))) reads h
    parse_comma_separated_list-Goes fuel Delimiter.square p reads h =
        delimited-Goes fuel (b'[' ∷ []) (b']' ∷ []) p
          (Kind.l_square, (refl, λ e. absurd (omega arith)))
          (Kind.r_square, (refl, λ e. absurd (omega arith))) reads h
    parse_comma_separated_list-Goes fuel Delimiter.braces p reads h =
        delimited-Goes fuel (b'{' ∷ []) (b'}' ∷ []) p
          (Kind.l_brace, (refl, λ e. absurd (omega arith)))
          (Kind.r_brace, (refl, λ e. absurd (omega arith))) reads h
    parse_comma_separated_list-Goes fuel Delimiter.undelimited p reads h =
        parse_elems-Goes fuel p reads h
