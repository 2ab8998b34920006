-- ===== src/Lexer/Strings.antt =====
-- The tokens of identifiers without a prefix and of string literals, xdsl/utils/lexer.py: where they
-- begin and end.
use xdsl.Prelude.{
  ℕ, zero, suc, ◌+◌, ◌≤◌, ◌<◌, ◌≡◌, ◌≢◌, refl, Bool, true, false, Option, none, some, length,
  get_elem?-lt, arith,
}
use xdsl.Prelude.Slices.{length-drop}
use xdsl.Result.{Result, ok, err, parse_error}
use xdsl.Lexer.Input.{at}
use xdsl.Lexer.Kind.{Kind, Token}
use xdsl.Lexer.Regex.{match_bare_identifier_suffix, match_unescaped, is_bare_char}
use xdsl.Lexer.State.{Lexer, L, rest_of, is_in_bounds, get_char, consume_regex, form_token, checked}
use xdsl.Lexer.Lex.{
  lex_bare_identifier, lex_string_literal, string_step, StringStep, closed, failed, escaped,
  continued, string_escape, string_from, string_turn, is_escape,
}
use xdsl.Lexer.Matches.{match_star-le}

-- The lexer went on from `s` to `s'`, at most to the end of the text.
abbrev pub Forward : Lexer → Lexer → Type 0
Forward s s' = (s'.input ≡ s.input) × (s.pos ≤ s'.pos) × (s'.pos ≤ length s.input.content)

-- A token that begins at `start` and ends where the lexer stands.
unfoldable pub TokenAt : ℕ → Lexer → Result (Token × Lexer) → Type 0
TokenAt start s (ok (token, s')) =
    Forward s s'
    × (token.span.start ≡ start)
    × (token.span.end ≡ s'.pos)
    × (token.span.input ≡ s.input)
    × (token.kind ≢ Kind.eof)
TokenAt start s (err e) = e ≡ parse_error

pub refused : (start : ℕ) (s : Lexer) → TokenAt start s (err parse_error)
unfolding TokenAt
refused start s = refl

-- The position behind a match is in the text.
pub rest-le :
    (s : Lexer) (n : ℕ)
    → s.pos ≤ length s.input.content
    → n ≤ length (rest_of s)
    → s.pos + n ≤ length s.input.content
rest-le s n h g = omega (arith, length-drop s.pos s.input.content)

pub lex_bare_identifier-TokenAt :
    (start : ℕ) (s : Lexer)
    → s.pos ≤ length s.input.content
    → TokenAt start s (lex_bare_identifier start s)
unfolding lex_bare_identifier TokenAt
lex_bare_identifier-TokenAt start s h =
    let le = match_star-le is_bare_char (rest_of s) in
    let bound = rest-le s (match_bare_identifier_suffix (rest_of s)) h le in
    ((refl, omega arith, bound), refl, refl, refl, cc)

pub TokenAt-earlier :
    (start : ℕ) (s : Lexer) (p : ℕ) (r : Result (Token × Lexer))
    → s.pos ≤ p
    → TokenAt start (record s { pos = p }) r
    → TokenAt start s r
unfolding TokenAt
TokenAt-earlier start s p (ok (token, s')) h ((i, q, l), a, b, c, d) =
    ((i, omega arith, l), a, b, c, d)
TokenAt-earlier start s p (err e) h g = g

-- A token that is lexed further on.
pub TokenAt-after :
    (m : L Token) (start : ℕ) (s : Lexer) (p : ℕ)
    → s.pos ≤ p
    → TokenAt start (record s { pos = p }) (m (record s { pos = p }))
    → TokenAt start s (m (record s { pos = p }))
TokenAt-after m start s p = TokenAt-earlier start s p (m (record s { pos = p }))

pub form_token-TokenAt :
    (kind : Kind) (start : ℕ) (s : Lexer) (p : ℕ)
    → kind ≢ Kind.eof
    → s.pos ≤ p
    → p ≤ length s.input.content
    → TokenAt start s (form_token kind start (record s { pos = p }))
unfolding form_token TokenAt
form_token-TokenAt kind start s p k h g = ((refl, h, g), refl, refl, refl, k)

-- The rest of the text starts with the character that is read, if there is one.
pub at-lt : (s : Lexer) (p c : ℕ) → at p s.input ≡ some c → p < length s.input.content
unfolding at
at-lt s p c h = get_elem?-lt s.input.content p h

pub checked-TokenAt :
    (b : Bool) (m : L Token) (start : ℕ) (s : Lexer) (p : ℕ)
    → (b ≡ true → TokenAt start s (m (record s { pos = p })))
    → TokenAt start s (checked b m (record s { pos = p }))
checked-TokenAt true m start s p h = h refl
checked-TokenAt false m start s p h = refused start s

pub string_step-closed : (c : Option ℕ) → string_step c ≡ closed → (d : ℕ) × (c ≡ some d)
unfolding string_step
string_step-closed none h = cc
string_step-closed (some d) h = (d, refl)

-- Where the next turn gives a token at `start`, so does this one.
module _ (again : L Token) (start : ℕ) (s : Lexer)
    (next : (p : ℕ)
      → s.pos < p
      → TokenAt start (record s { pos = p }) (again (record s { pos = p }))) where
  pub next-TokenAt : (p : ℕ) → s.pos < p → TokenAt start s (again (record s { pos = p }))
  next-TokenAt p h = TokenAt-after again start s p (omega arith) (next p h)

  pub string_from-TokenAt :
      (step : StringStep) (p : ℕ)
      → s.pos < p
      → (step ≡ closed → p ≤ length s.input.content)
      → TokenAt start s (string_from again start step (record s { pos = p }))
  unfolding string_from string_escape get_char
  string_from-TokenAt closed p h g =
      form_token-TokenAt Kind.string_lit start s p (cc) (omega arith) (g refl)
  string_from-TokenAt failed p h g = refused start s
  string_from-TokenAt continued p h g = next-TokenAt p h
  string_from-TokenAt escaped p h g =
      checked-TokenAt (is_escape (at p s.input)) again start s (suc p)
        (λ e. next-TokenAt (suc p) (omega arith))

  pub string_turn-TokenAt : TokenAt start s (string_turn again start s)
  unfolding string_turn consume_regex get_char
  string_turn-TokenAt =
      let p = s.pos + match_unescaped (rest_of s) in
      string_from-TokenAt (string_step (at p s.input)) (suc p) (omega arith)
        (λ e. let (d, f) = string_step-closed (at p s.input) e in at-lt s p d f)

pub lex_string_literal-TokenAt :
    (fuel start : ℕ) (s : Lexer)
    → 0 < fuel
    → length s.input.content < s.pos + fuel
    → TokenAt start s (lex_string_literal fuel start s)
unfolding lex_string_literal is_in_bounds
lex_string_literal-TokenAt zero start s g h = absurd (omega arith)
lex_string_literal-TokenAt (suc fuel) start s g h =
    checked-TokenAt (is_in_bounds 1 s) (string_turn (lex_string_literal fuel start) start) start s
      s.pos
      (λ e.
        let inside : s.pos < length s.input.content = ground (arith, e) in
        string_turn-TokenAt (lex_string_literal fuel start) start s (λ p q.
          lex_string_literal-TokenAt fuel start (record s { pos = p }) (omega arith) (omega arith)))
