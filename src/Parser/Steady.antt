-- ===== src/Parser/Steady.antt =====
-- A parser that only reads tokens never goes back, and the lists that it parses end.
use xdsl.Prelude.{
  ℕ, suc, ◌-◌, ◌≤◌, ◌<◌, ◌≡◌, ◌≢◌, refl, sym, ap, ◌⊎◌, inl, inr, Bool, true, false, Option, none,
  some, List, length, ltb, if◌then◌else◌, arith, Bool-cases,
}
use xdsl.Result.{Result, ok, err, parse_error, out_of_fuel}
use xdsl.Lexer.Input.{Input}
use xdsl.Lexer.Kind.{Kind, Token, get_punctuation_kind_from_spelling}
use xdsl.Lexer.State.{Lexer, Chars}
use xdsl.Lexer.Lex.{lex}
use xdsl.Lexer.Advances.{Lexed, lex-Lexed, lex-inside}
use xdsl.Parser.{
  kind_code, same_kind, ParserState, P, continue, with_token, consume_token, consume_expected,
  parse_optional_token, parse_token, found, parse_optional_punctuation, parse_punctuation,
}

-- What is left of the text, one more than its characters at its beginning.
abbrev pub left : Lexer → ℕ
left s = suc (length s.input.content) - s.pos

-- Where the current token is not the end of the file, the lexer is in the text.
abbrev pub Reads : ParserState → Type 0
Reads p = (p.current_token.kind ≡ Kind.eof) ⊎ (0 < left p.lexer)

-- The parser returns no further to the left, or raises an exception of the code.
abbrev pub Goes {ℓ} : {A : Type ℓ} → ℕ → Result (A × ParserState) → Type 0
Goes n (ok (a, p)) = Reads p × (left p.lexer ≤ n)
Goes n (err e) = e ≢ out_of_fuel

abbrev pub IsSteady {ℓ} : {A : Type ℓ} → P A → Type 0
IsSteady m = (p : ParserState) → Reads p → Goes (left p.lexer) (m p)

-- Two parsers, one after the other.
pub continue-Goes {ℓ κ} :
    {A : Type ℓ} {B : Type κ} (n k : ℕ) (r : Result (A × ParserState)) (f : A → P B)
    → Goes n r
    → ((a : A) (p : ParserState) → Reads p → left p.lexer ≤ n → Goes k (f a p))
    → Goes k (continue r f)
continue-Goes n k (err e) f h g = h
continue-Goes n k (ok (a, p)) f (h, le) g = g a p h le

pub Goes-le {ℓ} :
    {A : Type ℓ} (n k : ℕ) (r : Result (A × ParserState)) → n ≤ k → Goes n r → Goes k r
Goes-le n k (err e) h g = g
Goes-le n k (ok (a, p)) h (g, le) = (g, omega (arith, le, h))

if-Goes {ℓ} :
    {A : Type ℓ} (b : Bool) (n : ℕ) (x y : Result (A × ParserState))
    → (b ≡ true → Goes n x)
    → (b ≡ false → Goes n y)
    → Goes n (if b then x else y)
if-Goes true n x y h k = h refl
if-Goes false n x y h k = k refl

-- What an optional parser has found is taken from what was left.
abbrev pub Finds {ℓ} : {A : Type ℓ} → ℕ → Result (Option A × ParserState) → Type 0
Finds n (ok (none, p)) = Reads p × (left p.lexer ≤ n)
Finds n (ok (some a, p)) = Reads p × (left p.lexer < n)
Finds n (err e) = e ≢ out_of_fuel

if-Finds {ℓ} :
    {A : Type ℓ} (b : Bool) (n : ℕ) (x y : Result (Option A × ParserState))
    → (b ≡ true → Finds n x)
    → (b ≡ false → Finds n y)
    → Finds n (if b then x else y)
if-Finds true n x y h k = h refl
if-Finds false n x y h k = k refl

some-Finds {ℓ} :
    {A : Type ℓ} (k n : ℕ) (r : Result (A × ParserState))
    → k < n
    → Goes k r
    → Finds n (continue r (λ a p. ok (some a, p)))
some-Finds k n (err e) h g = g
some-Finds k n (ok (a, p)) h (g, le) = (g, omega (arith, le, h))

-- An optional parser, and what comes after it.
pub continue-Finds {ℓ κ} :
    {A : Type ℓ} {B : Type κ} (n k : ℕ) (r : Result (Option A × ParserState)) (f : Option A → P B)
    → Finds n r
    → ((p : ParserState) → Reads p → left p.lexer ≤ n → Goes k (f none p))
    → ((a : A) (p : ParserState) → Reads p → left p.lexer < n → Goes k (f (some a) p))
    → Goes k (continue r f)
continue-Finds n k (err e) f h g g' = h
continue-Finds n k (ok (none, p)) f (h, le) g g' = g p h le
continue-Finds n k (ok (some a, p)) f (h, lt) g g' = g' a p h lt

not_eof-left :
    (p : ParserState) (k : Kind)
    → same_kind p.current_token.kind k ≡ true
    → kind_code k ≢ 0
    → Reads p
    → 0 < left p.lexer
not_eof-left p k e n (inr h) = h
not_eof-left p k e n (inl h) =
    let code = ap (λ x. kind_code x) h in absurd (ground (arith, e, n, code))

module _ (chars : Chars) where
  -- Each token takes from what is left of the text.
  with_token-Goes {ℓ} :
      {A : Type ℓ} (a : A) (s : Lexer) (r : Result (Token × Lexer))
      → Lexed chars s r
      → Goes (left s - 1) (with_token a r)
  with_token-Goes a s (err e) h = λ k. cc (h, k)
  with_token-Goes a s (ok (token, s')) (i, j, st, en, lt, kinds) =
      let size = ap (λ (input : Input). length input.content) i in
      (
        elim kinds [ inl (k, le) ↦ inr (omega (arith, size, le)) | inr (k, e) ↦ inl k ],
        omega (arith, size, st, lt),
      )

  lex-behind :
      (s : Lexer)
      → ltb (length s.input.content) s.pos ≡ true
      → lex chars s ≡ lex chars (record s { pos = length s.input.content })
  unfolding lex
  lex-behind s h =
      let t : Lexer = record s { pos = length s.input.content } in
      rw h (sym (lex-inside chars t (omega arith)))

  lex-Goes {ℓ} : {A : Type ℓ} (a : A) (s : Lexer) → Goes (left s - 1) (with_token a (lex chars s))
  lex-Goes a s = elim (Bool-cases (ltb (length s.input.content) s.pos)) [
    | inl e ↦
        let t : Lexer = record s { pos = length s.input.content } in
        rw (lex-behind s e) (
          Goes-le (left t - 1) (left s - 1) (with_token a (lex chars t)) (omega arith)
            (with_token-Goes a t (lex chars t) (lex-Lexed chars t (omega arith))))
    | inr e ↦ with_token-Goes a s (lex chars s) (lex-Lexed chars s (ground (arith, e)))
  ]

  -- Consuming a token that is not the end of the file takes from what is left.
  consume_token-Goes : (p : ParserState) → Goes (left p.lexer - 1) (consume_token chars p)
  unfolding consume_token
  consume_token-Goes p = lex-Goes p.current_token p.lexer

  consume_expected-Goes :
      (k : Kind) (p : ParserState)
      → same_kind p.current_token.kind k ≡ true
      → Goes (left p.lexer - 1) (consume_expected chars k p)
  unfolding consume_expected
  consume_expected-Goes k p e = rw e (consume_token-Goes p)

  parse_token-IsSteady : (k : Kind) → IsSteady (parse_token chars k)
  unfolding parse_token
  parse_token-IsSteady k p reads =
      if-Goes (same_kind p.current_token.kind k) (left p.lexer) (consume_expected chars k p)
        (err parse_error)
        (λ e.
          Goes-le (left p.lexer - 1) _ (consume_expected chars k p) (omega arith)
            (consume_expected-Goes k p e))
        (λ e f. cc f)

  pub parse_optional_token-Finds :
      (k : Kind) (p : ParserState)
      → kind_code k ≢ 0
      → Reads p
      → Finds (left p.lexer) (parse_optional_token chars k p)
  unfolding parse_optional_token
  parse_optional_token-Finds k p n reads =
      if-Finds (same_kind p.current_token.kind k) (left p.lexer) _ _
        (λ e.
          let inside = not_eof-left p k e n reads in
          some-Finds (left p.lexer - 1) (left p.lexer) (consume_expected chars k p)
            (omega (arith, inside)) (consume_expected-Goes k p e))
        (λ e. (reads, omega arith))

  -- A text that is the spelling of a kind.
  unfoldable pub IsSpelling : List ℕ → Type 0
  IsSpelling punctuation =
      (k : Kind) × ((get_punctuation_kind_from_spelling punctuation ≡ ok k) × (kind_code k ≢ 0))

  pub parse_punctuation-IsSteady :
      (punctuation : List ℕ)
      → IsSpelling punctuation
      → IsSteady (parse_punctuation chars punctuation)
  unfolding parse_punctuation IsSpelling
  parse_punctuation-IsSteady punctuation (k, (e, n)) p reads = rw e (
      continue-Goes (left p.lexer) (left p.lexer) (parse_token chars k p) _
        (parse_token-IsSteady k p reads) (λ t p' h le. (h, le)))

  found-Finds :
      (n : ℕ) (punctuation : List ℕ) (r : Result (Option Token × ParserState))
      → Finds n r
      → Finds n (continue r (found chars punctuation))
  found-Finds n punctuation (err e) h = h
  found-Finds n punctuation (ok (none, p)) h = h
  found-Finds n punctuation (ok (some t, p)) h = h

  pub parse_optional_punctuation-Finds :
      (punctuation : List ℕ) (p : ParserState)
      → IsSpelling punctuation
      → Reads p
      → Finds (left p.lexer) (parse_optional_punctuation chars punctuation p)
  unfolding parse_optional_punctuation IsSpelling
  parse_optional_punctuation-Finds punctuation p (k, (e, n)) reads = rw e (
      found-Finds (left p.lexer) punctuation (parse_optional_token chars k p)
        (parse_optional_token-Finds k p n reads))
