-- ===== src/Lexer/Advances.antt =====
-- Where the lexer of xdsl/utils/lexer.py stops: each token begins behind the whitespace, and ends where
-- the lexer goes on.
use xdsl.Prelude.{
  ltb, ℕ, suc, ◌+◌, ◌-◌, ◌≤◌, ◌<◌, ◌≡◌, ◌≢◌, refl, ap, ◌∙◌, ◌⊎◌, inl, inr, Bool, true, false, ◌||◌,
  Option, none, some, List, [], ◌∷◌, length, length-le_of_none, ◌==◌, arith, Option-cases,
}
use xdsl.Result.{Result, ok, err, parse_error}
use xdsl.Lexer.Input.{at, slice}
use xdsl.Lexer.Kind.{Kind, Token, find_spelling}
use xdsl.Lexer.Regex.{match_whitespace}
use xdsl.Lexer.State.{
  Lexer, Chars, L, rest_of, get_char, peek_chars, peeks, consume_regex, form_token, first_of,
}
use xdsl.Lexer.Lex.{
  lex_longer, lex_ellipsis, lex_other, lex_cases, lex_single, lex_from, lex_inside, lex,
  single_char_punctuation, string_fuel,
}
use xdsl.Lexer.Matches.{match_whitespace-le}
use xdsl.Lexer.Strings.{
  TokenAt, refused, rest-le, lex_bare_identifier-TokenAt, form_token-TokenAt, at-lt,
  checked-TokenAt, lex_string_literal-TokenAt,
}
use xdsl.Lexer.Identifiers.{
  if-TokenAt, lex_at_ident-TokenAt, lex_prefixed_ident-TokenAt, lex_number-TokenAt,
}

-- What the lexer looks ahead for, and finds, lies in the text.
peeks-le :
    (size : ℕ) (cs : List ℕ) (s : Lexer)
    → peeks size cs s ≡ true
    → s.pos + size ≤ length s.input.content
unfolding peeks peek_chars slice
peeks-le size cs s h = ground (arith, h)

lex_longer-TokenAt :
    (size : ℕ) (cs : List ℕ) (longer shorter : Kind) (start : ℕ) (s : Lexer)
    → longer ≢ Kind.eof
    → shorter ≢ Kind.eof
    → s.pos ≤ length s.input.content
    → TokenAt start s (lex_longer size cs longer shorter start s)
unfolding lex_longer
lex_longer-TokenAt size cs longer shorter start s k k' h =
    if-TokenAt (peeks size cs s) start s _ _
      (λ e. form_token-TokenAt longer start s (s.pos + size) k (omega arith) (peeks-le size cs s e))
      (λ e. form_token-TokenAt shorter start s s.pos k' (omega arith) h)

pub lex-inside :
    (chars : Chars) (s : Lexer) → s.pos ≤ length s.input.content → lex chars s ≡ lex_inside chars s
unfolding lex
lex-inside chars s h =
    let inside : ltb (length s.input.content) s.pos ≡ false = ground (arith, h) in rw inside

-- Every alternative gives a token at `start`.
abbrev AllTokenAt : ℕ → Lexer → List (Bool × L Token) → Type 0
AllTokenAt start s [] = Unit
AllTokenAt start s ((b, m) ∷ rest) = (b ≡ true → TokenAt start s (m s)) × AllTokenAt start s rest

first_of-TokenAt :
    (cases : List (Bool × L Token)) (start : ℕ) (s : Lexer)
    → AllTokenAt start s cases
    → TokenAt start s (first_of cases s)
first_of-TokenAt [] start s h = refused start s
first_of-TokenAt ((b, m) ∷ rest) start s (h, hs) =
    if-TokenAt b start s (m s) (first_of rest s) h (λ _. first_of-TokenAt rest start s hs)

module _ (chars : Chars) where
  lex_cases-TokenAt :
      (c start : ℕ) (s : Lexer)
      → 0 < s.pos
      → s.pos ≤ length s.input.content
      → at (s.pos - 1) s.input ≡ some c
      → AllTokenAt start s (lex_cases chars c start s)
  unfolding lex_cases lex_ellipsis
  lex_cases-TokenAt c start s p h a =
      let two : (cs : List ℕ) (k : Kind)
          → k ≢ Kind.eof
          → peeks 2 cs s ≡ true
          → TokenAt start s (form_token k start (record s { pos = s.pos + 2 })) =
        λ cs k ne e.
          form_token-TokenAt k start s (s.pos + 2) ne (omega arith) (peeks-le 2 cs s e) in
      (
        (λ _.
            checked-TokenAt (peeks 2 (b'.' ∷ b'.' ∷ []) s) _ start s s.pos
              (two _ Kind.ellipsis (cc))),
        (
          (λ _. lex_longer-TokenAt 1 (b'>' ∷ []) Kind.arrow Kind.minus start s (cc) (cc) h),
          (
            (λ _.
                lex_longer-TokenAt 2 (b'-' ∷ b'#' ∷ []) Kind.file_metadata_begin Kind.l_brace start
                  s (cc) (cc) h),
            (
              (λ e. two (b'-' ∷ b'}' ∷ []) Kind.file_metadata_end (cc) (ground (arith, e))),
              (
                (λ _. lex_at_ident-TokenAt chars start s),
                (
                  (λ e. lex_prefixed_ident-TokenAt start s c p h a e),
                  (
                    (λ _.
                        lex_string_literal-TokenAt (string_fuel s) start s (omega arith)
                          (omega arith)),
                    ((λ _. lex_number-TokenAt start s h), tt),
                  ),
                ),
              ),
            ),
          ),
        ),
      )

  find_spelling-eof :
      (cs : List ℕ) (k : Kind) → find_spelling cs single_char_punctuation ≡ some k → k ≢ Kind.eof
  unfolding find_spelling
  find_spelling-eof cs k h = λ e. ground (arith, h, e)

  lex_single-TokenAt :
      (o : Option Kind) (c start : ℕ) (s : Lexer)
      → 0 < s.pos
      → s.pos ≤ length s.input.content
      → at (s.pos - 1) s.input ≡ some c
      → ((k : Kind) → o ≡ some k → k ≢ Kind.eof)
      → TokenAt start s (lex_single chars o c start s)
  unfolding lex_single lex_other
  lex_single-TokenAt none c start s p h a k =
      first_of-TokenAt (lex_cases chars c start s) start s (lex_cases-TokenAt c start s p h a)
  lex_single-TokenAt (some kind) c start s p h a k =
      form_token-TokenAt kind start s s.pos (k kind refl) (omega arith) h

  lex_from-TokenAt :
      (c start : ℕ) (s : Lexer)
      → 0 < s.pos
      → s.pos ≤ length s.input.content
      → at (s.pos - 1) s.input ≡ some c
      → TokenAt start s (lex_from chars start (some c) s)
  unfolding lex_from
  lex_from-TokenAt c start s p h a =
      let o = find_spelling (c ∷ []) single_char_punctuation in
      if-TokenAt (chars.isalpha c || c == b'_') start s _ _
        (λ _. lex_bare_identifier-TokenAt start s h)
        (λ _. lex_single-TokenAt o c start s p h a (find_spelling-eof (c ∷ [])))

  -- What `lex` gives at a position of the text: a token that begins behind the whitespace, ends
  -- where the lexer goes on, and has a character; the end of the file, if there is only
  -- whitespace; or a `ParseError`.
  abbrev pub Lexed : Lexer → Result (Token × Lexer) → Type 0
  Lexed s (ok (token, s')) =
      (s'.input ≡ s.input)
      × (token.span.input ≡ s.input)
      × (token.span.start ≡ s.pos + match_whitespace false (rest_of s))
      × (token.span.end ≡ s'.pos)
      × (token.span.start < s'.pos)
      × (((token.kind ≢ Kind.eof) × (s'.pos ≤ length s.input.content))
          ⊎ ((token.kind ≡ Kind.eof) × (token.span.start ≡ length s.input.content)))
  Lexed s (err e) = e ≡ parse_error

  TokenAt-Lexed :
      (s : Lexer) (r : Result (Token × Lexer))
      → let start = s.pos + match_whitespace false (rest_of s) in
        TokenAt start (record s { pos = suc start }) r → Lexed s r
  unfolding TokenAt
  TokenAt-Lexed s (ok (token, s')) ((i, q, l), a, b, c, d) = (i, c, a, b, omega arith, inl (d, l))
  TokenAt-Lexed s (err e) h = h

  lex_inside-Lexed : (s : Lexer) → s.pos ≤ length s.input.content → Lexed s (lex_inside chars s)
  unfolding lex_inside consume_regex get_char at
  lex_inside-Lexed s h =
      let start = s.pos + match_whitespace false (rest_of s) in
      let le = rest-le s _ h (match_whitespace-le false (rest_of s)) in
      elim (Option-cases (at start s.input)) [
        | inl e ↦
            let end = length-le_of_none s.input.content start e in
            rw e (refl, refl, refl, refl, omega arith, inr (refl, omega arith))
        | inr (c, e) ↦
            let t : Lexer = record s { pos = suc start } in
            let back : suc start - 1 ≡ start = omega arith in
            let here = ap (λ n. at n s.input) back ∙ e in
            rw e (
              TokenAt-Lexed s (lex_from chars start (some c) t)
                (lex_from-TokenAt c start t (omega arith) (at-lt s start c e) here))
      ]

  -- At every position of the text, `lex` gives a token that begins behind the whitespace and the
  -- comments, ends where the lexer goes on, and has a character, the end of the file where only
  -- whitespace and comments are left, or a `ParseError`; it always returns or raises.
  pub lex-Lexed : (s : Lexer) → s.pos ≤ length s.input.content → Lexed s (lex chars s)
  lex-Lexed s h = rw (lex-inside chars s h) (lex_inside-Lexed s h)
