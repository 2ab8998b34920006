-- ===== src/Lexer/Identifiers.antt =====
-- The tokens of identifiers with a prefix and of numbers, xdsl/utils/lexer.py: where they begin and end.
use xdsl.Prelude.{
  ℕ, suc, ◌+◌, ◌-◌, ◌≤◌, ◌<◌, ◌≡◌, ◌≢◌, refl, subst, inl, inr, Bool, true, false, ◌||◌, Option,
  none, some, length, ◌==◌, if◌then◌else◌, arith, Option-cases,
}
use xdsl.Result.{Result, ok, Result-cases}
use xdsl.Lexer.Input.{at}
use xdsl.Lexer.Kind.{Kind, Token}
use xdsl.Lexer.Regex.{
  match_suffix_id, match_hexdigits, match_digits, match_fractional_suffix, is_digit, is_hexdigit,
}
use xdsl.Lexer.State.{
  Lexer, Chars, L, ◌>>=◌, rest_of, is_in_bounds, get_char, consume_regex, form_token, checked,
  consume_regex?, consume_match,
}
use xdsl.Lexer.Lex.{
  lex_bare_identifier, lex_string_literal, lex_at_ident, lex_at_ident_from, lex_prefixed_ident,
  lex_number, string_fuel, prefix_kind, as_at_ident, lex_suffix, is_hexadecimal,
}
use xdsl.Lexer.Matches.{match_star-le, match_suffix_id-le, match_fractional_suffix-le}
use xdsl.Lexer.Strings.{
  TokenAt, refused, rest-le, lex_bare_identifier-TokenAt, TokenAt-after, form_token-TokenAt, at-lt,
  lex_string_literal-TokenAt,
}

pub if-TokenAt :
    (b : Bool) (start : ℕ) (s : Lexer) (r r' : Result (Token × Lexer))
    → (b ≡ true → TokenAt start s r)
    → (b ≡ false → TokenAt start s r')
    → TokenAt start s (if b then r else r')
if-TokenAt true start s r r' h h' = h refl
if-TokenAt false start s r r' h h' = h' refl

pub consume_match-TokenAt :
    (o : Option ℕ) (next : Bool → L Token) (start : ℕ) (s : Lexer)
    → (o ≡ none → TokenAt start s (next false s))
    → ((n : ℕ) → o ≡ some n → TokenAt start s (next true (record s { pos = s.pos + n })))
    → TokenAt start s ((consume_match o >>= next) s)
unfolding consume_match
consume_match-TokenAt none next start s h h' = h refl
consume_match-TokenAt (some n) next start s h h' = h' n refl

pub retagged-TokenAt :
    (m : L Token) (start : ℕ) (s t : Lexer)
    → TokenAt start s (m t)
    → TokenAt start s (as_at_ident m t)
unfolding form_token TokenAt
retagged-TokenAt m start s t h = elim (Result-cases (m t)) [
  | inl ((token, s'), e) ↦
      let h' = subst (TokenAt start s) e h in rw (e, TokenAt) (h'.0, h'.1, refl, h'.0.0, cc)
  | inr (x, e) ↦ rw (e, TokenAt) (subst (TokenAt start s) e h)
]

pub lex_at_ident_from-TokenAt :
    (chars : Chars) (start : ℕ) (c : Option ℕ) (s : Lexer) (p : ℕ)
    → s.pos ≤ p
    → (c ≢ none → p ≤ length s.input.content)
    → TokenAt start s (lex_at_ident_from chars start c (record s { pos = p }))
unfolding lex_at_ident_from
lex_at_ident_from-TokenAt chars start none s p h g = refused start s
lex_at_ident_from-TokenAt chars start (some c) s p h g =
    let here = record s { pos = p } in
    if-TokenAt (chars.isalpha c || c == b'_') start s _ _
      (λ _. retagged-TokenAt (lex_bare_identifier start) start s here (
        TokenAt-after (lex_bare_identifier start) start s p h
          (lex_bare_identifier-TokenAt start here (g (cc)))))
      (λ _.
        if-TokenAt (c == b'"') start s _ _
          (λ _. retagged-TokenAt (lex_string_literal (string_fuel s) start) start s here (
            TokenAt-after (lex_string_literal (string_fuel s) start) start s p h
              (lex_string_literal-TokenAt (string_fuel s) start here (omega arith) (omega arith))))
          (λ _. refused start s))

pub lex_at_ident-TokenAt :
    (chars : Chars) (start : ℕ) (s : Lexer) → TokenAt start s (lex_at_ident chars start s)
unfolding lex_at_ident get_char
lex_at_ident-TokenAt chars start s =
    lex_at_ident_from-TokenAt chars start (at s.pos s.input) s (suc s.pos) (omega arith) (λ ne.
      elim (Option-cases (at s.pos s.input)) [
        | inl e ↦ absurd (ne e)
        | inr (d, e) ↦ at-lt s s.pos d e
      ])

pub prefix_kind-eof : (c : ℕ) (kind : Kind) → prefix_kind (some c) ≡ ok kind → kind ≢ Kind.eof
unfolding prefix_kind
prefix_kind-eof c kind h = λ e. ground (arith, h, e)

pub prefix_kind-ok :
    (c : ℕ)
    → (c == b'#' || c == b'!' || c == b'^' || c == b'%') ≡ true
    → (k : Kind) × (prefix_kind (some c) ≡ ok k) × (k ≢ Kind.eof)
unfolding prefix_kind
prefix_kind-ok c h = elim (Result-cases (prefix_kind (some c))) [
  | inl (k, e) ↦ (k, e, prefix_kind-eof c k e)
  | inr (x, e) ↦ absurd (ground (arith, e, h))
]

pub lex_suffix-TokenAt :
    (kind : Kind) (start : ℕ) (s : Lexer)
    → kind ≢ Kind.eof
    → s.pos ≤ length s.input.content
    → TokenAt start s (lex_suffix (ok kind) start s)
unfolding lex_suffix consume_regex?
lex_suffix-TokenAt kind start s k l =
    consume_match-TokenAt (match_suffix_id (rest_of s))
      (λ matched. checked matched (form_token kind start)) start s (λ _. refused start s)
      (λ n e.
        form_token-TokenAt kind start s (s.pos + n) k (omega arith)
          (rest-le s n l (match_suffix_id-le (rest_of s) n e)))

pub lex_prefixed_ident-TokenAt :
    (start : ℕ) (s : Lexer) (c : ℕ)
    → 0 < s.pos
    → s.pos ≤ length s.input.content
    → at (s.pos - 1) s.input ≡ some c
    → (c == b'#' || c == b'!' || c == b'^' || c == b'%') ≡ true
    → TokenAt start s (lex_prefixed_ident start s)
unfolding lex_prefixed_ident
lex_prefixed_ident-TokenAt start s c h l a e =
    let (k, f, ne) = prefix_kind-ok c e in
    if-TokenAt (s.pos == 0) start s _ _ (λ z. absurd (ground (arith, z, h)))
      (λ _. rw a (rw f (lex_suffix-TokenAt k start s ne l)))

pub is_hexadecimal-le : (s : Lexer) → is_hexadecimal s ≡ true → s.pos + 2 ≤ length s.input.content
unfolding is_hexadecimal is_in_bounds
is_hexadecimal-le s h = ground (arith, h)

pub lex_number-TokenAt :
    (start : ℕ) (s : Lexer) → s.pos ≤ length s.input.content → TokenAt start s (lex_number start s)
unfolding lex_number consume_regex consume_regex?
lex_number-TokenAt start s h =
    let t = record s { pos = s.pos + 2 } in
    let u = record s { pos = s.pos + match_digits (rest_of s) } in
    let digits = rest-le s (match_digits (rest_of s)) h (match_star-le is_digit (rest_of s)) in
    if-TokenAt (is_hexadecimal s) start s _ _
      (λ e.
        let l = is_hexadecimal-le s e in
        let bound =
          rest-le t (match_hexdigits (rest_of t)) l (match_star-le is_hexdigit (rest_of t)) in
        form_token-TokenAt Kind.integer_lit start s (t.pos + match_hexdigits (rest_of t)) (cc)
          (omega arith) bound)
      (λ e.
        let kind = λ (matched : Bool). if matched then Kind.float_lit else Kind.integer_lit in
        let next : Bool → L Token = λ matched. form_token (kind matched) start in
        let m : L Token = consume_regex? match_fractional_suffix >>= next in
        TokenAt-after m start s u.pos (omega arith) (
          consume_match-TokenAt (match_fractional_suffix (rest_of u)) next start u
            (λ f. form_token-TokenAt Kind.integer_lit start u u.pos (cc) (omega arith) digits)
            (λ n f.
              form_token-TokenAt Kind.float_lit start u (u.pos + n) (cc) (omega arith)
                (rest-le u n digits (match_fractional_suffix-le (rest_of u) n f)))))
