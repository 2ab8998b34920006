-- ===== src/Lexer/Spelling.antt =====
-- The lexer of xdsl/utils/lexer.py on the spellings that its tokens have in
-- `get_punctuation_spelling_to_kind_dict`.
use xdsl.Prelude.{
  ◌∙◌, ℕ, ◌≡◌, ◌<◌, refl, true, false, List, [], ◌∷◌, ◌++◌, length, arith, ltb, not, ◌&&◌,
}
use xdsl.Result.{ok}
use xdsl.Lexer.Input.{Input}
use xdsl.Lexer.Kind.{Kind, punctuation_spelling_to_kind}
use xdsl.Lexer.Regex.{is_letter, is_space}
use xdsl.Lexer.State.{Chars}
use xdsl.Lexer.Lex.{lex_inside, lex}
use xdsl.Lexer.Advances.{lex-inside}

-- The text ends, or goes on with whitespace.
abbrev pub Separated : List ℕ → Type 0
Separated [] = Unit
Separated (c ∷ cs) = is_space c ≡ true

-- Lexing the text from its beginning gives the kind, and stops behind the spelling.
abbrev pub Spells : Chars → List ℕ → List ℕ × Kind → Type 0
Spells chars rest (spelling, kind) =
    let input : Input = record { content = spelling ++ rest } in
    lex chars (record { input = input; pos = 0 })
    ≡ ok (
      record { kind = kind; span = record { start = 0; end = length spelling; input = input } },
      record { input = input; pos = length spelling },
    )

abbrev pub AllSpell : Chars → List ℕ → List (List ℕ × Kind) → Type 0
AllSpell chars rest [] = Unit
AllSpell chars rest (entry ∷ entries) = Spells chars rest entry × AllSpell chars rest entries

-- The same of `lex_inside`.
abbrev SpellsInside : Chars → List ℕ → List ℕ × Kind → Type 0
SpellsInside chars rest (spelling, kind) =
    let input : Input = record { content = spelling ++ rest } in
    lex_inside chars (record { input = input; pos = 0 })
    ≡ ok (
      record { kind = kind; span = record { start = 0; end = length spelling; input = input } },
      record { input = input; pos = length spelling },
    )

abbrev AllInside : Chars → List ℕ → List (List ℕ × Kind) → Type 0
AllInside chars rest [] = Unit
AllInside chars rest (entry ∷ entries) =
    SpellsInside chars rest entry × AllInside chars rest entries

AllInside-AllSpell :
    (chars : Chars) (rest : List ℕ) (entries : List (List ℕ × Kind))
    → AllInside chars rest entries
    → AllSpell chars rest entries
AllInside-AllSpell chars rest [] h = tt
AllInside-AllSpell chars rest ((spelling, kind) ∷ entries) (h, hs) =
    (lex-inside chars _ (omega arith) ∙ h, AllInside-AllSpell chars rest entries hs)

module _ (chars : Chars)
    (ascii : (c : ℕ) → c < 128 → is_letter c ≡ false → chars.isalpha c ≡ false) where
  -- The first characters of the spellings are no letters.
  not_alpha : (c : ℕ) → (ltb c 128 && not (is_letter c)) ≡ true → chars.isalpha c ≡ false
  not_alpha c h = ascii c (ground (arith, h)) (ground (arith, h))

  lex_inside-spelling :
      (rest : List ℕ) → Separated rest → AllInside chars rest punctuation_spelling_to_kind
  unfolding lex_inside is_letter is_space
  lex_inside-spelling [] h =
      let dash = not_alpha b'-' refl in
      let colon_ = not_alpha b':' refl in
      let comma_ = not_alpha b',' refl in
      let dot = not_alpha b'.' refl in
      let equals = not_alpha b'=' refl in
      let more = not_alpha b'>' refl in
      let brace = not_alpha b'{' refl in
      let paren = not_alpha b'(' refl in
      let square = not_alpha b'[' refl in
      let less_ = not_alpha b'<' refl in
      let plus_ = not_alpha b'+' refl in
      let question_ = not_alpha b'?' refl in
      let brace_end = not_alpha b'}' refl in
      let paren_end = not_alpha b')' refl in
      let square_end = not_alpha b']' refl in
      let star_ = not_alpha b'*' refl in
      let bar = not_alpha b'|' refl in
      let hash = not_alpha b'#' refl in
      ground (
        arith, dash, colon_, comma_, dot, equals, more, brace, paren, square, less_, plus_,
        question_, brace_end, paren_end, square_end, star_, bar, hash,
      )
  lex_inside-spelling (c ∷ cs) h =
      let dash = not_alpha b'-' refl in
      let colon_ = not_alpha b':' refl in
      let comma_ = not_alpha b',' refl in
      let dot = not_alpha b'.' refl in
      let equals = not_alpha b'=' refl in
      let more = not_alpha b'>' refl in
      let brace = not_alpha b'{' refl in
      let paren = not_alpha b'(' refl in
      let square = not_alpha b'[' refl in
      let less_ = not_alpha b'<' refl in
      let plus_ = not_alpha b'+' refl in
      let question_ = not_alpha b'?' refl in
      let brace_end = not_alpha b'}' refl in
      let paren_end = not_alpha b')' refl in
      let square_end = not_alpha b']' refl in
      let star_ = not_alpha b'*' refl in
      let bar = not_alpha b'|' refl in
      let hash = not_alpha b'#' refl in
      ground (
        arith, dash, colon_, comma_, dot, equals, more, brace, paren, square, less_, plus_,
        question_, brace_end, paren_end, square_end, star_, bar, hash,
      )

  -- `lex` at the start of each spelling of punctuation, followed by whitespace or by nothing, gives
  -- the token of its kind, with the span of the spelling, where `isalpha` of an ASCII character is
  -- that of the ASCII letters.
  pub lex-spelling :
      (rest : List ℕ) → Separated rest → AllSpell chars rest punctuation_spelling_to_kind
  lex-spelling rest h =
      AllInside-AllSpell chars rest punctuation_spelling_to_kind (lex_inside-spelling rest h)
