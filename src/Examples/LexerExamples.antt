-- ===== src/Examples/LexerExamples.antt =====
-- The lexer on small texts, with ASCII letters and digits as the letters and digits.
use xdsl.Prelude.{ℕ, refl, List, [], ◌∷◌, arith}
use xdsl.Lexer.Kind.{punctuation_spelling_to_kind}
use xdsl.Lexer.Regex.{is_letter, is_digit, is_space}
use xdsl.Lexer.State.{Lexer, Chars}
use xdsl.Lexer.Lex.{lex}
use xdsl.Lexer.Advances.{Lexed, lex-Lexed}
use xdsl.Lexer.Spelling.{AllSpell, lex-spelling}

abbrev ascii_chars : Chars
ascii_chars = record { isalpha = is_letter; isnumeric = is_digit }

abbrev at_start : List ℕ → Lexer
at_start text = record { input = record { content = text }; pos = 0 }

-- ` %a0"x"`
abbrev value_text : List ℕ
value_text = b' ' ∷ b'%' ∷ b'a' ∷ b'0' ∷ b'"' ∷ b'x' ∷ b'"' ∷ []

lex-Lexed_example : Lexed ascii_chars (at_start value_text) (lex ascii_chars (at_start value_text))
lex-Lexed_example = lex-Lexed ascii_chars (at_start value_text) (omega arith)

lex-spelling_example : AllSpell ascii_chars (b' ' ∷ b'>' ∷ []) punctuation_spelling_to_kind
unfolding is_space
lex-spelling_example = lex-spelling ascii_chars (λ c h k. k) (b' ' ∷ b'>' ∷ []) refl
