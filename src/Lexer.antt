-- ===== src/Lexer.antt =====
-- The lexer of the MLIR syntax, xdsl/utils/lexer.py: positions in a text, the kinds of tokens, the
-- regular expressions, and the lexer itself. A text is the list of its code points.
pub mod Input
pub mod Kind
pub mod Regex
pub mod State
pub mod Lex
mod Matches
mod Strings
mod Identifiers
pub mod Advances
pub mod Spelling
