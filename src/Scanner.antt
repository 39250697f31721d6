-- ===== src/Scanner.antt =====
-- The lexical scanner (src/l0_core/syntax/scanner.cpp, include/niki/l0_core/syntax/scanner.hpp,
-- include/niki/l0_core/syntax/token.hpp) and the loop that drives it
-- (src/meta/precompile/parse_stage.cpp).
pub mod Token
pub mod Cursor
pub mod Keyword
pub mod Scan
pub mod Moves
pub mod Rule
pub mod Lexeme
pub mod Step
pub mod Position
pub mod Column
pub mod Run
mod Tests
