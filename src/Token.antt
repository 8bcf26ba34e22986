-- ===== src/Token.antt =====
-- src/token.c: the lexer.
pub mod State
pub mod Scan
pub mod Escape
pub mod Word
pub mod Yylex
pub mod Left
pub mod Behind
pub mod Within
pub mod Progress
pub mod Termination
mod Tests
