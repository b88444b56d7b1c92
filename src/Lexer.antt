-- ===== src/Lexer.antt =====
-- lexer/lexer.go: the bytes of a script as tokens.
pub mod Cursor
pub mod Scan
pub mod Moves
pub mod Places
pub mod Blanks
pub mod Tokens
pub mod Stream
pub mod Laws
pub mod Whole
mod Tests
