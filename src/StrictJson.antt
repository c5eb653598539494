-- ===== src/StrictJson.antt =====
-- strictjson/: whether bytes are one JSON value in which no object repeats a key.
pub mod Lexer
pub mod Scanner
pub mod Grammar
pub mod Trees
pub mod Documents
pub mod Unquote
mod Tests
