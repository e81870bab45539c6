-- ===== src/Expressions.antt =====
-- The expression language: crates/ows-runtime-expressions/src.
pub mod Int64
pub mod Syntax
pub mod Number
pub mod Text
pub mod Error
pub mod Eval
pub mod Parsed
pub mod Token
pub mod Lexer
pub mod Parser
pub mod Jq
