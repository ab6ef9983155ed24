-- ===== src/Gqlmin.antt =====
-- crates/magna-gqlmin: the lexer and the parser of the GraphQL front end.
pub mod Token
pub mod Scan
pub mod Lex
pub mod Ast
pub mod Parse
pub mod Validate
mod Samples
