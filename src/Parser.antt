-- ===== src/Parser.antt =====
-- Recursive descent over the tokens, src/reir/exec/ast_*_parser.cpp and parser.cpp.
pub mod Stream
pub mod Types
pub mod Expressions
pub mod Statements
