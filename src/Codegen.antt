-- ===== src/Codegen.antt =====
-- What the code generator of src/reir/exec/ast_statement_codegen.cpp computes itself, next to its calls
-- of LLVM.
pub mod Rows
pub mod Flow
pub mod Types
pub mod Stack
pub mod Engine
pub mod Compile
