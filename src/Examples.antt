-- ===== src/Examples.antt =====
-- Runs of the program on concrete inputs.
mod Lexing
mod Parsing
mod Placing
mod Programs
mod Storage
mod Typing
mod Analysis
mod Slices
mod Rows
mod Flow
mod Visiting
mod Compiling
