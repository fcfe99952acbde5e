-- ===== src/Parser/Statements/Lengths.antt =====
-- The number of tokens that `render_statement` writes, for the fuel of the parser in
-- src/reir/exec/ast_statement_parser.cpp.
use reir.Prelude.{◌<◌, ◌≤◌, arith, ◌∷◌, length}
use reir.Token.{TokenType}
use reir.Ast.{
  Part, unset_part, no_part, part, Statement, Block, Init, ElseBlock, row_literal, block, emit,
  expr_statement, for, if_else, insert, scan, let_, transaction, unset_init, no_init, init, no_else,
  else_block,
}
use reir.Parser.Stream.{Tokens}
use reir.Parser.Expressions.Render.{punct, render, length-render}
use reir.Parser.Statements.Render.{
  render_optional, render_statement, render_statements, render_init, render_else, render_block,
  IsWritable, block_writable, emit_writable, expr_writable, for_writable, if_writable,
  jump_writable, insert_writable, scan_writable, let_writable, transaction_writable,
}

pub length-render_optional : (e : Part) (k : Tokens) → length k ≤ length (render_optional e k)
unfolding render_optional
length-render_optional unset_part k = omega arith
length-render_optional no_part k = omega arith
length-render_optional (part e) k = omega (arith, length-render e k)

-- The tokens behind a statement are no more than those from it on.
mutual
  unfolding render_statement render_statements render_init render_else

  pub length-render_statement :
      (s : Statement) (k : Tokens) → length k ≤ length (render_statement s k)
  length-render_statement (block b) k =
      omega (arith, length-render_statements b (punct TokenType.close_brace ∷ k))
  length-render_statement (emit e) k = omega (arith, length-render e k)
  length-render_statement (expr_statement e) k = omega (arith, length-render e k)
  length-render_statement (for first cond every b) k =
      let body =
        punct TokenType.open_brace ∷ render_statements b (punct TokenType.close_brace ∷ k) in
      let last = punct TokenType.semicolon ∷ render_optional every body in
      omega (
        arith,
        length-render_init first (punct TokenType.semicolon ∷ render_optional cond last),
        length-render_optional cond last,
        length-render_optional every body,
        length-render_statements b (punct TokenType.close_brace ∷ k),
      )
  length-render_statement (if_else c t e) k =
      let later = punct TokenType.close_brace ∷ render_else e k in
      omega (
        arith,
        length-render c (punct TokenType.open_brace ∷ render_statements t later),
        length-render_statements t later,
        length-render_else e k,
      )
  length-render_statement (insert n e) k = omega (arith, length-render e k)
  length-render_statement (scan n r b) k =
      omega (arith, length-render_statements b (punct TokenType.close_brace ∷ k))
  length-render_statement (let_ t n e) k = omega (arith, length-render e k)
  length-render_statement (transaction i b) k =
      omega (arith, length-render_statements b (punct TokenType.close_brace ∷ k))
  length-render_statement _ k = omega arith

  pub length-render_statements :
      (b : Block) (k : Tokens) → length k ≤ length (render_statements b k)
  length-render_statements Block.nil k = omega arith
  length-render_statements (Block.cons s b) k =
      omega (arith, length-render_statement s (render_statements b k), length-render_statements b k)

  pub length-render_init : (i : Init) (k : Tokens) → length k ≤ length (render_init i k)
  length-render_init unset_init k = omega arith
  length-render_init no_init k = omega arith
  length-render_init (init s) k = length-render_statement s k

  pub length-render_else : (e : ElseBlock) (k : Tokens) → length k ≤ length (render_else e k)
  length-render_else no_else k = omega arith
  length-render_else (else_block b) k =
      omega (arith, length-render_statements b (punct TokenType.close_brace ∷ k))

pub length-render_block : (b : Block) (k : Tokens) → length k < length (render_block b k)
length-render_block b k =
    omega (arith, length-render_statements b (punct TokenType.close_brace ∷ k))

pub length-statement :
    {s : Statement} (k : Tokens) → IsWritable s → length k < length (render_statement s k)
unfolding render_statement
length-statement k (block_writable {b} w) = length-render_block b k
length-statement k (expr_writable {e} p h) = length-render e k
length-statement k (emit_writable {e} p) = omega (arith, length-render e k)
length-statement k (for_writable {first} {cond} {every} {b} i c e w) =
    let last = punct TokenType.semicolon ∷ render every (render_block b k) in
    omega (
      arith,
      length-render_init first (punct TokenType.semicolon ∷ render_optional cond last),
      length-render_optional cond last,
      length-render every (render_block b k),
      length-render_block b k,
    )
length-statement k (if_writable {c} {t} {e} p w q) = omega (
  arith,
  length-render c (render_block t (render_else e k)),
  length-render_block t (render_else e k),
  length-render_else e k,
)
length-statement k jump_writable = omega arith
length-statement k (insert_writable {n} {es} ps) = omega (arith, length-render (row_literal es) k)
length-statement k (scan_writable {b = b} w) = omega (arith, length-render_block b k)
length-statement k (let_writable {e = e} p) = omega (arith, length-render e k)
length-statement k (transaction_writable {b = b} w) = omega (arith, length-render_block b k)
