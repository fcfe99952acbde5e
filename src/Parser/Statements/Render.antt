-- ===== src/Parser/Statements/Render.antt =====
-- Statements as tokens, for src/reir/exec/ast_statement_parser.cpp: the grammar that the parser
-- reads, for the statements that hold no type. `render_statement s k` stands in front of the
-- tokens `k`.
use reir.Prelude.{◌≡◌, Bool, true, false, Bytes, none, ◌∷◌}
use reir.Token.{TokenType}
use reir.Ast.{
  Part, unset_part, no_part, part, JumpType, Expression, Expressions, Statement, Block, Init,
  ElseBlock, number, string, binary, row_literal, variable_reference, function_call,
  array_reference, member_reference, assign, block, define, emit, expr_statement, for, define_tuple,
  if_else, jump, insert, scan, let_, transaction, unset_init, no_init, init, no_else, else_block,
}
use reir.Parser.Stream.{Tokens}
use reir.Parser.Expressions.Render.{tok, punct, render, IsPrintable, ArePrintable}

unfoldable pub render_jump : JumpType → TokenType
render_jump JumpType.break_jump = TokenType.break
render_jump JumpType.continue_jump = TokenType.continue

unfoldable pub render_optional : Part → Tokens → Tokens
render_optional unset_part k = k
render_optional no_part k = k
render_optional (part e) k = render e k

unfoldable mutual
  unfolding render_jump render_optional

  -- A statement that holds a type is not written.
  pub render_statement : Statement → Tokens → Tokens
  render_statement (block b) k =
      punct TokenType.open_brace ∷ render_statements b (punct TokenType.close_brace ∷ k)
  render_statement (define t n) k = k
  render_statement (emit e) k = punct TokenType.emit ∷ render e k
  render_statement (expr_statement e) k = render e k
  render_statement (for first cond every b) k =
      punct TokenType.for_
      ∷ render_init first (
          punct TokenType.semicolon
          ∷ render_optional cond (
              punct TokenType.semicolon
              ∷ render_optional every (
                  punct TokenType.open_brace
                  ∷ render_statements b (punct TokenType.close_brace ∷ k))))
  render_statement (define_tuple n t) k = k
  render_statement (if_else c t e) k =
      punct TokenType.if_
      ∷ render c (
          punct TokenType.open_brace
          ∷ render_statements t (punct TokenType.close_brace ∷ render_else e k))
  render_statement (jump j) k = punct (render_jump j) ∷ k
  render_statement (insert n e) k = punct TokenType.insert ∷ tok TokenType.identifier n ∷ render e k
  render_statement (scan n r b) k =
      punct TokenType.scan
      ∷ tok TokenType.identifier n
      ∷ punct TokenType.comma
      ∷ tok TokenType.identifier r
      ∷ punct TokenType.open_brace
      ∷ render_statements b (punct TokenType.close_brace ∷ k)
  render_statement (let_ t n e) k =
      punct TokenType.let_ ∷ tok TokenType.identifier n ∷ punct TokenType.equal ∷ render e k
  render_statement (transaction i b) k =
      punct TokenType.transaction
      ∷ tok TokenType.identifier i
      ∷ punct TokenType.open_brace
      ∷ render_statements b (punct TokenType.close_brace ∷ k)

  pub render_statements : Block → Tokens → Tokens
  render_statements Block.nil k = k
  render_statements (Block.cons s b) k = render_statement s (render_statements b k)

  pub render_init : Init → Tokens → Tokens
  render_init unset_init k = k
  render_init no_init k = k
  render_init (init s) k = render_statement s k

  pub render_else : ElseBlock → Tokens → Tokens
  render_else no_else k = k
  render_else (else_block b) k =
      punct TokenType.else_
      ∷ punct TokenType.open_brace
      ∷ render_statements b (punct TokenType.close_brace ∷ k)

abbrev pub render_block : Block → Tokens → Tokens
render_block b k =
    punct TokenType.open_brace ∷ render_statements b (punct TokenType.close_brace ∷ k)

-- The first token of the expression, or the last one of its leftmost parts, is a number, a string
-- or a name.
unfoldable mutual
  pub is_plain : Expression → Bool
  is_plain (binary l op r) = is_plain_head l
  is_plain (assign t v) = is_plain_head t
  is_plain (number n) = true
  is_plain (string s) = true
  is_plain (variable_reference n) = true
  is_plain (array_reference n idx) = true
  is_plain (function_call p args) = is_plain_head p
  is_plain (member_reference p n) = is_plain_head p
  is_plain _ = false

  pub is_plain_head : Expression → Bool
  is_plain_head (number n) = true
  is_plain_head (string s) = true
  is_plain_head (variable_reference n) = true
  is_plain_head (array_reference n idx) = true
  is_plain_head (function_call p args) = is_plain_head p
  is_plain_head (member_reference p n) = is_plain_head p
  is_plain_head _ = false

abbrev pub OptionalPrintable : Part → Type 0
OptionalPrintable unset_part = Unit
OptionalPrintable no_part = ⊥
OptionalPrintable (part e) = IsPrintable e

-- The statements that are written: without types, with an inserted row that is a literal, loops
-- that have the last part of their header and no null pointer to another, and expressions that begin with a number, a string or a
-- name where they stand alone.
mutual
  pub data IsWritable : Statement → Type 0 where
    block_writable : {b : Block} → AreWritable b → IsWritable (block b)
    emit_writable : {e : Expression} → IsPrintable e → IsWritable (emit e)
    expr_writable :
        {e : Expression} → IsPrintable e → is_plain e ≡ true → IsWritable (expr_statement e)
    for_writable :
        {first : Init} {cond : Part} {every : Expression} {b : Block}
        → InitWritable first
        → OptionalPrintable cond
        → IsPrintable every
        → AreWritable b
        → IsWritable (for first cond (part every) b)
    if_writable :
        {c : Expression} {t : Block} {e : ElseBlock}
        → IsPrintable c
        → AreWritable t
        → ElseWritable e
        → IsWritable (if_else c t e)
    jump_writable : {j : JumpType} → IsWritable (jump j)
    insert_writable :
        {n : Bytes} {es : Expressions} → ArePrintable es → IsWritable (insert n (row_literal es))
    scan_writable : {n r : Bytes} {b : Block} → AreWritable b → IsWritable (scan n r b)
    let_writable : {n : Bytes} {e : Expression} → IsPrintable e → IsWritable (let_ none n e)
    transaction_writable : {i : Bytes} {b : Block} → AreWritable b → IsWritable (transaction i b)

  pub data AreWritable : Block → Type 0 where
    nil_writable : AreWritable Block.nil
    cons_writable :
        {s : Statement} {b : Block} → IsWritable s → AreWritable b → AreWritable (Block.cons s b)

  pub data InitWritable : Init → Type 0 where
    unset_init_writable : InitWritable unset_init
    init_writable : {s : Statement} → IsWritable s → InitWritable (init s)

  pub data ElseWritable : ElseBlock → Type 0 where
    no_else_writable : ElseWritable no_else
    else_writable : {b : Block} → AreWritable b → ElseWritable (else_block b)
