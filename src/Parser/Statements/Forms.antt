-- ===== src/Parser/Statements/Forms.antt =====
-- The parser of statements, src/reir/exec/ast_statement_parser.cpp, on each form that
-- `render_statement` writes.
use reir.Prelude.{
  ℕ, zero, suc, ◌+◌, ◌*◌, ◌<◌, ◌≡◌, ◌≢◌, refl, ◌∙◌, arith, true, false, Result, Bytes, Option, none,
  some, [], ◌∷◌, length, ok, throw, abort, fault, diverge, bind,
}
use reir.Token.{TokenType, Token, same}
use reir.Ast.{
  Part, unset_part, no_part, part, JumpType, Expression, Expressions, Statement, Block, Init,
  ElseBlock, row_literal, block, emit, expr_statement, jump, insert, scan, let_, transaction,
}
use reir.Parser.Stream.{Tokens, get, next, has_next, expect_token, take_token}
use reir.Parser.Expressions.{unknown, postfix_of, prefix_of, parse_expr}
use reir.Parser.Expressions.Render.{
  punct, render, IsPrintable, ArePrintable, row_printable, render-Begins,
}
use reir.Parser.Expressions.Steps.{Ends, skip_token-punct}
use reir.Parser.Expressions.RoundTrip.{parse_expr-render}
use reir.Parser.Statements.{
  begin_expr, start_of, parse_start, parse_block, parse_statement, parse_statements, parse_let,
  parse_emit, parse_insert, parse_expr_statement, parse_unless_semicolon, parse_isolation,
  parse_transaction, parse_else, parse_init, parse_scan,
}
use reir.Parser.Statements.Render.{
  render_jump, render_optional, render_statement, render_block, render_statements, render_init,
  render_else, is_plain, OptionalPrintable,
}
use reir.Parser.Statements.Starts.{Stops, render-StartsExpr}

abbrev pub close : Tokens → Tokens
close k = punct TokenType.close_brace ∷ k

abbrev pub semicolon : Tokens → Tokens
semicolon k = punct TokenType.semicolon ∷ k

abbrev pub ReadsStatement : Statement → Type 0
ReadsStatement s =
    (f : ℕ) (k : Tokens)
    → Stops k
    → 3 * length (render_statement s k) + 1 < f
    → parse_statement f (render_statement s k) ≡ ok (some s, k)

-- The statements of a block, up to the brace that closes it.
abbrev pub ReadsStatements : Block → Type 0
ReadsStatements b =
    (f : ℕ) (k : Tokens)
    → 3 * length (render_statements b (close k)) + 2 < f
    → parse_statements f (render_statements b (close k)) ≡ ok (b, close k)

abbrev pub ReadsInit : Init → Type 0
ReadsInit i =
    (f : ℕ) (k : Tokens)
    → 3 * length (render_init i (semicolon k)) + 1 < f
    → parse_init (parse_statement f) (render_init i (semicolon k)) ≡ ok (i, semicolon k)

abbrev pub ReadsElse : ElseBlock → Type 0
ReadsElse e =
    (f : ℕ) (k : Tokens)
    → Stops k
    → 3 * length (render_else e k) < f
    → parse_else (parse_block (parse_statements f)) (render_else e k) ≡ ok (e, k)

-- The `switch` on the first token.
pub at_start :
    (f : ℕ) (t : Token) (ts : Tokens)
    → parse_statement (suc f) (t ∷ ts)
      ≡ parse_start
          (start_of t.type)
          f
          (parse_statement f)
          (parse_block (parse_statements f))
          (t ∷ ts)
unfolding parse_statement has_next get
at_start f t ts = refl

pub Stops-Ends : (k : Tokens) → Stops k → Ends k
Stops-Ends [] h = tt
Stops-Ends (t ∷ ts) (h, _) = h

pub block-Ends : (b : Block) (k : Tokens) → Ends (render_block b k)
unfolding postfix_of
block-Ends b k = refl

pub block_read :
    (b : Block) (f : ℕ) (k : Tokens)
    → ReadsStatements b
    → 3 * length (render_block b k) < f
    → parse_block (parse_statements f) (render_block b k) ≡ ok (b, k)
unfolding parse_block
block_read b f k reads h = rw (
  skip_token-punct TokenType.open_brace _,
  reads f k (omega arith),
  skip_token-punct TokenType.close_brace k,
)

prefix-semicolon : (t : TokenType) → prefix_of t ≢ unknown → same t TokenType.semicolon ≡ false
unfolding same prefix_of
prefix-semicolon t h = ground arith

unless_semicolon :
    (f : ℕ) (ts rest : Tokens) (t : Token)
    → ts ≡ t ∷ rest
    → same t.type TokenType.semicolon ≡ false
    → parse_unless_semicolon f ts ≡ bind (parse_expr f ts) λ (e, r). ok (part e, r)
unfolding parse_unless_semicolon get
unless_semicolon f ts rest t eq other = rw eq (rw other)

pub optional_some :
    (e : Expression) (f : ℕ) (k : Tokens)
    → IsPrintable e
    → Ends k
    → 3 * length (render e k) < f
    → parse_unless_semicolon f (render e k) ≡ ok (part e, k)
optional_some e f k p ends h =
    let (t, rest, eq, begins) = render-Begins e k in
    unless_semicolon f (render e k) rest t eq (prefix-semicolon t.type begins)
    ∙ rw (parse_expr-render f k p ends h)

pub optional_read :
    (e : Part) (f : ℕ) (k : Tokens)
    → OptionalPrintable e
    → 3 * length (render_optional e (semicolon k)) < f
    → parse_unless_semicolon f (render_optional e (semicolon k)) ≡ ok (e, semicolon k)
unfolding render_optional parse_unless_semicolon get same postfix_of
optional_read unset_part f k p h = refl
optional_read no_part f k p h = absurd p
optional_read (part e) f k p h = optional_some e f (semicolon k) p refl h

bind_twice :
    (m : Result (Expression × Tokens))
    → bind {B = Option Statement × Tokens}
        (bind {B = Statement × Tokens} m λ (e, r). ok (expr_statement e, r))
        (λ (s, r). ok (some s, r))
      ≡ bind m λ (e, r). ok (some (expr_statement e), r)
bind_twice (ok a) = refl
bind_twice (throw e) = refl
bind_twice abort = refl
bind_twice fault = refl
bind_twice diverge = refl

expr_start :
    (f : ℕ) (ts rest : Tokens) (t : Token)
    → ts ≡ t ∷ rest
    → start_of t.type ≡ begin_expr
    → parse_statement (suc f) ts ≡ bind (parse_expr f ts) λ (e, r). ok (some (expr_statement e), r)
unfolding parse_start parse_expr_statement
expr_start f ts rest t eq start =
    rw eq (at_start f t rest ∙ rw start (bind_twice (parse_expr f (t ∷ rest))))

pub block-Reads : (b : Block) → ReadsStatements b → ReadsStatement (block b)
unfolding render_statement parse_start start_of
block-Reads b reads zero k stops h = absurd (omega arith)
block-Reads b reads (suc f) k stops h = at_start f _ _ ∙ rw (block_read b f k reads (omega arith))

pub emit-Reads : (e : Expression) → IsPrintable e → ReadsStatement (emit e)
unfolding render_statement parse_start start_of parse_emit
emit-Reads e p zero k stops h = absurd (omega arith)
emit-Reads e p (suc f) k stops h =
    at_start f _ _
    ∙ rw (
      skip_token-punct TokenType.emit _,
      parse_expr-render f k p (Stops-Ends k stops) (omega arith),
    )

pub jump-Reads : (j : JumpType) → ReadsStatement (jump j)
unfolding render_statement render_jump parse_start start_of next
jump-Reads j zero k stops h = absurd (omega arith)
jump-Reads JumpType.break_jump (suc f) k stops h = at_start f _ _
jump-Reads JumpType.continue_jump (suc f) k stops h = at_start f _ _

pub insert-Reads :
    (n : Bytes) (es : Expressions) → ArePrintable es → ReadsStatement (insert n (row_literal es))
unfolding render render_statement parse_start start_of parse_insert take_token expect_token get next
    same
insert-Reads n es p zero k stops h = absurd (omega arith)
insert-Reads n es p (suc f) k stops h =
    at_start f _ _
    ∙ rw (skip_token-punct TokenType.insert _)
        (rw (parse_expr-render f k (row_printable p) (Stops-Ends k stops) (omega arith)))

pub let-Reads : (n : Bytes) (e : Expression) → IsPrintable e → ReadsStatement (let_ none n e)
unfolding render_statement parse_start start_of parse_let take_token expect_token get next same
let-Reads n e p zero k stops h = absurd (omega arith)
let-Reads n e p (suc f) k stops h =
    at_start f _ _
    ∙ rw (
      skip_token-punct TokenType.let_ _,
      skip_token-punct TokenType.equal _,
      parse_expr-render f k p (Stops-Ends k stops) (omega arith),
    )

pub scan-Reads : (n r : Bytes) (b : Block) → ReadsStatements b → ReadsStatement (scan n r b)
unfolding render_statement parse_start start_of parse_scan take_token expect_token get next same
scan-Reads n r b reads zero k stops h = absurd (omega arith)
scan-Reads n r b reads (suc f) k stops h =
    at_start f _ _
    ∙ rw (skip_token-punct TokenType.scan _, skip_token-punct TokenType.comma _)
        (rw (block_read b f k reads (omega arith)))

pub transaction-Reads :
    (i : Bytes) (b : Block) → ReadsStatements b → ReadsStatement (transaction i b)
unfolding render_statement parse_start start_of parse_transaction parse_isolation expect_token get
    next same
transaction-Reads i b reads zero k stops h = absurd (omega arith)
transaction-Reads i b reads (suc f) k stops h =
    at_start f _ _
    ∙ rw (skip_token-punct TokenType.transaction _) (rw (block_read b f k reads (omega arith)))

pub expr-Reads :
    (e : Expression) → IsPrintable e → is_plain e ≡ true → ReadsStatement (expr_statement e)
unfolding render_statement
expr-Reads e p plain zero k stops h = absurd (omega arith)
expr-Reads e p plain (suc f) k stops h =
    let (t, rest, eq, start, _, _, _, _) = render-StartsExpr e k plain in
    expr_start f (render e k) rest t eq start
    ∙ rw (parse_expr-render f k p (Stops-Ends k stops) (omega arith))
