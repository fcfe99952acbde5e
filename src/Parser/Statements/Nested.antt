-- ===== src/Parser/Statements/Nested.antt =====
-- The parser of statements, src/reir/exec/ast_statement_parser.cpp, on `if`, `for` and the
-- statements of a block.
use reir.Prelude.{ℕ, zero, suc, ◌≡◌, refl, ◌∙◌, arith, false, Option, [], ◌∷◌, ok, subst, sym, bind}
use reir.Token.{TokenType, Token, same}
use reir.Ast.{
  Part, part, Expression, Statement, Block, Init, ElseBlock, for, if_else, unset_init, init,
  no_else, else_block,
}
use reir.Parser.Stream.{Tokens, Parser, get, next, has_next, expect_token}
use reir.Parser.Expressions.{postfix_of}
use reir.Parser.Expressions.Render.{render, IsPrintable, length-render}
use reir.Parser.Expressions.Steps.{Ends, skip_token-punct}
use reir.Parser.Expressions.RoundTrip.{parse_expr-render}
use reir.Parser.Statements.{
  start_of, parse_start, parse_statement, parse_statements, prepend, parse_else, parse_if,
  parse_init, parse_for, as_init,
}
use reir.Parser.Statements.Render.{
  render_optional, render_statement, render_block, render_statements, render_init, render_else,
  OptionalPrintable, IsWritable, AreWritable, nil_writable, cons_writable,
}
use reir.Parser.Statements.Starts.{Stops, statement-Starts}
use reir.Parser.Statements.Lengths.{
  length-render_optional, length-render_block, length-render_init, length-statement,
}
use reir.Parser.Statements.Forms.{
  close, semicolon, ReadsStatement, ReadsStatements, ReadsInit, ReadsElse, at_start, Stops-Ends,
  block_read, optional_some, optional_read,
}

pub no_else-Reads : ReadsElse no_else
unfolding render_else parse_else has_next get
no_else-Reads f [] stops h = refl
no_else-Reads f (t ∷ ts) (ends, other) h = rw other

pub else-Reads : (b : Block) → ReadsStatements b → ReadsElse (else_block b)
unfolding render_else parse_else has_next get next expect_token same
else-Reads b reads f k stops h = rw (block_read b f k reads (omega arith))

else-Ends : (e : ElseBlock) (k : Tokens) → Stops k → Ends (render_else e k)
unfolding render_else postfix_of
else-Ends no_else k stops = Stops-Ends k stops
else-Ends (else_block b) k stops = refl

pub if-Reads :
    (c : Expression) (t : Block) (e : ElseBlock)
    → IsPrintable c
    → ReadsStatements t
    → ReadsElse e
    → ReadsStatement (if_else c t e)
unfolding render_statement parse_start start_of parse_if expect_token get same postfix_of
if-Reads c t e p reads else_reads zero k stops h = absurd (omega arith)
if-Reads c t e p reads else_reads (suc f) k stops h =
    let later = render_block t (render_else e k) in
    at_start f _ _
    ∙ rw (
      skip_token-punct TokenType.if_ _,
      parse_expr-render f later p refl (omega arith),
      block_read t f (render_else e k) reads (omega (arith, length-render c later)),
      else_reads f k stops
          (omega (arith, length-render c later, length-render_block t (render_else e k))),
    )

pub unset_init-Reads : ReadsInit unset_init
unfolding render_init parse_init get same
unset_init-Reads f k h = refl

init_round :
    (p : Parser (Option Statement)) (ts rest : Tokens) (t : Token)
    → ts ≡ t ∷ rest
    → same t.type TokenType.semicolon ≡ false
    → parse_init p ts ≡ bind (p ts) λ (s, r). ok (as_init s, r)
unfolding parse_init get
init_round p ts rest t eq other = rw eq (rw other)

pub init-Reads : (s : Statement) → IsWritable s → ReadsStatement s → ReadsInit (init s)
unfolding render_init postfix_of same as_init
init-Reads s w reads f k h =
    let (t, rest, eq, _, other, _, _) = statement-Starts (semicolon k) w in
    init_round _ _ rest t eq other ∙ rw (reads f (semicolon k) (refl, refl) h)

pub for-Reads :
    (first : Init) (cond : Part) (every : Expression) (b : Block)
    → ReadsInit first
    → OptionalPrintable cond
    → IsPrintable every
    → ReadsStatements b
    → ReadsStatement (for first cond (part every) b)
unfolding render_statement render_optional parse_start start_of parse_for expect_token get same
    postfix_of
for-Reads first cond every b first_reads p q reads zero k stops h = absurd (omega arith)
for-Reads first cond every b first_reads p q reads (suc f) k stops h =
    let last = render every (render_block b k) in
    let middle = render_optional cond (semicolon last) in
    let l₁ = length-render_init first (semicolon middle) in
    let l₂ = length-render_optional cond (semicolon last) in
    at_start f _ _
    ∙ rw (
      skip_token-punct TokenType.for_ _,
      first_reads f middle (omega arith),
      skip_token-punct TokenType.semicolon middle,
      optional_read cond f last p (omega (arith, l₁)),
      skip_token-punct TokenType.semicolon last,
      optional_some every f (render_block b k) q refl (omega (arith, l₁, l₂)),
      block_read b f k reads (omega (arith, l₁, l₂, length-render every (render_block b k))),
    )

pub nil-Reads : ReadsStatements Block.nil
unfolding render_statements parse_statements get same
nil-Reads zero k h = absurd (omega arith)
nil-Reads (suc f) k h = refl

statements_round :
    (f : ℕ) (ts rest : Tokens) (t : Token)
    → ts ≡ t ∷ rest
    → same t.type TokenType.close_brace ≡ false
    → parse_statements (suc f) ts
      ≡ bind
          (parse_statement f ts)
          λ (s, r). bind (parse_statements f r) λ (b, r'). ok (prepend s b, r')
unfolding parse_statements get
statements_round f ts rest t eq other = rw eq (rw other)

-- What stands behind a statement of a block does not go on with it.
pub statements-Stops :
    {b : Block} (k : Tokens) → AreWritable b → Stops (render_statements b (close k))
unfolding render_statements postfix_of same
statements-Stops k nil_writable = (refl, refl)
statements-Stops k (cons_writable {s} {b} w ws) =
    let (t, rest, eq, _, _, ends, other) = statement-Starts (render_statements b (close k)) w in
    subst Stops (sym eq) (ends, other)

pub cons-Reads :
    (s : Statement) (b : Block)
    → IsWritable s
    → AreWritable b
    → ReadsStatement s
    → ReadsStatements b
    → ReadsStatements (Block.cons s b)
unfolding render_statements prepend
cons-Reads s b w ws reads more zero k h = absurd (omega arith)
cons-Reads s b w ws reads more (suc f) k h =
    let later = render_statements b (close k) in
    let (t, rest, eq, brace, _, _, _) = statement-Starts later w in
    statements_round f _ rest t eq brace
    ∙ rw (
      reads f later (statements-Stops k ws) (omega arith),
      more f k (omega (arith, length-statement later w)),
    )
