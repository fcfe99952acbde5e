-- ===== src/Examples/Parsing.antt =====
-- Runs of the parser.
use reir.Prelude.{
  ◌*◌, ◌<◌, ◌≤◌, ◌≡◌, ◌↔◌, refl, arith, [], ◌∷◌, Bytes, codes, length, ok, diverge, Runs, WhenOk,
  false,
}
use reir.Token.{TokenType}
use reir.Tokenize.{tokenize}
use reir.Ast.{
  Operators, Expression, Statement, Block, number, string, binary, row_literal, nil, cons,
}
use reir.Parser.Stream.{Tokens}
use reir.Parser.Types.{parse_type}
use reir.Parser.Types.Fuel.{parse_type-Fewer}
use reir.Parser.Types.Pairs.{IsParsed, parse_type-IsParsed}
use reir.Parser.Expressions.{parse_expr}
use reir.Parser.Expressions.Fuel.{parse_expr-Progress}
use reir.Parser.Expressions.Render.{
  render, tok, punct, IsPrintable, number_printable, row_printable, string_printable,
  cons_printable, nil_printable,
}
use reir.Parser.Expressions.RoundTrip.{parse_expr-render}
use reir.Parser.Statements.{parse, parse_statement}
use reir.Parser.Statements.Fuel.{begins_close, parse_statement-Progress}
use reir.Parser.Statements.Toplevel.{StrayBrace, parse-diverge_iff}

-- The statement `1 - 2`, and a definition of a table.
parse_minus :
    parse 20 (codes "1 - 2")
    ≡ ok (
        Block.cons
          (Statement.expr_statement (binary (number 1) Operators.minus (number 2)))
          Block.nil)
unfolding parse
parse_minus = refl

-- `{ 7, "s" }`, as an expression.
abbrev row : Expression
row = row_literal (cons (number 7) (cons (string (codes "s")) nil))

row-IsPrintable : IsPrintable row
row-IsPrintable = row_printable (
    cons_printable (number_printable (omega arith)) (cons_printable string_printable nil_printable))

row_size : 3 * length (render row []) < 100
unfolding render
row_size = omega arith

parse_expr-render_example : parse_expr 100 (render row []) ≡ ok (row, [])
parse_expr-render_example = parse_expr-render 100 [] row-IsPrintable tt row_size

-- Two operators in a row group to the right.
difference :
    parse 20 (codes "1 - 2 - 3")
    ≡ ok (
        Block.cons
          (Statement.expr_statement
            (binary (number 1) Operators.minus (binary (number 2) Operators.minus (number 3))))
          Block.nil)
unfolding parse
difference = refl

abbrev call_tokens : Tokens
call_tokens =
    tok TokenType.identifier (codes "f")
    ∷ punct TokenType.open_paren
    ∷ tok TokenType.number (codes "1")
    ∷ punct TokenType.close_paren
    ∷ []

parse_expr-Progress_example :
    Runs (λ r. length r.1 < length call_tokens) (parse_expr 20 call_tokens)
parse_expr-Progress_example = parse_expr-Progress 20 call_tokens (omega arith)

abbrev array_tokens : Tokens
array_tokens =
    punct TokenType.open_bracket
    ∷ tok TokenType.int (codes "int")
    ∷ punct TokenType.close_bracket
    ∷ []

parse_type-Fewer_example : Runs (λ r. length r.1 < length array_tokens) (parse_type 9 array_tokens)
parse_type-Fewer_example = parse_type-Fewer 9 array_tokens (omega arith)

abbrev tuple_tokens : Tokens
tuple_tokens =
    punct TokenType.open_brace
    ∷ tok TokenType.identifier (codes "int")
    ∷ punct TokenType.colon
    ∷ tok TokenType.identifier (codes "a")
    ∷ punct TokenType.close_brace
    ∷ []

parse_type-IsParsed_example : WhenOk IsParsed (parse_type 9 tuple_tokens)
parse_type-IsParsed_example = parse_type-IsParsed 9 tuple_tokens

parse_statement-Progress_example :
    Runs
      (λ r.
        (length r.1 ≤ length call_tokens)
        × (begins_close call_tokens ≡ false → length r.1 < length call_tokens))
      (parse_statement 20 call_tokens)
parse_statement-Progress_example =
    parse_statement-Progress 20 call_tokens (omega arith) (omega arith)

abbrev stray_code : Bytes
stray_code = codes "1 }"

abbrev stray_tokens : Tokens
stray_tokens =
    record { type = TokenType.number; text = codes "1"; row = 1; col = 0 }
    ∷ record { type = TokenType.close_brace; text = codes "}"; row = 1; col = 0 }
    ∷ []

tokenize_stray : tokenize stray_code ≡ ok stray_tokens
unfolding tokenize
tokenize_stray = refl

parse_stray : parse 40 stray_code ≡ diverge
unfolding parse
parse_stray = refl

parse-diverge_iff_example : (parse 40 stray_code ≡ diverge) ↔ StrayBrace 40 stray_tokens
parse-diverge_iff_example =
    parse-diverge_iff 40 stray_code stray_tokens tokenize_stray (omega arith)
