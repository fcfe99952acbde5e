-- ===== src/Examples/Programs.antt =====
-- A program with each statement that `render_statement` writes.
use reir.Prelude.{
  ◌+◌, ◌*◌, ◌<◌, ◌≡◌, refl, arith, [], codes, length, ok, throw, none, unexpected_token,
  unknown_expr,
}
use reir.Ast.{
  part, Operators, Expression, Expressions, JumpType, Statement, Block, number, string, binary,
  row_literal, variable_reference, function_call, member_reference, assign, block, emit,
  expr_statement, for, if_else, jump, insert, scan, let_, transaction, init, else_block,
}
use reir.Parser.Expressions.Render.{
  render, number_printable, string_printable, binary_printable, row_printable, variable_printable,
  call_printable, member_printable, assign_printable, nil_printable, cons_printable,
}
use reir.Parser.Statements.{parse, parse_program}
use reir.Parser.Statements.Render.{
  is_plain, render_statements, emit_writable, expr_writable, for_writable, if_writable,
  jump_writable, insert_writable, scan_writable, let_writable, transaction_writable, AreWritable,
  nil_writable, cons_writable, init_writable, else_writable, block_writable,
}
use reir.Parser.Statements.RoundTrip.{parse_program-render}

abbrev i : Expression
i = variable_reference (codes "i")

abbrev one_of : Expression → Expressions
one_of e = Expressions.cons e Expressions.nil

abbrev single : Statement → Block
single s = Block.cons s Block.nil

abbrev loop : Statement
loop =
    for (init (let_ none (codes "i") (number 0))) (part (binary i Operators.lessthan (number 3)))
      (part (assign i (binary i Operators.plus (number 1))))
      (single (
        if_else (binary i Operators.equal (number 2)) (single (jump JumpType.break_jump)) (
          else_block (
            single (
              insert (codes "t")
                (row_literal (Expressions.cons i (one_of (string (codes "s"))))))))))

abbrev reading : Statement
reading = transaction (codes "SNAPSHOT") (
    single (
      scan (codes "t") (codes "r") (
        Block.cons
          (emit
            (row_literal (one_of (member_reference (variable_reference (codes "r")) (codes "a")))))
          (single (expr_statement (function_call (variable_reference (codes "f")) (one_of i)))))))

abbrev program : Block
program = Block.cons loop (Block.cons reading (single (block Block.nil)))

-- The program is read from its code.
program_text :
    parse 300 (
      codes
        "for let i = 0; i < 3; i = i + 1 { if i == 2 { break } else { insert t {i, \"s\"} } } transaction SNAPSHOT { scan t, r { emit {r.a} f(i) } } { }")
    ≡ ok program
unfolding parse
program_text = refl

program-AreWritable : AreWritable program
unfolding is_plain
program-AreWritable =
    cons_writable
      (for_writable (init_writable (let_writable (number_printable (omega arith))))
        (binary_printable (λ e. cc) variable_printable (number_printable (omega arith)))
        (assign_printable variable_printable
          (binary_printable (λ e. cc) variable_printable (number_printable (omega arith))))
        (cons_writable
          (if_writable
            (binary_printable (λ e. cc) variable_printable (number_printable (omega arith)))
            (cons_writable jump_writable nil_writable)
            (else_writable (
              cons_writable
                (insert_writable (
                  cons_printable variable_printable
                    (cons_printable string_printable nil_printable)))
                nil_writable)))
          nil_writable))
      (cons_writable
        (transaction_writable (
          cons_writable
            (scan_writable (
              cons_writable
                (emit_writable (
                  row_printable
                    (cons_printable (member_printable variable_printable) nil_printable)))
                (cons_writable
                  (expr_writable
                    (call_printable variable_printable
                      (cons_printable variable_printable nil_printable))
                    refl)
                  nil_writable)))
            nil_writable))
        (cons_writable (block_writable nil_writable) nil_writable))

program_size : 3 * length (render_statements program []) + 1 < 300
unfolding render render_statements
program_size = omega arith

program_count : length (render_statements program []) < 300
program_count = omega (arith, program_size)

parse_program-render_example : parse_program 300 300 (render_statements program []) ≡ ok program
parse_program-render_example =
    parse_program-render 300 300 program-AreWritable program_count program_size

-- A loop without the last part of its header is refused.
no_every : parse 100 (codes "for ; 1 < 2; { break }") ≡ throw unknown_expr
unfolding parse
no_every = refl

no_every_semicolon : parse 100 (codes "for ; 1 < 2; ; { break }") ≡ throw unexpected_token
unfolding parse
no_every_semicolon = refl
