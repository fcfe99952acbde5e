-- ===== src/Parser/Statements/RoundTrip.antt =====
-- The parser of statements on what `render_statement` writes.
use reir.Prelude.{
  ℕ, zero, suc, ◌+◌, ◌*◌, ◌<◌, ◌≡◌, refl, ◌∙◌, sym, subst, arith, some, [], ◌∷◌, ok, bind, length,
}
use reir.Token.{Token}
use reir.Ast.{Statement, Block, Init, ElseBlock}
use reir.Parser.Stream.{Tokens}
use reir.Parser.Statements.{parse_statement, parse_program, prepend}
use reir.Parser.Statements.Render.{
  render_statement, IsWritable, block_writable, emit_writable, expr_writable, for_writable,
  if_writable, jump_writable, insert_writable, scan_writable, let_writable, transaction_writable,
  AreWritable, nil_writable, cons_writable, InitWritable, unset_init_writable, init_writable,
  ElseWritable, no_else_writable, else_writable, render_statements,
}
use reir.Parser.Statements.Starts.{Stops, statement-Starts}
use reir.Parser.Statements.Lengths.{length-statement}
use reir.Parser.Statements.Forms.{
  ReadsStatement, ReadsStatements, ReadsInit, ReadsElse, block-Reads, emit-Reads, expr-Reads,
  jump-Reads, insert-Reads, scan-Reads, let-Reads, transaction-Reads,
}
use reir.Parser.Statements.Nested.{
  no_else-Reads, else-Reads, if-Reads, unset_init-Reads, init-Reads, for-Reads, nil-Reads,
  cons-Reads,
}

mutual
  statement : {s : Statement} → IsWritable s → ReadsStatement s
  statement (block_writable {b} w) = block-Reads b (statements w)
  statement (emit_writable {e} p) = emit-Reads e p
  statement (expr_writable {e} p plain) = expr-Reads e p plain
  statement (for_writable {first} {cond} {every} {b} i p q w) =
      for-Reads first cond every b (start i) p q (statements w)
  statement (if_writable {c} {t} {e} p w q) = if-Reads c t e p (statements w) (alternative q)
  statement (jump_writable {j}) = jump-Reads j
  statement (insert_writable {n} {es} ps) = insert-Reads n es ps
  statement (scan_writable {n} {r} {b} w) = scan-Reads n r b (statements w)
  statement (let_writable {n} {e} p) = let-Reads n e p
  statement (transaction_writable {i} {b} w) = transaction-Reads i b (statements w)

  statements : {b : Block} → AreWritable b → ReadsStatements b
  statements nil_writable = nil-Reads
  statements (cons_writable {s} {b} w ws) = cons-Reads s b w ws (statement w) (statements ws)

  start : {i : Init} → InitWritable i → ReadsInit i
  start unset_init_writable = unset_init-Reads
  start (init_writable {s} w) = init-Reads s w (statement w)

  alternative : {e : ElseBlock} → ElseWritable e → ReadsElse e
  alternative no_else_writable = no_else-Reads
  alternative (else_writable {b} w) = else-Reads b (statements w)

pub parse_statement-render :
    (f : ℕ) {s : Statement} (k : Tokens)
    → IsWritable s
    → Stops k
    → 3 * length (render_statement s k) + 1 < f
    → parse_statement f (render_statement s k) ≡ ok (some s, k)
parse_statement-render f k w = statement w f k

last-Stops : {b : Block} → AreWritable b → Stops (render_statements b [])
unfolding render_statements
last-Stops nil_writable = tt
last-Stops (cons_writable {s} {b} w ws) =
    let (t, rest, eq, _, _, ends, other) = statement-Starts (render_statements b []) w in
    subst Stops (sym eq) (ends, other)

program_round :
    (f d : ℕ) (ts rest : Tokens) (t : Token)
    → ts ≡ t ∷ rest
    → parse_program (suc f) d ts
      ≡ bind (parse_statement d ts) λ (s, r). bind (parse_program f d r) λ b. ok (prepend s b)
unfolding parse_program
program_round f d ts rest t eq = rw eq refl

-- With fuel above the tokens for the loop of `parse`, and above three times the tokens and one
-- for each statement, statements without types, whose expressions are of forms that the parser
-- builds, whose inserted rows are literals, whose loops have the last part of their header and no
-- null pointer to another part of it, and whose expressions that stand alone begin with a number,
-- a string or a name, written as tokens, are read back by the loop: the pointer to a part of a
-- header that is not written has no value.
pub parse_program-render :
    (f d : ℕ) {b : Block}
    → AreWritable b
    → length (render_statements b []) < f
    → 3 * length (render_statements b []) + 1 < d
    → parse_program f d (render_statements b []) ≡ ok b
unfolding render_statements prepend parse_program
parse_program-render zero d w h h' = absurd (omega arith)
parse_program-render (suc f) d nil_writable h h' = refl
parse_program-render (suc f) d (cons_writable {s} {b} w ws) h h' =
    let later = render_statements b [] in
    let longer = length-statement later w in
    let (t, rest, eq, _, _, _, _) = statement-Starts later w in
    program_round f d _ rest t eq
    ∙ rw (
      parse_statement-render d later w (last-Stops ws) h',
      parse_program-render f d ws (omega (arith, longer)) (omega (arith, longer)),
    )
