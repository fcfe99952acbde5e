-- ===== src/Parser/Statements/Starts.antt =====
-- The first token of what `render_statement` writes, for src/reir/exec/ast_statement_parser.cpp.
use reir.Prelude.{◌≡◌, refl, true, false, [], ◌∷◌}
use reir.Token.{TokenType, Token, same}
use reir.Ast.{
  JumpType, Expression, Statement, number, string, binary, variable_reference, function_call,
  array_reference, member_reference, assign,
}
use reir.Parser.Stream.{Tokens}
use reir.Parser.Expressions.{done, postfix_of}
use reir.Parser.Expressions.Render.{punct, head, render}
use reir.Parser.Statements.{begin_expr, start_of}
use reir.Parser.Statements.Render.{
  render_jump, render_statement, is_plain, is_plain_head, IsWritable, block_writable, emit_writable,
  expr_writable, for_writable, if_writable, jump_writable, insert_writable, scan_writable,
  let_writable, transaction_writable,
}

-- What may follow a statement: a token that neither goes on with an expression nor is `else`.
abbrev pub Stops : Tokens → Type 0
Stops [] = Unit
Stops (t ∷ ts) = (postfix_of t.type ≡ done) × (same t.type TokenType.else_ ≡ false)

-- The first token begins a statement.
abbrev pub Starts : Tokens → Type 0
Starts ts =
    (t : Token) × (rest : Tokens) × (ts ≡ t ∷ rest)
    × (same t.type TokenType.close_brace ≡ false)
    × (same t.type TokenType.semicolon ≡ false)
    × (postfix_of t.type ≡ done)
    × (same t.type TokenType.else_ ≡ false)

-- The first token begins an expression that stands alone.
abbrev pub StartsExpr : Tokens → Type 0
StartsExpr ts =
    (t : Token) × (rest : Tokens) × (ts ≡ t ∷ rest)
    × (start_of t.type ≡ begin_expr)
    × (same t.type TokenType.close_brace ≡ false)
    × (same t.type TokenType.semicolon ≡ false)
    × (postfix_of t.type ≡ done)
    × (same t.type TokenType.else_ ≡ false)

head-StartsExpr : (e : Expression) (k : Tokens) → is_plain_head e ≡ true → StartsExpr (head e k)
unfolding head is_plain_head start_of same postfix_of
head-StartsExpr (number n) k h = (_, _, refl, refl, refl, refl, refl, refl)
head-StartsExpr (string s) k h = (_, _, refl, refl, refl, refl, refl, refl)
head-StartsExpr (variable_reference n) k h = (_, _, refl, refl, refl, refl, refl, refl)
head-StartsExpr (array_reference n idx) k h = (_, _, refl, refl, refl, refl, refl, refl)
head-StartsExpr (function_call p args) k h = head-StartsExpr p _ h
head-StartsExpr (member_reference p n) k h = head-StartsExpr p _ h
head-StartsExpr _ k h = cc

pub render-StartsExpr : (e : Expression) (k : Tokens) → is_plain e ≡ true → StartsExpr (render e k)
unfolding render is_plain start_of same postfix_of
render-StartsExpr (number n) k h = (_, _, refl, refl, refl, refl, refl, refl)
render-StartsExpr (string s) k h = (_, _, refl, refl, refl, refl, refl, refl)
render-StartsExpr (variable_reference n) k h = (_, _, refl, refl, refl, refl, refl, refl)
render-StartsExpr (array_reference n idx) k h = (_, _, refl, refl, refl, refl, refl, refl)
render-StartsExpr (binary l op r) k h = head-StartsExpr l _ h
render-StartsExpr (assign t v) k h = head-StartsExpr t _ h
render-StartsExpr (function_call p args) k h = head-StartsExpr p _ h
render-StartsExpr (member_reference p n) k h = head-StartsExpr p _ h
render-StartsExpr _ k h = cc

jump-Starts : (j : JumpType) (k : Tokens) → Starts (punct (render_jump j) ∷ k)
unfolding render_jump same postfix_of
jump-Starts JumpType.break_jump k = (_, _, refl, refl, refl, refl, refl)
jump-Starts JumpType.continue_jump k = (_, _, refl, refl, refl, refl, refl)

pub statement-Starts : {s : Statement} (k : Tokens) → IsWritable s → Starts (render_statement s k)
unfolding render_statement render_jump same postfix_of
statement-Starts k (block_writable w) = (_, _, refl, refl, refl, refl, refl)
statement-Starts k (emit_writable p) = (_, _, refl, refl, refl, refl, refl)
statement-Starts k (expr_writable {e} p h) =
    let (t, rest, eq, start, a, b, c, d) = render-StartsExpr e k h in (t, rest, eq, a, b, c, d)
statement-Starts k (for_writable i c e w) = (_, _, refl, refl, refl, refl, refl)
statement-Starts k (if_writable p w e) = (_, _, refl, refl, refl, refl, refl)
statement-Starts k (jump_writable {j}) = jump-Starts j k
statement-Starts k (insert_writable ps) = (_, _, refl, refl, refl, refl, refl)
statement-Starts k (scan_writable w) = (_, _, refl, refl, refl, refl, refl)
statement-Starts k (let_writable p) = (_, _, refl, refl, refl, refl, refl)
statement-Starts k (transaction_writable w) = (_, _, refl, refl, refl, refl, refl)
