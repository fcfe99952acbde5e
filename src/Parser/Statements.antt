-- ===== src/Parser/Statements.antt =====
-- Statements, src/reir/exec/ast_statement_parser.cpp, and `parse` of src/reir/exec/parser.cpp.
pub mod Simple
pub mod Fuel
pub mod Toplevel
pub mod Render
pub mod Starts
pub mod Lengths
pub mod Forms
pub mod Nested
pub mod RoundTrip
use reir.Prelude.{
  ℕ, zero, suc, [], Option, none, some, Bytes, codes, if◌then◌else◌, Result, ok, throw, abort,
  diverge, bind, bytes_eq, invalid_define_tuple, unparsable_token,
}
use reir.Prelude.Decimal.{stoi}
use reir.Token.{TokenType, same}
use reir.Tokenize.{tokenize}
use reir.Ast.{
  Part, unset_part, part, TupleType, NodeType, Expression, Statement, Block, Init, ElseBlock,
  tuple_type, JumpType, block, define, emit, expr_statement, for, define_tuple, if_else, jump,
  insert, scan, let_, transaction, unset_init, no_init, init, no_else, else_block,
}
use reir.Parser.Stream.{
  skip_token, take_token, Tokens, Parser, ◌>>=◌, ◌>>◌, pure, run, get, next, has_next, expect_token,
}
use reir.Parser.Types.{
  type_parse, property, parse_param, parse_properties, parse_columns, parse_primary_type,
  parse_array_type, parse_tuple_type, parse_type_start, parse_type, parse_row_type,
}
use reir.Parser.Expressions.{
  as_variable, prefix_of, postfix_of, parse_variable, parse_number, parse_string, parse_prefix,
  parse_suffix, parse_separator, parse_expr,
}

-- `dynamic_cast<TupleType*>`.
unfoldable pub as_tuple : NodeType → Option TupleType
as_tuple (tuple_type _ t _) = some t
as_tuple _ = none

unfoldable pub parse_let : ℕ → Parser Statement
parse_let f = do
  skip_token TokenType.let_
  t ← get
  type ←
      if same t.type TokenType.open_angle
      then (do ty ← parse_row_type f; pure (some ty))
      else pure none
  expect_token TokenType.identifier
  name ← take_token
  skip_token TokenType.equal
  expr ← parse_expr f
  pure (let_ type name.text expr)

unfoldable pub tuple_or_throw : Option TupleType → Parser TupleType
tuple_or_throw (some t) = pure t
tuple_or_throw none = λ _. throw invalid_define_tuple

unfoldable pub parse_define_tuple : ℕ → Parser Statement
parse_define_tuple f = do
  skip_token TokenType.tuple
  expect_token TokenType.identifier
  name ← take_token
  type ← parse_type f
  ptr ← tuple_or_throw (as_tuple type)
  pure (define_tuple name.text ptr)

unfoldable pub parse_define : ℕ → Parser Statement
parse_define f = do
  skip_token TokenType.define
  type ← parse_row_type f
  expect_token TokenType.identifier
  name ← take_token
  pure (define (as_tuple type) name.text)

unfoldable pub parse_emit : ℕ → Parser Statement
parse_emit f = do skip_token TokenType.emit; value ← parse_expr f; pure (emit value)

unfoldable pub parse_insert : ℕ → Parser Statement
parse_insert f = do
  skip_token TokenType.insert
  expect_token TokenType.identifier
  table ← take_token
  expect_token TokenType.open_brace
  value ← parse_expr f
  pure (insert table.text value)

unfoldable pub parse_expr_statement : ℕ → Parser Statement
parse_expr_statement f = do value ← parse_expr f; pure (expr_statement value)

-- A part of the header of a `for`: in front of `;` its pointer gets no value.
unfoldable pub parse_unless_semicolon : ℕ → Parser Part
parse_unless_semicolon f = do
  t ← get
  if same t.type TokenType.semicolon then pure unset_part else (do e ← parse_expr f; pure (part e))

-- The default isolation level, or the word in front of the block.
unfoldable pub parse_isolation : Parser Bytes
parse_isolation = do
  t ← get
  if same t.type TokenType.open_brace then pure (codes "SERIALIZABLE") else (do next; pure t.text)

unfoldable pub as_init : Option Statement → Init
as_init none = no_init
as_init (some s) = init s

unfoldable pub prepend : Option Statement → Block → Block
prepend none b = b
prepend (some s) b = Block.cons s b

-- The cases of the `switch` of `parse_statement`.
pub data Start : Type 0 where
  begin_block begin_nothing begin_transaction begin_let begin_if begin_for begin_define : Start
  begin_emit begin_insert begin_scan begin_break begin_continue begin_expr begin_tuple : Start
  begin_unknown : Start

unfoldable pub start_of : TokenType → Start
start_of TokenType.open_brace = begin_block
start_of TokenType.close_brace = begin_nothing
start_of TokenType.transaction = begin_transaction
start_of TokenType.let_ = begin_let
start_of TokenType.if_ = begin_if
start_of TokenType.for_ = begin_for
start_of TokenType.define = begin_define
start_of TokenType.emit = begin_emit
start_of TokenType.insert = begin_insert
start_of TokenType.scan = begin_scan
start_of TokenType.break = begin_break
start_of TokenType.continue = begin_continue
start_of TokenType.open_bracket = begin_expr
start_of TokenType.open_paren = begin_expr
start_of TokenType.number = begin_expr
start_of TokenType.string_literal = begin_expr
start_of TokenType.identifier = begin_expr
start_of TokenType.tuple = begin_tuple
start_of _ = begin_unknown

-- `new Block(tokens)`, with the loop over its statements handed in.
unfoldable pub parse_block : Parser Block → Parser Block
parse_block statements = do
  skip_token TokenType.open_brace
  b ← statements
  skip_token TokenType.close_brace
  pure b

unfoldable pub parse_transaction : Parser Block → Parser Statement
parse_transaction blk = do
  skip_token TokenType.transaction
  isolation ← parse_isolation
  expect_token TokenType.open_brace
  b ← blk
  pure (transaction isolation b)

unfoldable pub parse_else : Parser Block → Parser ElseBlock
parse_else blk = do
  more ← has_next
  if more
      then (do
        t ← get
        if same t.type TokenType.else_
            then (do next; expect_token TokenType.open_brace; b ← blk; pure (else_block b))
            else pure no_else)
      else pure no_else

unfoldable pub parse_if : ℕ → Parser Block → Parser Statement
parse_if f blk = do
  skip_token TokenType.if_
  cond ← parse_expr f
  expect_token TokenType.open_brace
  true_block ← blk
  false_block ← parse_else blk
  pure (if_else cond true_block false_block)

-- The first part of the header of a `for`: in front of `;` its pointer gets no value.
unfoldable pub parse_init : Parser (Option Statement) → Parser Init
parse_init statement = do
  t ← get
  if same t.type TokenType.semicolon then pure unset_init else (do s ← statement; pure (as_init s))

unfoldable pub parse_for : ℕ → Parser (Option Statement) → Parser Block → Parser Statement
parse_for f statement blk = do
  skip_token TokenType.for_
  first ← parse_init statement
  skip_token TokenType.semicolon
  cond ← parse_unless_semicolon f
  skip_token TokenType.semicolon
  every ← parse_unless_semicolon f
  expect_token TokenType.open_brace
  b ← blk
  pure (for first cond every b)

unfoldable pub parse_scan : Parser Block → Parser Statement
parse_scan blk = do
  skip_token TokenType.scan
  expect_token TokenType.identifier
  table ← take_token
  skip_token TokenType.comma
  row ← take_token
  expect_token TokenType.open_brace
  b ← blk
  pure (scan table.text row.text b)

abbrev pub found : Parser Statement → Parser (Option Statement)
found p = do s ← p; pure (some s)

-- The `switch` of `parse_statement`.
unfoldable pub parse_start :
    Start → ℕ → Parser (Option Statement) → Parser Block → Parser (Option Statement)
parse_start begin_block f statement blk = found do b ← blk; pure (block b)
parse_start begin_nothing f statement blk = pure none
parse_start begin_transaction f statement blk = found (parse_transaction blk)
parse_start begin_let f statement blk = found (parse_let f)
parse_start begin_if f statement blk = found (parse_if f blk)
parse_start begin_for f statement blk = found (parse_for f statement blk)
parse_start begin_define f statement blk = found (parse_define f)
parse_start begin_emit f statement blk = found (parse_emit f)
parse_start begin_insert f statement blk = found (parse_insert f)
parse_start begin_scan f statement blk = found (parse_scan blk)
parse_start begin_break f statement blk = found do next; pure (jump JumpType.break_jump)
parse_start begin_continue f statement blk = found do next; pure (jump JumpType.continue_jump)
parse_start begin_expr f statement blk = found (parse_expr_statement f)
parse_start begin_tuple f statement blk = found (parse_define_tuple f)
parse_start begin_unknown f statement blk = λ _. throw unparsable_token

unfoldable mutual
  -- `none` is the null pointer, in front of a closing brace. The parser asserts that a token is
  -- left.
  pub parse_statement : ℕ → Parser (Option Statement)
  parse_statement zero ts = diverge
  parse_statement (suc f) ts = run ts do
    more ← has_next
    if more
        then (do
          t ← get
          parse_start (start_of t.type) f (parse_statement f) (parse_block (parse_statements f)))
        else λ _. abort

  -- The loop of `Block`, up to the closing brace.
  pub parse_statements : ℕ → Parser Block
  parse_statements zero ts = diverge
  parse_statements (suc f) ts = run ts do
    t ← get
    if same t.type TokenType.close_brace
        then pure Block.nil
        else (do s ← parse_statement f; b ← parse_statements f; pure (prepend s b))

-- The loop of `parse`: `f` bounds the statements, and `d` the fuel of each.
unfoldable pub parse_program : ℕ → ℕ → Tokens → Result Block
parse_program zero d ts = diverge
parse_program (suc f) d [] = ok Block.nil
parse_program (suc f) d ts =
    bind (parse_statement d ts) λ (s, rest). bind (parse_program f d rest) λ b. ok (prepend s b)

-- `parse`: the block that is handed to the function given.
unfoldable pub parse : ℕ → Bytes → Result Block
unfolding tokenize parse_program prepend parse_statement start_of parse_start parse_block
    parse_expr_statement parse_let parse_define_tuple parse_define parse_emit parse_insert
    parse_transaction parse_isolation parse_if parse_else parse_for parse_init
    parse_unless_semicolon parse_scan as_init as_tuple tuple_or_throw parse_row_type parse_type
    parse_type_start parse_array_type parse_tuple_type parse_primary_type parse_columns
    parse_properties parse_param property parse_expr parse_prefix parse_suffix parse_separator
    parse_variable parse_number parse_string as_variable prefix_of postfix_of get next has_next
    expect_token skip_token take_token same type_parse stoi bytes_eq
parse f code = bind (tokenize code) λ ts. parse_program f f ts
