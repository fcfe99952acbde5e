-- ===== src/Dump/Statements.antt =====
-- The printers `dump` of statements, src/reir/exec/ast_statement.hpp.
use reir.Prelude.{ℕ, ◌+◌, [], ◌++◌, Option, none, some, Bytes, codes, Result, fault}
use reir.Ast.{
  Part, unset_part, no_part, part, TypeId, TupleType, Types, tuple_type, Statement, Block, Init,
  ElseBlock, JumpType, Expression, block, define, emit, expr_statement, for, define_tuple, if_else,
  jump, insert, scan, let_, transaction, continue_jump, break_jump, unset_init, no_init, init,
  no_else, else_block,
}
use reir.Dump.{◌<<◌, say, blank, dump_type, dump}

abbrev newline : Bytes
newline = codes "\n"

-- A tuple type before the analysis.
abbrev pub dump_tuple : TupleType → Result Bytes
dump_tuple t = dump_type (tuple_type TypeId.tuple t Types.nil)

unfoldable pub dump_schema : Option TupleType → Result Bytes
dump_schema none = fault
dump_schema (some t) = dump_tuple t

-- A pointer without a value is read.
unfoldable pub dump_optional : Part → Result Bytes
dump_optional unset_part = fault
dump_optional no_part = say []
dump_optional (part e) = dump e

unfoldable pub dump_jump : JumpType → Bytes
dump_jump continue_jump = codes "continue"
dump_jump break_jump = codes "break"

-- The lines of a block between its brackets.
abbrev pub in_brackets : Result Bytes → ℕ → Result Bytes
in_brackets lines indent =
    say (codes "Block [" ++ newline) << lines << say (blank indent ++ codes "]")

unfoldable pub dump_define : Option TupleType → Bytes → Result Bytes
unfolding dump_schema
dump_define schema name = say (codes "Define(" ++ (name ++ codes ")")) << dump_schema schema

unfoldable pub dump_emit : Expression → Result Bytes
dump_emit e = say (codes "emit: ") << dump e

unfoldable pub dump_expr_statement : Expression → Result Bytes
dump_expr_statement e = say (codes "expr[") << dump e << say (codes "]")

-- A loop, its first part and its block printed.
unfoldable pub dump_for : Result Bytes → Part → Part → Result Bytes → ℕ → Result Bytes
unfolding dump_optional
dump_for first cond every blk indent =
    say (codes "for (")
    << first
    << say (codes ";")
    << dump_optional cond
    << say (codes ";")
    << dump_optional every
    << say (codes ") {" ++ (newline ++ blank (indent + 2)))
    << blk
    << say (newline ++ (blank indent ++ codes "}"))

unfoldable pub dump_define_tuple : Bytes → TupleType → Result Bytes
dump_define_tuple name t = say (codes "typedef: ") << dump_tuple t << say (codes " " ++ name)

-- The block and what stands behind it printed.
unfoldable pub dump_if : Expression → Result Bytes → Result Bytes → ℕ → Result Bytes
dump_if cond true_block false_block indent =
    say (codes "if ")
    << dump cond
    << say (codes " then" ++ (newline ++ blank (indent + 2)))
    << true_block
    << false_block
    << say (newline ++ (blank indent ++ codes "fi"))

unfoldable pub dump_insert : Bytes → Expression → Result Bytes
dump_insert table e = say (codes "insert into " ++ (table ++ codes ": ")) << dump e

unfoldable pub dump_scan : Bytes → Bytes → Result Bytes → ℕ → Result Bytes
dump_scan table row blk indent =
    say (
      codes "full_scan("
      ++ (table ++ (codes "): as |" ++ (row ++ (codes "|" ++ (newline ++ blank indent))))))
    << blk

unfoldable pub dump_let : Bytes → Expression → Result Bytes
dump_let name e = say (codes "let " ++ (name ++ codes " := ")) << dump e

unfoldable pub dump_transaction : Bytes → Result Bytes → ℕ → Result Bytes
dump_transaction isolation sequence indent =
    say (codes "transaction(" ++ (isolation ++ (codes ") [" ++ (newline ++ blank (indent + 2)))))
    << sequence
    << say (newline ++ (blank indent ++ codes "]"))

unfoldable mutual
  unfolding dump_define dump_emit dump_expr_statement dump_for dump_define_tuple dump_if dump_jump
      dump_insert dump_scan dump_let dump_transaction

  pub dump_statement : Statement → ℕ → Result Bytes
  dump_statement (block b) indent = in_brackets (dump_lines b indent) indent
  dump_statement (define schema name) indent = dump_define schema name
  dump_statement (emit e) indent = dump_emit e
  dump_statement (expr_statement e) indent = dump_expr_statement e
  dump_statement (for i cond every b) indent =
      dump_for (dump_init i indent) cond every
        (in_brackets (dump_lines b (indent + 2)) (indent + 2)) indent
  dump_statement (define_tuple name t) indent = dump_define_tuple name t
  dump_statement (if_else cond b e) indent =
      dump_if cond (in_brackets (dump_lines b (indent + 2)) (indent + 2)) (dump_else e indent)
        indent
  dump_statement (jump j) indent = say (dump_jump j)
  dump_statement (insert table e) indent = dump_insert table e
  dump_statement (scan table row b) indent =
      dump_scan table row (in_brackets (dump_lines b indent) indent) indent
  dump_statement (let_ type name e) indent = dump_let name e
  dump_statement (transaction isolation b) indent =
      dump_transaction isolation (in_brackets (dump_lines b (indent + 2)) (indent + 2)) indent

  -- The loop over `statements_`.
  pub dump_lines : Block → ℕ → Result Bytes
  dump_lines Block.nil indent = say []
  dump_lines (Block.cons s b) indent =
      say (blank (indent + 2))
      << dump_statement s (indent + 2)
      << say newline
      << dump_lines b indent

  pub dump_init : Init → ℕ → Result Bytes
  dump_init unset_init indent = fault
  dump_init no_init indent = say []
  dump_init (init s) indent = dump_statement s indent

  pub dump_else : ElseBlock → ℕ → Result Bytes
  dump_else no_else indent = say []
  dump_else (else_block b) indent =
      say (newline ++ (blank indent ++ (codes "else" ++ (newline ++ blank (indent + 2)))))
      << in_brackets (dump_lines b (indent + 2)) (indent + 2)

-- The printer of a `Block`.
unfoldable pub dump_block : Block → ℕ → Result Bytes
unfolding dump_lines
dump_block b indent = in_brackets (dump_lines b indent) indent
