-- ===== src/Traverse.antt =====
-- The methods that visit nodes, `each_statement` of src/reir/exec/ast_statement.hpp and `each_value` of
-- ast_statement.hpp and ast_expression.hpp: the nodes for which they call the function that they
-- are given, in order.
pub mod Visits
use reir.Prelude.{List, [], ◌∷◌, ◌++◌, Option, none, some, Bytes, Result, ok, fault, bind}
use reir.Ast.{
  Expression, Expressions, number, string, binary, pointer_of, row_literal, array_literal,
  variable_reference, function_call, array_reference, member_reference, assign, Statement, Block,
  Init, ElseBlock, block, define, emit, expr_statement, for, define_tuple, if_else, jump, insert,
  scan, let_, transaction, unset_init, no_init, init, no_else, else_block,
}

-- Of a loop, its first statement is visited, but not what stands in that.
-- A pointer without a value is read.
unfoldable pub for_statements : Init → Result (List Statement) → Result (List Statement)
for_statements unset_init blk = fault
for_statements no_init blk = blk
for_statements (init s) blk = bind blk λ ss. ok (s ∷ ss)

-- One after another.
abbrev pub both_visits : Result (List Statement) → Result (List Statement) → Result (List Statement)
both_visits m n = bind m λ ss. bind n λ rs. ok (ss ++ rs)

unfoldable pub if_statements :
    Result (List Statement) → Result (List Statement) → Result (List Statement)
if_statements true_block false_block = both_visits true_block false_block

unfoldable mutual
  unfolding for_statements if_statements

  pub each_statement : Statement → Result (List Statement)
  each_statement (block b) = block_statements b
  each_statement (for i cond every b) = for_statements i (block_statements b)
  each_statement (if_else cond b e) = if_statements (block_statements b) (else_statements e)
  each_statement (scan table row b) = block_statements b
  each_statement (transaction isolation b) = block_statements b
  each_statement (define schema name) = ok []
  each_statement (emit e) = ok []
  each_statement (expr_statement e) = ok []
  each_statement (define_tuple name t) = ok []
  each_statement (jump j) = ok []
  each_statement (insert table e) = ok []
  each_statement (let_ type name e) = ok []

  pub block_statements : Block → Result (List Statement)
  block_statements Block.nil = ok []
  block_statements (Block.cons s b) =
      bind (both_visits (each_statement s) (block_statements b)) λ ss. ok (s ∷ ss)

  pub else_statements : ElseBlock → Result (List Statement)
  else_statements no_else = ok []
  else_statements (else_block b) = block_statements b

abbrev pub Nodes : Type 0
Nodes = Result (List Expression)

-- One after another.
abbrev pub also : Nodes → Nodes → Nodes
also m n = bind m λ es. bind n λ fs. ok (es ++ fs)

unfoldable pub parent_values : Option Bytes → Nodes
parent_values none = fault
parent_values (some n) = ok (variable_reference n ∷ [])

-- Operators and rows do not have the method, and visit nothing.
unfoldable mutual
  unfolding parent_values

  pub each_value : Expression → Nodes
  each_value (number n) = ok []
  each_value (string s) = ok []
  each_value (binary l op r) = ok []
  each_value (pointer_of e) = ok (e ∷ [])
  each_value (row_literal es) = ok []
  each_value (array_literal es) = also (element_values es) (ok (array_literal es ∷ []))
  each_value (variable_reference n) = ok (variable_reference n ∷ [])
  each_value (function_call p args) = argument_values args
  each_value (array_reference n idx) = also (ok (array_reference n idx ∷ [])) (parent_values n)
  each_value (member_reference p n) = also (ok (member_reference p n ∷ [])) (each_value p)
  each_value (assign e v) = also (ok (assign e v ∷ [])) (each_value v)

  pub element_values : Expressions → Nodes
  element_values Expressions.nil = ok []
  element_values (Expressions.cons e es) = also (each_value e) (element_values es)

  pub argument_values : Expressions → Nodes
  argument_values Expressions.nil = ok []
  argument_values (Expressions.cons e es) =
      also (ok (e ∷ [])) (also (each_value e) (argument_values es))

-- A loop and a scan visit nothing.
unfoldable mutual
  unfolding each_value

  pub statement_values : Statement → Nodes
  statement_values (block b) = block_values b
  statement_values (transaction isolation b) = block_values b
  statement_values (if_else cond b e) =
      also (each_value cond) (also (block_values b) (else_values e))
  statement_values (emit e) = ok (e ∷ [])
  statement_values (insert table e) = ok (e ∷ [])
  statement_values (let_ type name e) = each_value e
  statement_values (expr_statement e) = each_value e
  statement_values (define schema name) = ok []
  statement_values (for i cond every b) = ok []
  statement_values (define_tuple name t) = ok []
  statement_values (jump j) = ok []
  statement_values (scan table row b) = ok []

  pub block_values : Block → Nodes
  block_values Block.nil = ok []
  block_values (Block.cons s b) = also (statement_values s) (block_values b)

  pub else_values : ElseBlock → Nodes
  else_values no_else = ok []
  else_values (else_block b) = block_values b
