-- ===== src/Examples/Analysis.antt =====
-- Runs of the analysis and of the printers of a small script.
use reir.Prelude.{◌≡◌, ◌↔◌, [], ◌∷◌, Option, none, some, codes, ok, Runs}
use reir.Prelude.Decimal.{print}
use reir.Ast.{
  Operators, TypeId, TupleType, NodeType, Types, primary_type, Expression, Expressions, Block,
  number, binary, variable_reference, row_literal, member_reference, array_reference, define,
  insert, scan, let_, if_else, emit, no_else,
}
use reir.Dump.Statements.{dump_block}
use reir.Dump.Safety.{Prints, are_complete, dump_block-Prints}
use reir.Analyze.Expressions.{Context, initial, analyze, row_type}
use reir.Analyze.Tables.{initial-IsSound}
use reir.Analyze.Rules.{IsTyped}
use reir.Analyze.Safety.{Leaves, analyze-IsSound}
use reir.Analyze.Completeness.{analyze_iff}

abbrev row : Expression
row = row_literal (Expressions.cons (number 1) (Expressions.cons (number 2) Expressions.nil))

abbrev int_type : NodeType
int_type = primary_type TypeId.integer

abbrev row_of_ints : Option NodeType
row_of_ints = some (row_type (Types.cons int_type (Types.cons int_type Types.nil)))

analyze_iff_example :
    IsTyped initial.types initial.variables row (row_of_ints)
    ↔ ((c : Context) × (analyze print row initial ≡ ok (c, row_of_ints)))
analyze_iff_example = analyze_iff print row initial (row_of_ints)

analyze-IsSound_example : Runs (Leaves []) (analyze print row initial)
analyze-IsSound_example = analyze-IsSound print [] row initial (tt, (tt, tt)) initial-IsSound

abbrev schema : TupleType
schema = record {
  type_names = codes "int" ∷ codes "int" ∷ [];
  names = codes "a" ∷ codes "b" ∷ [];
  props = 2 ∷ 0 ∷ [];
  params = none ∷ none ∷ [];
}

-- Rows are inserted into a table, and scanned.
abbrev script : Block
script = Block.cons (define (some schema) (codes "t")) (
    Block.cons (insert (codes "t") row) (
      Block.cons
        (scan (codes "t") (codes "r") (
          Block.cons
            (let_ none (codes "x") (member_reference (variable_reference (codes "r")) (codes "a")))
            (Block.cons
              (if_else (binary (variable_reference (codes "x")) Operators.lessthan (number 3))
                (Block.cons (emit row) Block.nil) no_else)
              Block.nil)))
        Block.nil))

-- The parent of an array reference that is no variable.
abbrev element_of_call : Block
element_of_call = Block.cons (let_ none (codes "x") (array_reference none (number 0))) Block.nil

dump_block-Prints_example : Prints (are_complete element_of_call) (dump_block element_of_call 0)
dump_block-Prints_example = dump_block-Prints element_of_call 0
