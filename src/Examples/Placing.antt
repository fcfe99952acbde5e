-- ===== src/Examples/Placing.antt =====
-- A run of the pass over the places of a program with a table, and of what is generated behind it.
use reir.Prelude.{true, [], ◌∷◌, none, some, codes, Result, ok}
use reir.Ast.{
  TypeId, TupleType, Types, Expressions, Block, primary_type, number, row_literal, define, emit,
  insert, scan,
}
use reir.Codegen.Types.{Setting}
use reir.Codegen.Stack.{Frame, block_places}
use reir.Codegen.Compile.{empty_frame}

-- A table with a key that is a number.
abbrev key_only : TupleType
key_only = record {
  type_names = codes "int" ∷ [];
  names = codes "a" ∷ [];
  props = 2 ∷ [];
  params = none ∷ [];
}

abbrev with_table : Setting
with_table = record {
  same_type = λ s t. true;
  print = λ _. [];
  member_types = λ _. none;
  columns = λ _. Types.cons (primary_type TypeId.integer) Types.nil;
  functions = λ _. none;
}

-- A row is inserted, and emitted for each row of a scan.
abbrev inserts_and_scans : Block
inserts_and_scans = Block.cons (define (some key_only) (codes "t")) (
    Block.cons (insert (codes "t") (row_literal (Expressions.cons (number 3) Expressions.nil))) (
      Block.cons (scan (codes "t") (codes "r") (Block.cons (emit (number 1)) Block.nil)) Block.nil))

abbrev no_frame : Frame
no_frame = empty_frame (λ _. none)

abbrev frame_of : Result Frame → Frame
frame_of (ok f) = f
frame_of _ = no_frame

abbrev placed_table : Frame
placed_table = frame_of (block_places with_table inserts_and_scans no_frame)
