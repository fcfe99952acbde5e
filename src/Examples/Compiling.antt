-- ===== src/Examples/Compiling.antt =====
-- Runs of the passes over a program, and of the printing of rows.
use reir.Prelude.{
  ℕ, ◌≡◌, ◌≢◌, refl, arith, false, List, [], ◌∷◌, ◌++◌, map, Option, none, some, Bytes, codes,
  Result, ok, bytes_eq,
}
use reir.Prelude.Decimal.{print}
use reir.Ast.{
  part, unset_part, Operators, Types, Expression, Expressions, Statement, Block, number, binary,
  variable_reference, assign, row_literal, emit, for, insert, let_, init,
}
use reir.Traverse.Visits.{first, later}
use reir.Analyze.{operate, operate_number, kind_of, same_type}
use reir.Analyze.Expressions.{initial, initial_types, deref, assert_type, analyze}
use reir.Analyze.Statements.{analyze_block, declare_other}
use reir.Db.Memory.{le_bytes, from_le}
use reir.Codegen.Types.{
  LlvmType, LlvmTypes, int8, int64, pointer_to, struct, llvm_types, Setting, TypeTable, put,
  is_there, get_type,
}
use reir.Codegen.Flow.{get_value, exit_loop_ctx}
use reir.Codegen.Flow.Statements.{let_codegen, block_codegen}
use reir.Codegen.Stack.{Frame, block_places}
use reir.Codegen.Stack.Placed.{let_codegen-block_places}
use reir.Codegen.Stack.Twice.{begins, block_places-BeginsOwning}
use reir.Codegen.Engine.{define_functions, init_types, init_functions, block_calls}
use reir.Codegen.Engine.Signatures.{AllTyped}
use reir.Codegen.Compile.{Compiled, empty_frame, entry_block, compile}
use reir.Codegen.Compile.Function.{AllEnded, compile-IsWhole}
use reir.Execute.{execute}
use reir.Output.{emit_size, emit_row, show_row, show_outputs}
use reir.Output.Printed.{listed, in_memory, emit_row-show_row}

abbrev text_of : LlvmType → Bytes
text_of int64 = codes "i64"
text_of _ = codes "?"

abbrev setting : Setting
setting = record {
  same_type = λ s t. bytes_eq (text_of s) (text_of t);
  print = text_of;
  member_types = λ _. none;
  columns = λ _. Types.nil;
  functions = λ _. none;
}

abbrev x : Expression
x = variable_reference (codes "x")

abbrev row : Expression
row = row_literal (Expressions.cons x (Expressions.cons (number 2) Expressions.nil))

abbrev count_down : Statement
count_down = let_ none (codes "x") (number 3)

-- A loop that emits rows.
abbrev program : Block
program =
    Block.cons
      (for (init count_down) (part (binary x Operators.lessthan (number 9)))
        (part (assign x (binary x Operators.plus (number 1)))) (Block.cons (emit row) Block.nil))
      Block.nil

abbrev compiled_of : Result Compiled → Compiled
compiled_of (ok p) = p
compiled_of _ = record { frame = empty_frame (λ _. none); builder = entry_block; calls = [] }

abbrev compiled : Compiled
compiled = compiled_of (compile setting none print program)

compiles : compile setting none print program ≡ ok compiled
unfolding compile init_types init_functions define_functions put bytes_eq analyze_block analyze
    block_places get_type is_there block_codegen get_value exit_loop_ctx block_calls declare_other
    reir.Analyze.Expressions.insert deref initial_types operate operate_number kind_of same_type
    assert_type
compiles = refl

compile-IsWhole_example : AllEnded compiled.builder × AllTyped compiled.calls
compile-IsWhole_example =
    compile-IsWhole setting none print program compiled ((tt, (tt, tt)), tt) compiles

abbrev no_frame : Frame
no_frame = empty_frame (λ _. none)

abbrev one_let : Block
one_let = Block.cons (emit (number 1)) (Block.cons count_down Block.nil)

abbrev frame_of : Result Frame → Frame
frame_of (ok f) = f
frame_of _ = no_frame

abbrev placed : Frame
placed = frame_of (block_places setting one_let no_frame)

placed_so : block_places setting one_let no_frame ≡ ok placed
unfolding block_places get_type
placed_so = refl

let_codegen-block_places_example :
    let_codegen (λ m. is_there (placed.variables m)) (λ _. false) (codes "x") (number 3) entry_block
    ≡ get_value (λ m. is_there (placed.variables m)) (λ _. false) (number 3) entry_block
let_codegen-block_places_example =
    let_codegen-block_places setting (λ _. false) none (codes "x") (number 3) one_let no_frame
      placed entry_block (later first) placed_so

-- A loop that begins with an insert.
abbrev inserting : Statement
inserting = for (init (insert (codes "t") row)) unset_part unset_part Block.nil

block_places-BeginsOwning_example :
    block_places setting (Block.cons inserting Block.nil) no_frame ≢ ok no_frame
block_places-BeginsOwning_example =
    block_places-BeginsOwning setting inserting (Block.cons inserting Block.nil) no_frame no_frame
      first (begins tt)

abbrev string_struct : LlvmType
string_struct =
    struct (codes "string_type")
      (LlvmTypes.cons (pointer_to int8) (LlvmTypes.cons int64 LlvmTypes.nil))

abbrev bits_of : LlvmType → ℕ
bits_of int64 = 64
bits_of _ = 0

abbrev two_numbers : List ℕ
two_numbers = 7 ∷ 18446744073709551615 ∷ []

emit_row-show_row_example :
    (r : Bytes) × (emit_row bits_of
        (struct [] (llvm_types (map (λ _. int64) two_numbers)))
        (in_memory two_numbers ++ 1 ∷ [])
        []
      ≡ ok ([] ++ r ∷ []))
    × (show_row r ≡ b'[' ∷ (listed two_numbers ++ codes "]"))
emit_row-show_row_example = emit_row-show_row bits_of [] two_numbers (1 ∷ []) [] refl (omega arith)

-- The second number is -1 in the program.
minus_one_shown : show_row (in_memory (18446744073709551615 ∷ [])) ≡ codes "[18446744073709551615]"
unfolding show_row le_bytes from_le print
minus_one_shown = refl

-- A string in an emitted row has the size 0.
string_emitted : emit_size bits_of (struct [] (llvm_types (string_struct ∷ int64 ∷ []))) ≡ ok 8
unfolding emit_size llvm_types
string_emitted = refl

-- A comparison has the type of its operands, while its value has one bit.
abbrev type_of : Result (LlvmType × TypeTable) → Option LlvmType
type_of (ok (t, m)) = some t
type_of _ = none

comparison_type :
    type_of
      (get_type setting (λ _. none) (binary (number 1) Operators.lessthan (number 2)) (λ _. none))
    ≡ some int64
unfolding get_type bytes_eq
comparison_type = refl

abbrev two_rows : Compiled → Option (List Bytes)
two_rows p = some (in_memory (1 ∷ 2 ∷ []) ∷ in_memory (3 ∷ []) ∷ [])

-- What a program prints that emits two rows.
printed_rows :
    execute setting none print two_rows 30 (codes "emit {1, 2}")
    ≡ ok (codes "emitted values: [1, 2]" ++ (10 ∷ (codes "[3]" ++ 10 ∷ [])))
unfolding execute init_types init_functions define_functions put bytes_eq analyze_block analyze
    block_places get_type is_there block_codegen get_value exit_loop_ctx block_calls
    reir.Analyze.Expressions.insert initial_types assert_type print show_outputs le_bytes from_le
printed_rows = refl
