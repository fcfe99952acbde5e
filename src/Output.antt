-- ===== src/Output.antt =====
-- Emitted rows: `Emit::codegen` of src/reir/exec/ast_statement_codegen.cpp computes the size, compiled
-- code calls `emit` of compiler.cpp with the row, `RawRow` of compiler_context.hpp holds a copy, and
-- `compile_and_exec` prints the rows in the end. How many bits a primitive type of LLVM has is a
-- parameter.
pub mod Printed
use reir.Prelude.{
  ℕ, zero, suc, ◌+◌, ◌/◌, Bool, true, false, List, [], ◌∷◌, ◌++◌, Bytes, codes, ltb, if◌then◌else◌,
  length, take, drop, Result, ok, throw, bind, not_a_row,
}
use reir.Prelude.Decimal.{print}
use reir.Db.Memory.{load, from_le}
use reir.Codegen.Types.{LlvmType, LlvmTypes, struct}

unfoldable pub row_size : (LlvmType → ℕ) → LlvmTypes → ℕ
row_size bits LlvmTypes.nil = 0
row_size bits (LlvmTypes.cons t ts) = (bits t + 7) / 8 + row_size bits ts

-- The size that an emitted value of the type is said to have.
unfoldable pub emit_size : (LlvmType → ℕ) → LlvmType → Result ℕ
unfolding row_size
emit_size bits (struct name ts) = ok (row_size bits ts)
emit_size bits _ = throw not_a_row

-- `CompilerContext::get_output`, which `emit` calls: a copy behind the others.
unfoldable pub get_output : Bytes → ℕ → List Bytes → Result (List Bytes)
get_output buff len outputs = bind (load buff 0 len) λ row. ok (outputs ++ row ∷ [])

-- An emission, of a value in memory.
unfoldable pub emit_row : (LlvmType → ℕ) → LlvmType → Bytes → List Bytes → Result (List Bytes)
unfolding emit_size get_output
emit_row bits t buff outputs = bind (emit_size bits t) λ len. get_output buff len outputs

-- The loop of `operator<<`, with `n` words left: they stand in the buffer, by the count of them.
unfoldable pub show_words : ℕ → ℕ → Bytes → Bytes
show_words zero i bytes = []
show_words (suc n) i bytes =
    (if ltb 0 i then codes ", " else [])
    ++ (print (from_le (take 8 bytes)) ++ show_words n (suc i) (drop 8 bytes))

unfoldable pub show_row : Bytes → Bytes
unfolding show_words
show_row row = b'[' ∷ (show_words (length row / 8) 0 row ++ codes "]")

unfoldable pub show_rows : ℕ → List Bytes → Bytes
unfolding show_row
show_rows i [] = []
show_rows i (row ∷ rows) =
    (if ltb 0 i then 10 ∷ [] else []) ++ (show_row row ++ show_rows (suc i) rows)

-- The end of `compile_and_exec`.
unfoldable pub show_outputs : List Bytes → Bytes
unfolding show_rows
show_outputs rows = codes "emitted values: " ++ (show_rows 0 rows ++ 10 ∷ [])
