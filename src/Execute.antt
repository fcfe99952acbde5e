-- ===== src/Execute.antt =====
-- A program from its text to what it prints: `reir_context::execute` of src/reir/exec/reir_context.cpp
-- and `Executor::execute` of executor.cpp. The thread of the engine in which this runs is left out.
use reir.Prelude.{
  ℕ, Bool, true, false, List, Option, some, Bytes, Result, throw, bind, unimplemented,
}
use reir.Ast.{Block}
use reir.Parser.Statements.{parse}
use reir.Codegen.Types.{LlvmType, Setting}
use reir.Codegen.Compile.{Compiled, compile_and_exec}

module _ (g : Setting) (module_string : Option LlvmType) (address : ℕ → Bytes)
    (exec : Compiled → Option (List Bytes)) where
  -- With the fuel of the parser.
  unfoldable pub execute : ℕ → Bytes → Result Bytes
  unfolding parse compile_and_exec
  execute f code =
      bind (parse f code) λ ast. compile_and_exec g module_string address exec (some ast)

  -- Only the compiler executes a program.
  unfoldable pub execute_with : Bool → Option Block → Result Bytes
  unfolding compile_and_exec
  execute_with true ast = compile_and_exec g module_string address exec ast
  execute_with false ast = throw unimplemented
