-- ===== src/Codegen/Compile.antt =====
-- The passes over a program, `Compiler::compile` and `compile_and_exec` of src/reir/exec/compiler.cpp,
-- from the context that compiler_context.cpp makes. What the module has under the name of the type
-- of strings, and the compiled function, are those of LLVM: parameters. The dumps of a debug build
-- are left out.
pub mod Function
use reir.Prelude.{
  ℕ, suc, true, List, [], ◌∷◌, ◌++◌, Option, none, some, Bytes, codes, Result, ok, bind,
}
use reir.Ast.{Block}
use reir.Analyze.Expressions.{initial}
use reir.Analyze.Statements.{analyze_block}
use reir.Output.{show_outputs}
use reir.Codegen.Types.{LlvmType, Setting, Map, TypeTable, is_there}
use reir.Codegen.Stack.{Frame, block_places}
use reir.Codegen.Flow.{Builder, ret, create, set_insert_point, append}
use reir.Codegen.Flow.Statements.{block_codegen}
use reir.Codegen.Engine.{
  Functions, Calls, define_functions, init_types, init_functions, block_calls,
}

pub record Compiled : Type 0 where
  pub frame : Frame
  pub builder : Builder
  pub calls : Calls

-- A context that knows only types.
abbrev pub empty_frame : TypeTable → Frame
empty_frame types = record {
  variables = λ _. none;
  types = types;
  schemas = λ _. none;
  prefixes = λ _. none;
  slots = [];
  created = [];
}

-- A function without blocks, and then with the block in which it begins.
abbrev pub empty_function : Builder
empty_function = record { count = 0; terminators = λ _. []; current = 0; loops = [] }

unfoldable pub entry_block : Builder
entry_block = set_insert_point empty_function.count (create empty_function)

module _ (g : Setting) (module_string : Option LlvmType) (address : ℕ → Bytes) where
  -- What comes behind the analysis.
  unfoldable pub generate : TypeTable → Functions → Block → Result Compiled
  unfolding entry_block
  generate types fs ast =
      bind (block_places (record g { functions = fs }) ast (empty_frame types)) λ f.
        bind
          (block_codegen (λ n. is_there (f.variables n)) (λ n. is_there (fs n))
            (λ n. is_there (f.schemas n)) true ast entry_block)
          λ b.
            bind (block_calls fs ast [])
              λ calls. ok (record { frame = f; builder = append ret b; calls = calls })

  unfoldable pub compile : Block → Result Compiled
  unfolding generate
  compile ast =
      let types = init_types module_string (λ _. none) in
      bind (init_functions types (define_functions (λ _. none)))
        λ fs. bind (analyze_block address ast initial) λ c. generate types fs ast

  -- What is printed. The compiled function may have no address; else it runs, and leaves rows.
  unfoldable pub compile_and_exec : (Compiled → Option (List Bytes)) → Option Block → Result Bytes
  unfolding compile
  compile_and_exec exec none = ok []
  compile_and_exec exec (some ast) = bind (compile ast) λ p. ok (elim (exec p) [
    | none ↦ codes "failed to compile " ++ 10 ∷ []
    | some rows ↦ show_outputs rows
  ])
