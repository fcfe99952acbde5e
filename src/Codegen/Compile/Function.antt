-- ===== src/Codegen/Compile/Function.antt =====
-- The function that src/reir/exec/compiler.cpp compiles of a program.
use reir.Prelude.{
  ℕ, ◌<◌, ◌≡◌, refl, arith, true, Option, none, Bytes, ok, WhenOk, on_ok, WhenOk-bind, WhenOk-eq,
  itself,
}
use reir.Ast.{Block}
use reir.Analyze.Expressions.{initial}
use reir.Analyze.Statements.{analyze_block}
use reir.Codegen.Types.{LlvmType, Setting, TypeTable, is_there}
use reir.Codegen.Stack.{block_places}
use reir.Codegen.Flow.{Builder, ret, append}
use reir.Codegen.Flow.Endings.{IsOpen, Grows, no_blocks, ends, ends-append}
use reir.Codegen.Flow.Finished.{AreJumpFree, block-Closing}
use reir.Codegen.Engine.{Functions, define_functions, init_types, init_functions}
use reir.Codegen.Engine.Signatures.{AllTyped, block_calls-AllTyped}
use reir.Codegen.Compile.{Compiled, empty_frame, entry_block, generate, compile}

entry-IsOpen : IsOpen entry_block
unfolding entry_block
entry-IsOpen = record { inside = omega arith; unended = refl; above = λ n h. refl }

-- Every block is ended once.
abbrev pub AllEnded : Builder → Type 0
AllEnded b = (n : ℕ) → n < b.count → ends b n ≡ 1

-- From the one block of a function, with the last block ended too.
ret-AllEnded : (b : Builder) → Grows no_blocks entry_block b → AllEnded (append ret b)
unfolding entry_block
ret-AllEnded b h n p =
    ground (arith, ends-append ret b n, h.fresh n, h.left, h.opened.unended, h.there)

module _ (g : Setting) (module_string : Option LlvmType) (address : ℕ → Bytes) where
  -- What holds of a compiled program.
  abbrev pub IsWhole : Compiled → Type 0
  IsWhole p = AllEnded p.builder × AllTyped p.calls

  generate-IsWhole :
      (types : TypeTable) (fs : Functions) (ast : Block)
      → AreJumpFree ast
      → init_functions types (define_functions (λ _. none)) ≡ ok fs
      → WhenOk IsWhole (generate g module_string address types fs ast)
  unfolding generate
  generate-IsWhole types fs ast h e =
      WhenOk-bind (itself (block_places (record g { functions = fs }) ast (empty_frame types)))
        λ f _.
          WhenOk-bind
            (block-Closing (λ n. is_there (f.variables n)) (λ n. is_there (fs n))
              (λ n. is_there (f.schemas n)) true ast h entry_block entry-IsOpen)
            λ b k.
              WhenOk-bind (block_calls-AllTyped types (λ _. none) fs ast e)
                λ calls typed. on_ok (ret-AllEnded b k, typed)

  compile-Whole :
      (ast : Block) → AreJumpFree ast → WhenOk IsWhole (compile g module_string address ast)
  unfolding compile
  compile-Whole ast h =
      WhenOk-bind
        (itself
          (init_functions (init_types module_string (λ _. none)) (define_functions (λ _. none))))
        λ fs e.
          WhenOk-bind (itself (analyze_block address ast initial))
            λ c _. generate-IsWhole (init_types module_string (λ _. none)) fs ast h e

  -- If a program has no jump, and each loop in it a condition, then if it is compiled, each block
  -- of the compiled function has exactly one terminator, and its calls of the engine, and for
  -- emitted rows, are of functions that are declared, with arguments of the types that these
  -- take.
  pub compile-IsWhole :
      (ast : Block) (p : Compiled)
      → AreJumpFree ast
      → compile g module_string address ast ≡ ok p
      → AllEnded p.builder × AllTyped p.calls
  compile-IsWhole ast p h e = WhenOk-eq (compile-Whole ast h) e
