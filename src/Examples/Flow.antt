-- ===== src/Examples/Flow.antt =====
-- Runs of the blocks that are built.
use reir.Prelude.{ℕ, ◌≡◌, refl, Bool, true, false, [], ◌∷◌, List, Bytes, codes, Result, ok, fault}
use reir.Ast.{
  Expression, Expressions, Operators, Block, binary, row_literal, variable_reference, for, jump,
  break_jump, no_init, part, no_part, unset_part, unset_init, scan,
}
use reir.Codegen.Flow.{Terminator, br, Builder, get_value, exit_loop_ctx}
use reir.Codegen.Flow.Statements.{block_codegen}

-- The block in which a program begins.
abbrev entry : Builder
entry = record { count = 1; terminators = λ _. []; current = 0; loops = [] }

abbrev all : Bytes → Bool
all _ = true

abbrev x : Expression
x = variable_reference (codes "x")

-- A loop that a jump leaves at once.
abbrev left_at_once : Block
left_at_once =
    Block.cons (for no_init (part x) no_part (Block.cons (jump break_jump) Block.nil)) Block.nil

abbrev terminators_of : Result Builder → ℕ → List Terminator
terminators_of (ok b) n = b.terminators n
terminators_of _ n = []

-- The block of its body is ended twice: by the jump, and by the branch behind it.
ended_twice :
    terminators_of (block_codegen all all all true left_at_once entry) 2 ≡ br 4 ∷ br 3 ∷ []
unfolding block_codegen get_value exit_loop_ctx
ended_twice = refl

-- Without a condition, the block in front of the body is not ended.
not_ended :
    terminators_of
      (block_codegen all all all true
        (Block.cons (for no_init no_part no_part Block.nil) Block.nil)
        entry)
      1
    ≡ []
unfolding block_codegen exit_loop_ctx
not_ended = refl

-- Outside of a loop.
stray_jump : block_codegen all all all true (Block.cons (jump break_jump) Block.nil) entry ≡ fault
unfolding block_codegen exit_loop_ctx
stray_jump = refl

abbrev count_of : Result Builder → ℕ
count_of (ok b) = b.count
count_of _ = 0

-- An element of a row is evaluated twice: there are four blocks for one `&&`.
evaluated_twice :
    count_of (
      get_value all all
        (row_literal (Expressions.cons (binary x Operators.conditional_and x) Expressions.nil))
        entry)
    ≡ 5
unfolding get_value
evaluated_twice = refl

-- The table has no schema.
undefined_scan :
    block_codegen all all
      (λ _. false)
      true
      (Block.cons (scan (codes "t") (codes "r") Block.nil) Block.nil)
      entry
    ≡ fault
unfolding block_codegen
undefined_scan = refl

-- The header is empty, and its pointers have no value.
empty_header :
    block_codegen all all all true
      (Block.cons (for unset_init unset_part unset_part Block.nil) Block.nil)
      entry
    ≡ fault
unfolding block_codegen
empty_header = refl
