-- ===== src/Codegen/Flow/Finished.antt =====
-- The blocks that are built of a block of statements, src/reir/exec/ast_statement_codegen.cpp.
use reir.Prelude.{
  suc, ◌+◌, arith, Bool, false, [], ◌∷◌, Bytes, Result, ok, throw, abort, fault, diverge, bind,
  undefined_variable, WhenOk, on_ok, on_throw, on_fault, WhenOk-bind,
}
use reir.Ast.{
  Part, unset_part, no_part, part, Expression, Statement, Block, Init, ElseBlock, block, define,
  emit, expr_statement, for, define_tuple, if_else, jump, insert, scan, let_, transaction,
  unset_init, no_init, init, no_else, else_block,
}
use reir.Codegen.Flow.{
  Loop, br, cond_br, Builder, Emitter, require, get_value, exit_loop_ctx, enter_loop, create,
  set_insert_point, append,
}
use reir.Codegen.Flow.Statements.{
  optional_value, let_codegen, if_codegen, for_codegen, emit_codegen, insert_codegen, scan_codegen,
  codegen, block_codegen, init_codegen, else_codegen,
}
use reir.Codegen.Flow.Endings.{
  Grows, Grows-stay, Grows-then, Grows-go, Grows-end, Grows-three, Grows-four, Grows-loops,
  no_blocks, go,
}
use reir.Codegen.Flow.Closed.{Closes, Closing, both, require-Closing, value-Closing}

-- There is no jump, and each loop has a condition.
abbrev mutual
  pub IsJumpFree : Statement → Type 0
  IsJumpFree (block b) = AreJumpFree b
  IsJumpFree (for i unset_part every b) = ⊥
  IsJumpFree (for i no_part every b) = ⊥
  IsJumpFree (for i (part cond) every b) = InitJumpFree i × AreJumpFree b
  IsJumpFree (if_else cond b e) = AreJumpFree b × ElseJumpFree e
  IsJumpFree (jump j) = ⊥
  IsJumpFree (scan table row b) = AreJumpFree b
  IsJumpFree (transaction isolation b) = AreJumpFree b
  IsJumpFree _ = Unit

  pub AreJumpFree : Block → Type 0
  AreJumpFree Block.nil = Unit
  AreJumpFree (Block.cons s b) = IsJumpFree s × AreJumpFree b

  pub InitJumpFree : Init → Type 0
  InitJumpFree unset_init = Unit
  InitJumpFree no_init = Unit
  InitJumpFree (init s) = IsJumpFree s

  pub ElseJumpFree : ElseBlock → Type 0
  ElseJumpFree no_else = Unit
  ElseJumpFree (else_block b) = AreJumpFree b

module _ (variables functions : Bytes → Bool) where
  let-Closing : (n : Bytes) (e : Expression) → Closing (let_codegen variables functions n e)
  unfolding let_codegen
  let-Closing n e =
      both (require (variables n) (throw undefined_variable)) (get_value variables functions e)
        (require-Closing (variables n) (throw undefined_variable) λ b. on_throw)
        (value-Closing variables functions e)

  optional-Closing : (e : Part) → Closing (optional_value variables functions e)
  unfolding optional_value
  optional-Closing unset_part b o = on_fault
  optional-Closing no_part b o = on_ok (Grows-stay o)
  optional-Closing (part e) b o = value-Closing variables functions e b o

  if-Closing :
      (cond : Expression) (true_block false_block : Emitter)
      → Closing true_block
      → Closing false_block
      → Closing (if_codegen variables functions cond true_block false_block)
  unfolding if_codegen
  if-Closing cond true_block false_block ht hf b o =
      WhenOk-bind (value-Closing variables functions cond _ (Grows-three o).opened) λ b₁ g₁.
        let h₁ =
          Grows-go (cond_br b.count (suc b.count)) b.count o (Grows-then o (Grows-three o) g₁)
            (ground arith) in
        WhenOk-bind (ht _ h₁.opened) λ b₂ g₂.
          let h₂ =
            Grows-go (br (suc (suc b.count))) (suc b.count) o (Grows-then o h₁ g₂) (ground arith) in
          WhenOk-bind (hf _ h₂.opened) λ b₃ g₃. on_ok (
            Grows-end
              (Grows-go (br (suc (suc b.count))) (suc (suc b.count)) o (Grows-then o h₂ g₃)
                (ground arith))
              (λ n. ground arith))

there-Closing : (there : Bool) → Closing (require there fault)
there-Closing there = require-Closing there fault λ b. on_fault

module _ (schemas : Bytes → Bool) where
  emit-Closing :
      (own : Bool) (value : Emitter) → Closing value → Closing (emit_codegen schemas own value)
  unfolding emit_codegen
  emit-Closing own value h = both value (require own fault) h (there-Closing own)

  insert-Closing :
      (table : Bytes) (own : Bool) (value : Emitter)
      → Closing value
      → Closing (insert_codegen schemas table own value)
  unfolding insert_codegen
  insert-Closing table own value h =
      both value (λ b. bind (require (schemas table) fault b) (require own fault)) h
        (both (require (schemas table) fault) (require own fault) (there-Closing (schemas table))
          (there-Closing own))

  -- Where the schema and the places are there.
  scan_blocks : Emitter → Emitter
  scan_blocks blk b =
      let check = b.count in
      let begin_blk = suc check in
      let fin = suc begin_blk in
      bind
        (blk (
          set_insert_point begin_blk (
            append (cond_br begin_blk fin)
              (set_insert_point check (append (br check) (create (create (create b))))))))
        λ b₁. ok (set_insert_point fin (append (br check) b₁))

  blocks-Closing : (blk : Emitter) → Closing blk → Closing (scan_blocks blk)
  unfolding scan_blocks
  blocks-Closing blk h b o =
      let h₁ = Grows-go (br b.count) b.count o (Grows-three o) (ground arith) in
      let h₂ =
        Grows-go (cond_br (suc b.count) (suc (suc b.count))) (suc b.count) o h₁ (ground arith) in
      WhenOk-bind (h _ h₂.opened) λ b₁ g. on_ok (
        Grows-end (Grows-go (br b.count) (suc (suc b.count)) o (Grows-then o h₂ g) (ground arith))
          (λ n. ground arith))

  scan-Closing :
      (table : Bytes) (own : Bool) (blk : Emitter)
      → Closing blk
      → Closing (scan_codegen schemas table own blk)
  unfolding scan_codegen scan_blocks
  scan-Closing table own blk h =
      both (require (schemas table) fault) (λ b. bind (require own fault b) (scan_blocks blk))
        (there-Closing (schemas table))
        (both (require own fault) (scan_blocks blk) (there-Closing own) (blocks-Closing blk h))

exit-Closes : (b c : Builder) → Grows no_blocks b c → Closes b (exit_loop_ctx c)
unfolding exit_loop_ctx
exit-Closes b c h =
    elim c.loops
      as (λ ls. Closes b (elim ls [ [] ↦ fault | l ∷ out ↦ ok (record c { loops = out }) ])) [
        | [] ↦ on_fault
        | l ∷ out ↦ on_ok (Grows-loops out h)
      ]

WhenOk-after {ℓ} :
    {P : Builder → Type ℓ} (m : Result Builder) (f : Builder → Builder) (g : Emitter)
    → WhenOk P (bind m (λ b. g (f b)))
    → WhenOk P (bind (bind m (λ b. ok (f b))) g)
WhenOk-after (ok b) f g h = h
WhenOk-after (throw e) f g h = h
WhenOk-after abort f g h = h
WhenOk-after fault f g h = h
WhenOk-after diverge f g h = h

module _ (variables functions : Bytes → Bool) where
  for-Closing :
      (first blk : Emitter) (cond : Expression) (every : Part)
      → Closing first
      → Closing blk
      → Closing (for_codegen variables functions first (part cond) every blk)
  unfolding for_codegen
  for-Closing first blk cond every hi hb b o = WhenOk-bind (hi b o) λ b₀ g₀.
      let k = b₀.count in
      let o₀ = g₀.opened in
      let l : Loop = record { begin = k; body = k + 1; every = k + 2; finish = k + 3 } in
      let h₁ = Grows-go (br k) k o₀ (Grows-loops (l ∷ b₀.loops) (Grows-four o₀)) (ground arith) in
      WhenOk-after
        (get_value variables functions cond
          (go (br k) k (enter_loop l (create (create (create (create b₀)))))))
        (append (cond_br (k + 1) (k + 3)))
        (λ b₁. bind (blk (set_insert_point (k + 1) b₁)) λ b₂.
          bind (optional_value variables functions every (go (br (k + 2)) (k + 2) b₂))
            λ b₃. exit_loop_ctx (go (br k) (k + 3) b₃))
        (WhenOk-bind (value-Closing variables functions cond _ h₁.opened) λ b₁ g₁.
          let h₂ =
            Grows-go (cond_br (k + 1) (k + 3)) (k + 1) o₀ (Grows-then o₀ h₁ g₁) (ground arith) in
          WhenOk-bind (hb _ h₂.opened) λ b₂ g₂.
            let h₃ = Grows-go (br (k + 2)) (k + 2) o₀ (Grows-then o₀ h₂ g₂) (ground arith) in
            WhenOk-bind (optional-Closing variables functions every _ h₃.opened) λ b₃ g₃.
              exit-Closes b _ (
                Grows-then o g₀ (
                  Grows-end (Grows-go (br k) (k + 3) o₀ (Grows-then o₀ h₃ g₃) (ground arith))
                    (λ n. ground arith))))

module _ (variables functions schemas : Bytes → Bool) where
  mutual
    unfolding codegen

    statement-Closing :
        (own inner : Bool) (s : Statement)
        → IsJumpFree s
        → Closing (codegen variables functions schemas own inner s)
    statement-Closing own inner (block s) f b o = block-Closing inner s f b o
    statement-Closing own inner (define schema name) f b o = on_ok (Grows-stay o)
    statement-Closing own inner (emit e) f b o =
        emit-Closing schemas own (get_value variables functions e)
          (value-Closing variables functions e) b o
    statement-Closing own inner (expr_statement e) f b o = value-Closing variables functions e b o
    statement-Closing own inner (for i unset_part every s) f b o = absurd f
    statement-Closing own inner (for i no_part every s) f b o = absurd f
    statement-Closing own inner (for i (part cond) every s) (f, g) b o =
        for-Closing variables functions (init_codegen variables functions schemas own i)
          (block_codegen variables functions schemas inner s) cond every (init-Closing own i f)
          (block-Closing inner s g) b o
    statement-Closing own inner (define_tuple name t) f b o = on_ok (Grows-stay o)
    statement-Closing own inner (if_else cond s e) (f, g) b o =
        if-Closing variables functions cond (block_codegen variables functions schemas inner s)
          (else_codegen variables functions schemas inner e) (block-Closing inner s f)
          (else-Closing inner e g) b o
    statement-Closing own inner (jump j) f b o = absurd f
    statement-Closing own inner (insert table e) f b o =
        insert-Closing schemas table own (get_value variables functions e)
          (value-Closing variables functions e) b o
    statement-Closing own inner (scan table row s) f b o =
        scan-Closing schemas table own (block_codegen variables functions schemas inner s)
          (block-Closing inner s f) b o
    statement-Closing own inner (let_ type n e) f b o = let-Closing variables functions n e b o
    statement-Closing own inner (transaction isolation s) f b o = block-Closing inner s f b o

    pub block-Closing :
        (placed : Bool) (s : Block)
        → AreJumpFree s
        → Closing (block_codegen variables functions schemas placed s)
    block-Closing placed Block.nil f b o = on_ok (Grows-stay o)
    block-Closing placed (Block.cons s rest) (f, g) b o =
        both (codegen variables functions schemas placed placed s)
          (block_codegen variables functions schemas placed rest)
          (statement-Closing placed placed s f) (block-Closing placed rest g) b o

    init-Closing :
        (own : Bool) (i : Init)
        → InitJumpFree i
        → Closing (init_codegen variables functions schemas own i)
    init-Closing own unset_init f b o = on_fault
    init-Closing own no_init f b o = on_ok (Grows-stay o)
    init-Closing own (init s) f b o = statement-Closing own false s f b o

    else-Closing :
        (placed : Bool) (e : ElseBlock)
        → ElseJumpFree e
        → Closing (else_codegen variables functions schemas placed e)
    else-Closing placed no_else f b o = on_ok (Grows-stay o)
    else-Closing placed (else_block s) f b o = block-Closing placed s f b o
