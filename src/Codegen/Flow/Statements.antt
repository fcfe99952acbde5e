-- ===== src/Codegen/Flow/Statements.antt =====
-- `codegen` of the statements of src/reir/exec/ast_statement_codegen.cpp, by the blocks and branches of
-- Codegen.Flow. The calls of the transaction and of the cursor, which the engine emits, make no
-- blocks. The names of the tables that have a schema are a parameter too: the pointer to the schema
-- of another is null, and so are those to the places of a statement that has none.
use reir.Prelude.{
  ℕ, suc, ◌+◌, Bool, false, List, [], ◌∷◌, Bytes, Result, ok, throw, fault, bind,
  undefined_variable,
}
use reir.Ast.{
  Part, unset_part, no_part, part, Expression, Statement, Block, Init, ElseBlock, block, define,
  emit, expr_statement, for, define_tuple, if_else, jump, insert, scan, let_, transaction,
  unset_init, no_init, init, no_else, else_block, JumpType, continue_jump, break_jump,
}
use reir.Codegen.Flow.{
  Loop, br, cond_br, Builder, create, set_insert_point, append, enter_loop, exit_loop_ctx, Emitter,
  require, get_value,
}

-- The branch of a jump, by the innermost loop.
unfoldable pub jump_target : JumpType → Loop → ℕ
jump_target continue_jump l = l.every
jump_target break_jump l = l.finish

-- The pointer to the innermost loop is null outside of the loops.
unfoldable pub innermost : List Loop → Result Loop
innermost [] = fault
innermost (l ∷ out) = ok l

unfoldable pub jump_codegen : JumpType → Emitter
unfolding jump_target innermost
jump_codegen t b = bind (innermost b.loops) λ l. ok (append (br (jump_target t l)) b)

module _ (variables functions : Bytes → Bool) where
  -- A pointer without a value is read.
  unfoldable pub optional_value : Part → Emitter
  optional_value unset_part b = fault
  optional_value no_part b = ok b
  optional_value (part e) b = get_value variables functions e b

  -- The place of the variable has to be there before its value.
  unfoldable pub let_codegen : Bytes → Expression → Emitter
  unfolding require
  let_codegen name e b =
      bind (require (variables name) (throw undefined_variable) b) (get_value variables functions e)

  unfoldable pub if_codegen : Expression → Emitter → Emitter → Emitter
  if_codegen cond true_block false_block b =
      let true_blk = b.count in
      let false_blk = suc true_blk in
      let fin = suc false_blk in
      bind (get_value variables functions cond (create (create (create b)))) λ b₁.
        bind (true_block (set_insert_point true_blk (append (cond_br true_blk false_blk) b₁))) λ b₂.
          bind (false_block (set_insert_point false_blk (append (br fin) b₂)))
            λ b₃. ok (set_insert_point fin (append (br fin) b₃))

  -- Without a condition nothing ends the block in which it would be.
  unfoldable pub for_condition : Part → Loop → Emitter
  for_condition unset_part l b = fault
  for_condition no_part l b = ok b
  for_condition (part e) l b =
      bind (get_value variables functions e b) λ b₁. ok (append (cond_br l.body l.finish) b₁)

  unfoldable pub for_codegen : Emitter → Part → Part → Emitter → Emitter
  unfolding optional_value for_condition
  for_codegen first cond every blk b = bind (first b) λ b₀.
      let l : Loop = record {
        begin = b₀.count;
        body = b₀.count + 1;
        every = b₀.count + 2;
        finish = b₀.count + 3;
      } in
      bind
        (for_condition cond l (
          set_insert_point l.begin
            (append (br l.begin) (enter_loop l (create (create (create (create b₀))))))))
        λ b₁. bind (blk (set_insert_point l.body b₁)) λ b₂.
          bind (optional_value every (set_insert_point l.every (append (br l.every) b₂)))
            λ b₃. exit_loop_ctx (set_insert_point l.finish (append (br l.begin) b₃))

module _ (schemas : Bytes → Bool) where
  -- An emitted row is stored to its place. The exception for a value that is no struct depends on a
  -- type.
  unfoldable pub emit_codegen : Bool → Emitter → Emitter
  unfolding require
  emit_codegen own value b = bind (value b) (require own fault)

  -- The prefix is that of the schema, behind the value; the copies are to the places.
  unfoldable pub insert_codegen : Bytes → Bool → Emitter → Emitter
  unfolding require
  insert_codegen table own value b =
      bind (value b) λ b₁. bind (require (schemas table) fault b₁) (require own fault)

  -- The prefix is that of the schema; the bounds, the type of the row and the buffers are places.
  -- A scan is no loop for the jumps in it.
  unfoldable pub scan_codegen : Bytes → Bool → Emitter → Emitter
  unfolding require
  scan_codegen table own blk b = bind (require (schemas table) fault b) λ b₀.
      bind (require own fault b₀) λ b₁.
        let check = b₁.count in
        let begin_blk = suc check in
        let fin = suc begin_blk in
        bind
          (blk (
            set_insert_point begin_blk (
              append (cond_br begin_blk fin)
                (set_insert_point check (append (br check) (create (create (create b₁))))))))
          λ b₂. ok (set_insert_point fin (append (br check) b₂))

module _ (variables functions schemas : Bytes → Bool) where
  -- The first test says whether the pass over the places has been to the statement, and the second
  -- whether it goes to the statements within. It goes to the first statement of a loop, and not to
  -- what stands within that.
  unfoldable mutual
    unfolding let_codegen if_codegen for_codegen scan_codegen jump_codegen emit_codegen
        insert_codegen

    pub codegen : Bool → Bool → Statement → Builder → Result Builder
    codegen own inner (block s) b = block_codegen inner s b
    codegen own inner (define schema name) b = ok b
    codegen own inner (emit e) b = emit_codegen schemas own (get_value variables functions e) b
    codegen own inner (expr_statement e) b = get_value variables functions e b
    codegen own inner (for i cond every s) b =
        for_codegen variables functions (init_codegen own i) cond every (block_codegen inner s) b
    codegen own inner (define_tuple name t) b = ok b
    codegen own inner (if_else cond s e) b =
        if_codegen variables functions cond (block_codegen inner s) (else_codegen inner e) b
    codegen own inner (jump j) b = jump_codegen j b
    codegen own inner (insert table e) b =
        insert_codegen schemas table own (get_value variables functions e) b
    codegen own inner (scan table row s) b =
        scan_codegen schemas table own (block_codegen inner s) b
    codegen own inner (let_ type name e) b = let_codegen variables functions name e b
    codegen own inner (transaction isolation s) b = block_codegen inner s b

    pub block_codegen : Bool → Block → Builder → Result Builder
    block_codegen placed Block.nil b = ok b
    block_codegen placed (Block.cons s rest) b =
        bind (codegen placed placed s b) (block_codegen placed rest)

    pub init_codegen : Bool → Init → Builder → Result Builder
    init_codegen own unset_init b = fault
    init_codegen own no_init b = ok b
    init_codegen own (init s) b = codegen own false s b

    pub else_codegen : Bool → ElseBlock → Builder → Result Builder
    else_codegen placed no_else b = ok b
    else_codegen placed (else_block s) b = block_codegen placed s b
