-- ===== src/Codegen/Stack/Placed.antt =====
-- What the pass of src/reir/exec/compiler.cpp over the statements is for: the places of variables that
-- the code generator of ast_statement_codegen.cpp looks up.
use reir.Prelude.{
  ◌≡◌, refl, Bool, true, false, Option, Bytes, Result, ok, bind, WhenOk, on_ok, WhenOk-bind,
  WhenOk-weaken, WhenOk-eq,
}
use reir.Ast.{
  NodeType, Expression, Statement, Block, ElseBlock, block, define, emit, expr_statement, for,
  define_tuple, if_else, jump, insert, scan, let_, transaction, no_else, else_block,
}
use reir.Traverse.Visits.{
  IsWithin, in_block, in_init, in_for, in_true, in_false, in_scan, in_transaction, IsInBlock, first,
  within, later,
}
use reir.Codegen.Types.{Setting, is_there}
use reir.Codegen.Flow.{Builder, require, get_value}
use reir.Codegen.Flow.Statements.{let_codegen}
use reir.Codegen.Stack.{Frame, alloca_stack, init_stack, places, block_places, else_places}
use reir.Codegen.Stack.Growth.{Has, Grows, Grows-stay, Growing, both}
use reir.Codegen.Stack.Variables.{Placed, Placed-Grows, stack-Placed, init-Growing}

module _ (g : Setting) where
  stack-Growing : (again : Bool) (s : Statement) → Growing (alloca_stack g again s)
  stack-Growing again s f = WhenOk-weaken (stack-Placed g again s f) λ f' (p, h). h

  mutual
    unfolding places

    places-Growing : (s : Statement) → Growing (places g s)
    places-Growing (block b) f = block-Growing b f
    places-Growing (for i cond every b) f =
        both (init_stack g true i) (block_places g b) (init-Growing g true i) (block-Growing b) f
    places-Growing (if_else cond b e) f =
        both (block_places g b) (else_places g e) (block-Growing b) (else-Growing e) f
    places-Growing (scan table row b) f = block-Growing b f
    places-Growing (transaction isolation b) f = block-Growing b f
    places-Growing (define schema name) f = on_ok (Grows-stay f)
    places-Growing (emit e) f = on_ok (Grows-stay f)
    places-Growing (expr_statement e) f = on_ok (Grows-stay f)
    places-Growing (define_tuple name t) f = on_ok (Grows-stay f)
    places-Growing (jump j) f = on_ok (Grows-stay f)
    places-Growing (insert table e) f = on_ok (Grows-stay f)
    places-Growing (let_ type n e) f = on_ok (Grows-stay f)

    block-Growing : (b : Block) → Growing (block_places g b)
    block-Growing Block.nil f = on_ok (Grows-stay f)
    block-Growing (Block.cons s b) f =
        both (alloca_stack g false s) (λ f₁. bind (places g s f₁) (block_places g b))
          (stack-Growing false s)
          (both (places g s) (block_places g b) (places-Growing s) (block-Growing b)) f

    else-Growing : (e : ElseBlock) → Growing (else_places g e)
    else-Growing no_else f = on_ok (Grows-stay f)
    else-Growing (else_block b) f = block-Growing b f

  -- A place that is there is still there behind what follows.
  stays :
      (t : Statement) (f : Frame) (m : Result Frame)
      → WhenOk (Grows f) m
      → Placed g t f
      → WhenOk (Placed g t) m
  stays t f m h p = WhenOk-weaken h λ f' k. Placed-Grows g t f f' k p

  mutual
    unfolding places

    within-Placed :
        {t s : Statement} → IsWithin t s → (f : Frame) → WhenOk (Placed g t) (places g s f)
    within-Placed (in_block h) f = in_block-Placed h f
    within-Placed (in_init {t} {cond} {every} {b}) f =
        WhenOk-bind (stack-Placed g true t f)
          λ f₁ (p, k). stays t f₁ (block_places g b f₁) (block-Growing b f₁) p
    within-Placed (in_for {i} h) f =
        WhenOk-bind (init-Growing g true i f) λ f₁ k. in_block-Placed h f₁
    within-Placed (in_true {t} {cond} {b} {e} h) f =
        WhenOk-bind (in_block-Placed h f)
          λ f₁ p. stays t f₁ (else_places g e f₁) (else-Growing e f₁) p
    within-Placed (in_false {t} {cond} {b} {c} h) f =
        WhenOk-bind (block-Growing b f) λ f₁ k. in_block-Placed h f₁
    within-Placed (in_scan h) f = in_block-Placed h f
    within-Placed (in_transaction h) f = in_block-Placed h f

    pub in_block-Placed :
        {t : Statement} {b : Block}
        → IsInBlock t b
        → (f : Frame) → WhenOk (Placed g t) (block_places g b f)
    in_block-Placed (first {s} {b}) f = WhenOk-bind (stack-Placed g false s f) λ f₁ (p, k).
        stays s f₁ (bind (places g s f₁) (block_places g b))
          (both (places g s) (block_places g b) (places-Growing s) (block-Growing b) f₁) p
    in_block-Placed (within {t} {s} {b} h) f = WhenOk-bind (stack-Growing false s f) λ f₁ k.
        WhenOk-bind (within-Placed h f₁)
          λ f₂ p. stays t f₂ (block_places g b f₂) (block-Growing b f₂) p
    in_block-Placed (later {t} {s} {b} h) f =
        WhenOk-bind (stack-Growing false s f)
          λ f₁ k. WhenOk-bind (places-Growing s f₁) λ f₂ k'. in_block-Placed h f₂

  -- If the pass over a block returns, the code of each `let` that stands in the block is that of
  -- its value, wherever it is generated: the place of its variable is found.
  pub let_codegen-block_places :
      (functions : Bytes → Bool) (type : Option NodeType) (n : Bytes) (e : Expression) (b : Block)
      (f f' : Frame) (c : Builder)
      → IsInBlock (let_ type n e) b
      → block_places g b f ≡ ok f'
      → let_codegen (λ m. is_there (f'.variables m)) functions n e c
        ≡ get_value (λ m. is_there (f'.variables m)) functions e c
  unfolding let_codegen require
  let_codegen-block_places functions type n e b f f' c h r =
      let p : Has n f' = WhenOk-eq (in_block-Placed h f) r in rw p refl
