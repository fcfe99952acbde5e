-- ===== src/Codegen/Stack/Schemas.antt =====
-- The schemas that the code of src/reir/exec/ast_statement_codegen.cpp looks up, behind the pass of
-- src/reir/exec/compiler.cpp over the places.
use reir.Prelude.{◌≡◌, Bool, true, false, Bytes}
use reir.Ast.{
  Statement, Block, block, define, emit, expr_statement, for, define_tuple, if_else, jump, insert,
  scan, let_, transaction, unset_init, no_init, init, no_else, else_block,
}
use reir.Traverse.Visits.{
  IsWithin, in_block, in_for, in_true, in_false, in_scan, in_transaction, IsInBlock, first, within,
  later,
}
use reir.Codegen.Flow.Jumps.{IsLooped, AreLooped}
use reir.Codegen.Stack.Variables.{Placed}

-- Whatever table.
abbrev pub any_table : Bytes → Bool
any_table _ = true

module _ (schemas : Bytes → Bool) where
  -- The table that the statement itself looks up has a schema.
  abbrev Finds : Statement → Type 0
  Finds (insert table e) = schemas table ≡ true
  Finds (scan table row b) = schemas table ≡ true
  Finds (for (init s) cond every b) = Finds s
  Finds _ = Unit

  -- So have those of the statements within, where the pass goes to these.
  abbrev Within : Bool → Statement → Type 0
  Within inner s = inner ≡ true → (t : Statement) → IsWithin t s → Finds t

  abbrev InBlock : Bool → Block → Type 0
  InBlock inner b = inner ≡ true → (t : Statement) → IsInBlock t b → Finds t

  module _ (variables : Bytes → Bool) where
    mutual
      statement-IsLooped :
          (inside own inner : Bool) (s : Statement)
          → (own ≡ true → Finds s)
          → Within inner s
          → IsLooped variables any_table inside own inner s
          → IsLooped variables schemas inside own inner s
      statement-IsLooped inside own inner (block b) p q h =
          block-AreLooped inside inner b (λ e t m. q e t (in_block m)) h
      statement-IsLooped inside own inner (define schema name) p q h = tt
      statement-IsLooped inside own inner (emit e) p q h = h
      statement-IsLooped inside own inner (expr_statement e) p q h = h
      statement-IsLooped inside own inner (for unset_init cond every b) p q (hi, hc, he, hb) =
          absurd hi
      statement-IsLooped inside own inner (for no_init cond every b) p q (hi, hc, he, hb) =
          (tt, hc, he, block-AreLooped true inner b (λ e t m. q e t (in_for m)) hb)
      statement-IsLooped inside own inner (for (init s) cond every b) p q (hi, hc, he, hb) = (
        statement-IsLooped inside own false s p (λ e. cc) hi,
        hc,
        he,
        block-AreLooped true inner b (λ e t m. q e t (in_for m)) hb,
      )
      statement-IsLooped inside own inner (define_tuple name type) p q h = tt
      statement-IsLooped inside own inner (if_else cond b no_else) p q (hc, hb, he) =
          (hc, block-AreLooped inside inner b (λ e t m. q e t (in_true m)) hb, tt)
      statement-IsLooped inside own inner (if_else cond b (else_block c)) p q (hc, hb, he) = (
        hc,
        block-AreLooped inside inner b (λ e t m. q e t (in_true m)) hb,
        block-AreLooped inside inner c (λ e t m. q e t (in_false m)) he,
      )
      statement-IsLooped inside own inner (jump j) p q h = h
      statement-IsLooped inside own inner (insert table e) p q (o, t, h) = (o, p o, h)
      statement-IsLooped inside own inner (scan table row b) p q (o, t, h) =
          (o, p o, block-AreLooped inside inner b (λ e t m. q e t (in_scan m)) h)
      statement-IsLooped inside own inner (let_ type name e) p q h = h
      statement-IsLooped inside own inner (transaction isolation b) p q h =
          block-AreLooped inside inner b (λ e t m. q e t (in_transaction m)) h

      block-AreLooped :
          (inside placed : Bool) (b : Block)
          → InBlock placed b
          → AreLooped variables any_table inside placed b
          → AreLooped variables schemas inside placed b
      block-AreLooped inside placed Block.nil q h = tt
      block-AreLooped inside placed (Block.cons s b) q (h, k) = (
        statement-IsLooped inside placed placed s (λ e. q e s first) (λ e t m. q e t (within m)) h,
        block-AreLooped inside placed b (λ e t m. q e t (later m)) k,
      )
