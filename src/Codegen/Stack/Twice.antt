-- ===== src/Codegen/Stack/Twice.antt =====
-- The first statement of a loop, to which the pass of src/reir/exec/compiler.cpp comes twice.
use reir.Prelude.{
  ◌≢◌, true, false, not, Option, none, some, Bytes, Result, ok, WhenOk, on_throw, on_fault,
  WhenOk-bind, WhenOk-if, WhenOk-eq, itself,
}
use reir.Ast.{
  Part, Expression, Statement, Block, block, define, emit, expr_statement, for, define_tuple,
  if_else, jump, insert, scan, let_, transaction, unset_init, no_init, init,
}
use reir.Traverse.Visits.{
  IsWithin, in_block, in_init, in_for, in_true, in_false, in_scan, in_transaction, IsInBlock, first,
  within, later,
}
use reir.Db.Schema.{
  Schema, fixed_key_length, fixed_value_length, get_fixed_key_length, get_fixed_value_length,
  get_prefix,
}
use reir.Codegen.Rows.{insert_buffers, scan_buffers, prefix_end}
use reir.Codegen.Types.{Setting}
use reir.Codegen.Stack.{
  Frame, Typed, insert_place, scan_place, alloca_stack, init_stack, places, block_places,
}

-- The statement keeps places in itself, or it is a loop that begins with one that does.
abbrev pub Owns : Statement → Type 0
Owns (insert table e) = Unit
Owns (scan table row b) = Unit
Owns (for (init s) cond every b) = Owns s
Owns _ = ⊥

-- A loop begins with such a statement.
pub data BeginsOwning : Statement → Type 0 where
  begins :
      {s : Statement} {cond every : Part} {b : Block}
      → Owns s
      → BeginsOwning (for (init s) cond every b)

abbrev Never {ℓ} : {A : Type ℓ} → Result A → Type ℓ
Never = WhenOk (λ _. ⊥)

insert-Never : (s : Schema) → Never (insert_buffers (some s) true)
unfolding insert_buffers
insert-Never s =
    WhenOk-if (not (fixed_key_length s)) (λ _. on_throw)
      λ _.
        WhenOk-if (not (fixed_value_length s)) (λ _. on_throw)
          λ _.
            WhenOk-bind (itself (get_fixed_key_length s))
              λ key _. WhenOk-bind (itself (get_fixed_value_length s)) λ value _. on_throw

scan-Never : (s : Schema) → Never (scan_buffers (some s) true)
unfolding scan_buffers
scan-Never s =
    WhenOk-if (not (fixed_key_length s)) (λ _. on_throw)
      λ _.
        WhenOk-if (not (fixed_value_length s)) (λ _. on_throw)
          λ _. WhenOk-bind (itself (prefix_end (get_prefix s))) λ last _.
            WhenOk-bind (itself (get_fixed_key_length s))
              λ key _. WhenOk-bind (itself (get_fixed_value_length s)) λ value _. on_throw

insert_place-Never :
    (o : Option Schema) (typed : Typed) (table : Bytes) (e : Expression) (f : Frame)
    → Never (insert_place o typed table e true f)
unfolding insert_place
insert_place-Never none typed table e f = on_throw
insert_place-Never (some s) typed table e f = WhenOk-bind (insert-Never s) λ _ h. absurd h

scan_place-Never :
    (o : Option Schema) (table row : Bytes) (f : Frame) → Never (scan_place o table row true f)
unfolding scan_place
scan_place-Never none table row f = on_fault
scan_place-Never (some s) table row f = WhenOk-bind (scan-Never s) λ _ h. absurd h

module _ (g : Setting) where
  again-Never : (s : Statement) → Owns s → (f : Frame) → Never (alloca_stack g true s f)
  unfolding alloca_stack
  again-Never (insert table e) o f = insert_place-Never (f.schemas table) _ table e f
  again-Never (scan table row b) o f = scan_place-Never (f.schemas table) table row f
  again-Never (for (init s) cond every b) o f = again-Never s o f
  again-Never (for unset_init cond every b) o f = absurd o
  again-Never (for no_init cond every b) o f = absurd o
  again-Never (block b) o f = absurd o
  again-Never (define schema name) o f = absurd o
  again-Never (emit e) o f = absurd o
  again-Never (expr_statement e) o f = absurd o
  again-Never (define_tuple name t) o f = absurd o
  again-Never (if_else cond b e) o f = absurd o
  again-Never (jump j) o f = absurd o
  again-Never (let_ type n e) o f = absurd o
  again-Never (transaction isolation b) o f = absurd o

  owner : {t : Statement} → BeginsOwning t → Owns t
  owner (begins o) = o

  loop-Never : {t : Statement} → BeginsOwning t → (f : Frame) → Never (places g t f)
  unfolding places
  loop-Never (begins {s} o) f = WhenOk-bind (again-Never s o f) λ _ h. absurd h

  mutual
    unfolding places

    within-Never :
        {t s : Statement} → IsWithin t s → BeginsOwning t → (f : Frame) → Never (places g s f)
    within-Never (in_block h) o f = in_block-Never h o f
    within-Never (in_init {t}) o f = WhenOk-bind (again-Never t (owner o) f) λ _ h. absurd h
    within-Never (in_for {i} h) o f =
        WhenOk-bind (itself (init_stack g true i f)) λ f₁ _. in_block-Never h o f₁
    within-Never (in_true h) o f = WhenOk-bind (in_block-Never h o f) λ _ h. absurd h
    within-Never (in_false {b} h) o f =
        WhenOk-bind (itself (block_places g b f)) λ f₁ _. in_block-Never h o f₁
    within-Never (in_scan h) o f = in_block-Never h o f
    within-Never (in_transaction h) o f = in_block-Never h o f

    in_block-Never :
        {t : Statement} {b : Block}
        → IsInBlock t b
        → BeginsOwning t
        → (f : Frame) → Never (block_places g b f)
    in_block-Never (first {s}) o f =
        WhenOk-bind (itself (alloca_stack g false s f))
          λ f₁ _. WhenOk-bind (loop-Never o f₁) λ _ h. absurd h
    in_block-Never (within {s} h) o f =
        WhenOk-bind (itself (alloca_stack g false s f))
          λ f₁ _. WhenOk-bind (within-Never h o f₁) λ _ h. absurd h
    in_block-Never (later {s} h) o f =
        WhenOk-bind (itself (alloca_stack g false s f))
          λ f₁ _. WhenOk-bind (itself (places g s f₁)) λ f₂ _. in_block-Never h o f₂

  -- The pass over a block does not return if a loop in the block begins with an insert, with a
  -- scan, or with a loop that begins so.
  pub block_places-BeginsOwning :
      (t : Statement) (b : Block) (f f' : Frame)
      → IsInBlock t b
      → BeginsOwning t
      → block_places g b f ≢ ok f'
  block_places-BeginsOwning t b f f' h o e = WhenOk-eq (in_block-Never h o f) e
