-- ===== src/Codegen/Flow/Jumps.antt =====
-- `codegen` of the statements of src/reir/exec/ast_statement_codegen.cpp on the stack of loops.
use reir.Prelude.{
  ◌≡◌, refl, sym, ◌∙◌, Bool, true, false, List, ◌∷◌, Bytes, fault, undefined_variable, Runs,
  returns, Runs-bind,
}
use reir.Ast.{
  Part, unset_part, no_part, part, Expression, Statement, Block, Init, ElseBlock, block, define,
  emit, expr_statement, for, define_tuple, if_else, jump, JumpType, insert, scan, let_, transaction,
  unset_init, no_init, init, no_else, else_block,
}
use reir.Codegen.Flow.{Loop, Builder, Emitter, require, get_value, exit_loop_ctx}
use reir.Codegen.Flow.Statements.{
  innermost, jump_codegen, optional_value, let_codegen, if_codegen, for_condition, for_codegen,
  emit_codegen, insert_codegen, scan_codegen, codegen, block_codegen, init_codegen, else_codegen,
}
use reir.Codegen.Flow.Loops.{IsDirect, OptionalDirect, Keeps, after, value-Keeps, require-Keeps}

module _ (variables schemas : Bytes → Bool) where
  -- The jumps stand within a loop: inside `for` in the function that the first test is of. What has
  -- places has them, and the table a schema.
  abbrev mutual
    pub IsLooped : Bool → Bool → Bool → Statement → Type 0
    IsLooped inside own inner (block b) = AreLooped inside inner b
    IsLooped inside own inner (define schema name) = Unit
    IsLooped inside own inner (emit e) = (own ≡ true) × IsDirect variables e
    IsLooped inside own inner (expr_statement e) = IsDirect variables e
    IsLooped inside own inner (for i cond every b) =
        InitLooped inside own i
        × OptionalDirect variables cond
        × OptionalDirect variables every
        × AreLooped true inner b
    IsLooped inside own inner (define_tuple name t) = Unit
    IsLooped inside own inner (if_else cond b e) =
        IsDirect variables cond × AreLooped inside inner b × ElseLooped inside inner e
    IsLooped inside own inner (jump j) = inside ≡ true
    IsLooped inside own inner (insert table e) =
        (own ≡ true) × (schemas table ≡ true) × IsDirect variables e
    IsLooped inside own inner (scan table row b) =
        (own ≡ true) × (schemas table ≡ true) × AreLooped inside inner b
    IsLooped inside own inner (let_ type name e) = IsDirect variables e
    IsLooped inside own inner (transaction isolation b) = AreLooped inside inner b

    pub AreLooped : Bool → Bool → Block → Type 0
    AreLooped inside placed Block.nil = Unit
    AreLooped inside placed (Block.cons s b) =
        IsLooped inside placed placed s × AreLooped inside placed b

    pub InitLooped : Bool → Bool → Init → Type 0
    InitLooped inside own unset_init = ⊥
    InitLooped inside own no_init = Unit
    InitLooped inside own (init s) = IsLooped inside own false s

    pub ElseLooped : Bool → Bool → ElseBlock → Type 0
    ElseLooped inside placed no_else = Unit
    ElseLooped inside placed (else_block b) = AreLooped inside placed b

-- There is a loop, if there has to be one.
abbrev pub HasLoop : Bool → Builder → Type 0
HasLoop true b = (l : Loop) × (out : List Loop) × (b.loops ≡ l ∷ out)
HasLoop false b = Unit

HasLoop-same :
    (inside : Bool) (b c : Builder) → c.loops ≡ b.loops → HasLoop inside b → HasLoop inside c
HasLoop-same true b c e (l, out, h) = (l, out, e ∙ h)
HasLoop-same false b c e h = tt

innermost-Runs :
    (loops : List Loop) (l : Loop) (out : List Loop)
    → loops ≡ l ∷ out
    → Runs (λ l'. l' ≡ l) (innermost loops)
unfolding innermost
innermost-Runs loops l out e = rw (e, innermost) (returns refl)

jump-Keeps :
    (inside : Bool) (j : JumpType) (b : Builder)
    → inside ≡ true
    → HasLoop inside b
    → Keeps b (jump_codegen j b)
unfolding jump_codegen
jump-Keeps true j b h (l, out, e) =
    Runs-bind (innermost-Runs b.loops l out e) λ l' same. returns refl
jump-Keeps false j b h has = cc

exit-Keeps :
    (l : Loop) (out : List Loop) (b c : Builder)
    → b.loops ≡ l ∷ out
    → c.loops ≡ out
    → Keeps c (exit_loop_ctx b)
unfolding exit_loop_ctx
exit-Keeps l out b c e h = rw (e, exit_loop_ctx) (returns (sym h))

module _ (variables functions : Bytes → Bool) where
  optional-Keeps :
      (e : Part) (b : Builder)
      → OptionalDirect variables e
      → Keeps b (optional_value variables functions e b)
  unfolding optional_value
  optional-Keeps unset_part b h = absurd h
  optional-Keeps no_part b h = returns refl
  optional-Keeps (part e) b h = value-Keeps variables functions e b h

  condition-Keeps :
      (e : Part) (l : Loop) (b : Builder)
      → OptionalDirect variables e
      → Keeps b (for_condition variables functions e l b)
  unfolding for_condition
  condition-Keeps unset_part l b h = absurd h
  condition-Keeps no_part l b h = returns refl
  condition-Keeps (part e) l b h =
      Runs-bind (value-Keeps variables functions e b h) λ b₁ same. returns same

  let-Keeps :
      (n : Bytes) (e : Expression) (b : Builder)
      → IsDirect variables e
      → Keeps b (let_codegen variables functions n e b)
  unfolding let_codegen
  let-Keeps n e b h = Runs-bind (require-Keeps (variables n) undefined_variable b) λ b₁ same.
      after b b₁ (get_value variables functions e b₁) same (value-Keeps variables functions e b₁ h)

there-Keeps : (there : Bool) (b : Builder) → there ≡ true → Keeps b (require there fault b)
unfolding require
there-Keeps true b h = returns refl
there-Keeps false b h = cc

module _ (schemas : Bytes → Bool) where
  emit-Keeps :
      (own : Bool) (value : Emitter) (b : Builder)
      → own ≡ true
      → Keeps b (value b)
      → Keeps b (emit_codegen schemas own value b)
  unfolding emit_codegen
  emit-Keeps own value b h k =
      Runs-bind k λ b₁ e. after b b₁ (require own fault b₁) e (there-Keeps own b₁ h)

  insert-Keeps :
      (table : Bytes) (own : Bool) (value : Emitter) (b : Builder)
      → own ≡ true
      → schemas table ≡ true
      → Keeps b (value b)
      → Keeps b (insert_codegen schemas table own value b)
  unfolding insert_codegen
  insert-Keeps table own value b h t k = Runs-bind k λ b₁ e.
      Runs-bind (there-Keeps (schemas table) b₁ t)
        λ b₂ e'. after b b₂ (require own fault b₂) (e' ∙ e) (there-Keeps own b₂ h)

  scan-Keeps :
      (table : Bytes) (own : Bool) (blk : Emitter) (b : Builder)
      → own ≡ true
      → schemas table ≡ true
      → ((c : Builder) → c.loops ≡ b.loops → Keeps c (blk c))
      → Keeps b (scan_codegen schemas table own blk b)
  unfolding scan_codegen
  scan-Keeps table own blk b h t k = Runs-bind (there-Keeps (schemas table) b t) λ b₀ e₀.
      Runs-bind (there-Keeps own b₀ h)
        λ b₁ e₁. Runs-bind (k _ (e₁ ∙ e₀)) λ b₂ e₂. returns (e₂ ∙ e₁ ∙ e₀)

module _ (variables functions schemas : Bytes → Bool) where
  mutual
    unfolding codegen if_codegen for_codegen

    codegen-Keeps :
        (inside own inner : Bool) (s : Statement) (b : Builder)
        → IsLooped variables schemas inside own inner s
        → HasLoop inside b
        → Keeps b (codegen variables functions schemas own inner s b)
    codegen-Keeps inside own inner (block s) b h has = block-Keeps inside inner s b h has
    codegen-Keeps inside own inner (define schema name) b h has = returns refl
    codegen-Keeps inside own inner (emit e) b (p, h) has =
        emit-Keeps schemas own (get_value variables functions e) b p
          (value-Keeps variables functions e b h)
    codegen-Keeps inside own inner (expr_statement e) b h has =
        value-Keeps variables functions e b h
    codegen-Keeps inside own inner (for i cond every s) b (hi, hc, he, hs) has =
        Runs-bind (init-Keeps inside own i b hi has) λ b₀ e₀.
          Runs-bind (condition-Keeps variables functions cond _ _ hc) λ b₁ e₁.
            Runs-bind (block-Keeps true inner s _ hs (_, b₀.loops, e₁)) λ b₂ e₂.
              Runs-bind (optional-Keeps variables functions every _ he)
                λ b₃ e₃. exit-Keeps _ b₀.loops _ b (e₃ ∙ e₂ ∙ e₁) (sym e₀)
    codegen-Keeps inside own inner (define_tuple name t) b h has = returns refl
    codegen-Keeps inside own inner (if_else cond s e) b (hc, hs, he) has =
        Runs-bind (value-Keeps variables functions cond _ hc) λ b₁ e₁.
          Runs-bind (block-Keeps inside inner s _ hs (HasLoop-same inside b _ e₁ has)) λ b₂ e₂.
            Runs-bind (else-Keeps inside inner e _ he (HasLoop-same inside b _ (e₂ ∙ e₁) has))
              λ b₃ e₃. returns (e₃ ∙ e₂ ∙ e₁)
    codegen-Keeps inside own inner (jump j) b h has = jump-Keeps inside j b h has
    codegen-Keeps inside own inner (insert table e) b (p, t, h) has =
        insert-Keeps schemas table own (get_value variables functions e) b p t
          (value-Keeps variables functions e b h)
    codegen-Keeps inside own inner (scan table row s) b (p, t, h) has =
        scan-Keeps schemas table own (block_codegen variables functions schemas inner s) b p t
          λ c e. block-Keeps inside inner s c h (HasLoop-same inside b c e has)
    codegen-Keeps inside own inner (let_ type name e) b h has =
        let-Keeps variables functions name e b h
    codegen-Keeps inside own inner (transaction isolation s) b h has =
        block-Keeps inside inner s b h has

    block-Keeps :
        (inside placed : Bool) (s : Block) (b : Builder)
        → AreLooped variables schemas inside placed s
        → HasLoop inside b
        → Keeps b (block_codegen variables functions schemas placed s b)
    block-Keeps inside placed Block.nil b h has = returns refl
    block-Keeps inside placed (Block.cons s rest) b (h, k) has =
        Runs-bind (codegen-Keeps inside placed placed s b h has) λ b₁ e.
          after b b₁ (block_codegen variables functions schemas placed rest b₁) e
            (block-Keeps inside placed rest b₁ k (HasLoop-same inside b b₁ e has))

    init-Keeps :
        (inside own : Bool) (i : Init) (b : Builder)
        → InitLooped variables schemas inside own i
        → HasLoop inside b
        → Keeps b (init_codegen variables functions schemas own i b)
    init-Keeps inside own unset_init b h has = absurd h
    init-Keeps inside own no_init b h has = returns refl
    init-Keeps inside own (init s) b h has = codegen-Keeps inside own false s b h has

    else-Keeps :
        (inside placed : Bool) (e : ElseBlock) (b : Builder)
        → ElseLooped variables schemas inside placed e
        → HasLoop inside b
        → Keeps b (else_codegen variables functions schemas placed e b)
    else-Keeps inside placed no_else b h has = returns refl
    else-Keeps inside placed (else_block s) b h has = block-Keeps inside placed s b h has
