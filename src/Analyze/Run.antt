-- ===== src/Analyze/Run.antt =====
-- Runs of the analysis of statements, src/reir/exec/ast_statement.hpp.
use reir.Prelude.{ℕ, ◌≡◌, true, List, Option, none, some, Bytes, returns, Runs-bind}
use reir.Ast.{
  Part, unset_part, no_part, part, NodeType, Expression, Statement, Block, Init, ElseBlock, block,
  define, emit, expr_statement, for, define_tuple, if_else, jump, insert, scan, let_, transaction,
  unset_init, no_init, init, no_else, else_block,
}
use reir.Analyze.{entry}
use reir.Analyze.Expressions.{Context, set_type, set_variable}
use reir.Analyze.Statements.{
  initializer, analyze_schema, open_scan, analyze_value, analyze_optional, analyze_statement,
  analyze_block, analyze_init, analyze_else,
}
use reir.Analyze.Tables.{IsWholePointer, IsSound, is_among}
use reir.Analyze.Scripts.{
  IsScript, IsScriptBlock, IsScriptInit, IsScriptElse, AllPlain, declared, declared_block,
  declared_init, declared_else,
}
use reir.Analyze.Declarations.{
  Leads, define_type-Leads, declare-Leads, forget, set_type-IsSound, set_variable-IsSound,
}
use reir.Analyze.Operands.{IsPlain}
use reir.Analyze.Safety.{analyze-IsSound}

-- A pointer under two names.
both_tables :
    (table row : Bytes) (t : Option NodeType) (names : List Bytes) (c : Context)
    → IsWholePointer t
    → IsSound names c
    → IsSound names (set_variable (set_type c table t) row t)
both_tables table row none names c w h = absurd w
both_tables table row (some t) names c w h =
    set_variable-IsSound row (some t) names (set_type c table (some t)) w
      (forget table names (set_type c table (some t)) (set_type-IsSound table t names c w h))

open_scan-IsSound :
    (table row : Bytes) (names : List Bytes) (c : Context)
    → is_among names table ≡ true
    → IsSound names c
    → IsSound names (open_scan table row c)
unfolding open_scan
open_scan-IsSound table row names c e h =
    both_tables table row (entry (c.types table)) names c (h.3 table e) h

module _ (address : ℕ → Bytes) where
  value-Leads :
      (e : Expression) (names : List Bytes) (c : Context)
      → IsPlain e
      → IsSound names c
      → Leads names (analyze_value address e c)
  unfolding analyze_value
  value-Leads e names c p h =
      Runs-bind (analyze-IsSound address names e c p h) λ (c₁, _) (h₁, _). returns h₁

  optional-Leads :
      (e : Part) (names : List Bytes) (c : Context)
      → AllPlain e
      → IsSound names c
      → Leads names (analyze_optional address e c)
  unfolding analyze_optional
  optional-Leads unset_part names c p h = absurd p
  optional-Leads no_part names c p h = returns h
  optional-Leads (part e) names c p h = value-Leads e names c p h

  mutual
    unfolding analyze_statement analyze_schema

    statement-Leads :
        (s : Statement) (names : List Bytes) (c : Context)
        → IsScript s names
        → IsSound names c
        → Leads (declared s names) (analyze_statement address s c)
    statement-Leads (block b) names c p h = block-Leads b names c p h
    statement-Leads (define none name) names c p h = absurd p
    statement-Leads (define (some t) name) names c p h = define_type-Leads name t names c p h
    statement-Leads (emit e) names c p h = value-Leads e names c p h
    statement-Leads (expr_statement e) names c p h = value-Leads e names c p h
    statement-Leads (for i cond every b) names c (p, q, r, s) h =
        Runs-bind (init-Leads i names c p h) λ c₁ h₁.
          Runs-bind (optional-Leads cond (declared_init i names) c₁ q h₁) λ c₂ h₂.
            Runs-bind (optional-Leads every (declared_init i names) c₂ r h₂)
              λ c₃ h₃. block-Leads b (declared_init i names) c₃ s h₃
    statement-Leads (define_tuple name t) names c p h = define_type-Leads name t names c p h
    statement-Leads (if_else cond b e) names c (p, q, r) h =
        Runs-bind (value-Leads cond names c p h) λ c₁ h₁.
          Runs-bind (block-Leads b names c₁ q h₁)
            λ c₂ h₂. else-Leads e (declared_block b names) c₂ r h₂
    statement-Leads (jump j) names c p h = returns h
    statement-Leads (insert table e) names c p h = value-Leads e names c p h
    statement-Leads (scan table row b) names c (e, p) h =
        block-Leads b names (open_scan table row c) p (open_scan-IsSound table row names c e h)
    statement-Leads (let_ type name e) names c (p, q) h =
        Runs-bind (analyze-IsSound address names e c p h)
          λ (c₁, t) (h₁, w). declare-Leads (initializer e) type name t names c₁ q w h₁
    statement-Leads (transaction isolation b) names c p h = block-Leads b names c p h

    block-Leads :
        (b : Block) (names : List Bytes) (c : Context)
        → IsScriptBlock b names
        → IsSound names c
        → Leads (declared_block b names) (analyze_block address b c)
    block-Leads Block.nil names c p h = returns h
    block-Leads (Block.cons s b) names c (p, q) h =
        Runs-bind (statement-Leads s names c p h) λ c₁ h₁. block-Leads b (declared s names) c₁ q h₁

    init-Leads :
        (i : Init) (names : List Bytes) (c : Context)
        → IsScriptInit i names
        → IsSound names c
        → Leads (declared_init i names) (analyze_init address i c)
    init-Leads unset_init names c p h = absurd p
    init-Leads no_init names c p h = returns h
    init-Leads (init s) names c p h = statement-Leads s names c p h

    else-Leads :
        (e : ElseBlock) (names : List Bytes) (c : Context)
        → IsScriptElse e names
        → IsSound names c
        → Leads (declared_else e names) (analyze_else address e c)
    else-Leads no_else names c p h = returns h
    else-Leads (else_block b) names c p h = block-Leads b names c p h
