-- ===== src/Analyze/Safety.antt =====
-- Which expressions of src/reir/exec/ast_expression.hpp are analyzed without an access through null
-- and without a failed assertion.
use reir.Prelude.{ℕ, List, Option, none, some, Bytes, Runs, returns, raises, Runs-bind}
use reir.Ast.{
  NodeType, array_type, Expression, Expressions, number, string, binary, pointer_of, row_literal,
  array_literal, variable_reference, function_call, array_reference, member_reference, assign,
}
use reir.Parser.Types.{type_id}
use reir.Analyze.Expressions.{
  Context, analyze, analyze_elements, analyze_arguments, enter_literal, row_type, analyze_parent,
}
use reir.Analyze.Tables.{
  IsWhole, IsWholePointer, IsSound, IsAll, insert-IsWholeTable, insert-HasBuiltins, insert-Declares,
  row_type-IsWhole,
}
use reir.Analyze.Operands.{
  IsPlain, ArePlain, Gives, operate-Gives, variable-Gives, deref-Runs, assert-Runs, array-Runs,
  member-Gives,
}

-- The context and the type that an analysis leaves.
abbrev pub Leaves : List Bytes → Context × Option NodeType → Type 0
Leaves names (c, t) = IsSound names c × IsWholePointer t

module _ (address : ℕ → Bytes) (names : List Bytes) where
  enter-IsSound :
      (prefix : Bytes) (t : NodeType) (c : Context)
      → IsWhole t
      → IsSound names c
      → IsSound names (enter_literal address prefix t c)
  unfolding enter_literal
  enter-IsSound prefix t c w (h, v, b, d) = (
    insert-IsWholeTable c.types _ t h w,
    v,
    insert-HasBuiltins c.types _ t w b,
    insert-Declares c.types _ t names w d,
  )

  parent-Gives : (n : Bytes) (c : Context) → IsSound names c → Gives (analyze_parent (some n) c)
  unfolding analyze_parent
  parent-Gives = λ n c. variable-Gives names c n

  mutual
    unfolding analyze

    analyze-Leaves :
        (e : Expression) (c : Context)
        → IsPlain e
        → IsSound names c
        → Runs (Leaves names) (analyze address e c)
    analyze-Leaves (number n) c h (w, v, b, d) = returns ((w, v, b, d), b.0)
    analyze-Leaves (string s) c h (w, v, b, d) = returns ((w, v, b, d), b.1)
    analyze-Leaves (binary l op r) c (o, h, k) w =
        Runs-bind (analyze-Leaves l c h w) λ (c₁, s) (w₁, ws).
          Runs-bind (analyze-Leaves r c₁ k w₁) λ (c₂, t) (w₂, wt).
            Runs-bind (deref-Runs s ws) λ lhs wl. Runs-bind (deref-Runs t wt) λ rhs wr.
              Runs-bind (operate-Gives c₂.types lhs rhs op w₂.2 wl wr o) λ u wu. returns (w₂, wu)
    analyze-Leaves (pointer_of e) c h w = absurd h
    analyze-Leaves (row_literal es) c h w =
        Runs-bind (elements-Leaves es c h w) λ (c₁, ts) (w₁, ws).
          let row = row_type-IsWhole ts ws in returns (enter-IsSound _ (row_type ts) c₁ row w₁, row)
    analyze-Leaves (array_literal Expressions.nil) c h w = raises
    analyze-Leaves (array_literal (Expressions.cons e es)) c (h, _) w =
        Runs-bind (analyze-Leaves e c h w) λ (c₁, s) (w₁, ws).
          Runs-bind (deref-Runs s ws)
            λ t _. returns (enter-IsSound _ (array_type (type_id t)) c₁ tt w₁, tt)
    analyze-Leaves (variable_reference n) c h w =
        Runs-bind (variable-Gives names c n w) λ t wt. returns (w, wt)
    analyze-Leaves (function_call p args) c (_, h) w =
        Runs-bind (arguments-Leaves args c h w) λ c₁ w₁. returns (w₁, w.2.0)
    analyze-Leaves (array_reference none idx) c h w = absurd h
    analyze-Leaves (array_reference (some n) idx) c h w = Runs-bind (parent-Gives n c w) λ s ws.
        Runs-bind (analyze-Leaves idx c h w)
          λ (c₁, _) (w₁, _). Runs-bind (array-Runs s) λ t wt. returns (w₁, wt)
    analyze-Leaves (member_reference p n) c h w =
        Runs-bind (analyze-Leaves p c h w)
          λ (c₁, s) (w₁, ws). Runs-bind (member-Gives p n s h ws) λ t wt. returns (w₁, wt)
    analyze-Leaves (assign e v) c (h, k) w =
        Runs-bind (analyze-Leaves e c h w) λ (c₁, _) (w₁, _). analyze-Leaves v c₁ k w₁

    elements-Leaves :
        (es : Expressions) (c : Context)
        → ArePlain es
        → IsSound names c
        → Runs (λ (c₁, ts). IsSound names c₁ × IsAll ts) (analyze_elements address es c)
    elements-Leaves Expressions.nil c h w = returns (w, tt)
    elements-Leaves (Expressions.cons e es) c (h, k) w =
        Runs-bind (analyze-Leaves e c h w) λ (c₁, s) (w₁, ws). Runs-bind (assert-Runs s ws) λ t wt.
          Runs-bind (elements-Leaves es c₁ k w₁) λ (c₂, ts) (w₂, wts). returns (w₂, (wt, wts))

    arguments-Leaves :
        (es : Expressions) (c : Context)
        → ArePlain es
        → IsSound names c
        → Runs (IsSound names) (analyze_arguments address es c)
    arguments-Leaves Expressions.nil c h w = returns w
    arguments-Leaves (Expressions.cons e es) c (h, k) w =
        Runs-bind (analyze-Leaves e c h w) λ (c₁, _) (w₁, _). arguments-Leaves es c₁ k w₁

  -- From tables without null pointers that have the types the analysis asks for by name, an
  -- expression without `&`, without the operators `||` and none, and without array references
  -- whose parent is no variable is analyzed to a type that is no null pointer, or an exception is
  -- thrown, and the tables are of this kind again and lack none of the names declared before.
  pub analyze-IsSound :
      (e : Expression) (c : Context)
      → IsPlain e
      → IsSound names c
      → Runs (Leaves names) (analyze address e c)
  analyze-IsSound = analyze-Leaves
