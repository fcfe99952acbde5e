-- ===== src/Analyze/Completeness.antt =====
-- The rules of Analyze.Rules against the analysis of src/reir/exec/ast_expression.hpp.
use reir.Prelude.{
  ℕ, ◌≡◌, refl, sym, ◌∙◌, ap, ◌↔◌, Option, some, Bytes, codes, Result, ok, WhenOk-eq,
}
use reir.Ast.{TypeId, TupleType, NodeType, Types, array_type, tuple_type, Expression, Expressions}
use reir.Parser.Types.{type_id}
use reir.Analyze.{Table}
use reir.Analyze.Expressions.{
  Context, analyze, analyze_elements, analyze_arguments, enter_literal, row_type, select,
  member_type, lookup_variable, found, analyze_parent, as_array, deref, assert_type, find_name,
  get_type?,
}
use reir.Analyze.Agreement.{operate-Agree}
use reir.Analyze.Rules.{
  IsTyped, number_rule, string_rule, binary_rule, pointer_rule, row_rule, array_rule, variable_rule,
  call_rule, reference_rule, member_rule, assign_rule, AreTyped, nil_rule, cons_rule, AreAnalyzed,
  no_arguments, arguments,
}
use reir.Analyze.Inference.{Fits, row-Fits, array-Fits, sound}

module _ (address : ℕ → Bytes) (T V : Table) where
  -- The call returns, with such a context and what the predicate says.
  abbrev Returns : {A : Type 0} → Result (Context × A) → A → Type 0
  Returns m a = (c : Context) × (m ≡ ok (c, a)) × Fits address T V c

  variable_complete :
      (n : Bytes) (t : Option NodeType) (c : Context)
      → V n ≡ some t
      → Fits address T V c
      → lookup_variable c n ≡ ok t
  unfolding lookup_variable found
  variable_complete n t c e (v, a) = rw (ap (λ W. W n) v ∙ e) refl

  select_complete :
      (p : Expression) (n : Bytes) (i : TypeId) (t : TupleType) (ts : Types) (k : ℕ)
      {u : Option NodeType}
      → find_name t.names n 0 ≡ some k
      → get_type? ts k ≡ ok u
      → select p n (some (tuple_type i t ts)) ≡ ok u
  unfolding select member_type
  select_complete p n i t ts k e e' = rw (e, e') refl

  mutual
    unfolding analyze analyze_parent deref assert_type as_array

    complete :
        {e : Expression} {t : Option NodeType} (c : Context)
        → IsTyped T V e t
        → Fits address T V c
        → Returns (analyze address e c) t
    complete c number_rule (v, a) = (c, rw (a.2) refl, (v, a))
    complete c string_rule (v, a) = (c, rw (a.1) refl, (v, a))
    complete c (binary_rule {l} {r} {op} {lhs} {rhs} {t} hl hr e) f =
        let (c₁, e₁, f₁) = complete c hl f in
        let (c₂, e₂, f₂) = complete c₁ hr f₁ in
        (c₂, rw (e₁, e₂, sym (operate-Agree T c₂.types f₂.1 lhs rhs op), e) refl, f₂)
    complete c pointer_rule f = (c, refl, f)
    complete c (row_rule {es} {ts} h) f =
        let (c₁, e₁, f₁) = elements_complete c h f in
        (
          enter_literal address (codes "__TupleLiteral:") (row_type ts) c₁,
          rw e₁ refl,
          row-Fits address T V ts c₁ f₁,
        )
    complete c (array_rule {e} {es} {t} h) f =
        let (c₁, e₁, f₁) = complete c h f in
        (
          enter_literal address (codes "__ArrayLiteral:") (array_type (type_id t)) c₁,
          rw e₁ refl,
          array-Fits address T V (array_type (type_id t)) c₁ f₁,
        )
    complete c (variable_rule {n} {t} e) f = (c, rw (variable_complete n t c e f) refl, f)
    complete c (call_rule {p} {args} h) (v, a) =
        let (c₁, e₁, f₁) = arguments_complete c h (v, a) in (c₁, rw (e₁, a.2) refl, f₁)
    complete c (reference_rule {n} {idx} {t} {u} e h) f =
        let (c₁, e₁, f₁) = complete c h f in
        (c₁, rw (variable_complete n (some (array_type t)) c e f, e₁) refl, f₁)
    complete c (member_rule {p} {n} {i} {t} {ts} {k} {u} h e e') f =
        let (c₁, e₁, f₁) = complete c h f in
        (c₁, rw (e₁, select_complete p n i t ts k e e') refl, f₁)
    complete c (assign_rule h k) f =
        let (c₁, e₁, f₁) = complete c h f in
        let (c₂, e₂, f₂) = complete c₁ k f₁ in (c₂, rw (e₁, e₂) refl, f₂)

    elements_complete :
        {es : Expressions} {ts : Types} (c : Context)
        → AreTyped T V es ts
        → Fits address T V c
        → Returns (analyze_elements address es c) ts
    elements_complete c nil_rule f = (c, refl, f)
    elements_complete c (cons_rule h k) f =
        let (c₁, e₁, f₁) = complete c h f in
        let (c₂, e₂, f₂) = elements_complete c₁ k f₁ in (c₂, rw (e₁, e₂) refl, f₂)

    arguments_complete :
        {es : Expressions} (c : Context)
        → AreAnalyzed T V es
        → Fits address T V c
        → (c₁ : Context) × (analyze_arguments address es c ≡ ok c₁) × Fits address T V c₁
    arguments_complete c no_arguments f = (c, refl, f)
    arguments_complete c (arguments h k) f =
        let (c₁, e₁, f₁) = complete c h f in
        let (c₂, e₂, f₂) = arguments_complete c₁ k f₁ in (c₂, rw (e₁, e₂) refl, f₂)

-- The analysis of an expression returns a pointer to a type, possibly null, just when the typing
-- rules derive it from the tables of types and variables that it starts with.
pub analyze_iff :
    (address : ℕ → Bytes) (e : Expression) (c : Context) (t : Option NodeType)
    → IsTyped c.types c.variables e t ↔ ((c₁ : Context) × (analyze address e c ≡ ok (c₁, t)))
analyze_iff address e c t = (
  λ h.
      let (c₁, e₁, _) = complete address c.types c.variables c h (refl, (refl, refl, refl)) in
      (c₁, e₁),
  λ (c₁, e₁). (WhenOk-eq (sound address c.types c.variables e c (refl, (refl, refl, refl))) e₁).1,
)
