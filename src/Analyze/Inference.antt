-- ===== src/Analyze/Inference.antt =====
-- The analysis of src/reir/exec/ast_expression.hpp against the rules of Analyze.Rules.
use reir.Prelude.{
  itself, ℕ, ◌≡◌, refl, sym, ◌∙◌, ap, subst, Option, none, some, Bytes, codes, Result, ok, throw,
  abort, fault, diverge, bind, WhenOk, on_ok, on_throw, on_abort, on_fault, on_diverge, WhenOk-bind,
  WhenOk-weaken, no_member,
}
use reir.Ast.{
  Operators, TypeId, TupleType, NodeType, Types, primary_type, array_type, tuple_type, Expression,
  Expressions, number, string, binary, pointer_of, row_literal, array_literal, variable_reference,
  function_call, array_reference, member_reference, assign,
}
use reir.Parser.Types.{type_id}
use reir.Dump.{dump, dump_type}
use reir.Analyze.{Table, operate}
use reir.Analyze.Expressions.{
  Context, analyze, analyze_elements, analyze_arguments, enter_literal, row_type, select,
  member_type, lookup_variable, found, analyze_parent, as_array, deref, assert_type, find_name,
  get_type?,
}
use reir.Analyze.Agreement.{Agree, operate-Agree, Agree-literal}
use reir.Analyze.Rules.{
  IsTyped, number_rule, string_rule, binary_rule, pointer_rule, row_rule, array_rule, variable_rule,
  call_rule, reference_rule, member_rule, assign_rule, AreTyped, nil_rule, cons_rule, AreAnalyzed,
  no_arguments, arguments,
}

assert_sound : (s : Option NodeType) → WhenOk (λ t. s ≡ some t) (assert_type s)
unfolding assert_type
assert_sound none = on_abort
assert_sound (some t) = on_ok refl

abbrev absent : Result (Option NodeType)
absent = throw no_member

module _ (address : ℕ → Bytes) (T V : Table) where
  -- The tables of a context, as far as expressions read them.
  abbrev pub Fits : Context → Type 0
  Fits c = (c.variables ≡ V) × Agree T c.types

  -- The context and the type that an analysis leaves.
  abbrev pub Infers : Expression → Context × Option NodeType → Type 0
  Infers e (c, t) = Fits c × IsTyped T V e t

  pub row-Fits :
      (ts : Types) (c : Context)
      → Fits c
      → Fits (enter_literal address (codes "__TupleLiteral:") (row_type ts) c)
  unfolding enter_literal
  row-Fits ts c (v, a) = (v, (Agree-literal T c.types _ _ a).0)

  pub array-Fits :
      (t : NodeType) (c : Context)
      → Fits c
      → Fits (enter_literal address (codes "__ArrayLiteral:") t c)
  unfolding enter_literal
  array-Fits t c (v, a) = (v, (Agree-literal T c.types _ _ a).1)

  found_sound :
      (n : Bytes) (o : Option (Option NodeType)) → V n ≡ o → WhenOk (λ t. V n ≡ some t) (found o)
  unfolding found
  found_sound n none e = on_throw
  found_sound n (some t) e = on_ok e

  variable_sound :
      (c : Context) (n : Bytes) → Fits c → WhenOk (λ t. V n ≡ some t) (lookup_variable c n)
  unfolding lookup_variable
  variable_sound c n (v, a) = found_sound n (c.variables n) (sym (ap (λ W. W n) v))

  -- The operands of an operator have types that are no null pointers.
  operands_sound :
      (l r : Expression) (op : Operators) (c : Context) (s t : Option NodeType)
      → IsTyped T V l s
      → IsTyped T V r t
      → Fits c
      → WhenOk (Infers (binary l op r)) (
          bind
            (deref s)
            λ lhs. bind (deref t) λ rhs. bind (operate c.types lhs rhs op) λ u. ok (c, u))
  unfolding deref
  operands_sound l r op c none t hs ht f = on_fault
  operands_sound l r op c (some lhs) none hs ht f = on_fault
  operands_sound l r op c (some lhs) (some rhs) hs ht f =
      WhenOk-bind (itself (operate c.types lhs rhs op))
        λ u e. on_ok (f, binary_rule hs ht (operate-Agree T c.types f.1 lhs rhs op ∙ e))

  first_sound :
      (e : Expression) (es : Expressions) (c : Context) (s : Option NodeType)
      → IsTyped T V e s
      → Fits c
      → WhenOk (Infers (array_literal (Expressions.cons e es))) (
          bind (deref s) λ t. ok (
            enter_literal address (codes "__ArrayLiteral:") (array_type (type_id t)) c,
            some (array_type (type_id t)),
          ))
  unfolding deref
  first_sound e es c none h f = on_fault
  first_sound e es c (some t) h f = on_ok (array-Fits (array_type (type_id t)) c f, array_rule h)

  reference_sound :
      (n : Bytes) (idx : Expression) (c : Context) (s u : Option NodeType)
      → V n ≡ some s
      → IsTyped T V idx u
      → Fits c
      → WhenOk (Infers (array_reference (some n) idx)) (bind (as_array s) λ t. ok (c, some t))
  unfolding as_array
  reference_sound n idx c (some (array_type t)) u e h f = on_ok (f, reference_rule e h)
  reference_sound n idx c (some (primary_type t)) u e h f = on_throw
  reference_sound n idx c (some (tuple_type i t ts)) u e h f = on_throw
  reference_sound n idx c none u e h f = on_throw

  throws :
      {P : Context × Option NodeType → Type 0} (c : Context) (m n : Result Bytes)
      → WhenOk P (bind (bind m λ _. bind n λ _. absent) λ t. ok (c, t))
  throws c (ok s) (ok t) = on_throw
  throws c (ok s) (throw e) = on_throw
  throws c (ok s) abort = on_abort
  throws c (ok s) fault = on_fault
  throws c (ok s) diverge = on_diverge
  throws c (throw e) n = on_throw
  throws c abort n = on_abort
  throws c fault n = on_fault
  throws c diverge n = on_diverge

  member_at_sound :
      (p : Expression) (n : Bytes) (c : Context) (i : TypeId) (t : TupleType) (ts : Types)
      (k : Option ℕ)
      → IsTyped T V p (some (tuple_type i t ts))
      → find_name t.names n 0 ≡ k
      → Fits c
      → WhenOk
          (Infers (member_reference p n))
          (bind (member_type p (tuple_type i t ts) ts k) λ u. ok (c, u))
  unfolding member_type
  member_at_sound p n c i t ts none h e f = throws c (dump p) (dump_type (tuple_type i t ts))
  member_at_sound p n c i t ts (some k) h e f =
      WhenOk-bind (itself (get_type? ts k)) λ u e'. on_ok (f, member_rule h e e')

  member_sound :
      (p : Expression) (n : Bytes) (c : Context) (s : Option NodeType)
      → IsTyped T V p s
      → Fits c
      → WhenOk (Infers (member_reference p n)) (bind (select p n s) λ t. ok (c, t))
  unfolding select
  member_sound p n c none h f = on_throw
  member_sound p n c (some (primary_type t)) h f = on_throw
  member_sound p n c (some (array_type t)) h f = on_throw
  member_sound p n c (some (tuple_type i t ts)) h f =
      member_at_sound p n c i t ts (find_name t.names n 0) h refl f

  mutual
    unfolding analyze analyze_parent

    pub sound : (e : Expression) (c : Context) → Fits c → WhenOk (Infers e) (analyze address e c)
    sound (number n) c (v, a) = on_ok ((v, a), subst (IsTyped T V (number n)) (a.2) number_rule)
    sound (string s) c (v, a) = on_ok ((v, a), subst (IsTyped T V (string s)) (a.1) string_rule)
    sound (binary l op r) c f = WhenOk-bind (sound l c f) λ (c₁, s) (f₁, hs).
        WhenOk-bind (sound r c₁ f₁) λ (c₂, t) (f₂, ht). operands_sound l r op c₂ s t hs ht f₂
    sound (pointer_of e) c f = on_ok (f, pointer_rule)
    sound (row_literal es) c f =
        WhenOk-bind (elements_sound es c f)
          λ (c₁, ts) (f₁, h). on_ok (row-Fits ts c₁ f₁, row_rule h)
    sound (array_literal Expressions.nil) c f = on_throw
    sound (array_literal (Expressions.cons e es)) c f =
        WhenOk-bind (sound e c f) λ (c₁, s) (f₁, h). first_sound e es c₁ s h f₁
    sound (variable_reference n) c f =
        WhenOk-bind (variable_sound c n f) λ t e. on_ok (f, variable_rule e)
    sound (function_call p args) c (v, a) =
        WhenOk-bind (arguments_sound args c (v, a))
          λ c₁ (f₁, h). on_ok (f₁, subst (IsTyped T V (function_call p args)) (a.2) (call_rule h))
    sound (array_reference none idx) c f = on_fault
    sound (array_reference (some n) idx) c f =
        WhenOk-bind (variable_sound c n f)
          λ s e. WhenOk-bind (sound idx c f) λ (c₁, u) (f₁, h). reference_sound n idx c₁ s u e h f₁
    sound (member_reference p n) c f =
        WhenOk-bind (sound p c f) λ (c₁, s) (f₁, h). member_sound p n c₁ s h f₁
    sound (assign e v) c f =
        WhenOk-bind (sound e c f)
          λ (c₁, s) (f₁, h). WhenOk-weaken (sound v c₁ f₁) λ (c₂, t) (f₂, k). (f₂, assign_rule h k)

    elements_sound :
        (es : Expressions) (c : Context)
        → Fits c
        → WhenOk (λ (c₁, ts). Fits c₁ × AreTyped T V es ts) (analyze_elements address es c)
    elements_sound Expressions.nil c f = on_ok (f, nil_rule)
    elements_sound (Expressions.cons e es) c f = WhenOk-bind (sound e c f) λ (c₁, s) (f₁, h).
        WhenOk-bind (assert_sound s) λ t same.
          WhenOk-bind (elements_sound es c₁ f₁)
            λ (c₂, ts) (f₂, k). on_ok (f₂, cons_rule (subst (IsTyped T V e) same h) k)

    arguments_sound :
        (es : Expressions) (c : Context)
        → Fits c
        → WhenOk (λ c₁. Fits c₁ × AreAnalyzed T V es) (analyze_arguments address es c)
    arguments_sound Expressions.nil c f = on_ok (f, no_arguments)
    arguments_sound (Expressions.cons e es) c f = WhenOk-bind (sound e c f) λ (c₁, s) (f₁, h).
        WhenOk-weaken (arguments_sound es c₁ f₁) λ c₂ (f₂, k). (f₂, arguments h k)
