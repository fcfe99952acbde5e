-- ===== src/Parser/Expressions/RoundTrip.antt =====
-- The parser of expressions on what `render` writes.
use reir.Prelude.{ℕ, ◌*◌, ◌<◌, ◌≡◌, refl, some, length, ok}
use reir.Ast.{
  Expression, Expressions, number, string, binary, pointer_of, row_literal, array_literal,
  variable_reference, function_call, array_reference, member_reference, assign,
}
use reir.Parser.Stream.{Tokens}
use reir.Parser.Expressions.{parse_expr}
use reir.Parser.Expressions.Render.{
  head, render, IsPrintable, number_printable, string_printable, binary_printable,
  pointer_printable, row_printable, array_printable, variable_printable, call_printable,
  reference_printable, member_printable, assign_printable, ArePrintable, nil_printable,
  cons_printable,
}
use reir.Parser.Expressions.Steps.{
  Ends, Reads, ReadsHead, number-ReadsHead, string-ReadsHead, variable-ReadsHead,
}
use reir.Parser.Expressions.Lists.{
  ReadsLoop, ReadsRest, nil-ReadsLoop, cons-ReadsLoop, nil-ReadsRest, cons-ReadsRest,
}
use reir.Parser.Expressions.Forms.{
  array-ReadsHead, assign_step, atom, binary_step, call-ReadsHead, compound, compound-Reads,
  member-ReadsHead, pointer-Reads, reference-ReadsHead, row-ReadsHead,
}

mutual
  unfolding head render

  both : {e : Expression} → IsPrintable e → ReadsHead e × Reads e
  both (number_printable {n} small) = atom (number n) (λ k. refl) (number-ReadsHead n small)
  both (string_printable {s}) = atom (string s) (λ k. refl) (string-ReadsHead s)
  both (binary_printable {l} {r} {op} some_op pl pr) =
      compound (binary l op r) (λ k. refl)
        (compound-Reads l (binary l op r) _ (λ k. refl)
          (λ g k. binary_step l r op g k some_op (both pr).1) (both pl).0)
  both (pointer_printable {e} p) = compound (pointer_of e) (λ k. refl) (pointer-Reads e (both p).1)
  both (row_printable {es} ps) = atom (row_literal es) (λ k. refl) (row-ReadsHead es (loop ps))
  both (array_printable {es} ps) =
      atom (array_literal es) (λ k. refl) (array-ReadsHead es (loop ps))
  both (variable_printable {n}) = atom (variable_reference n) (λ k. refl) (variable-ReadsHead n)
  both (call_printable {p} {args} pp ps) =
      atom (function_call p args) (λ k. refl) (call-ReadsHead p args (both pp).0 (loop ps))
  both (reference_printable {n} {idx} p) =
      atom (array_reference (some n) idx) (λ k. refl) (reference-ReadsHead n idx (both p).1)
  both (member_printable {p} {n} pp) =
      atom (member_reference p n) (λ k. refl) (member-ReadsHead p n (both pp).0)
  both (assign_printable {t} {v} pt pv) =
      compound (assign t v) (λ k. refl)
        (compound-Reads t (assign t v) _ (λ k. refl) (λ g k. assign_step t v g k (both pv).1)
          (both pt).0)

  loop : {es : Expressions} → ArePrintable es → ReadsLoop es
  loop nil_printable = nil-ReadsLoop
  loop (cons_printable {e} {es} p ps) = cons-ReadsLoop e es (both p).1 (rest ps)

  rest : {es : Expressions} → ArePrintable es → ReadsRest es
  rest nil_printable = nil-ReadsRest
  rest (cons_printable {e} {es} p ps) =
      cons-ReadsRest e es (cons-ReadsLoop e es (both p).1 (rest ps))

-- With fuel above three times the tokens, an expression of a form that the parser builds, written
-- as tokens in front of tokens that do not go on with it, is read back by the parser, which
-- leaves those tokens.
pub parse_expr-render :
    (f : ℕ) {e : Expression} (k : Tokens)
    → IsPrintable e
    → Ends k
    → 3 * length (render e k) < f
    → parse_expr f (render e k) ≡ ok (e, k)
parse_expr-render f k printable = (both printable).1 f k
