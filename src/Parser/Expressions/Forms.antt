-- ===== src/Parser/Expressions/Forms.antt =====
-- The parser on each form of expression that `render` writes.
use reir.Prelude.{
  ℕ, zero, suc, ◌*◌, ◌<◌, ◌≡◌, ◌≢◌, refl, ◌∙◌, ap, arith, Bytes, some, ◌∷◌, length, ok,
}
use reir.Token.{TokenType}
use reir.Ast.{
  Operators, Expression, Expressions, binary, pointer_of, row_literal, array_literal,
  variable_reference, function_call, array_reference, member_reference, assign,
}
use reir.Parser.Stream.{Tokens, get, next, take_token}
use reir.Parser.Expressions.{
  operator, postfix_of, prefix_of, as_variable, parse_prefix, parse_suffix, parse_expr,
  parse_expr_postfix,
}
use reir.Parser.Expressions.Render.{
  tok, punct, token_of, head, render, render_elements, length-render, length-render_elements,
}
use reir.Parser.Expressions.Steps.{
  Ends, Reads, ReadsHead, at_end, of_head, of_prefix, to_suffix, skip_token-punct,
  variable-ReadsHead, parenthesis-ReadsHead,
}
use reir.Parser.Expressions.Lists.{
  closes_paren, closes_brace, closes_bracket, IsClose-Ends, ReadsLoop, elements_read,
}

pub row-ReadsHead : (es : Expressions) → ReadsLoop es → ReadsHead (row_literal es)
unfolding head prefix_of parse_prefix
row-ReadsHead es reads zero k h = absurd (omega arith)
row-ReadsHead es reads (suc zero) k h = absurd (omega arith)
row-ReadsHead es reads (suc (suc f)) k h = (
  suc f,
  omega (arith, length-render_elements es (punct TokenType.close_brace ∷ k)),
  of_prefix f _ _ k (row_literal es) (
      rw (
        skip_token-punct TokenType.open_brace _,
        elements_read es TokenType.close_brace f k reads closes_brace (omega arith),
      )),
)

pub array-ReadsHead : (es : Expressions) → ReadsLoop es → ReadsHead (array_literal es)
unfolding head prefix_of parse_prefix
array-ReadsHead es reads zero k h = absurd (omega arith)
array-ReadsHead es reads (suc zero) k h = absurd (omega arith)
array-ReadsHead es reads (suc (suc f)) k h = (
  suc f,
  omega (arith, length-render_elements es (punct TokenType.close_bracket ∷ k)),
  of_prefix f _ _ k (array_literal es) (
      rw (
        skip_token-punct TokenType.open_bracket _,
        elements_read es TokenType.close_bracket f k reads closes_bracket (omega arith),
      )),
)

-- A head, and a suffix behind it.
suffix-ReadsHead :
    (p e : Expression) (between : Tokens → Tokens)
    → ((k : Tokens) → head e k ≡ head p (between k))
    → ((k : Tokens) → length k < length (between k))
    → ((g : ℕ) (k : Tokens)
        → 3 * length (between k) < suc (suc g)
        → parse_expr_postfix (suc (suc g)) p (between k) ≡ parse_expr_postfix (suc g) e k)
    → ReadsHead p
    → ReadsHead e
suffix-ReadsHead p e between same_text longer step reads f k h =
    finish (reads f (between k) (omega (arith, ap length (same_text k))))
  where
    finish :
        (g : ℕ) × (3 * length (between k) < g)
          × (parse_expr f (head p (between k)) ≡ parse_expr_postfix g p (between k))
        → (g : ℕ) × (3 * length k < g) × (parse_expr f (head e k) ≡ parse_expr_postfix g e k)
    finish (zero, fuel, eq) = absurd (omega arith)
    finish (suc zero, fuel, eq) = absurd (omega (arith, longer k))
    finish (suc (suc g), fuel, eq) =
        (suc g, omega (arith, longer k), rw same_text (eq ∙ step g k fuel))

call_step :
    (p : Expression) (args : Expressions) (g : ℕ) (k : Tokens)
    → ReadsLoop args
    → let ts = render_elements args (punct TokenType.close_paren ∷ k) in
      3 * length (punct TokenType.open_paren ∷ ts) < suc (suc g)
      → parse_expr_postfix (suc (suc g)) p (punct TokenType.open_paren ∷ ts)
        ≡ parse_expr_postfix (suc g) (function_call p args) k
unfolding postfix_of parse_suffix
call_step p args g k loop h =
    to_suffix (suc g) p _ _
    ∙ rw (
      skip_token-punct TokenType.open_paren _,
      elements_read args TokenType.close_paren g k loop closes_paren (omega arith),
    )

pub call-ReadsHead :
    (p : Expression) (args : Expressions)
    → ReadsHead p
    → ReadsLoop args
    → ReadsHead (function_call p args)
unfolding head
call-ReadsHead p args reads loop =
    suffix-ReadsHead p (function_call p args) _ (λ k. refl)
      (λ k. omega (arith, length-render_elements args (punct TokenType.close_paren ∷ k)))
      (λ g k. call_step p args g k loop) reads

member_step :
    (p : Expression) (n : Bytes) (g : ℕ) (k : Tokens)
    → parse_expr_postfix (suc (suc g)) p (punct TokenType.period ∷ tok TokenType.identifier n ∷ k)
      ≡ parse_expr_postfix (suc g) (member_reference p n) k
unfolding postfix_of parse_suffix take_token get next
member_step p n g k = to_suffix (suc g) p _ _ ∙ rw (skip_token-punct TokenType.period _)

pub member-ReadsHead : (p : Expression) (n : Bytes) → ReadsHead p → ReadsHead (member_reference p n)
unfolding head
member-ReadsHead p n reads =
    suffix-ReadsHead p (member_reference p n) _ (λ k. refl) (λ k. omega arith)
      (λ g k h. member_step p n g k) reads

reference_step :
    (n : Bytes) (idx : Expression) (g : ℕ) (k : Tokens)
    → Reads idx
    → let ts = render idx (punct TokenType.close_bracket ∷ k) in
      3 * length (punct TokenType.open_bracket ∷ ts) < suc (suc g)
      → parse_expr_postfix (suc (suc g)) (variable_reference n) (punct TokenType.open_bracket ∷ ts)
        ≡ parse_expr_postfix (suc g) (array_reference (some n) idx) k
unfolding postfix_of parse_suffix as_variable
reference_step n idx g k reads h =
    to_suffix (suc g) (variable_reference n) _ _
    ∙ rw (
      skip_token-punct TokenType.open_bracket _,
      reads (suc g) (punct TokenType.close_bracket ∷ k) (IsClose-Ends k closes_bracket)
          (omega arith),
      skip_token-punct TokenType.close_bracket k,
    )

pub reference-ReadsHead :
    (n : Bytes) (idx : Expression) → Reads idx → ReadsHead (array_reference (some n) idx)
unfolding head
reference-ReadsHead n idx reads =
    suffix-ReadsHead (variable_reference n) (array_reference (some n) idx) _ (λ k. refl)
      (λ k. omega (arith, length-render idx (punct TokenType.close_bracket ∷ k)))
      (λ g k. reference_step n idx g k reads) (variable-ReadsHead n)

postfix_of-token_of :
    (op : Operators) → op ≢ Operators.none → postfix_of (token_of op) ≡ operator op
unfolding postfix_of token_of
postfix_of-token_of Operators.none h = absurd (h refl)
postfix_of-token_of op h = ground arith

-- The expressions that are no atoms: what stands behind the head, up to the end.
pub binary_step :
    (l r : Expression) (op : Operators) (g : ℕ) (k : Tokens)
    → op ≢ Operators.none
    → Reads r
    → Ends k
    → 3 * length (punct (token_of op) ∷ render r k) < suc g
    → parse_expr_postfix (suc g) l (punct (token_of op) ∷ render r k) ≡ ok (binary l op r, k)
unfolding parse_suffix next
binary_step l r op g k some_op reads ends h =
    to_suffix g l _ _ ∙ rw (postfix_of-token_of op some_op) (rw (reads g k ends (omega arith)))

pub assign_step :
    (t v : Expression) (g : ℕ) (k : Tokens)
    → Reads v
    → Ends k
    → 3 * length (punct TokenType.equal ∷ render v k) < suc g
    → parse_expr_postfix (suc g) t (punct TokenType.equal ∷ render v k) ≡ ok (assign t v, k)
unfolding parse_suffix postfix_of
assign_step t v g k reads ends h =
    to_suffix g t _ _
    ∙ rw (skip_token-punct TokenType.equal _, reads g k ends (omega arith))
        (at_end g (assign t v) k ends (omega arith))

pub compound-Reads :
    (p e : Expression) (between : Tokens → Tokens)
    → ((k : Tokens) → render e k ≡ head p (between k))
    → ((g : ℕ) (k : Tokens)
        → Ends k
        → 3 * length (between k) < suc g
        → parse_expr_postfix (suc g) p (between k) ≡ ok (e, k))
    → ReadsHead p
    → Reads e
compound-Reads p e between same_text step reads f k ends h =
    finish (reads f (between k) (omega (arith, ap length (same_text k))))
  where
    finish :
        (g : ℕ) × (3 * length (between k) < g)
          × (parse_expr f (head p (between k)) ≡ parse_expr_postfix g p (between k))
        → parse_expr f (render e k) ≡ ok (e, k)
    finish (zero, fuel, eq) = absurd (omega arith)
    finish (suc g, fuel, eq) = rw same_text (eq ∙ step g k ends fuel)

pub pointer-Reads : (e : Expression) → Reads e → Reads (pointer_of e)
unfolding render prefix_of parse_prefix next
pointer-Reads e reads zero k ends h = absurd (omega arith)
pointer-Reads e reads (suc zero) k ends h = absurd (omega arith)
pointer-Reads e reads (suc (suc f)) k ends h =
    of_prefix f _ _ k (pointer_of e) (rw (reads (suc f) k ends (omega arith)))
    ∙ at_end (suc f) (pointer_of e) k ends (omega arith)

-- An expression that is no atom, in both forms.
pub compound :
    (e : Expression)
    → ((k : Tokens)
        → head e k ≡ punct TokenType.open_paren ∷ render e (punct TokenType.close_paren ∷ k))
    → Reads e
    → ReadsHead e × Reads e
compound e same_text reads =
    (parenthesis-ReadsHead e same_text (λ k. omega (arith, length-render e k)) reads, reads)

pub atom :
    (e : Expression) → ((k : Tokens) → render e k ≡ head e k) → ReadsHead e → ReadsHead e × Reads e
atom e same_text reads = (reads, of_head e same_text reads)
