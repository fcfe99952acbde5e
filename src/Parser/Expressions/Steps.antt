-- ===== src/Parser/Expressions/Steps.antt =====
-- Steps of the parser on what `render` writes: a prefix, a parenthesis, the suffixes.
use reir.Prelude.{
  ℕ, zero, suc, ◌*◌, ◌^◌, ◌≤◌, ◌<◌, ◌≡◌, refl, ◌∙◌, ap, arith, true, Bytes, [], ◌∷◌, length,
  if◌then◌else◌, ok, bind, ==_iff,
}
use reir.Prelude.Decimal.{stoi-print}
use reir.Token.{TokenType, Token, same}
use reir.Ast.{Expression, number, string, variable_reference}
use reir.Parser.Stream.{Tokens, Parser, get, next, has_next, expect_token, skip_token, take_token}
use reir.Parser.Expressions.{
  done, postfix_of, prefix_of, parse_variable, parse_number, parse_string, parse_prefix,
  parse_suffix, parse_expr, parse_expr_postfix, parse_elements,
}
use reir.Parser.Expressions.Render.{punct, head, render}

-- What may follow an expression: no token that goes on with it.
abbrev pub Ends : Tokens → Type 0
Ends [] = Unit
Ends (t ∷ ts) = postfix_of t.type ≡ done

-- The expression in front of `k` is read, and the parser is at the suffixes behind it.
abbrev pub ReadsHead : Expression → Type 0
ReadsHead e =
    (f : ℕ) (k : Tokens)
    → 3 * length (head e k) < f
    → (g : ℕ) × (3 * length k < g) × (parse_expr f (head e k) ≡ parse_expr_postfix g e k)

abbrev pub Reads : Expression → Type 0
Reads e =
    (f : ℕ) (k : Tokens)
    → Ends k
    → 3 * length (render e k) < f
    → parse_expr f (render e k) ≡ ok (e, k)

-- The end of `parse_expr` is a round of `parse_expr_postfix`.
at_suffixes :
    (f : ℕ) (e : Expression) (k : Tokens)
    → bind (has_next k) (λ (more, rest).
      if◌then◌else◌ {A = Parser Expression} more
        (parse_expr_postfix (suc f) e)
        (λ ts. ok (e, ts))
        rest)
      ≡ parse_expr_postfix (suc f) e k
unfolding has_next parse_expr_postfix
at_suffixes f e [] = refl
at_suffixes f e (t ∷ ts) = refl

pub at_end :
    (g : ℕ) (e : Expression) (k : Tokens) → Ends k → 0 < g → parse_expr_postfix g e k ≡ ok (e, k)
unfolding parse_expr_postfix has_next get
at_end zero e k h pos = absurd (omega arith)
at_end (suc g) e [] h pos = refl
at_end (suc g) e (t ∷ ts) h pos = rw h (unfold parse_suffix in refl)

pub of_head : (e : Expression) → ((k : Tokens) → render e k ≡ head e k) → ReadsHead e → Reads e
of_head e same_text h f k ends fuel =
    let (g, fuel', step) = h f k (rw same_text at fuel) in
    rw same_text (step ∙ at_end g e k ends (omega arith))

-- A prefix that is read, and the suffixes behind it.
pub of_prefix :
    (f : ℕ) (t : Token) (ts k : Tokens) (e : Expression)
    → parse_prefix (prefix_of t.type) (parse_expr (suc f)) (parse_elements (suc f)) (t ∷ ts)
      ≡ ok (e, k)
    → parse_expr (suc (suc f)) (t ∷ ts) ≡ parse_expr_postfix (suc f) e k
unfolding parse_expr get
of_prefix f t ts k e h = rw h (at_suffixes f e k)

pub to_suffix :
    (g : ℕ) (e : Expression) (t : Token) (ts : Tokens)
    → parse_expr_postfix (suc g) e (t ∷ ts)
      ≡ parse_suffix
          (postfix_of t.type)
          e
          (parse_expr g)
          (parse_elements g)
          (parse_expr_postfix g)
          (t ∷ ts)
unfolding parse_expr_postfix has_next get
to_suffix g e t ts = refl

pub same_refl : (t : TokenType) → same t t ≡ true
unfolding same
same_refl t = (==_iff _ _).1 refl

pub skip_token-punct : (t : TokenType) (k : Tokens) → skip_token t (punct t ∷ k) ≡ ok (tt, k)
unfolding skip_token expect_token get next
skip_token-punct t k = rw (same_refl t)

pub number-ReadsHead : (n : ℕ) → n < 2 ^ 31 → ReadsHead (number n)
unfolding head prefix_of parse_prefix parse_number get next
number-ReadsHead n small zero k h = absurd (omega arith)
number-ReadsHead n small (suc zero) k h = absurd (omega arith)
number-ReadsHead n small (suc (suc f)) k h =
    (suc f, omega arith, of_prefix f _ k k (number n) (rw (stoi-print n small)))

pub string-ReadsHead : (s : Bytes) → ReadsHead (string s)
unfolding head prefix_of parse_prefix parse_string get next take_token
string-ReadsHead s zero k h = absurd (omega arith)
string-ReadsHead s (suc zero) k h = absurd (omega arith)
string-ReadsHead s (suc (suc f)) k h = (suc f, omega arith, of_prefix f _ k k (string s) refl)

pub variable-ReadsHead : (n : Bytes) → ReadsHead (variable_reference n)
unfolding head prefix_of parse_prefix parse_variable get next skip_token expect_token same
variable-ReadsHead n zero k h = absurd (omega arith)
variable-ReadsHead n (suc zero) k h = absurd (omega arith)
variable-ReadsHead n (suc (suc f)) k h =
    (suc f, omega arith, of_prefix f _ k k (variable_reference n) refl)

-- A parenthesised expression.
parenthesis_step :
    (e : Expression) (f : ℕ) (k : Tokens)
    → Reads e
    → 3 * length (render e (punct TokenType.close_paren ∷ k)) < suc f
    → parse_expr
        (suc (suc f))
        (punct TokenType.open_paren ∷ render e (punct TokenType.close_paren ∷ k))
      ≡ parse_expr_postfix (suc f) e k
unfolding prefix_of parse_prefix next postfix_of
parenthesis_step e f k reads fuel = of_prefix f _ _ k e (
    rw (
      reads (suc f) (punct TokenType.close_paren ∷ k) refl fuel,
      skip_token-punct TokenType.close_paren k,
    ))

pub parenthesis-ReadsHead :
    (e : Expression)
    → ((k : Tokens)
        → head e k ≡ punct TokenType.open_paren ∷ render e (punct TokenType.close_paren ∷ k))
    → ((k : Tokens) → length k ≤ length (render e k))
    → Reads e
    → ReadsHead e
parenthesis-ReadsHead e same_text longer reads zero k h = absurd (omega arith)
parenthesis-ReadsHead e same_text longer reads (suc zero) k h =
    absurd (omega (arith, ap length (same_text k)))
parenthesis-ReadsHead e same_text longer reads (suc (suc f)) k h = (
  suc f,
  omega (arith, ap length (same_text k), longer (punct TokenType.close_paren ∷ k)),
  rw same_text (parenthesis_step e f k reads (omega (arith, ap length (same_text k)))),
)
