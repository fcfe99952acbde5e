-- ===== src/Parser/Expressions/Fuel.antt =====
-- Fuel and progress of the parser of expressions, src/reir/exec/ast_expression_parser.cpp.
use reir.Prelude.{
  ℕ, zero, suc, ◌+◌, ◌*◌, ◌<◌, ◌≡◌, ◌∙◌, arith, length, ap, returns, raises, Runs, Runs-bind,
  Runs-weaken,
}
use reir.Prelude.Decimal.{stoi-Runs}
use reir.Token.{TokenType, same}
use reir.Ast.{Expression, Expressions}
use reir.Parser.Stream.{Tokens, Parser}
use reir.Parser.Stream.Progress.{
  AtMost, Fewer, Shorter, get-Runs, next-Runs, has_next-Runs, skip_token-Runs, take_token-Runs,
  if-Runs,
}
use reir.Parser.Types.Fuel.{lift-Runs}
use reir.Parser.Expressions.{
  Prefix, address, row, parenthesis, array, variable, number_literal, text_literal, unknown,
  Postfix, call, index, member, assignment, operator, done, prefix_of, postfix_of, parse_variable,
  parse_number, parse_string, parse_prefix, parse_suffix, parse_separator, parse_expr,
  parse_expr_postfix, parse_elements, parse_loop,
}

parse_variable-Fewer : (ts : Tokens) → Fewer (length ts) (parse_variable ts)
unfolding parse_variable
parse_variable-Fewer ts = Runs-bind (get-Runs ts) λ (t, ts₁) (e₁, pos).
    Runs-bind (skip_token-Runs _ ts₁) λ (_, rest) e₂. returns (omega (arith, ap length e₁))

parse_number-Fewer : (ts : Tokens) → Fewer (length ts) (parse_number ts)
unfolding parse_number
parse_number-Fewer ts = Runs-bind (get-Runs ts) λ (t, ts₁) (e₁, pos).
    Runs-bind (lift-Runs ts₁ (stoi-Runs t.text)) λ (n, ts₂) e₂.
      Runs-bind (next-Runs ts₂) λ (_, ts₃) e₃. returns (omega (arith, ap length e₁, ap length e₂))

parse_string-Fewer : (ts : Tokens) → Fewer (length ts) (parse_string ts)
unfolding parse_string
parse_string-Fewer ts = Runs-bind (take_token-Runs ts) λ (t, rest) e. returns (omega arith)

module _ (n : ℕ) (expr : Parser Expression) (elements : TokenType → Parser Expressions)
    (expr-Shorter : Shorter n expr)
    (elements-Shorter : (close : TokenType) → Shorter n (elements close)) where
  parse_prefix-Fewer :
      (p : Prefix) (ts : Tokens) → length ts ≡ n → 0 < n → Fewer n (parse_prefix p expr elements ts)
  unfolding parse_prefix
  parse_prefix-Fewer address ts e pos =
      Runs-bind (next-Runs ts) λ (_, ts₁) e₁.
        Runs-bind (expr-Shorter ts₁ (omega arith)) λ (_, ts₂) e₂. returns (omega arith)
  parse_prefix-Fewer row ts e pos = Runs-bind (skip_token-Runs _ ts) λ (_, ts₁) e₁.
      Runs-bind (elements-Shorter _ ts₁ (omega arith)) λ (_, ts₂) e₂. returns (omega arith)
  parse_prefix-Fewer parenthesis ts e pos = Runs-bind (next-Runs ts) λ (_, ts₁) e₁.
      Runs-bind (expr-Shorter ts₁ (omega arith))
        λ (_, ts₂) e₂. Runs-bind (skip_token-Runs _ ts₂) λ (_, ts₃) e₃. returns (omega arith)
  parse_prefix-Fewer array ts e pos = Runs-bind (skip_token-Runs _ ts) λ (_, ts₁) e₁.
      Runs-bind (elements-Shorter _ ts₁ (omega arith)) λ (_, ts₂) e₂. returns (omega arith)
  parse_prefix-Fewer variable ts e pos = Runs-weaken (parse_variable-Fewer ts) λ _ h. omega arith
  parse_prefix-Fewer number_literal ts e pos =
      Runs-weaken (parse_number-Fewer ts) λ _ h. omega arith
  parse_prefix-Fewer text_literal ts e pos = Runs-weaken (parse_string-Fewer ts) λ _ h. omega arith
  parse_prefix-Fewer unknown ts e pos = raises

  module _ (again : Expression → Parser Expression)
      (again-AtMost : (e : Expression) (ts : Tokens)
        → length ts < n
        → AtMost (length ts) (again e ts)) where
    again-AtMost_le : (e : Expression) (ts : Tokens) → length ts < n → AtMost n (again e ts)
    again-AtMost_le e ts h = Runs-weaken (again-AtMost e ts h) λ _ k. omega arith

    parse_suffix-AtMost :
        (p : Postfix) (ret : Expression) (ts : Tokens)
        → length ts ≡ n
        → 0 < n
        → AtMost n (parse_suffix p ret expr elements again ts)
    unfolding parse_suffix
    parse_suffix-AtMost call ret ts e pos = Runs-bind (skip_token-Runs _ ts) λ (_, ts₁) e₁.
        Runs-bind (elements-Shorter _ ts₁ (omega arith))
          λ (_, ts₂) e₂. again-AtMost_le _ ts₂ (omega arith)
    parse_suffix-AtMost index ret ts e pos = Runs-bind (skip_token-Runs _ ts) λ (_, ts₁) e₁.
        Runs-bind (expr-Shorter ts₁ (omega arith)) λ (_, ts₂) e₂.
          Runs-bind (skip_token-Runs _ ts₂) λ (_, ts₃) e₃. again-AtMost_le _ ts₃ (omega arith)
    parse_suffix-AtMost member ret ts e pos = Runs-bind (skip_token-Runs _ ts) λ (_, ts₁) e₁.
        Runs-bind (take_token-Runs ts₁) λ (t, ts₂) e₂. again-AtMost_le _ ts₂ (omega arith)
    parse_suffix-AtMost assignment ret ts e pos = Runs-bind (skip_token-Runs _ ts) λ (_, ts₁) e₁.
        Runs-bind (expr-Shorter ts₁ (omega arith))
          λ (_, ts₂) e₂. again-AtMost_le _ ts₂ (omega arith)
    parse_suffix-AtMost (operator op) ret ts e pos = Runs-bind (next-Runs ts) λ (_, ts₁) e₁.
        Runs-bind (expr-Shorter ts₁ (omega arith)) λ (_, ts₂) e₂. returns (omega arith)
    parse_suffix-AtMost done ret ts e pos = returns (omega arith)

parse_separator-AtMost :
    (close : TokenType) (again : Parser Expressions) (ts : Tokens)
    → ((us : Tokens) → length us < length ts → AtMost (length us) (again us))
    → AtMost (length ts) (parse_separator close again ts)
unfolding parse_separator
parse_separator-AtMost close again ts h = Runs-bind (get-Runs ts) λ (t, ts₁) (e₁, _).
    if-Runs (same t.type close) _ _ ts₁ (λ _. returns (omega (arith, ap length e₁)))
      (λ _. Runs-bind (skip_token-Runs _ ts₁) λ (_, ts₂) e₂.
        Runs-weaken (h ts₂ (omega (arith, ap length e₁))) λ _ k. omega (arith, ap length e₁))

mutual
  unfolding parse_expr

  pub parse_expr-Fewer :
      (f : ℕ) (ts : Tokens) → 3 * length ts < f → Fewer (length ts) (parse_expr f ts)
  parse_expr-Fewer zero ts h = absurd (omega arith)
  parse_expr-Fewer (suc f) ts h = Runs-bind (get-Runs ts) λ (t, ts₁) (e₁, pos).
      Runs-bind
        (parse_prefix-Fewer (length ts) (parse_expr f) (parse_elements f)
          (λ us k. parse_expr-Fewer f us (omega arith))
          (λ close us k. parse_elements-Fewer f close us (omega arith)) (prefix_of t.type) ts₁
          (ap length e₁) pos)
        λ (ret, ts₂) e₂. Runs-bind (has_next-Runs ts₂) λ (more, ts₃) (e₃, _).
          if-Runs more _ _ ts₃
            (λ _.
              Runs-weaken (parse_expr_postfix-AtMost f ret ts₃ (omega (arith, ap length e₃)))
                λ _ k. omega (arith, ap length e₃))
            (λ _. returns (omega (arith, ap length e₃)))

  pub parse_expr_postfix-AtMost :
      (f : ℕ) (ret : Expression) (ts : Tokens)
      → 3 * length ts < f
      → AtMost (length ts) (parse_expr_postfix f ret ts)
  parse_expr_postfix-AtMost zero ret ts h = absurd (omega arith)
  parse_expr_postfix-AtMost (suc f) ret ts h = Runs-bind (has_next-Runs ts) λ (more, ts₁) (e₁, _).
      if-Runs more _ _ ts₁
        (λ _. Runs-bind (get-Runs ts₁) λ (t, ts₂) (e₂, pos).
          parse_suffix-AtMost (length ts) (parse_expr f) (parse_elements f)
            (λ us k. parse_expr-Fewer f us (omega arith))
            (λ close us k. parse_elements-Fewer f close us (omega arith)) (parse_expr_postfix f)
            (λ e us k. parse_expr_postfix-AtMost f e us (omega arith)) (postfix_of t.type) ret ts₂
            (ap length (e₂ ∙ e₁)) (omega (arith, ap length e₁)))
        (λ _. returns (omega (arith, ap length e₁)))

  parse_elements-Fewer :
      (f : ℕ) (close : TokenType) (ts : Tokens)
      → 3 * length ts + 2 < f
      → Fewer (length ts) (parse_elements f close ts)
  parse_elements-Fewer zero close ts h = absurd (omega arith)
  parse_elements-Fewer (suc f) close ts h =
      Runs-bind (parse_loop-AtMost f close ts (omega arith))
        λ (es, ts₁) e₁. Runs-bind (skip_token-Runs _ ts₁) λ (_, ts₂) e₂. returns (omega arith)

  parse_loop-AtMost :
      (f : ℕ) (close : TokenType) (ts : Tokens)
      → 3 * length ts + 1 < f
      → AtMost (length ts) (parse_loop f close ts)
  parse_loop-AtMost zero close ts h = absurd (omega arith)
  parse_loop-AtMost (suc f) close ts h = Runs-bind (get-Runs ts) λ (t, ts₁) (e₁, pos).
      if-Runs (same t.type close) _ _ ts₁ (λ _. returns (omega (arith, ap length e₁)))
        (λ _. Runs-bind (parse_expr-Fewer f ts₁ (omega (arith, ap length e₁))) λ (e, ts₂) e₂.
          Runs-bind
            (parse_separator-AtMost close (parse_loop f close) ts₂
              (λ us k. parse_loop-AtMost f close us (omega (arith, ap length e₁))))
            λ _ e₃. returns (omega (arith, ap length e₁)))

-- With fuel above three times the tokens, the parser of expressions returns an expression with
-- fewer tokens left, or throws.
pub parse_expr-Progress :
    (f : ℕ) (ts : Tokens) → 3 * length ts < f → Runs (λ r. length r.1 < length ts) (parse_expr f ts)
parse_expr-Progress = parse_expr-Fewer
