-- ===== src/Parser/Statements/Simple.antt =====
-- Progress of the statements that hold no statements, and of the pieces of the others.
use reir.Prelude.{
  ℕ, ◌*◌, ◌≤◌, ◌<◌, ◌≡◌, refl, arith, Option, none, some, length, ap, Runs, returns, raises,
  Runs-bind,
}
use reir.Token.{TokenType, same}
use reir.Ast.{TupleType, Statement, Block}
use reir.Parser.Stream.{Tokens, Parser}
use reir.Parser.Stream.Progress.{
  AtMost, Fewer, Shorter, get-Runs, next-Runs, has_next-Runs, expect_token-Runs, skip_token-Runs,
  take_token-Runs, if-Runs,
}
use reir.Parser.Types.Fuel.{parse_type-Fewer, parse_row_type-Fewer}
use reir.Parser.Expressions.Fuel.{parse_expr-Fewer}
use reir.Parser.Statements.{
  tuple_or_throw, as_tuple, parse_let, parse_define_tuple, parse_define, parse_emit, parse_insert,
  parse_expr_statement, parse_unless_semicolon, parse_isolation, parse_else, parse_init,
  parse_block, parse_transaction, parse_if, parse_for, parse_scan,
}

module _ (f : ℕ) (ts : Tokens) (fuel : 3 * length ts < f) where
  pub parse_let-Fewer : Fewer (length ts) (parse_let f ts)
  unfolding parse_let
  parse_let-Fewer = Runs-bind (skip_token-Runs _ ts) λ (_, ts₁) e₁.
      Runs-bind (get-Runs ts₁) λ (t, ts₂) (e₂, _).
        Runs-bind
          (if-Runs {P = λ r. length r.1 ≤ length ts₂} (same t.type TokenType.open_angle) _ _ ts₂
            (λ _.
              Runs-bind (parse_row_type-Fewer f ts₂ (omega (arith, ap length e₂)))
                λ _ k. returns (omega arith))
            (λ _. returns (omega arith)))
          λ (_, ts₃) e₃. Runs-bind (expect_token-Runs _ ts₃) λ (_, ts₄) (e₄, _).
            Runs-bind (take_token-Runs ts₄) λ (_, ts₅) e₅.
              Runs-bind (skip_token-Runs _ ts₅) λ (_, ts₆) e₆.
                Runs-bind (parse_expr-Fewer f ts₆ (omega (arith, ap length e₂, ap length e₄)))
                  λ (_, ts₇) e₇. returns (omega (arith, ap length e₂, ap length e₄))

  tuple_or_throw-Runs :
      (t : Option TupleType) (us : Tokens) → Runs (λ r. r.1 ≡ us) (tuple_or_throw t us)
  unfolding tuple_or_throw
  tuple_or_throw-Runs (some t) us = returns refl
  tuple_or_throw-Runs none us = raises

  pub parse_define_tuple-Fewer : Fewer (length ts) (parse_define_tuple f ts)
  unfolding parse_define_tuple
  parse_define_tuple-Fewer = Runs-bind (skip_token-Runs _ ts) λ (_, ts₁) e₁.
      Runs-bind (expect_token-Runs _ ts₁) λ (_, ts₂) (e₂, _).
        Runs-bind (take_token-Runs ts₂) λ (_, ts₃) e₃.
          Runs-bind (parse_type-Fewer f ts₃ (omega (arith, ap length e₂))) λ (type, ts₄) e₄.
            Runs-bind (tuple_or_throw-Runs (as_tuple type) ts₄)
              λ (_, ts₅) e₅. returns (omega (arith, ap length e₂, ap length e₅))

  pub parse_define-Fewer : Fewer (length ts) (parse_define f ts)
  unfolding parse_define
  parse_define-Fewer = Runs-bind (skip_token-Runs _ ts) λ (_, ts₁) e₁.
      Runs-bind (parse_row_type-Fewer f ts₁ (omega arith)) λ (_, ts₂) e₂.
        Runs-bind (expect_token-Runs _ ts₂) λ (_, ts₃) (e₃, _).
          Runs-bind (take_token-Runs ts₃) λ (_, ts₄) e₄. returns (omega (arith, ap length e₃))

  pub parse_emit-Fewer : Fewer (length ts) (parse_emit f ts)
  unfolding parse_emit
  parse_emit-Fewer = Runs-bind (skip_token-Runs _ ts) λ (_, ts₁) e₁.
      Runs-bind (parse_expr-Fewer f ts₁ (omega arith)) λ (_, ts₂) e₂. returns (omega arith)

  pub parse_insert-Fewer : Fewer (length ts) (parse_insert f ts)
  unfolding parse_insert
  parse_insert-Fewer = Runs-bind (skip_token-Runs _ ts) λ (_, ts₁) e₁.
      Runs-bind (expect_token-Runs _ ts₁) λ (_, ts₂) (e₂, _).
        Runs-bind (take_token-Runs ts₂) λ (_, ts₃) e₃.
          Runs-bind (expect_token-Runs _ ts₃) λ (_, ts₄) (e₄, _).
            Runs-bind (parse_expr-Fewer f ts₄ (omega (arith, ap length e₂, ap length e₄)))
              λ (_, ts₅) e₅. returns (omega (arith, ap length e₂, ap length e₄))

  pub parse_expr_statement-Fewer : Fewer (length ts) (parse_expr_statement f ts)
  unfolding parse_expr_statement
  parse_expr_statement-Fewer =
      Runs-bind (parse_expr-Fewer f ts fuel) λ (_, ts₁) e₁. returns (omega arith)

  pub parse_unless_semicolon-AtMost : AtMost (length ts) (parse_unless_semicolon f ts)
  unfolding parse_unless_semicolon
  parse_unless_semicolon-AtMost = Runs-bind (get-Runs ts) λ (t, ts₁) (e₁, _).
      if-Runs (same t.type TokenType.semicolon) _ _ ts₁ (λ _. returns (omega (arith, ap length e₁)))
        (λ _.
          Runs-bind (parse_expr-Fewer f ts₁ (omega (arith, ap length e₁)))
            λ (_, ts₂) e₂. returns (omega (arith, ap length e₁)))

parse_isolation-AtMost : (ts : Tokens) → AtMost (length ts) (parse_isolation ts)
unfolding parse_isolation
parse_isolation-AtMost ts = Runs-bind (get-Runs ts) λ (t, ts₁) (e₁, _).
    if-Runs (same t.type TokenType.open_brace) _ _ ts₁ (λ _. returns (omega (arith, ap length e₁)))
      (λ _. Runs-bind (next-Runs ts₁) λ (_, ts₂) e₂. returns (omega (arith, ap length e₁)))

-- The statements with blocks: `blk` parses a block, and `n` bounds the tokens.
module _ (n : ℕ) (blk : Parser Block) (blk-Shorter : Shorter n blk) where
  pub parse_transaction-Fewer :
      (ts : Tokens) → length ts ≤ n → Fewer (length ts) (parse_transaction blk ts)
  unfolding parse_transaction
  parse_transaction-Fewer ts h = Runs-bind (skip_token-Runs _ ts) λ (_, ts₁) e₁.
      Runs-bind (parse_isolation-AtMost ts₁) λ (_, ts₂) e₂.
        Runs-bind (expect_token-Runs _ ts₂) λ (_, ts₃) (e₃, _).
          Runs-bind (blk-Shorter ts₃ (omega (arith, ap length e₃)))
            λ (_, ts₄) e₄. returns (omega (arith, ap length e₃))

  parse_else-AtMost : (ts : Tokens) → length ts ≤ n → AtMost (length ts) (parse_else blk ts)
  unfolding parse_else
  parse_else-AtMost ts h = Runs-bind (has_next-Runs ts) λ (more, ts₁) (e₁, _).
      if-Runs more _ _ ts₁
        (λ _. Runs-bind (get-Runs ts₁) λ (t, ts₂) (e₂, pos).
          if-Runs (same t.type TokenType.else_) _ _ ts₂
            (λ _. Runs-bind (next-Runs ts₂) λ (_, ts₃) e₃.
              Runs-bind (expect_token-Runs _ ts₃) λ (_, ts₄) (e₄, _).
                Runs-bind
                  (blk-Shorter ts₄ (omega (arith, ap length e₁, ap length e₂, ap length e₄)))
                  λ (_, ts₅) e₅. returns (omega (arith, ap length e₁, ap length e₂, ap length e₄)))
            (λ _. returns (omega (arith, ap length e₁, ap length e₂))))
        (λ _. returns (omega (arith, ap length e₁)))

  pub parse_if-Fewer :
      (f : ℕ) (ts : Tokens)
      → length ts ≤ n
      → 3 * length ts < f
      → Fewer (length ts) (parse_if f blk ts)
  unfolding parse_if
  parse_if-Fewer f ts h fuel = Runs-bind (skip_token-Runs _ ts) λ (_, ts₁) e₁.
      Runs-bind (parse_expr-Fewer f ts₁ (omega arith)) λ (_, ts₂) e₂.
        Runs-bind (expect_token-Runs _ ts₂) λ (_, ts₃) (e₃, _).
          Runs-bind (blk-Shorter ts₃ (omega (arith, ap length e₃))) λ (_, ts₄) e₄.
            Runs-bind (parse_else-AtMost ts₄ (omega (arith, ap length e₃)))
              λ (_, ts₅) e₅. returns (omega (arith, ap length e₃))

  pub parse_scan-Fewer : (ts : Tokens) → length ts ≤ n → Fewer (length ts) (parse_scan blk ts)
  unfolding parse_scan
  parse_scan-Fewer ts h = Runs-bind (skip_token-Runs _ ts) λ (_, ts₁) e₁.
      Runs-bind (expect_token-Runs _ ts₁) λ (_, ts₂) (e₂, _).
        Runs-bind (take_token-Runs ts₂) λ (_, ts₃) e₃.
          Runs-bind (skip_token-Runs _ ts₃) λ (_, ts₄) e₄.
            Runs-bind (take_token-Runs ts₄) λ (_, ts₅) e₅.
              Runs-bind (expect_token-Runs _ ts₅) λ (_, ts₆) (e₆, _).
                Runs-bind (blk-Shorter ts₆ (omega (arith, ap length e₂, ap length e₆)))
                  λ (_, ts₇) e₇. returns (omega (arith, ap length e₂, ap length e₆))

  module _ (statement : Parser (Option Statement))
      (statement-AtMost : (ts : Tokens)
        → length ts < n
        → 0 < length ts
        → AtMost (length ts) (statement ts)) where
    parse_init-AtMost : (ts : Tokens) → length ts < n → AtMost (length ts) (parse_init statement ts)
    unfolding parse_init
    parse_init-AtMost ts h = Runs-bind (get-Runs ts) λ (t, ts₁) (e₁, pos).
        if-Runs (same t.type TokenType.semicolon) _ _ ts₁
          (λ _. returns (omega (arith, ap length e₁)))
          (λ _.
            Runs-bind
              (statement-AtMost ts₁ (omega (arith, ap length e₁)) (omega (arith, ap length e₁)))
              λ (_, ts₂) e₂. returns (omega (arith, ap length e₁)))

    pub parse_for-Fewer :
        (f : ℕ) (ts : Tokens)
        → length ts ≤ n
        → 3 * length ts < f
        → Fewer (length ts) (parse_for f statement blk ts)
    unfolding parse_for
    parse_for-Fewer f ts h fuel = Runs-bind (skip_token-Runs _ ts) λ (_, ts₁) e₁.
        Runs-bind (parse_init-AtMost ts₁ (omega arith)) λ (_, ts₂) e₂.
          Runs-bind (skip_token-Runs _ ts₂) λ (_, ts₃) e₃.
            Runs-bind (parse_unless_semicolon-AtMost f ts₃ (omega arith)) λ (_, ts₄) e₄.
              Runs-bind (skip_token-Runs _ ts₄) λ (_, ts₅) e₅.
                Runs-bind (parse_unless_semicolon-AtMost f ts₅ (omega arith)) λ (_, ts₆) e₆.
                  Runs-bind (expect_token-Runs _ ts₆) λ (_, ts₇) (e₇, _).
                    Runs-bind (blk-Shorter ts₇ (omega (arith, ap length e₇)))
                      λ (_, ts₈) e₈. returns (omega (arith, ap length e₇))

pub parse_block-Fewer :
    (statements : Parser Block) (ts : Tokens)
    → ((us : Tokens) → length us < length ts → AtMost (length us) (statements us))
    → Fewer (length ts) (parse_block statements ts)
unfolding parse_block
parse_block-Fewer statements ts h = Runs-bind (skip_token-Runs _ ts) λ (_, ts₁) e₁.
    Runs-bind (h ts₁ (omega arith))
      λ (_, ts₂) e₂. Runs-bind (skip_token-Runs _ ts₂) λ (_, ts₃) e₃. returns (omega arith)
