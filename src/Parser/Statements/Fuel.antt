-- ===== src/Parser/Statements/Fuel.antt =====
-- Fuel and progress of the parser of statements, src/reir/exec/ast_statement_parser.cpp.
use reir.Prelude.{
  ℕ, zero, suc, ◌+◌, ◌*◌, ◌≤◌, ◌<◌, ◌≡◌, refl, ◌∙◌, arith, Bool, true, false, Option, some, [], ◌∷◌,
  length, Result, ok, bind, Runs, returns, raises, Runs-bind, Runs-weaken,
}
use reir.Token.{TokenType, same}
use reir.Ast.{Statement, Block, block, jump, JumpType}
use reir.Parser.Stream.{Tokens, Parser, get, has_next}
use reir.Parser.Stream.Progress.{AtMost, Fewer, Shorter, next-Runs, if-Runs}
use reir.Parser.Statements.{
  Start, begin_block, begin_nothing, begin_transaction, begin_let, begin_if, begin_for,
  begin_define, begin_emit, begin_insert, begin_scan, begin_break, begin_continue, begin_expr,
  begin_tuple, begin_unknown, start_of, parse_start, parse_block, parse_statement, parse_statements,
}
use reir.Parser.Statements.Simple.{
  parse_let-Fewer, parse_define_tuple-Fewer, parse_define-Fewer, parse_emit-Fewer,
  parse_insert-Fewer, parse_expr_statement-Fewer, parse_transaction-Fewer, parse_if-Fewer,
  parse_scan-Fewer, parse_for-Fewer, parse_block-Fewer,
}

abbrev is_nothing : Start → Bool
is_nothing begin_nothing = true
is_nothing _ = false

-- At most `n` tokens are left, and fewer unless the statement is absent.
abbrev Progress : ℕ → Start → Option Statement × Tokens → Type 0
Progress n s r = (length r.1 ≤ n) × (is_nothing s ≡ false → length r.1 < n)

found-Progress :
    (s : Start) (n : ℕ) {m : Result (Statement × Tokens)}
    → Fewer n m
    → Runs (Progress n s) (bind m λ (a, rest). ok (some a, rest))
found-Progress s n h = Runs-bind h λ _ k. returns (omega arith, λ _. k)

module _ (n f : ℕ) (statement : Parser (Option Statement)) (blk : Parser Block)
    (statement-AtMost : (ts : Tokens)
      → length ts < n
      → 0 < length ts
      → AtMost (length ts) (statement ts))
    (blk-Fewer : (ts : Tokens) → length ts ≤ n → Fewer (length ts) (blk ts))
    (fuel : 3 * n < f) where
  blk-Shorter : Shorter n blk
  blk-Shorter us k = blk-Fewer us (omega arith)

  parse_start-Progress :
      (s : Start) (ts : Tokens)
      → length ts ≡ n
      → 0 < n
      → Runs (Progress (length ts) s) (parse_start s f statement blk ts)
  unfolding parse_start
  parse_start-Progress begin_block ts e pos =
      found-Progress begin_block _
        (Runs-bind {f = λ (b, r). ok (block b, r)} (blk-Fewer ts (omega arith)) λ _ k. returns k)
  parse_start-Progress begin_nothing ts e pos = returns (omega arith, λ h. cc)
  parse_start-Progress begin_transaction ts e pos =
      found-Progress begin_transaction _
        (parse_transaction-Fewer n blk blk-Shorter ts (omega arith))
  parse_start-Progress begin_let ts e pos =
      found-Progress begin_let _ (parse_let-Fewer f ts (omega arith))
  parse_start-Progress begin_if ts e pos =
      found-Progress begin_if _ (parse_if-Fewer n blk blk-Shorter f ts (omega arith) (omega arith))
  parse_start-Progress begin_for ts e pos = found-Progress begin_for _ (
      parse_for-Fewer n blk blk-Shorter statement statement-AtMost f ts (omega arith) (omega arith))
  parse_start-Progress begin_define ts e pos =
      found-Progress begin_define _ (parse_define-Fewer f ts (omega arith))
  parse_start-Progress begin_emit ts e pos =
      found-Progress begin_emit _ (parse_emit-Fewer f ts (omega arith))
  parse_start-Progress begin_insert ts e pos =
      found-Progress begin_insert _ (parse_insert-Fewer f ts (omega arith))
  parse_start-Progress begin_scan ts e pos =
      found-Progress begin_scan _ (parse_scan-Fewer n blk blk-Shorter ts (omega arith))
  parse_start-Progress begin_break ts e pos = found-Progress begin_break _ (
      Runs-bind {f = λ (_, r). ok (jump JumpType.break_jump, r)} (next-Runs ts)
        λ _ k. returns (omega arith))
  parse_start-Progress begin_continue ts e pos = found-Progress begin_continue _ (
      Runs-bind {f = λ (_, r). ok (jump JumpType.continue_jump, r)} (next-Runs ts)
        λ _ k. returns (omega arith))
  parse_start-Progress begin_expr ts e pos =
      found-Progress begin_expr _ (parse_expr_statement-Fewer f ts (omega arith))
  parse_start-Progress begin_tuple ts e pos =
      found-Progress begin_tuple _ (parse_define_tuple-Fewer f ts (omega arith))
  parse_start-Progress begin_unknown ts e pos = raises

is_nothing-start_of : (t : TokenType) → is_nothing (start_of t) ≡ same t TokenType.close_brace
unfolding start_of same
is_nothing-start_of TokenType.close_brace = refl
is_nothing-start_of t = ground arith

-- What a statement leaves; the closing brace, which is left alone, is the exception to progress.
abbrev pub begins_close : Tokens → Bool
begins_close [] = false
begins_close (t ∷ ts) = same t.type TokenType.close_brace

abbrev ProgressAt : Tokens → Option Statement × Tokens → Type 0
ProgressAt ts r = (length r.1 ≤ length ts) × (begins_close ts ≡ false → length r.1 < length ts)

mutual
  unfolding parse_statement get has_next

  parse_statement-Runs :
      (f : ℕ) (ts : Tokens)
      → 3 * length ts + 1 < f
      → 0 < length ts
      → Runs (ProgressAt ts) (parse_statement f ts)
  parse_statement-Runs zero ts h pos = absurd (omega arith)
  parse_statement-Runs (suc f) [] h pos = absurd (omega arith)
  parse_statement-Runs (suc f) (t ∷ ts) h pos =
      Runs-weaken
        (parse_start-Progress (length (t ∷ ts)) f (parse_statement f)
          (parse_block (parse_statements f))
          (λ us k pos'. Runs-weaken (parse_statement-Runs f us (omega arith) pos') λ _ l. l.0)
          (λ us k.
            parse_block-Fewer (parse_statements f) us
              (λ vs l. parse_statements-AtMost f vs (omega arith)))
          (omega arith) (start_of t.type) (t ∷ ts) refl (omega arith))
        λ _ (k, l). (k, λ e. l (is_nothing-start_of t.type ∙ e))

  parse_statements-AtMost :
      (f : ℕ) (ts : Tokens) → 3 * length ts + 2 < f → AtMost (length ts) (parse_statements f ts)
  parse_statements-AtMost zero ts h = absurd (omega arith)
  parse_statements-AtMost (suc f) [] h = raises
  parse_statements-AtMost (suc f) (t ∷ ts) h =
      if-Runs (same t.type TokenType.close_brace) _ _ (t ∷ ts) (λ _. returns (omega arith))
        (λ e.
          Runs-bind (parse_statement-Runs f (t ∷ ts) (omega arith) (omega arith))
            λ (_, ts₁) (_, less).
              let less' : length ts₁ < length (t ∷ ts) = less e in
              Runs-bind (parse_statements-AtMost f ts₁ (omega arith))
                λ (_, ts₂) k. returns (omega arith))

-- With fuel above three times the tokens and one, and a token there, the parser of statements
-- returns with no more tokens left, and fewer unless the first is a closing brace, or throws.
pub parse_statement-Progress :
    (f : ℕ) (ts : Tokens)
    → 3 * length ts + 1 < f
    → 0 < length ts
    → Runs
        (λ r. (length r.1 ≤ length ts) × (begins_close ts ≡ false → length r.1 < length ts))
        (parse_statement f ts)
parse_statement-Progress = parse_statement-Runs
