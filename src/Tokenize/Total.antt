-- ===== src/Tokenize/Total.antt =====
-- The aborts of `tokenize` (src/reir/exec/tokenize.hpp): of the bytes of operators, `!` and `|`
-- have no token of their own.
use reir.Prelude.{
  ◌≢◌, ℕ, suc, ◌≡◌, refl, ◌∙◌, arith, true, false, [], ◌∷◌, ◌++◌, Bytes, ◌==◌, contains, drop,
  Bool-cases, inl, inr, Result, Runs, returns, raises, Runs-bind, Runs-if,
}
use reir.Token.{symbols, operator_tokens, numbers}
use reir.Tokenize.{
  Lexer, LexerState, init, name, string, operator, delimiters, add_operator, add_token, step_string,
  step_delimiter, step_symbol, step_operator, step_digit, step_other, step_byte, step_code, step_in,
  finish, run, tokenize,
}
use reir.Tokenize.Images.{Tail, drop-suc, slice-longer}
use reir.Tokenize.Known.{
  known_operators, Ends, all, symbol_token-symbols, operator_known, Known, operator_token-Ends,
  Known-append, Kept, Keeps, flush-Ends, flush_pending-Ends,
}

module _ (code : Bytes) (i c : ℕ) (cs : Bytes) (at : drop i code ≡ c ∷ cs) where
  abbrev Goes : Result Lexer → Type 0
  Goes = Runs (Keeps code (suc i))

  begun : contains known_operators c ≡ true → (p : Bytes) × Tail code (suc i) i 1 p × Known p
  unfolding all
  begun h = (c ∷ [], (rw at refl, omega arith), rw h refl)

  step_string-Goes : (l : Lexer) → l.state ≡ string → Goes (step_string code i c l)
  unfolding step_string
  step_string-Goes l e = elim (Bool-cases (c == b'"')) [
    | inl quote ↦ rw quote (returns tt)
    | inr other ↦ rw (other, e) (returns tt)
  ]

  step_operator-Goes :
      (s : LexerState) (l : Lexer)
      → Kept code i s l
      → l.state ≡ s
      → s ≢ string
      → contains known_operators c ≡ true
      → Goes (step_operator s code i l)
  unfolding step_operator
  step_operator-Goes init l k e m h = returns (begun h)
  step_operator-Goes name l k e m h =
      Runs-bind (flush-Ends name code i l k e (λ h. cc) (λ h. cc)) λ l' _. returns (begun h)
  step_operator-Goes LexerState.number l k e m h =
      Runs-bind (flush-Ends LexerState.number code i l k e (λ h. cc) (λ h. cc))
        λ l' _. returns (begun h)
  step_operator-Goes operator l (p, (t, sum), k) e m h = returns (
      rw e (
        p ++ c ∷ [],
        (slice-longer code l.from l.len i c cs sum at ∙ rw t refl, omega arith),
        Known-append c p k h,
      ))
  step_operator-Goes string l k e m h = absurd (m refl)

  step_digit-Goes :
      (s : LexerState) (l : Lexer)
      → Kept code i s l
      → l.state ≡ s
      → s ≢ string
      → Goes (step_digit s code i l)
  unfolding step_digit
  step_digit-Goes init l k e m = returns tt
  step_digit-Goes name l k e m = returns (rw e tt)
  step_digit-Goes LexerState.number l k e m = returns (rw e tt)
  step_digit-Goes operator l k e m =
      Runs-bind (flush-Ends operator code i l k e (λ h. cc) (λ h. cc)) λ l' _. returns tt
  step_digit-Goes string l k e m = absurd (m refl)

  step_other-Goes :
      (s : LexerState) (l : Lexer)
      → Kept code i s l
      → l.state ≡ s
      → s ≢ string
      → Goes (step_other s code i l)
  unfolding step_other
  step_other-Goes init l k e m = returns tt
  step_other-Goes name l k e m = returns (rw e tt)
  step_other-Goes LexerState.number l k e m = raises
  step_other-Goes operator l k e m =
      Runs-bind (flush-Ends operator code i l k e (λ h. cc) (λ h. cc)) λ l' _. returns tt
  step_other-Goes string l k e m = absurd (m refl)

  step_delimiter-Goes :
      (l : Lexer) → Keeps code i l → l.state ≢ string → Goes (step_delimiter code i c l)
  unfolding step_delimiter
  step_delimiter-Goes l k m = Runs-bind (flush_pending-Ends l.state code i l k refl m) λ l' _.
      elim (Bool-cases (c == b'\n')) [
        | inl line ↦ returns (rw line tt)
        | inr other ↦ returns (rw other tt)
      ]

  step_symbol-Goes :
      (l : Lexer)
      → Keeps code i l
      → l.state ≢ string
      → contains symbols c ≡ true
      → Goes (step_symbol code i c l)
  unfolding step_symbol
  step_symbol-Goes l k m h =
      Runs-bind (flush_pending-Ends l.state code i l k refl m)
        λ l' _. Runs-bind (symbol_token-symbols c h) λ t _. returns tt

  step_byte-Goes :
      (l : Lexer)
      → Keeps code i l
      → l.state ≢ string
      → (c == b'!') ≡ false
      → (c == b'|') ≡ false
      → Goes (step_byte code i c l)
  unfolding step_byte
  step_byte-Goes l k m bang bar = elim (Bool-cases (contains symbols c)) [
    | inl is_symbol ↦ rw is_symbol (step_symbol-Goes l k m is_symbol)
    | inr no_symbol ↦ elim (Bool-cases (contains operator_tokens c)) [
      | inl op ↦
          rw (no_symbol, op) (step_operator-Goes l.state l k refl m (operator_known c op bang bar))
      | inr no_op ↦
          rw (no_symbol, no_op)
            (Runs-if (contains numbers c) (step_digit-Goes l.state l k refl m)
              (step_other-Goes l.state l k refl m))
    ]
  ]

  step_code-Goes :
      (l : Lexer)
      → Keeps code i l
      → l.state ≢ string
      → (c == b'!') ≡ false
      → (c == b'|') ≡ false
      → Goes (step_code code i c l)
  unfolding step_code
  step_code-Goes l k m bang bar =
      Runs-if (c == b'"')
        (Runs-bind (flush_pending-Ends l.state code i l k refl m) λ l' _. returns tt)
        (Runs-if (contains delimiters c) (step_delimiter-Goes l k m)
          (step_byte-Goes l k m bang bar))

  step_in-Goes :
      (s : LexerState) (l : Lexer)
      → Keeps code i l
      → l.state ≡ s
      → (c == b'!') ≡ false
      → (c == b'|') ≡ false
      → Goes (step_in s code i c l)
  unfolding step_in
  step_in-Goes string l k e bang bar = step_string-Goes l e
  step_in-Goes init l k e bang bar = step_code-Goes l k (λ h. cc) bang bar
  step_in-Goes name l k e bang bar = step_code-Goes l k (λ h. cc) bang bar
  step_in-Goes LexerState.number l k e bang bar = step_code-Goes l k (λ h. cc) bang bar
  step_in-Goes operator l k e bang bar = step_code-Goes l k (λ h. cc) bang bar

finish-Ends :
    (s : LexerState) (code : Bytes) (i : ℕ) (l : Lexer) → Kept code i s l → Ends (finish s code l)
unfolding finish add_token add_operator
finish-Ends init code i l k = returns tt
finish-Ends string code i l k = raises
finish-Ends name code i l k = returns tt
finish-Ends LexerState.number code i l k = returns tt
finish-Ends operator code i l (p, (t, _), k) =
    rw t (Runs-bind (operator_token-Ends p k) λ t _. returns tt)

run-Ends :
    (code : Bytes) (i : ℕ) (cs : Bytes) (l : Lexer)
    → drop i code ≡ cs
    → Keeps code i l
    → contains cs b'!' ≡ false
    → contains cs b'|' ≡ false
    → Ends (run code i cs l)
unfolding run contains
run-Ends code i [] l at k bang bar = finish-Ends l.state code i l k
run-Ends code i (c ∷ cs) l at k bang bar =
    Runs-bind (step_in-Goes code i c cs at l.state l k refl (ground arith) (ground arith)) λ l' k'.
      run-Ends code (suc i) cs l' (drop-suc i c code cs at) k' (ground arith) (ground arith)

-- On code in which neither `!` nor `|` stands, the tokenizer returns tokens or throws an
-- exception: it does not abort.
pub tokenize-Runs :
    (code : Bytes)
    → contains code b'!' ≡ false
    → contains code b'|' ≡ false
    → Runs (λ _. Unit {0}) (tokenize code)
unfolding tokenize
tokenize-Runs code =
    run-Ends code 0 code (record { ret = []; from = 0; len = 0; row = 1; col = 0; state = init })
      refl tt
