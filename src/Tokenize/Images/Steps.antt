-- ===== src/Tokenize/Images/Steps.antt =====
-- What each step of the tokenizer does to the images of the tokens and the pending text.
use reir.Prelude.{
  ℕ, zero, suc, ◌+◌, ◌-◌, ◌≡◌, refl, sym, ◌∙◌, arith, Bool, false, not, List, [], ◌∷◌, ◌++◌,
  append_assoc, append-nil, Bytes, ◌==◌, take, drop, Bool-cases, inl, inr, WhenOk, on_ok, on_throw,
  on_abort, WhenOk-bind, ==_iff,
}
use reir.Token.{TokenType, Token, same}
use reir.Tokenize.{
  Lexer, LexerState, init, name, string, operator, slice, flush, flush_pending, step_string,
  step_delimiter, step_symbol, step_operator, step_digit, step_other,
}
use reir.Tokenize.Images.{
  image, images, images-push, in_string, Adds-push, add_token-Adds, symbol_token-no_string, Tail,
  HasSeen, drop-suc, slice-longer,
}

-- What holds behind a step: the text seen, and whether a string is open.
abbrev pub Behind : Bytes → ℕ → Bytes → Bool → Lexer → Type 0
Behind code i seen inside l = HasSeen code i seen l.state l × (in_string l.state ≡ inside)

flush-HasSeen :
    (code : Bytes) (i : ℕ) (seen : Bytes) (l : Lexer) (p : Bytes)
    → Tail code i l.from l.len p
    → images l.ret ++ p ≡ seen
    → WhenOk (λ l'. images l'.ret ≡ seen) (flush code l)
unfolding flush
flush-HasSeen code i seen l p (t, _) e =
    WhenOk-bind (add_token-Adds l.state l.ret (slice code l.from l.len) l.row l.col)
      λ ret h. on_ok (h ∙ rw t e)

pub flush_pending-HasSeen :
    (s : LexerState) (code : Bytes) (i : ℕ) (seen : Bytes) (l : Lexer)
    → HasSeen code i seen s l
    → WhenOk (λ l'. images l'.ret ≡ seen) (flush_pending s code l)
unfolding flush_pending
flush_pending-HasSeen init code i seen l (p, h, e) =
    on_ok (sym (append-nil (images l.ret)) ∙ rw h at e)
flush_pending-HasSeen name code i seen l (p, h, e) = flush-HasSeen code i seen l p h e
flush_pending-HasSeen LexerState.number code i seen l (p, h, e) = flush-HasSeen code i seen l p h e
flush_pending-HasSeen operator code i seen l (p, h, e) = flush-HasSeen code i seen l p h e
flush_pending-HasSeen string code i seen l (p, (h, q, r), e) = flush-HasSeen code i seen l p h e

-- A slice that starts at `i` with the byte there, and one that grows by it.
pub begins :
    (code : Bytes) (i c : ℕ) (cs seen : Bytes) (ret : List Token)
    → drop i code ≡ c ∷ cs
    → images ret ≡ seen
    → (p : Bytes) × Tail code (suc i) i 1 p × (images ret ++ p ≡ seen ++ c ∷ [])
begins code i c cs seen ret at e = (c ∷ [], (rw at refl, omega arith), rw e refl)

-- The slice behind the opening quote.
slice-inner :
    (code : Bytes) (from len : ℕ) (q : Bytes)
    → slice code from len ≡ b'"' ∷ q
    → slice code (from + 1) (len - 1) ≡ q
slice-inner code from len q h = go len (drop from code) refl h
  where
    go :
        (n : ℕ) (rest : Bytes)
        → drop from code ≡ rest
        → take n rest ≡ b'"' ∷ q
        → take (n - 1) (drop (from + 1) code) ≡ q
    go zero rest e t = cc
    go (suc n) [] e t = cc
    go (suc n) (x ∷ rest) e t =
        let one : from + 1 ≡ suc from = omega arith in
        rw (one, drop-suc from x code rest e)
          (let some_n : suc n - 1 ≡ n = omega arith in rw some_n (cc))

grows :
    (code : Bytes) (i c : ℕ) (cs seen : Bytes) (l : Lexer) (p : Bytes)
    → drop i code ≡ c ∷ cs
    → Tail code i l.from l.len p
    → images l.ret ++ p ≡ seen
    → Tail code (suc i) l.from (l.len + 1) (p ++ c ∷ [])
      × (images l.ret ++ (p ++ c ∷ []) ≡ seen ++ c ∷ [])
grows code i c cs seen l p at (t, e) h = (
  (slice-longer code l.from l.len i c cs e at ∙ rw t refl, omega arith),
  sym (append_assoc (images l.ret) p (c ∷ [])) ∙ rw h refl,
)

-- The token of a closed string.
closes :
    (code : Bytes) (i : ℕ) (seen : Bytes) (l : Lexer)
    → HasSeen code i seen string l
    → images (
        l.ret
        ++ record {
          type = TokenType.string_literal;
          text = slice code (l.from + 1) (l.len - 1);
          row = l.row;
          col = l.col;
        }
          ∷ [])
      ≡ seen ++ b'"' ∷ []
unfolding image same
closes code i seen l (p, ((s, _), q, e), h) =
    let shown : b'"' ∷ (slice code (l.from + 1) (l.len - 1) ++ b'"' ∷ []) ≡ p ++ b'"' ∷ [] =
      rw (slice-inner code l.from l.len q (s ∙ e), e) refl in
    images-push l.ret _ ∙ rw shown (sym (append_assoc (images l.ret) p (b'"' ∷ [])) ∙ rw h refl)

-- Where the step that reads `c` at `i` leads: `added` is seen too.
abbrev pub Leads : Bytes → ℕ → Bytes → Bytes → Bool → Lexer → Type 0
Leads code i seen added inside l = Behind code (suc i) (seen ++ added) inside l

module _ (code : Bytes) (i c : ℕ) (cs seen : Bytes) (at : drop i code ≡ c ∷ cs) where
  abbrev pub Reads : LexerState → Lexer → Type 0
  Reads s l = HasSeen code i seen s l × (l.state ≡ s)

  pub step_string-Leads :
      (l : Lexer)
      → Reads string l
      → WhenOk (Leads code i seen (c ∷ []) (not (c == b'"'))) (step_string code i c l)
  unfolding step_string
  step_string-Leads l ((p, (t, q, e), h), s) = elim (Bool-cases (c == b'"')) [
    | inl quote ↦ rw quote (
        on_ok (
          (
            [],
            refl,
            append-nil _
                ∙ closes code i seen l (p, (t, q, e), h)
                ∙ rw ((==_iff c b'"').0 quote) refl,
          ),
          refl,
        ))
    | inr other ↦
        let (t', h') = grows code i c cs seen l p at t h in
        rw (other, s) (on_ok ((p ++ c ∷ [], (t', q ++ c ∷ [], rw e refl), h'), refl))
  ]

  abbrev pub Byte : Lexer → Type 0
  Byte = Leads code i seen (c ∷ []) false

  pub step_operator-Leads :
      (s : LexerState) (l : Lexer) → Reads s l → WhenOk Byte (step_operator s code i l)
  unfolding step_operator
  step_operator-Leads init l ((p, h, e), s) =
      on_ok (begins code i c cs seen l.ret at (sym (append-nil (images l.ret)) ∙ rw h at e), refl)
  step_operator-Leads name l ((p, h, e), s) =
      WhenOk-bind (flush-HasSeen code i seen l p h e)
        λ l' e'. on_ok (begins code i c cs seen l'.ret at e', refl)
  step_operator-Leads LexerState.number l ((p, h, e), s) =
      WhenOk-bind (flush-HasSeen code i seen l p h e)
        λ l' e'. on_ok (begins code i c cs seen l'.ret at e', refl)
  step_operator-Leads operator l ((p, h, e), s) =
      on_ok (rw s (let (t', h') = grows code i c cs seen l p at h e in (p ++ c ∷ [], t', h'), refl))
  step_operator-Leads string l h = on_abort

  pub step_digit-Leads :
      (s : LexerState) (l : Lexer) → Reads s l → WhenOk Byte (step_digit s code i l)
  unfolding step_digit
  step_digit-Leads init l ((p, h, e), s) =
      on_ok (begins code i c cs seen l.ret at (sym (append-nil (images l.ret)) ∙ rw h at e), refl)
  step_digit-Leads name l ((p, h, e), s) =
      on_ok (rw s (let (t', h') = grows code i c cs seen l p at h e in (p ++ c ∷ [], t', h'), refl))
  step_digit-Leads LexerState.number l ((p, h, e), s) =
      on_ok (rw s (let (t', h') = grows code i c cs seen l p at h e in (p ++ c ∷ [], t', h'), refl))
  step_digit-Leads operator l ((p, h, e), s) =
      WhenOk-bind (flush-HasSeen code i seen l p h e)
        λ l' e'. on_ok (begins code i c cs seen l'.ret at e', refl)
  step_digit-Leads string l h = on_abort

  pub step_other-Leads :
      (s : LexerState) (l : Lexer) → Reads s l → WhenOk Byte (step_other s code i l)
  unfolding step_other
  step_other-Leads init l ((p, h, e), s) =
      on_ok (begins code i c cs seen l.ret at (sym (append-nil (images l.ret)) ∙ rw h at e), refl)
  step_other-Leads name l ((p, h, e), s) =
      on_ok (rw s (let (t', h') = grows code i c cs seen l p at h e in (p ++ c ∷ [], t', h'), refl))
  step_other-Leads LexerState.number l h = on_throw
  step_other-Leads operator l ((p, h, e), s) =
      WhenOk-bind (flush-HasSeen code i seen l p h e)
        λ l' e'. on_ok (begins code i c cs seen l'.ret at e', refl)
  step_other-Leads string l h = on_abort

  pub step_delimiter-Leads :
      (l : Lexer)
      → HasSeen code i seen l.state l
      → WhenOk (Leads code i seen [] false) (step_delimiter code i c l)
  unfolding step_delimiter
  step_delimiter-Leads l h = WhenOk-bind (flush_pending-HasSeen l.state code i seen l h) λ l' e.
      let e' = append-nil (images l'.ret) ∙ e ∙ sym (append-nil seen) in
      elim (Bool-cases (c == b'\n')) [
        | inl line ↦ rw line (on_ok (([], refl, e'), refl))
        | inr other ↦ rw other (on_ok (([], refl, e'), refl))
      ]

  pub step_symbol-Leads :
      (l : Lexer) → HasSeen code i seen l.state l → WhenOk Byte (step_symbol code i c l)
  unfolding step_symbol
  step_symbol-Leads l h = WhenOk-bind (flush_pending-HasSeen l.state code i seen l h) λ l' e.
      WhenOk-bind (symbol_token-no_string c) λ t n. on_ok (
        (
          [],
          refl,
          append-nil _
              ∙ Adds-push l'.ret
                  (record { type = t; text = slice code i 1; row = l'.row; col = l'.col }) n
              ∙ rw (e, at) refl,
        ),
        refl,
      )
