-- ===== src/Tokenize/Images/Run.antt =====
-- The images of the tokens over the whole loop of `tokenize`.
use reir.Prelude.{
  ℕ, suc, ◌≡◌, refl, sym, ◌∙◌, Bool, true, false, not, List, [], ◌∷◌, ◌++◌, append_assoc,
  append-nil, Bytes, ◌==◌, contains, drop, Result, ok, bind, WhenOk, subst, ==_iff, on_ok, on_throw,
  WhenOk-bind, WhenOk-if, WhenOk-eq, WhenOk-weaken,
}
use reir.Token.{Token, symbols, operator_tokens, numbers}
use reir.Tokenize.{
  Lexer, LexerState, init, name, string, operator, delimiters, slice, step_string, step_byte,
  step_code, step_in, longer, start, finish, run, tokenize, flush_pending,
}
use reir.Tokenize.Images.{
  images, strip, strip-cons, in_string, emitted, opens, HasSeen, drop-suc, add_token-Adds,
}
use reir.Tokenize.Images.Steps.{
  Leads, flush_pending-HasSeen, begins, step_string-Leads, step_operator-Leads, step_digit-Leads,
  step_other-Leads, step_delimiter-Leads, step_symbol-Leads,
}

module _ (code : Bytes) (i c : ℕ) (cs seen : Bytes) (at : drop i code ≡ c ∷ cs) where
  abbrev Goes : Bool → Lexer → Type 0
  Goes inside l = Leads code i seen (emitted inside c) (opens inside c) l

  as-Goes :
      (inside : Bool) (m : Result Lexer) (added : Bytes) (after : Bool)
      → emitted inside c ≡ added
      → opens inside c ≡ after
      → WhenOk (Leads code i seen added after) m
      → WhenOk (Goes inside) m
  as-Goes inside m added after a o h =
      subst (λ x. WhenOk (Leads code i seen x (opens inside c)) m) (sym a)
        (subst (λ x. WhenOk (Leads code i seen added x) m) (sym o) h)

  step_quote-Leads :
      (l : Lexer)
      → HasSeen code i seen l.state l
      → (c == b'"') ≡ true
      → WhenOk
          (Leads code i seen (c ∷ []) true)
          (bind (flush_pending l.state code l) λ l'. ok (longer (start string i l')))
  step_quote-Leads l h quote = WhenOk-bind (flush_pending-HasSeen l.state code i seen l h) λ l' e.
      let (p, t, e') = begins code i c cs seen l'.ret at e in
      on_ok ((p, (t, [], sym t.0 ∙ rw (at, (==_iff c b'"').0 quote) refl), e'), refl)

  step_byte-Leads :
      (l : Lexer)
      → HasSeen code i seen l.state l
      → contains delimiters c ≡ false
      → WhenOk (Leads code i seen (c ∷ []) false) (step_byte code i c l)
  unfolding step_byte
  step_byte-Leads l h black =
      WhenOk-if (contains symbols c) (λ _. step_symbol-Leads code i c cs seen at l h)
        λ _.
          WhenOk-if (contains operator_tokens c)
            (λ _. step_operator-Leads code i c cs seen at l.state l (h, refl))
            λ _.
              WhenOk-if (contains numbers c)
                (λ _. step_digit-Leads code i c cs seen at l.state l (h, refl))
                (λ _. step_other-Leads code i c cs seen at l.state l (h, refl))

  step_code-Goes :
      (l : Lexer) → HasSeen code i seen l.state l → WhenOk (Goes false) (step_code code i c l)
  unfolding step_code
  step_code-Goes l h =
      WhenOk-if (c == b'"')
        (λ quote.
          as-Goes false _ (c ∷ []) true (unfold emitted in rw quote refl) quote
            (step_quote-Leads l h quote))
        λ other.
          WhenOk-if (contains delimiters c)
            (λ white.
              as-Goes false _ [] false (unfold emitted in rw (other, white) refl) other
                (step_delimiter-Leads code i c cs seen at l h))
            (λ black.
              as-Goes false _ (c ∷ []) false (unfold emitted in rw (other, black) refl) other
                (step_byte-Leads l h black))

  step_in-Goes :
      (s : LexerState) (l : Lexer)
      → HasSeen code i seen l.state l
      → l.state ≡ s
      → WhenOk (Goes (in_string s)) (step_in s code i c l)
  unfolding step_in
  step_in-Goes string l h e =
      as-Goes true (step_string code i c l) (c ∷ []) (not (c == b'"')) (unfold emitted in refl) refl
        (step_string-Leads code i c cs seen at l (subst (λ s. HasSeen code i seen s l) e h, e))
  step_in-Goes init l h e = step_code-Goes l h
  step_in-Goes name l h e = step_code-Goes l h
  step_in-Goes LexerState.number l h e = step_code-Goes l h
  step_in-Goes operator l h e = step_code-Goes l h

finish-images :
    (s : LexerState) (code : Bytes) (i : ℕ) (seen : Bytes) (l : Lexer)
    → HasSeen code i seen s l
    → WhenOk (λ ts. images ts ≡ seen) (finish s code l)
unfolding finish
finish-images init code i seen l (p, h, e) = on_ok (sym (append-nil (images l.ret)) ∙ rw h at e)
finish-images string code i seen l h = on_throw
finish-images name code i seen l (p, h, e) =
    WhenOk-weaken (add_token-Adds name l.ret (slice code l.from l.len) l.row l.col)
      λ ret a. a ∙ rw h.0 e
finish-images LexerState.number code i seen l (p, h, e) =
    WhenOk-weaken (add_token-Adds LexerState.number l.ret (slice code l.from l.len) l.row l.col)
      λ ret a. a ∙ rw h.0 e
finish-images operator code i seen l (p, h, e) =
    WhenOk-weaken (add_token-Adds operator l.ret (slice code l.from l.len) l.row l.col)
      λ ret a. a ∙ rw h.0 e

run-images :
    (code : Bytes) (i : ℕ) (seen : Bytes) (cs : Bytes) (l : Lexer)
    → drop i code ≡ cs
    → HasSeen code i seen l.state l
    → WhenOk (λ ts. images ts ≡ seen ++ strip (in_string l.state) cs) (run code i cs l)
unfolding run
run-images code i seen [] l at h =
    WhenOk-weaken (finish-images l.state code i seen l h)
      λ ts e. e ∙ unfold strip in sym (append-nil seen)
run-images code i seen (c ∷ cs) l at h =
    WhenOk-bind (step_in-Goes code i c cs seen at l.state l h refl) λ l' (h', inside).
      WhenOk-weaken
        (run-images code (suc i) (seen ++ emitted (in_string l.state) c) cs l'
          (drop-suc i c code cs at) h')
        λ ts e.
          e
          ∙ rw (inside, strip-cons (in_string l.state) c cs)
              (append_assoc seen (emitted (in_string l.state) c)
                (strip (opens (in_string l.state) c) cs))

-- If the code is tokenized, the images of the tokens, in order, are the code without the
-- delimiters that stand outside strings.
pub tokenize-images :
    (code : Bytes) (ts : List Token) → tokenize code ≡ ok ts → images ts ≡ strip false code
tokenize-images code ts h =
    WhenOk-eq
      (run-images code 0 [] code
        (record { ret = []; from = 0; len = 0; row = 1; col = 0; state = init }) refl
        ([], refl, unfold images in refl))
      (unfold tokenize in h)
