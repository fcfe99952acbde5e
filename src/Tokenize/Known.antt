-- ===== src/Tokenize/Known.antt =====
-- The bytes with which an operator or a symbol of src/reir/exec/tokenize.hpp begins, and what is kept
-- between two steps.
use reir.Prelude.{
  ==_iff, ◌≢◌, ℕ, ◌≡◌, refl, subst, arith, Bool, true, false, ◌||◌, ◌&&◌, [], ◌∷◌, ◌++◌, Bytes,
  ◌==◌, contains, Bool-cases, inl, inr, codes, Result, ok, Runs, returns, Runs-bind,
}
use reir.Token.{TokenType, symbol_token, operator_token, symbols, operator_tokens}
use reir.Tokenize.{
  Lexer, LexerState, init, name, string, operator, add_operator, add_token, flush, flush_pending,
}
use reir.Tokenize.Images.{Tail}

-- The operators that have a token of their own.
abbrev pub known_operators : Bytes
known_operators = codes "+-*/%=<>.&"

abbrev pub Ends : {A : Type 0} → Result A → Type 0
Ends = Runs λ _. Unit {0}

unfoldable pub all : (ℕ → Bool) → Bytes → Bool
all P [] = true
all P (x ∷ xs) = P x && all P xs

pub all-contains :
    (P : ℕ → Bool) (xs : Bytes) (c : ℕ) → all P xs ≡ true → contains xs c ≡ true → P c ≡ true
unfolding all contains
all-contains P [] c h k = cc
all-contains P (x ∷ xs) c h k = elim (Bool-cases (x == c)) [
  | inl same ↦ subst (λ y. P y ≡ true) ((==_iff x c).0 same) (ground (arith))
  | inr other ↦ all-contains P xs c (ground arith) (ground arith)
]

pub has_token : Result TokenType → Bool
has_token (ok t) = true
has_token _ = false

pub has_token-Ends : (m : Result TokenType) → has_token m ≡ true → Ends m
unfolding has_token
has_token-Ends (ok t) h = returns tt
has_token-Ends _ h = cc

pub symbol_token-symbols : (c : ℕ) → contains symbols c ≡ true → Ends (symbol_token c)
symbol_token-symbols c h = has_token-Ends (symbol_token c) (
    all-contains (λ c. has_token (symbol_token c)) symbols c
      (unfold all has_token symbol_token in refl) h)

pub symbol_token-known : (c : ℕ) → contains known_operators c ≡ true → Ends (symbol_token c)
symbol_token-known c h = has_token-Ends (symbol_token c) (
    all-contains (λ c. has_token (symbol_token c)) known_operators c
      (unfold all has_token symbol_token in refl) h)

pub operator_known :
    (c : ℕ)
    → contains operator_tokens c ≡ true
    → (c == b'!') ≡ false
    → (c == b'|') ≡ false
    → contains known_operators c ≡ true
operator_known c h bang bar =
    let either =
      all-contains (λ c. c == b'!' || (c == b'|' || contains known_operators c)) operator_tokens c
        (unfold all contains in refl) h in
    rw (bang, bar) at either

-- The text of an operator that is being read.
abbrev pub Known : Bytes → Type 0
Known p = all (contains known_operators) p ≡ true

pub operator_token-Ends : (p : Bytes) → Known p → Ends (operator_token p)
unfolding operator_token all
operator_token-Ends [] h = returns tt
operator_token-Ends (c ∷ []) h = symbol_token-known c (ground arith)
operator_token-Ends (c ∷ d ∷ p) h = returns tt

pub Known-append :
    (c : ℕ) (p : Bytes) → Known p → contains known_operators c ≡ true → Known (p ++ c ∷ [])
unfolding all
Known-append c [] k h = rw h refl
Known-append c (x ∷ p) k h = let rest = Known-append c p (ground arith) h in ground arith

-- What the tokenizer keeps: in the state of an operator, the slice is of bytes that are known.
abbrev pub Kept : Bytes → ℕ → LexerState → Lexer → Type 0
Kept code i operator l = (p : Bytes) × Tail code i l.from l.len p × Known p
Kept code i _ l = Unit

abbrev pub Keeps : Bytes → ℕ → Lexer → Type 0
Keeps code i l = Kept code i l.state l

pub flush-Ends :
    (s : LexerState) (code : Bytes) (i : ℕ) (l : Lexer)
    → Kept code i s l
    → l.state ≡ s
    → s ≢ init
    → s ≢ string
    → Ends (flush code l)
unfolding flush add_token add_operator
flush-Ends init code i l k e n m = absurd (n refl)
flush-Ends string code i l k e n m = absurd (m refl)
flush-Ends name code i l k e n m = rw e (returns tt)
flush-Ends LexerState.number code i l k e n m = rw e (returns tt)
flush-Ends operator code i l (p, (t, _), k) e n m =
    rw (e, t)
      (Runs-bind {P = λ _. Unit {0}} (Runs-bind (operator_token-Ends p k) λ t _. returns tt)
        λ ret _. returns tt)

-- The token of what is being read, if anything is.
pub flush_pending-Ends :
    (s : LexerState) (code : Bytes) (i : ℕ) (l : Lexer)
    → Kept code i s l
    → l.state ≡ s
    → s ≢ string
    → Ends (flush_pending s code l)
unfolding flush_pending
flush_pending-Ends init code i l k e m = returns tt
flush_pending-Ends name code i l k e m = flush-Ends name code i l k e (λ h. cc) (λ h. cc)
flush_pending-Ends LexerState.number code i l k e m =
    flush-Ends LexerState.number code i l k e (λ h. cc) (λ h. cc)
flush_pending-Ends operator code i l k e m = flush-Ends operator code i l k e (λ h. cc) (λ h. cc)
flush_pending-Ends string code i l k e m = absurd (m refl)
