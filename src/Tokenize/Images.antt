-- ===== src/Tokenize/Images.antt =====
-- What stands in the code for each token of `tokenize` (src/reir/exec/tokenize.hpp), and the code
-- without the delimiters outside strings.
pub mod Steps
pub mod Run
use reir.Prelude.{
  ℕ, zero, suc, ◌+◌, ◌-◌, ◌≡◌, ◌≢◌, refl, sym, ◌∙◌, ap, arith, Bool, true, false, not, ◌&&◌, List,
  [], ◌∷◌, ◌++◌, append_assoc, append-nil, map, Bytes, ◌==◌, if◌then◌else◌, contains, bytes_eq,
  take, drop, Bool-cases, inl, inr, Result, ok, bind, WhenOk, on_ok, on_throw, on_abort,
  WhenOk-bind, WhenOk-if, WhenOk-eq,
}
use reir.Token.{
  TokenType, Token, capitalize, same, find_word, find_symbol, symbol_list, symbol_token,
  operator_token, operator_token_list, as_reserved, reserved_words, symbols, operator_tokens,
  numbers,
}
use reir.Tokenize.{
  in_reserved_word, Lexer, LexerState, init, name, string, operator, delimiters, slice, add_word,
  add_operator, add_token, flush, flush_pending, step_string, step_delimiter, step_symbol,
  step_operator, step_digit, step_other, step_code, step_in, finish, run, tokenize,
}

-- What stands in the code for a token.
pub image : Token → Bytes
image t = if same t.type TokenType.string_literal then b'"' ∷ (t.text ++ b'"' ∷ []) else t.text

pub images : List Token → Bytes
images [] = []
images (t ∷ ts) = image t ++ images ts

images-push : (ts : List Token) (t : Token) → images (ts ++ t ∷ []) ≡ images ts ++ image t
unfolding images
images-push [] t = append-nil (image t)
images-push (x ∷ ts) t = rw (images-push ts t, append_assoc)

-- The code without the delimiters outside strings; the flag says that a string is open.
pub strip : Bool → Bytes → Bytes
strip inside [] = []
strip true (c ∷ cs) = c ∷ strip (not (c == b'"')) cs
strip false (c ∷ cs) =
    let rest = strip (c == b'"') cs in
    if c == b'"' then c ∷ rest else if contains delimiters c then rest else c ∷ rest

abbrev in_string : LexerState → Bool
in_string string = true
in_string _ = false

-- What a byte adds, and whether a string is open behind it.
emitted : Bool → ℕ → Bytes
emitted true c = c ∷ []
emitted false c = if c == b'"' then c ∷ [] else if contains delimiters c then [] else c ∷ []

abbrev opens : Bool → ℕ → Bool
opens true c = not (c == b'"')
opens false c = c == b'"'

strip-cons :
    (inside : Bool) (c : ℕ) (cs : Bytes)
    → strip inside (c ∷ cs) ≡ emitted inside c ++ strip (opens inside c) cs
unfolding strip emitted
strip-cons true c cs = refl
strip-cons false c cs = ground arith

-- No word of the tables is a string literal.
no_string : List (Bytes × TokenType) → Bool
no_string [] = true
no_string ((s, t) ∷ rest) = not (same t TokenType.string_literal) && no_string rest

find_word-no_string :
    (w : Bytes) (l : List (Bytes × TokenType))
    → no_string l ≡ true
    → same (find_word w l) TokenType.string_literal ≡ false
unfolding no_string find_word
find_word-no_string w [] h = unfold same in refl
find_word-no_string w ((s, t) ∷ rest) h = ground (arith, find_word-no_string w rest)

no_symbol : List (ℕ × TokenType) → Bool
no_symbol [] = true
no_symbol ((s, t) ∷ rest) = not (same t TokenType.string_literal) && no_symbol rest

find_symbol-no_string :
    (c : ℕ) (l : List (ℕ × TokenType))
    → no_symbol l ≡ true
    → WhenOk (λ t. same t TokenType.string_literal ≡ false) (find_symbol c l)
unfolding no_symbol find_symbol
find_symbol-no_string c [] h = on_abort
find_symbol-no_string c ((s, t) ∷ rest) h =
    WhenOk-if (c == s) (λ _. on_ok (ground arith))
      (λ _. find_symbol-no_string c rest (ground arith))

symbol_token-no_string :
    (c : ℕ) → WhenOk (λ t. same t TokenType.string_literal ≡ false) (symbol_token c)
unfolding symbol_token
symbol_token-no_string c = find_symbol-no_string c symbol_list (unfold no_symbol same in refl)

operator_token-no_string :
    (w : Bytes) → WhenOk (λ t. same t TokenType.string_literal ≡ false) (operator_token w)
unfolding operator_token
operator_token-no_string (c ∷ []) = symbol_token-no_string c
operator_token-no_string [] =
    on_ok (find_word-no_string [] operator_token_list (unfold no_string same in refl))
operator_token-no_string (c ∷ d ∷ r) =
    on_ok (find_word-no_string (c ∷ d ∷ r) operator_token_list (unfold no_string same in refl))

-- A token is added behind the others, with the given image.
abbrev Adds : List Token → Bytes → List Token → Type 0
Adds ret text ret' = images ret' ≡ images ret ++ text

Adds-push :
    (ret : List Token) (t : Token)
    → same t.type TokenType.string_literal ≡ false
    → Adds ret t.text (ret ++ t ∷ [])
Adds-push ret t h = images-push ret t ∙ unfold image in rw h

add_word-Adds : (ret : List Token) (w : Bytes) (row col : ℕ) → Adds ret w (add_word ret w row col)
unfolding add_word as_reserved
add_word-Adds ret w row col = elim (Bool-cases (in_reserved_word w)) [
  | inl known ↦ rw known (
      Adds-push ret (record { type = as_reserved w; text = w; row = row; col = 0 })
        (find_word-no_string (map capitalize w) reserved_words (unfold no_string same in refl)))
  | inr new ↦ rw new (
      Adds-push ret (record { type = TokenType.identifier; text = w; row = col; col = 0 })
        (unfold same in refl))
]

add_token-Adds :
    (s : LexerState) (ret : List Token) (w : Bytes) (row col : ℕ)
    → WhenOk (Adds ret w) (add_token s ret w row col)
unfolding add_token add_operator
add_token-Adds init ret w row col = on_abort
add_token-Adds name ret w row col = on_ok (add_word-Adds ret w row col)
add_token-Adds LexerState.number ret w row col = on_ok (
    Adds-push ret (record { type = TokenType.number; text = w; row = row; col = col })
      (unfold same in refl))
add_token-Adds string ret w row col = on_abort
add_token-Adds operator ret w row col =
    WhenOk-bind (operator_token-no_string w)
      λ t h. on_ok (Adds-push ret (record { type = t; text = w; row = row; col = col }) h)

-- The text of the slice, which ends at `i`.
abbrev pub Tail : Bytes → ℕ → ℕ → ℕ → Bytes → Type 0
Tail code i from len p = (slice code from len ≡ p) × (from + len ≡ i)

-- The text that has been read behind the last token.
abbrev pub Pending : LexerState → Bytes → ℕ → ℕ → ℕ → Bytes → Type 0
Pending init code i from len p = p ≡ []
Pending string code i from len p = Tail code i from len p × (q : Bytes) × (p ≡ b'"' ∷ q)
Pending _ code i from len p = Tail code i from len p

-- Up to `i`, the images of the tokens and the pending text are `seen`.
abbrev pub HasSeen : Bytes → ℕ → Bytes → LexerState → Lexer → Type 0
HasSeen code i seen s l = (p : Bytes) × Pending s code i l.from l.len p × (images l.ret ++ p ≡ seen)

pub drop-suc : (n c : ℕ) (xs ys : Bytes) → drop n xs ≡ c ∷ ys → drop (suc n) xs ≡ ys
drop-suc zero c (x ∷ xs) ys h = cc
drop-suc zero c [] ys h = cc
drop-suc (suc n) c [] ys h = cc
drop-suc (suc n) c (x ∷ xs) ys h = drop-suc n c xs ys h

take-suc : (n c : ℕ) (xs ys : Bytes) → drop n xs ≡ c ∷ ys → take (suc n) xs ≡ take n xs ++ c ∷ []
take-suc zero c (x ∷ xs) ys h = cc
take-suc zero c [] ys h = cc
take-suc (suc n) c [] ys h = cc
take-suc (suc n) c (x ∷ xs) ys h = ap (◌∷◌ x) (take-suc n c xs ys h)

drop-drop : (m n : ℕ) (xs : Bytes) → drop n (drop m xs) ≡ drop (m + n) xs
drop-drop zero n xs = let e : zero + n ≡ n = omega arith in rw e
drop-drop (suc m) zero [] = let e : suc m + zero ≡ suc (m + zero) = omega arith in rw e
drop-drop (suc m) (suc n) [] = let e : suc m + suc n ≡ suc (m + suc n) = omega arith in rw e
drop-drop (suc m) n (x ∷ xs) =
    let e : suc m + n ≡ suc (m + n) = omega arith in rw e (drop-drop m n xs)

-- A slice that ends at `i` grows by the byte there.
pub slice-longer :
    (code : Bytes) (from len i c : ℕ) (cs : Bytes)
    → from + len ≡ i
    → drop i code ≡ c ∷ cs
    → slice code from (len + 1) ≡ slice code from len ++ c ∷ []
slice-longer code from len i c cs e at =
    let one : len + 1 ≡ suc len = omega arith in
    rw one (take-suc len c (drop from code) cs (drop-drop from len code ∙ rw e at))
