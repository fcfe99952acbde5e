-- ===== src/Tokenize.antt =====
-- The tokenizer, src/reir/exec/tokenize.hpp: one pass over the bytes of the code with the state of
-- the lexer. The loop is recursion on the bytes still to be read; the locals `from` and `len` are
-- kept as numbers, and a token's text is the slice of the whole code that they give.
pub mod Images
pub mod Known
pub mod Total
use reir.Prelude.{
  ℕ, suc, ◌+◌, ◌-◌, ◌%◌, ◌^◌, Bool, true, false, List, [], ◌∷◌, ◌++◌, map, Bytes, codes, ◌==◌,
  if◌then◌else◌, contains, bytes_eq, take, drop, Result, ok, throw, abort, bind,
  identifier_inside_number, unexpected_eof_in_string,
}
use reir.Token.{
  TokenType, identifier, string_literal, Token, capitalize, as_reserved, symbol_token,
  operator_token, reserved_words, symbols, numbers, operator_tokens,
}

infixl 5 ◌>>=◌
abbrev ◌>>=◌ : {A B : Type 0} → Result A → (A → Result B) → Result B
m >>= f = bind m f

abbrev pub delimiters : Bytes
delimiters = codes "\n \t"

unfoldable pub any_word : Bytes → List (Bytes × TokenType) → Bool
unfolding bytes_eq
any_word w [] = false
any_word w ((s, t) ∷ rest) = if bytes_eq w s then true else any_word w rest

unfoldable pub in_reserved_word : Bytes → Bool
unfolding capitalize any_word
in_reserved_word word = any_word (map capitalize word) reserved_words

abbrev push : List Token → Token → List Token
push ret t = ret ++ t ∷ []

-- The initialisers name three fields, the third of which is `row`: a reserved word has no column,
-- and an identifier has its column as its row.
unfoldable pub add_word : List Token → Bytes → ℕ → ℕ → List Token
add_word ret word row col =
    if in_reserved_word word
    then push ret (record { type = as_reserved word; text = word; row = row; col = 0 })
    else push ret (record { type = identifier; text = word; row = col; col = 0 })

unfoldable pub add_operator : List Token → Bytes → ℕ → ℕ → Result (List Token)
add_operator ret word row col = do
  t ← operator_token word
  ok (push ret (record { type = t; text = word; row = row; col = col }))

pub data LexerState : Type 0 where
  init name number string operator : LexerState

unfoldable pub add_token : LexerState → List Token → Bytes → ℕ → ℕ → Result (List Token)
add_token name ret word row col = ok (add_word ret word row col)
add_token LexerState.number ret word row col =
    ok (push ret (record { type = TokenType.number; text = word; row = row; col = col }))
add_token operator ret word row col = add_operator ret word row col
add_token _ ret word row col = abort

-- The locals of `tokenize`. `row` and `col` are `int`s as patterns below 2 ^ 32.
pub record Lexer : Type 0 where
  pub ret : List Token
  pub from : ℕ
  pub len : ℕ
  pub row : ℕ
  pub col : ℕ
  pub state : LexerState

abbrev pub increment : ℕ → ℕ
increment n = (n + 1) % 2 ^ 32

-- `util::slice(&code[from], len)`
abbrev pub slice : Bytes → ℕ → ℕ → Bytes
slice code from len = take len (drop from code)

-- `add_token(current_state, ret, slice, row, col)`, on the state alone.
unfoldable pub flush : Bytes → Lexer → Result Lexer
flush code l = do
  ret ← add_token l.state l.ret (slice code l.from l.len) l.row l.col
  ok (record l { ret = ret })

-- `if (current_state != INIT) add_token(…)`
unfoldable pub flush_pending : LexerState → Bytes → Lexer → Result Lexer
flush_pending init code l = ok l
flush_pending _ code l = flush code l

abbrev pub start : LexerState → ℕ → Lexer → Lexer
start s i l = record l { state = s; from = i; len = 0 }

abbrev pub longer : Lexer → Lexer
longer l = record l { len = l.len + 1 }

unfoldable pub step_string : Bytes → ℕ → ℕ → Lexer → Result Lexer
step_string code i c l =
    ok
      (record (if c == b'"'
        then start init i (record l {
          ret = push l.ret (record {
            type = string_literal;
            text = slice code (l.from + 1) (l.len - 1);
            row = l.row;
            col = l.col;
          });
        })
        else longer l) { col = increment l.col })

unfoldable pub step_delimiter : Bytes → ℕ → ℕ → Lexer → Result Lexer
step_delimiter code i c l = do
  l' ← flush_pending l.state code l
  ok (
      if c == b'\n'
      then record (start init i l') { row = increment l'.row; col = 2 ^ 32 - 1 }
      else start init i l')

unfoldable pub step_symbol : Bytes → ℕ → ℕ → Lexer → Result Lexer
step_symbol code i c l = do
  l' ← flush_pending l.state code l
  t ← symbol_token c
  ok (
      start init i (record l' {
        ret = push l'.ret (record { type = t; text = slice code i 1; row = l'.row; col = l'.col });
      }))

unfoldable pub step_operator : LexerState → Bytes → ℕ → Lexer → Result Lexer
step_operator init code i l = ok (longer (start operator i l))
step_operator name code i l = do l' ← flush code l; ok (longer (start operator i l'))
step_operator LexerState.number code i l = do l' ← flush code l; ok (longer (start operator i l'))
step_operator operator code i l = ok (longer l)
step_operator string code i l = abort

unfoldable pub step_digit : LexerState → Bytes → ℕ → Lexer → Result Lexer
step_digit init code i l = ok (longer (start LexerState.number i l))
step_digit name code i l = ok (longer l)
step_digit LexerState.number code i l = ok (longer l)
step_digit operator code i l = do l' ← flush code l; ok (longer (start LexerState.number i l'))
step_digit string code i l = abort

abbrev advance : Lexer → Lexer
advance l = record (longer l) { col = increment l.col }

unfoldable pub step_other : LexerState → Bytes → ℕ → Lexer → Result Lexer
step_other init code i l = ok (advance (start name i l))
step_other name code i l = ok (advance l)
step_other LexerState.number code i l = throw identifier_inside_number
step_other operator code i l = do l' ← flush code l; ok (advance (start name i l'))
step_other string code i l = abort

-- The tests behind the one of the delimiters.
unfoldable pub step_byte : Bytes → ℕ → ℕ → Lexer → Result Lexer
step_byte code i c l =
    if contains symbols c
    then step_symbol code i c l
    else if contains operator_tokens c
    then step_operator l.state code i l
    else if contains numbers c
    then step_digit l.state code i l
    else step_other l.state code i l

-- The body of the loop, outside a string.
unfoldable pub step_code : Bytes → ℕ → ℕ → Lexer → Result Lexer
step_code code i c l =
    if c == b'"'
    then (do l' ← flush_pending l.state code l; ok (longer (start string i l')))
    else if contains delimiters c
    then step_delimiter code i c l
    else step_byte code i c l

unfoldable pub step_in : LexerState → Bytes → ℕ → ℕ → Lexer → Result Lexer
step_in string code i c l = step_string code i c l
step_in _ code i c l = step_code code i c l

-- The `switch` behind the loop.
unfoldable pub finish : LexerState → Bytes → Lexer → Result (List Token)
finish init code l = ok l.ret
finish string code l = throw unexpected_eof_in_string
finish s code l = add_token s l.ret (slice code l.from l.len) l.row l.col

unfoldable pub run : Bytes → ℕ → Bytes → Lexer → Result (List Token)
run code i [] l = finish l.state code l
run code i (c ∷ cs) l = step_in l.state code i c l >>= run code (suc i) cs

unfoldable pub tokenize : Bytes → Result (List Token)
unfolding run step_in finish step_string step_code step_byte step_delimiter step_symbol
    step_operator step_digit step_other flush_pending flush add_token add_word add_operator
    in_reserved_word as_reserved operator_token symbol_token contains
tokenize code =
    run code 0 code (record { ret = []; from = 0; len = 0; row = 1; col = 0; state = init })
