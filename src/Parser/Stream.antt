-- ===== src/Parser/Stream.antt =====
-- `TokenStream` of src/reir/exec/token.hpp, and `expect_token` of ast_node_parser.cpp. The parser
-- works on the tokens from the position on; `View` relates the two.
pub mod View
pub mod Progress
use reir.Prelude.{
  ℕ, suc, ◌==◌, Bool, true, false, not, List, [], ◌∷◌, get_elem?, Option, none, some, Bytes, length,
  leb, if◌then◌else◌, Result, ok, throw, bind, reached_eof_of_tokens, unexpected_token,
}
use reir.Token.{TokenType, Token, same}

pub record TokenStream : Type 0 where
  pub tokens : List Token
  pub idx : ℕ

token_at : Option Token → Result Token
token_at (some t) = ok t
token_at none = throw reached_eof_of_tokens

-- The methods of the class: `get` throws at and behind the end, and `next` goes on without a check.
unfoldable pub stream_get : TokenStream → Result Token
unfolding token_at
stream_get s = token_at (get_elem? s.tokens s.idx)

unfoldable pub stream_next : TokenStream → TokenStream
stream_next s = record s { idx = suc s.idx }

unfoldable pub stream_has_next : TokenStream → Bool
stream_has_next s = not (s.idx == length s.tokens)

unfoldable pub stream_size : TokenStream → ℕ
stream_size s = length s.tokens

-- A parser reads from the tokens that are left.
abbrev pub Tokens : Type 0
Tokens = List Token

abbrev pub Parser : Type 0 → Type 0
Parser A = Tokens → Result (A × Tokens)

infixl 1 ◌>>=◌ ◌>>◌
abbrev pub ◌>>=◌ : {A B : Type 0} → Parser A → (A → Parser B) → Parser B
p >>= f = λ ts. bind (p ts) λ (a, rest). f a rest

abbrev pub ◌>>◌ : {A B : Type 0} → Parser A → Parser B → Parser B
p >> q = p >>= λ _. q

abbrev pub pure : {A : Type 0} → A → Parser A
pure a ts = ok (a, ts)

abbrev pub run : {A : Type 0} → Tokens → Parser A → Result (A × Tokens)
run ts p = p ts

unfoldable pub get : Parser Token
get [] = throw reached_eof_of_tokens
get (t ∷ ts) = ok (t, t ∷ ts)

unfoldable pub next : Parser (Unit {0})
next [] = ok (tt, [])
next (t ∷ ts) = ok (tt, ts)

unfoldable pub has_next : Parser Bool
has_next [] = ok (false, [])
has_next (t ∷ ts) = ok (true, t ∷ ts)

-- `expect_token(tokens.get(), type)`.
unfoldable pub expect_token : TokenType → Parser (Unit {0})
unfolding get same
expect_token want = do t ← get; if same t.type want then pure tt else (λ ts. throw unexpected_token)

-- The pairs `expect_token(tokens.get(), type); tokens.next();` and `x = tokens.get(); tokens.next();`.
unfoldable pub skip_token : TokenType → Parser (Unit {0})
unfolding next expect_token
skip_token want = do expect_token want; next

unfoldable pub take_token : Parser Token
unfolding get next
take_token = do t ← get; next; pure t
