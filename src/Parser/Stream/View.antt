-- ===== src/Parser/Stream/View.antt =====
-- `TokenStream` of src/reir/exec/token.hpp beside the list of the tokens that are left.
use reir.Prelude.{
  ℕ, zero, suc, ◌≤◌, ◌≡◌, refl, arith, ◌==◌, false, not, List, [], ◌∷◌, get_elem?, drop, length, ok,
  bind,
}
use reir.Token.{Token}
use reir.Parser.Stream.{
  TokenStream, token_at, stream_get, stream_next, stream_has_next, Tokens, get, next, has_next,
}

abbrev pub view : TokenStream → Tokens
view s = drop s.idx s.tokens

get-drop :
    (i : ℕ) (ts : List Token)
    → get (drop i ts) ≡ bind (token_at (get_elem? ts i)) (λ t. ok (t, drop i ts))
unfolding get token_at
get-drop zero [] = refl
get-drop zero (t ∷ ts) = refl
get-drop (suc i) [] = refl
get-drop (suc i) (t ∷ ts) = get-drop i ts

has_next-drop :
    (i : ℕ) (ts : List Token)
    → i ≤ length ts
    → has_next (drop i ts) ≡ ok (not (i == length ts), drop i ts)
unfolding has_next
has_next-drop zero [] h = refl
has_next-drop zero (t ∷ ts) h =
    let e : (zero == suc (length ts)) ≡ false = ground arith in rw e refl
has_next-drop (suc i) [] h = absurd (omega arith)
has_next-drop (suc i) (t ∷ ts) h =
    let e : (suc i == suc (length ts)) ≡ (i == length ts) = ground arith in
    rw e (has_next-drop i ts (omega arith))

next-drop :
    (i : ℕ) (ts : List Token) {t : Token}
    → token_at (get_elem? ts i) ≡ ok t
    → (next (drop i ts) ≡ ok (tt, drop (suc i) ts)) × (suc i ≤ length ts)
unfolding next token_at
next-drop i [] h = cc
next-drop zero (t ∷ ts) h = (refl, omega arith)
next-drop (suc i) (t ∷ ts) h = let (e, le) = next-drop i ts h in (e, omega arith)

-- While the position is in the stream or at its end, what the parser gets, and whether it has a
-- next token, is what the stream says; and after a `get` that returned a token, `next` leaves the
-- parser with what is left of the stream, the position still in it or at its end.
pub stream_Agrees :
    (s : TokenStream)
    → s.idx ≤ length s.tokens
    → (get (view s) ≡ bind (stream_get s) (λ t. ok (t, view s)))
      × (has_next (view s) ≡ ok (stream_has_next s, view s))
      × ((t : Token)
          → stream_get s ≡ ok t
          → (next (view s) ≡ ok (tt, view (stream_next s)))
            × ((stream_next s).idx ≤ length s.tokens))
unfolding stream_get stream_has_next stream_next
stream_Agrees s h =
    (get-drop s.idx s.tokens, has_next-drop s.idx s.tokens h, λ t e. next-drop s.idx s.tokens e)
