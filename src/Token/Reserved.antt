-- ===== src/Token/Reserved.antt =====
-- The two searches of the reserved words, in token.hpp and tokenize.hpp of src/reir/exec.
use reir.Prelude.{◌≡◌, refl, arith, Bool, true, not, ◌&&◌, List, [], ◌∷◌, map, Bytes}
use reir.Token.{TokenType, invalid, same, find_word, as_reserved, capitalize, reserved_words}
use reir.Tokenize.{any_word, in_reserved_word}

no_invalid : List (Bytes × TokenType) → Bool
no_invalid [] = true
no_invalid ((s, t) ∷ rest) = not (same t invalid) && no_invalid rest

any_word-find_word :
    (w : Bytes) (l : List (Bytes × TokenType))
    → no_invalid l ≡ true
    → any_word w l ≡ not (same (find_word w l) invalid)
unfolding any_word find_word no_invalid
any_word-find_word w [] h = unfold same in refl
any_word-find_word w ((s, t) ∷ rest) h = ground (arith, any_word-find_word w rest)

-- `in_reserved_word` holds of a word just when `as_reserved` gives it a type other than
-- `invalid`.
pub in_reserved_word-as_reserved :
    (w : Bytes) → in_reserved_word w ≡ not (same (as_reserved w) invalid)
unfolding in_reserved_word as_reserved
in_reserved_word-as_reserved w =
    any_word-find_word (map capitalize w) reserved_words (unfold no_invalid same in refl)
