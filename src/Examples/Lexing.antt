-- ===== src/Examples/Lexing.antt =====
-- Runs of the tokenizer.
use reir.Prelude.{
  Runs, contains, arith, bind, ◌≤◌, length, not, ◌≡◌, refl, false, List, [], ◌∷◌, Bytes, codes, ok,
  abort,
}
use reir.Token.{TokenType, Token, same, as_reserved}
use reir.Tokenize.{tokenize, in_reserved_word}
use reir.Tokenize.Images.{images, strip}
use reir.Tokenize.Total.{tokenize-Runs}
use reir.Tokenize.Images.Run.{tokenize-images}
use reir.Token.Reserved.{in_reserved_word-as_reserved}
use reir.Parser.Stream.View.{view, stream_Agrees}
use reir.Parser.Stream.{TokenStream, stream_get, stream_has_next, stream_next, get, next, has_next}

abbrev sum_code : Bytes
sum_code = codes "let a = b1+\"x y\" "

abbrev sum_tokens : List Token
sum_tokens =
    record { type = TokenType.let_; text = codes "let"; row = 1; col = 0 }
    ∷ record { type = TokenType.identifier; text = codes "a"; row = 4; col = 0 }
    ∷ record { type = TokenType.equal; text = codes "="; row = 1; col = 4 }
    ∷ record { type = TokenType.identifier; text = codes "b1"; row = 5; col = 0 }
    ∷ record { type = TokenType.plus; text = codes "+"; row = 1; col = 5 }
    ∷ record { type = TokenType.string_literal; text = codes "x y"; row = 1; col = 8 }
    ∷ []

tokenize_sum : tokenize sum_code ≡ ok sum_tokens
unfolding tokenize
tokenize_sum = refl

tokenize_bang : tokenize (codes "a ! b") ≡ abort
unfolding tokenize
tokenize_bang = refl

-- The position at the end of a stream.
abbrev at_end : TokenStream
at_end = record { tokens = sum_tokens; idx = 5 }

tokenize-images_example : images sum_tokens ≡ strip false sum_code
tokenize-images_example = tokenize-images sum_code sum_tokens tokenize_sum

stream_Agrees_example :
    (get (view at_end) ≡ bind (stream_get at_end) (λ t. ok (t, view at_end)))
    × (has_next (view at_end) ≡ ok (stream_has_next at_end, view at_end))
    × ((t : Token)
        → stream_get at_end ≡ ok t
        → (next (view at_end) ≡ ok (tt, view (stream_next at_end)))
          × ((stream_next at_end).idx ≤ length at_end.tokens))
stream_Agrees_example = stream_Agrees at_end (omega arith)

in_reserved_word-as_reserved_example :
    in_reserved_word (codes "Scan") ≡ not (same (as_reserved (codes "Scan")) TokenType.invalid)
in_reserved_word-as_reserved_example = in_reserved_word-as_reserved (codes "Scan")

tokenize-Runs_example : Runs (λ _. Unit {0}) (tokenize (codes "a.b <= [1]"))
tokenize-Runs_example =
    tokenize-Runs (codes "a.b <= [1]") (unfold contains in refl) (unfold contains in refl)
