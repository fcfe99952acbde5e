-- ===== src/Parser/Expressions/Lists.antt =====
-- The loop over elements or arguments on what `render` writes.
use reir.Prelude.{
  ℕ, zero, suc, ◌+◌, ◌*◌, ◌<◌, ◌≡◌, ◌≢◌, refl, ◌∙◌, arith, false, ◌∷◌, length, ok, bind,
}
use reir.Token.{TokenType, same}
use reir.Ast.{Expression, Expressions, nil, cons}
use reir.Parser.Stream.{Tokens, get}
use reir.Parser.Expressions.{
  unknown, postfix_of, prefix_of, parse_separator, parse_expr, parse_elements, parse_loop,
}
use reir.Parser.Expressions.Render.{
  punct, render_elements, render_rest, Begins, render-Begins, length-render,
}
use reir.Parser.Expressions.Steps.{Ends, Reads, same_refl, skip_token-punct}

-- The tokens that close a list.
pub data IsClose : TokenType → Type 0 where
  closes_paren : IsClose TokenType.close_paren
  closes_brace : IsClose TokenType.close_brace
  closes_bracket : IsClose TokenType.close_bracket

pub IsClose-Ends : {close : TokenType} (k : Tokens) → IsClose close → Ends (punct close ∷ k)
unfolding postfix_of
IsClose-Ends k closes_paren = refl
IsClose-Ends k closes_brace = refl
IsClose-Ends k closes_bracket = refl

IsClose-comma : {close : TokenType} → IsClose close → same TokenType.comma close ≡ false
unfolding same
IsClose-comma closes_paren = refl
IsClose-comma closes_brace = refl
IsClose-comma closes_bracket = refl

IsClose-prefix :
    {close : TokenType} (t : TokenType)
    → IsClose close
    → prefix_of t ≢ unknown
    → same t close ≡ false
unfolding same prefix_of
IsClose-prefix t closes_paren h = ground arith
IsClose-prefix t closes_brace h = ground arith
IsClose-prefix t closes_bracket h = ground arith

-- The loop stops at the closing token, in front of an element or behind one.
abbrev pub ReadsLoop : Expressions → Type 0
ReadsLoop es =
    (close : TokenType) (f : ℕ) (k : Tokens)
    → IsClose close
    → 3 * length (render_elements es (punct close ∷ k)) + 1 < f
    → parse_loop f close (render_elements es (punct close ∷ k)) ≡ ok (es, punct close ∷ k)

abbrev pub ReadsRest : Expressions → Type 0
ReadsRest es =
    (close : TokenType) (f : ℕ) (k : Tokens)
    → IsClose close
    → 3 * length (render_rest es (punct close ∷ k)) < f
    → parse_separator close (parse_loop f close) (render_rest es (punct close ∷ k))
      ≡ ok (es, punct close ∷ k)

pub rest-Ends :
    (es : Expressions) {close : TokenType} (k : Tokens)
    → IsClose close
    → Ends (render_rest es (punct close ∷ k))
unfolding render_rest postfix_of
rest-Ends nil k c = IsClose-Ends k c
rest-Ends (cons e es) k c = refl

pub nil-ReadsLoop : ReadsLoop nil
unfolding render_elements parse_loop get
nil-ReadsLoop close zero k c h = absurd (omega arith)
nil-ReadsLoop close (suc f) k c h = rw (same_refl close)

-- A round of the loop on an element.
loop_round :
    (f : ℕ) (close : TokenType) (ts : Tokens)
    → IsClose close
    → Begins ts
    → parse_loop (suc f) close ts
      ≡ bind (parse_expr f ts) λ (e, rest).
        bind (parse_separator close (parse_loop f close) rest) λ (es, rest'). ok (cons e es, rest')
unfolding parse_loop
loop_round f close ts c (t, rest, e, begins) =
    rw e (unfold get in rw (IsClose-prefix t.type c begins))

pub cons-ReadsLoop :
    (e : Expression) (es : Expressions) → Reads e → ReadsRest es → ReadsLoop (cons e es)
unfolding render_elements
cons-ReadsLoop e es reads rest close zero k c h = absurd (omega arith)
cons-ReadsLoop e es reads rest close (suc f) k c h =
    let later = render_rest es (punct close ∷ k) in
    loop_round f close _ c (render-Begins e later)
    ∙ rw (
      reads f later (rest-Ends es k c) (omega arith),
      rest close f k c (omega (arith, length-render e later)),
    )

pub nil-ReadsRest : ReadsRest nil
unfolding render_rest parse_separator get
nil-ReadsRest close f k c h = rw (same_refl close)

pub cons-ReadsRest :
    (e : Expression) (es : Expressions) → ReadsLoop (cons e es) → ReadsRest (cons e es)
unfolding render_rest render_elements parse_separator get
cons-ReadsRest e es reads close f k c h =
    rw (IsClose-comma c, skip_token-punct TokenType.comma _) (reads close f k c (omega arith))

-- The list and its closing token.
pub elements_read :
    (es : Expressions) (close : TokenType) (f : ℕ) (k : Tokens)
    → ReadsLoop es
    → IsClose close
    → 3 * length (render_elements es (punct close ∷ k)) + 1 < f
    → parse_elements (suc f) close (render_elements es (punct close ∷ k)) ≡ ok (es, k)
unfolding parse_elements
elements_read es close f k reads c h = rw (reads close f k c h, skip_token-punct close k)
