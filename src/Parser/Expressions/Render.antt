-- ===== src/Parser/Expressions/Render.antt =====
-- An expression as tokens: the grammar that the parser reads, with the parentheses that the tree
-- needs. `render e k` and `head e k` stand in front of the tokens `k`; `head` puts what is no atom in
-- parentheses, so that a suffix may follow.
use reir.Prelude.{
  ℕ, ◌^◌, ◌≤◌, ◌<◌, ◌≡◌, ◌≢◌, refl, arith, Bytes, Option, none, some, [], ◌∷◌, length,
}
use reir.Prelude.Decimal.{print}
use reir.Token.{TokenType, Token}
use reir.Ast.{
  Operators, Expression, Expressions, number, string, binary, pointer_of, row_literal,
  array_literal, variable_reference, function_call, array_reference, member_reference, assign, nil,
  cons,
}
use reir.Parser.Stream.{Tokens}
use reir.Parser.Expressions.{prefix_of, unknown}

abbrev pub tok : TokenType → Bytes → Token
tok t s = record { type = t; text = s; row = 0; col = 0 }

abbrev pub punct : TokenType → Token
punct t = tok t []

-- The token of an operator; `none` has none, and is printed as a token that the parser refuses.
unfoldable pub token_of : Operators → TokenType
token_of Operators.plus = TokenType.plus
token_of Operators.minus = TokenType.minus
token_of Operators.multiple = TokenType.asterisk
token_of Operators.division = TokenType.slash
token_of Operators.equal = TokenType.equal_equal
token_of Operators.modulo = TokenType.percent
token_of Operators.lessthan = TokenType.open_angle
token_of Operators.lessequal = TokenType.open_angle_equal
token_of Operators.morethan = TokenType.close_angle
token_of Operators.moreequal = TokenType.close_angle_equal
token_of Operators.notequal = TokenType.exclamation_mark_equal
token_of Operators.conditional_and = TokenType.and_and
token_of Operators.conditional_or = TokenType.or_or
token_of Operators.none = TokenType.invalid

abbrev array_name : Option Bytes → Bytes
array_name none = []
array_name (some n) = n

unfoldable mutual
  unfolding token_of

  pub head : Expression → Tokens → Tokens
  head (number n) k = tok TokenType.number (print n) ∷ k
  head (string s) k = tok TokenType.string_literal s ∷ k
  head (binary l op r) k =
      punct TokenType.open_paren
      ∷ head l (punct (token_of op) ∷ render r (punct TokenType.close_paren ∷ k))
  head (pointer_of e) k =
      punct TokenType.open_paren ∷ punct TokenType.and ∷ render e (punct TokenType.close_paren ∷ k)
  head (row_literal es) k =
      punct TokenType.open_brace ∷ render_elements es (punct TokenType.close_brace ∷ k)
  head (array_literal es) k =
      punct TokenType.open_bracket ∷ render_elements es (punct TokenType.close_bracket ∷ k)
  head (variable_reference n) k = tok TokenType.identifier n ∷ k
  head (function_call p args) k =
      head p (punct TokenType.open_paren ∷ render_elements args (punct TokenType.close_paren ∷ k))
  head (array_reference n idx) k =
      tok TokenType.identifier (array_name n)
      ∷ punct TokenType.open_bracket
      ∷ render idx (punct TokenType.close_bracket ∷ k)
  head (member_reference p n) k = head p (punct TokenType.period ∷ tok TokenType.identifier n ∷ k)
  head (assign t v) k =
      punct TokenType.open_paren
      ∷ head t (punct TokenType.equal ∷ render v (punct TokenType.close_paren ∷ k))

  pub render : Expression → Tokens → Tokens
  render (binary l op r) k = head l (punct (token_of op) ∷ render r k)
  render (pointer_of e) k = punct TokenType.and ∷ render e k
  render (assign t v) k = head t (punct TokenType.equal ∷ render v k)
  render (number n) k = tok TokenType.number (print n) ∷ k
  render (string s) k = tok TokenType.string_literal s ∷ k
  render (row_literal es) k =
      punct TokenType.open_brace ∷ render_elements es (punct TokenType.close_brace ∷ k)
  render (array_literal es) k =
      punct TokenType.open_bracket ∷ render_elements es (punct TokenType.close_bracket ∷ k)
  render (variable_reference n) k = tok TokenType.identifier n ∷ k
  render (function_call p args) k =
      head p (punct TokenType.open_paren ∷ render_elements args (punct TokenType.close_paren ∷ k))
  render (array_reference n idx) k =
      tok TokenType.identifier (array_name n)
      ∷ punct TokenType.open_bracket
      ∷ render idx (punct TokenType.close_bracket ∷ k)
  render (member_reference p n) k = head p (punct TokenType.period ∷ tok TokenType.identifier n ∷ k)

  pub render_elements : Expressions → Tokens → Tokens
  render_elements nil k = k
  render_elements (cons e es) k = render e (render_rest es k)

  pub render_rest : Expressions → Tokens → Tokens
  render_rest nil k = k
  render_rest (cons e es) k = punct TokenType.comma ∷ render e (render_rest es k)

-- The trees that the parser can build: numbers in the range of `int`, the parent of an array
-- reference a variable, and no operator `none`.
mutual
  pub data IsPrintable : Expression → Type 0 where
    number_printable : {n : ℕ} → n < 2 ^ 31 → IsPrintable (number n)
    string_printable : {s : Bytes} → IsPrintable (string s)
    binary_printable :
        {l r : Expression} {op : Operators}
        → op ≢ Operators.none
        → IsPrintable l
        → IsPrintable r
        → IsPrintable (binary l op r)
    pointer_printable : {e : Expression} → IsPrintable e → IsPrintable (pointer_of e)
    row_printable : {es : Expressions} → ArePrintable es → IsPrintable (row_literal es)
    array_printable : {es : Expressions} → ArePrintable es → IsPrintable (array_literal es)
    variable_printable : {n : Bytes} → IsPrintable (variable_reference n)
    call_printable :
        {p : Expression} {args : Expressions}
        → IsPrintable p
        → ArePrintable args
        → IsPrintable (function_call p args)
    reference_printable :
        {n : Bytes} {idx : Expression}
        → IsPrintable idx
        → IsPrintable (array_reference (some n) idx)
    member_printable :
        {p : Expression} {n : Bytes} → IsPrintable p → IsPrintable (member_reference p n)
    assign_printable : {t v : Expression} → IsPrintable t → IsPrintable v → IsPrintable (assign t v)

  pub data ArePrintable : Expressions → Type 0 where
    nil_printable : ArePrintable nil
    cons_printable :
        {e : Expression} {es : Expressions}
        → IsPrintable e
        → ArePrintable es
        → ArePrintable (cons e es)

mutual
  unfolding head render

  pub length-head : (e : Expression) (k : Tokens) → length k < length (head e k)
  length-head (binary l op r) k = omega (
    arith,
    length-head l (punct (token_of op) ∷ render r (punct TokenType.close_paren ∷ k)),
    length-render r (punct TokenType.close_paren ∷ k),
  )
  length-head (pointer_of e) k = omega (arith, length-render e (punct TokenType.close_paren ∷ k))
  length-head (row_literal es) k =
      omega (arith, length-render_elements es (punct TokenType.close_brace ∷ k))
  length-head (array_literal es) k =
      omega (arith, length-render_elements es (punct TokenType.close_bracket ∷ k))
  length-head (function_call p args) k = omega (
    arith,
    length-head p
        (punct TokenType.open_paren ∷ render_elements args (punct TokenType.close_paren ∷ k)),
    length-render_elements args (punct TokenType.close_paren ∷ k),
  )
  length-head (array_reference n idx) k =
      omega (arith, length-render idx (punct TokenType.close_bracket ∷ k))
  length-head (member_reference p n) k =
      omega (arith, length-head p (punct TokenType.period ∷ tok TokenType.identifier n ∷ k))
  length-head (assign t v) k = omega (
    arith,
    length-head t (punct TokenType.equal ∷ render v (punct TokenType.close_paren ∷ k)),
    length-render v (punct TokenType.close_paren ∷ k),
  )
  length-head _ k = omega arith

  pub length-render : (e : Expression) (k : Tokens) → length k < length (render e k)
  length-render (binary l op r) k =
      omega (arith, length-head l (punct (token_of op) ∷ render r k), length-render r k)
  length-render (pointer_of e) k = omega (arith, length-render e k)
  length-render (row_literal es) k =
      omega (arith, length-render_elements es (punct TokenType.close_brace ∷ k))
  length-render (array_literal es) k =
      omega (arith, length-render_elements es (punct TokenType.close_bracket ∷ k))
  length-render (function_call p args) k = omega (
    arith,
    length-head p
        (punct TokenType.open_paren ∷ render_elements args (punct TokenType.close_paren ∷ k)),
    length-render_elements args (punct TokenType.close_paren ∷ k),
  )
  length-render (array_reference n idx) k =
      omega (arith, length-render idx (punct TokenType.close_bracket ∷ k))
  length-render (member_reference p n) k =
      omega (arith, length-head p (punct TokenType.period ∷ tok TokenType.identifier n ∷ k))
  length-render (assign t v) k =
      omega (arith, length-head t (punct TokenType.equal ∷ render v k), length-render v k)
  length-render _ k = omega arith

  pub length-render_elements :
      (es : Expressions) (k : Tokens) → length k ≤ length (render_elements es k)
  length-render_elements nil k = omega arith
  length-render_elements (cons e es) k =
      omega (arith, length-render e (render_rest es k), length-render_rest es k)

  pub length-render_rest : (es : Expressions) (k : Tokens) → length k ≤ length (render_rest es k)
  length-render_rest nil k = omega arith
  length-render_rest (cons e es) k =
      omega (arith, length-render e (render_rest es k), length-render_rest es k)

-- The first token of an expression begins one.
abbrev pub Begins : Tokens → Type 0
Begins ts = (t : Token) × (rest : Tokens) × (ts ≡ t ∷ rest) × (prefix_of t.type ≢ unknown)

pub head-Begins : (e : Expression) (k : Tokens) → Begins (head e k)
unfolding head prefix_of
head-Begins (function_call p args) k = head-Begins p _
head-Begins (member_reference p n) k = head-Begins p _
head-Begins (number n) k = (_, _, refl, cc)
head-Begins (string s) k = (_, _, refl, cc)
head-Begins (binary l op r) k = (_, _, refl, cc)
head-Begins (pointer_of e) k = (_, _, refl, cc)
head-Begins (row_literal es) k = (_, _, refl, cc)
head-Begins (array_literal es) k = (_, _, refl, cc)
head-Begins (variable_reference n) k = (_, _, refl, cc)
head-Begins (array_reference n idx) k = (_, _, refl, cc)
head-Begins (assign t v) k = (_, _, refl, cc)

pub render-Begins : (e : Expression) (k : Tokens) → Begins (render e k)
unfolding render prefix_of
render-Begins (binary l op r) k = head-Begins l _
render-Begins (assign t v) k = head-Begins t _
render-Begins (function_call p args) k = head-Begins p _
render-Begins (member_reference p n) k = head-Begins p _
render-Begins (number n) k = (_, _, refl, cc)
render-Begins (string s) k = (_, _, refl, cc)
render-Begins (pointer_of e) k = (_, _, refl, cc)
render-Begins (row_literal es) k = (_, _, refl, cc)
render-Begins (array_literal es) k = (_, _, refl, cc)
render-Begins (variable_reference n) k = (_, _, refl, cc)
render-Begins (array_reference n idx) k = (_, _, refl, cc)
