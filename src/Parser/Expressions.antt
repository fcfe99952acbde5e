-- ===== src/Parser/Expressions.antt =====
-- Expressions, src/reir/exec/ast_expression_parser.cpp: `parse_expr`, `parse_expr_postfix` and the
-- constructors that read tokens. What a call leaves of the tokens is not a structural part of
-- them, so each call costs a unit of fuel.
pub mod Fuel
pub mod Render
pub mod Steps
pub mod Lists
pub mod Forms
pub mod RoundTrip
use reir.Prelude.{
  zero, suc, ℕ, Option, none, some, if◌then◌else◌, Result, throw, diverge, unknown_expr, Bytes,
}
use reir.Prelude.Decimal.{stoi}
use reir.Token.{TokenType, same}
use reir.Ast.{
  Operators, Expression, Expressions, number, string, binary, pointer_of, row_literal,
  array_literal, variable_reference, function_call, array_reference, member_reference, assign, nil,
  cons,
}
use reir.Parser.Stream.{
  skip_token, take_token, Parser, ◌>>=◌, ◌>>◌, pure, run, get, next, has_next, expect_token,
}
use reir.Parser.Types.{lift}

-- The operator of a token that begins the rest of a binary expression.
unfoldable pub operator_of : TokenType → Option Operators
operator_of TokenType.plus = some Operators.plus
operator_of TokenType.minus = some Operators.minus
operator_of TokenType.asterisk = some Operators.multiple
operator_of TokenType.slash = some Operators.division
operator_of TokenType.percent = some Operators.modulo
operator_of TokenType.open_angle = some Operators.lessthan
operator_of TokenType.close_angle = some Operators.morethan
operator_of TokenType.equal_equal = some Operators.equal
operator_of TokenType.exclamation_mark_equal = some Operators.notequal
operator_of TokenType.open_angle_equal = some Operators.lessequal
operator_of TokenType.close_angle_equal = some Operators.moreequal
operator_of TokenType.and_and = some Operators.conditional_and
operator_of TokenType.or_or = some Operators.conditional_or
operator_of _ = none

-- The cases of the `switch` of `parse_expr_postfix`.
pub data Postfix : Type 0 where
  call index member assignment done : Postfix
  operator : Operators → Postfix

operator_postfix : Option Operators → Postfix
operator_postfix (some op) = operator op
operator_postfix none = done

unfoldable pub postfix_of : TokenType → Postfix
unfolding operator_of operator_postfix
postfix_of TokenType.open_paren = call
postfix_of TokenType.open_bracket = index
postfix_of TokenType.period = member
postfix_of TokenType.equal = assignment
postfix_of t = operator_postfix (operator_of t)

-- The cases of the `switch` of `parse_expr`.
pub data Prefix : Type 0 where
  address row parenthesis array variable number_literal text_literal unknown : Prefix

unfoldable pub prefix_of : TokenType → Prefix
prefix_of TokenType.and = address
prefix_of TokenType.open_brace = row
prefix_of TokenType.open_paren = parenthesis
prefix_of TokenType.open_bracket = array
prefix_of TokenType.identifier = variable
prefix_of TokenType.number = number_literal
prefix_of TokenType.string_literal = text_literal
prefix_of _ = unknown

-- `dynamic_cast<VariableReference*>(ret)`.
unfoldable pub as_variable : Expression → Option Bytes
as_variable (variable_reference n) = some n
as_variable _ = none

unfoldable pub parse_variable : Parser Expression
parse_variable = do t ← get; skip_token TokenType.identifier; pure (variable_reference t.text)

unfoldable pub parse_number : Parser Expression
parse_number = do t ← get; n ← lift (stoi t.text); next; pure (number n)

unfoldable pub parse_string : Parser Expression
parse_string = do t ← take_token; pure (string t.text)

-- The `switch` of `parse_expr`. The parsers of expressions, and of elements up to a closing token,
-- are handed in.
unfoldable pub parse_prefix :
    Prefix → Parser Expression → (TokenType → Parser Expressions) → Parser Expression
parse_prefix address expr elements = do next; target ← expr; pure (pointer_of target)
parse_prefix row expr elements = do
  skip_token TokenType.open_brace
  es ← elements TokenType.close_brace
  pure (row_literal es)
parse_prefix parenthesis expr elements = do next; e ← expr; skip_token TokenType.close_paren; pure e
parse_prefix array expr elements = do
  skip_token TokenType.open_bracket
  es ← elements TokenType.close_bracket
  pure (array_literal es)
parse_prefix variable expr elements = parse_variable
parse_prefix number_literal expr elements = parse_number
parse_prefix text_literal expr elements = parse_string
parse_prefix unknown expr elements = λ _. throw unknown_expr

-- The `switch` of `parse_expr_postfix`; `again` is its recursive call.
unfoldable pub parse_suffix :
    Postfix
    → Expression
    → Parser Expression
    → (TokenType → Parser Expressions)
    → (Expression → Parser Expression)
    → Parser Expression
parse_suffix call ret expr elements again = do
  skip_token TokenType.open_paren
  args ← elements TokenType.close_paren
  again (function_call ret args)
parse_suffix index ret expr elements again = do
  skip_token TokenType.open_bracket
  idx ← expr
  skip_token TokenType.close_bracket
  again (array_reference (as_variable ret) idx)
parse_suffix member ret expr elements again = do
  skip_token TokenType.period
  name ← take_token
  again (member_reference ret name.text)
parse_suffix assignment ret expr elements again = do
  skip_token TokenType.equal
  value ← expr
  again (assign ret value)
parse_suffix (operator op) ret expr elements again = do next; rhs ← expr; pure (binary ret op rhs)
parse_suffix done ret expr elements again = pure ret

-- What follows an element: the closing token, or a comma and the next round.
unfoldable pub parse_separator : TokenType → Parser Expressions → Parser Expressions
parse_separator close again = do
  t ← get
  if same t.type close then pure nil else (do skip_token TokenType.comma; again)

unfoldable mutual
  pub parse_expr : ℕ → Parser Expression
  parse_expr zero ts = diverge
  parse_expr (suc f) ts = run ts do
    t ← get
    ret ← parse_prefix (prefix_of t.type) (parse_expr f) (parse_elements f)
    more ← has_next
    if more then parse_expr_postfix f ret else pure ret

  pub parse_expr_postfix : ℕ → Expression → Parser Expression
  parse_expr_postfix zero ret ts = diverge
  parse_expr_postfix (suc f) ret ts = run ts do
    more ← has_next
    if more
        then (do
          t ← get
          parse_suffix (postfix_of t.type) ret (parse_expr f) (parse_elements f)
              (parse_expr_postfix f))
        else pure ret

  -- The loop over arguments or elements, and the closing token behind it.
  pub parse_elements : ℕ → TokenType → Parser Expressions
  parse_elements zero close ts = diverge
  parse_elements (suc f) close ts = run ts do es ← parse_loop f close; skip_token close; pure es

  pub parse_loop : ℕ → TokenType → Parser Expressions
  parse_loop zero close ts = diverge
  parse_loop (suc f) close ts = run ts do
    t ← get
    if same t.type close then pure nil else (do
      e ← parse_expr f
      es ← parse_separator close (parse_loop f close)
      pure (cons e es))
