-- ===== src/Parser/Types.antt =====
-- Types and tuple definitions, src/reir/exec/ast_node_parser.cpp. `ArrayType` and `TupleType` are
-- loops: recursion on fuel.
pub mod Fuel
pub mod Pairs
use reir.Prelude.{
  ℕ, zero, suc, bit_or, ◌++◌, [], ◌∷◌, Option, none, some, Bytes, codes, bytes_eq, if◌then◌else◌,
  Result, ok, throw, diverge, bind, unknown_type, unknown_property,
}
use reir.Prelude.Decimal.{stoi}
use reir.Token.{TokenType, same}
use reir.Ast.{TypeId, TupleType, NodeType, Types, primary_type, array_type, tuple_type}
use reir.Parser.Stream.{
  skip_token, take_token, Parser, ◌>>=◌, ◌>>◌, pure, run, get, next, expect_token,
}

-- `PrimaryType::type_parse`.
unfoldable pub type_parse : Bytes → Result TypeId
type_parse type =
    if bytes_eq type (codes "int")
    then ok TypeId.integer
    else if bytes_eq type (codes "double")
    then ok TypeId.double
    else if bytes_eq type (codes "bool")
    then ok TypeId.bool
    else if bytes_eq type (codes "string")
    then ok TypeId.string
    else if bytes_eq type (codes "date")
    then ok TypeId.date
    else throw unknown_type

abbrev pub lift : {A : Type 0} → Result A → Parser A
lift m ts = bind m λ a. ok (a, ts)

unfoldable pub parse_primary_type : Parser NodeType
unfolding type_parse
parse_primary_type = do
  expect_token TokenType.int
  t ← get
  i ← lift (type_parse t.text)
  next
  pure (primary_type i)

-- `Attribute::AttrProperty`, and `|` of such.
abbrev pub nullable : ℕ
nullable = 1

abbrev pub key : ℕ
key = 2

abbrev pub unique : ℕ
unique = 4

unfoldable pub property : Bytes → Result ℕ
property text =
    if bytes_eq text (codes "key")
    then ok key
    else if bytes_eq text (codes "nullable")
    then ok nullable
    else if bytes_eq text (codes "unique")
    then ok unique
    else throw unknown_property

-- The `while` loop over the properties behind a name.
unfoldable pub parse_properties : ℕ → ℕ → Parser ℕ
parse_properties zero prop ts = diverge
parse_properties (suc f) prop ts = run ts do
  t ← get
  if same t.type TokenType.identifier
      then (do p ← lift (property t.text); next; parse_properties f (bit_or prop p))
      else pure prop

-- The `(n)` behind a type name.
unfoldable pub parse_param : Parser (Option ℕ)
parse_param = do
  t ← get
  if same t.type TokenType.open_paren
      then (do
        next
        expect_token TokenType.number
        n ← get
        i ← lift (stoi n.text)
        next
        skip_token TokenType.close_paren
        pure (some i))
      else pure none

abbrev add_column : TupleType → Bytes → Bytes → Option ℕ → ℕ → TupleType
add_column t type_name name param prop = record {
  type_names = t.type_names ++ type_name ∷ [];
  names = t.names ++ name ∷ [];
  props = t.props ++ prop ∷ [];
  params = t.params ++ param ∷ [];
}

-- The `for (;;)` loop over the columns.
unfoldable pub parse_columns : ℕ → TupleType → Parser TupleType
parse_columns zero t ts = diverge
parse_columns (suc f) t ts = run ts do
  type_name ← take_token
  param ← parse_param
  skip_token TokenType.colon
  expect_token TokenType.identifier
  name ← take_token
  prop ← parse_properties f 0
  after ← get
  let t' = add_column t type_name.text name.text param prop
  if same after.type TokenType.comma
      then (do skip_token TokenType.comma; parse_columns f t')
      else pure t'

unfoldable pub parse_tuple_type : ℕ → Parser NodeType
parse_tuple_type f = do
  skip_token TokenType.open_brace
  t ← parse_columns f (record { type_names = []; names = []; props = []; params = [] })
  skip_token TokenType.close_brace
  pure (tuple_type TypeId.tuple t Types.nil)

-- The `type_` of a type.
abbrev pub type_id : NodeType → TypeId
type_id (primary_type t) = t
type_id (array_type t) = t
type_id (tuple_type t _ _) = t

-- The cases of the `switch` of `parse_type`.
pub data TypeStart : Type 0 where
  begin_array begin_tuple begin_primary : TypeStart

unfoldable pub type_start : TokenType → TypeStart
type_start TokenType.open_bracket = begin_array
type_start TokenType.open_brace = begin_tuple
type_start _ = begin_primary

-- The constructor of `ArrayType`, with `parse_type` handed in.
unfoldable pub parse_array_type : Parser NodeType → Parser NodeType
parse_array_type again = do
  skip_token TokenType.open_bracket
  e ← again
  skip_token TokenType.close_bracket
  pure (array_type (type_id e))

unfoldable pub parse_type_start : TypeStart → ℕ → Parser NodeType → Parser NodeType
parse_type_start begin_array f again = parse_array_type again
parse_type_start begin_tuple f again = parse_tuple_type f
parse_type_start begin_primary f again = parse_primary_type

unfoldable pub parse_type : ℕ → Parser NodeType
unfolding type_start
parse_type zero ts = diverge
parse_type (suc f) ts = run ts do t ← get; parse_type_start (type_start t.type) f (parse_type f)

unfoldable pub parse_row_type : ℕ → Parser NodeType
parse_row_type f = do
  skip_token TokenType.open_angle
  t ← parse_type f
  skip_token TokenType.close_angle
  pure t
