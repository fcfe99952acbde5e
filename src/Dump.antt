-- ===== src/Dump.antt =====
-- The printers `dump` of types and expressions, src/reir/exec/ast_node.hpp and ast_expression.hpp,
-- the names of operators and types, and the indentation of src/util/blank.hpp. A stream is the text written to it; the virtual call of
-- a null pointer is undefined in C++, and `fault` here.
pub mod Statements
pub mod Safety
use reir.Prelude.{
  ℕ, zero, suc, ◌-◌, ◌%◌, ◌^◌, map, List, [], ◌∷◌, ◌++◌, Option, none, some, Bytes, codes, ltb,
  if◌then◌else◌, get_elem?, Result, ok, fault, bind,
}
use reir.Prelude.Decimal.{print}
use reir.Ast.{
  TypeId, Operators, TupleType, NodeType, Types, primary_type, array_type, tuple_type, Expression,
  Expressions, number, string, binary, pointer_of, row_literal, array_literal, variable_reference,
  function_call, array_reference, member_reference, assign,
}

-- An enumerator as an `int`.
unfoldable pub index : Operators → ℕ
index Operators.plus = 0
index Operators.minus = 1
index Operators.multiple = 2
index Operators.division = 3
index Operators.equal = 4
index Operators.modulo = 5
index Operators.lessthan = 6
index Operators.lessequal = 7
index Operators.morethan = 8
index Operators.moreequal = 9
index Operators.notequal = 10
index Operators.conditional_and = 11
index Operators.conditional_or = 12
index Operators.none = 13

abbrev operator_names : List Bytes
operator_names = map codes (
    "PLUS" ∷ "MINUS" ∷ "MULTIPLE" ∷ "DIVISION" ∷ "EQUAL" ∷ "MODULO" ∷ "LESSTHAN" ∷ "LESSEQUAL"
    ∷ "MORETHAN" ∷ "MOREEQUAL" ∷ "NOTEQUAL" ∷ "NONE" ∷ [])

name_at : Option Bytes → Result Bytes
name_at none = fault
name_at (some s) = ok s

-- The table of names is shorter than the enumeration.
unfoldable pub op_to_string : Operators → Result Bytes
unfolding index name_at
op_to_string op = name_at (get_elem? operator_names (index op))

unfoldable pub type_index : TypeId → ℕ
type_index TypeId.none_type = 0
type_index TypeId.integer = 1
type_index TypeId.double = 2
type_index TypeId.string = 3
type_index TypeId.date = 4
type_index TypeId.bool = 5
type_index TypeId.function = 6
type_index TypeId.pointer = 7
type_index TypeId.array = 8
type_index TypeId.tuple = 9

unfoldable pub type_to_string : TypeId → Result Bytes
unfolding type_index name_at
type_to_string t = name_at (
    get_elem?
      (map codes (
        "NONE_TYPE" ∷ "INTEGER" ∷ "DOUBLE" ∷ "STRING" ∷ "DATE" ∷ "BOOL" ∷ "FUNCTION" ∷ "POINTER"
        ∷ "ARRAY" ∷ "TUPLE" ∷ []))
      (type_index t))

-- One text and, if that is written, another behind it.
infixr 40 ◌<<◌
unfoldable pub ◌<<◌ : Result Bytes → Result Bytes → Result Bytes
m << n = bind m λ s. bind n λ t. ok (s ++ t)

-- A literal.
abbrev pub say : Bytes → Result Bytes
say s = ok s

-- The loop of `util::blank`.
spaces : ℕ → Bytes
spaces zero = []
spaces (suc n) = b' ' ∷ spaces n

-- The `size_t` is narrowed to an `int`, and a negative one writes nothing.
unfoldable pub blank : ℕ → Bytes
unfolding spaces
blank n = let indent = n % 2 ^ 32 in if ltb indent (2 ^ 31) then spaces indent else []

-- `o << names_[i]`.
unfoldable pub name_of : Option Bytes → Result Bytes
name_of none = fault
name_of (some s) = ok s

-- In front of all elements but the first.
unfoldable pub comma : ℕ → Bytes
comma zero = []
comma (suc i) = codes ", "

unfoldable mutual
  unfolding name_of comma

  pub dump_type : NodeType → Result Bytes
  dump_type (primary_type t) = type_to_string t
  dump_type (array_type t) = say (codes "[ARRAY]")
  dump_type (tuple_type i t types) =
      say (codes "{") << dump_types types t.names 0 << say (codes "}")

  -- The loop over `types_`, from the index `i` on.
  pub dump_types : Types → List Bytes → ℕ → Result Bytes
  dump_types Types.nil names i = say []
  dump_types (Types.cons t types) names i =
      say (comma i)
      << dump_type t
      << say (codes ":")
      << name_of (get_elem? names i)
      << dump_types types names (suc i)
  dump_types (Types.cons_null types) names i = say (comma i) << fault

-- An `int64_t` by its pattern.
unfoldable pub print_int64 : ℕ → Bytes
print_int64 n = if ltb n (2 ^ 63) then print n else b'-' ∷ print (2 ^ 64 - n)

unfoldable pub symbol : Operators → Bytes
symbol Operators.plus = codes " + "
symbol Operators.minus = codes " - "
symbol Operators.multiple = codes " * "
symbol Operators.division = codes " / "
symbol Operators.equal = codes " == "
symbol Operators.modulo = codes " % "
symbol Operators.lessthan = codes " < "
symbol Operators.lessequal = codes " <= "
symbol Operators.morethan = codes " > "
symbol Operators.moreequal = codes " >= "
symbol Operators.notequal = codes " != "
symbol Operators.conditional_and = codes " && "
symbol Operators.conditional_or = codes " || "
symbol Operators.none = codes " ???? "

unfoldable pub count : Expressions → ℕ
count Expressions.nil = 0
count (Expressions.cons e es) = suc (count es)

-- The text of a variable, the parent of an array reference.
unfoldable pub dump_variable : Option Bytes → Result Bytes
dump_variable none = fault
dump_variable (some n) = ok (codes "VarRef:" ++ n)

unfoldable pub dump_primary : Bytes → Result Bytes
dump_primary s = say s

-- `Value::dump` of a number and of a string.
unfoldable pub dump_number : ℕ → Bytes
unfolding print_int64
dump_number n = print_int64 n

unfoldable pub dump_string : Bytes → Bytes
dump_string s = b'"' ∷ (s ++ b'"' ∷ [])

unfoldable pub dump_binary : Result Bytes → Operators → Result Bytes → Result Bytes
unfolding symbol
dump_binary l op r = say (codes "(") << l << say (symbol op) << r << say (codes ")")

unfoldable pub dump_pointer : Result Bytes → Result Bytes
dump_pointer target = say (codes "&") << target

unfoldable pub dump_row : Result Bytes → Result Bytes
dump_row elements = say (codes "RowLiteral{") << elements << say (codes "}")

unfoldable pub dump_array : ℕ → Result Bytes → Result Bytes
dump_array n elements =
    say (codes "ArrayLiteral(") << say (print n) << say (codes ")[") << elements << say (codes "]")

unfoldable pub dump_call : Result Bytes → Result Bytes → Result Bytes
dump_call parent args = say (codes "Fun:") << parent << say (codes "(") << args << say (codes ")")

unfoldable pub dump_reference : Option Bytes → Result Bytes → Result Bytes
unfolding dump_variable
dump_reference n idx =
    say (codes "ArrRef") << dump_variable n << say (codes "[") << idx << say (codes "]")

unfoldable pub dump_member : Result Bytes → Bytes → Result Bytes
dump_member parent n = parent << say (codes "-m->" ++ n)

unfoldable pub dump_assign : Result Bytes → Result Bytes → Result Bytes
dump_assign target value = target << say (codes " = ") << value

unfoldable mutual
  unfolding dump_primary dump_number dump_string dump_binary dump_pointer dump_row dump_array
      dump_variable dump_call dump_reference dump_member dump_assign count comma

  pub dump : Expression → Result Bytes
  dump (number n) = dump_primary (dump_number n)
  dump (string s) = dump_primary (dump_string s)
  dump (binary l op r) = dump_binary (dump l) op (dump r)
  dump (pointer_of e) = dump_pointer (dump e)
  dump (row_literal es) = dump_row (dump_elements es 0)
  dump (array_literal es) = dump_array (count es) (dump_elements es 0)
  dump (variable_reference n) = dump_variable (some n)
  dump (function_call p args) = dump_call (dump p) (dump_elements args 0)
  dump (array_reference n idx) = dump_reference n (dump idx)
  dump (member_reference p n) = dump_member (dump p) n
  dump (assign t v) = dump_assign (dump t) (dump v)

  -- The loop over `elements_`, from the index `i` on.
  pub dump_elements : Expressions → ℕ → Result Bytes
  dump_elements Expressions.nil i = say []
  dump_elements (Expressions.cons e es) i = say (comma i) << dump e << dump_elements es (suc i)
