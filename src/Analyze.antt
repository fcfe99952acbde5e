-- ===== src/Analyze.antt =====
-- The types of operators and of columns, `operate` and `TupleType::analyze` of
-- src/reir/exec/ast_node.cpp. The table of
-- types is a function, in which a null pointer is `none`. The entries that `operate` and the
-- columns ask for by `operator[]` are made with the context, so that it adds none.
pub mod Operate
pub mod Columns
pub mod Expressions
pub mod Statements
pub mod Tables
pub mod Whole
pub mod Rules
pub mod Agreement
pub mod Inference
pub mod Completeness
pub mod Operands
pub mod Safety
pub mod Scripts
pub mod Declarations
pub mod Run
use reir.Prelude.{
  ℕ, Bool, true, false, ◌||◌, ◌==◌, if◌then◌else◌, List, [], ◌∷◌, map, Option, none, some, Bytes,
  codes, get_elem?, Result, ok, throw, fault, bind, array_operator, tuple_operator, date_operator,
  different_types, invalid_operator, undefined_type, bytes_eq, logical_with_double,
  logical_with_others, string_operator, bool_operator, no_operator,
}
use reir.Ast.{TypeId, Operators, NodeType}
use reir.Parser.Types.{type_id}
use reir.Dump.{type_index, op_to_string, dump_type}

-- `==` of two `type_id`s.
unfoldable pub same_type : TypeId → TypeId → Bool
unfolding type_index
same_type s t = type_index s == type_index t

-- None under a name that the table lacks.
abbrev pub Table : Type 0
Table = Bytes → Option (Option NodeType)

-- What `operator[]` finds, a null pointer if there is none.
abbrev pub entry : Option (Option NodeType) → Option NodeType
entry none = none
entry (some t) = t

-- The cases of the `switch`es over the operator.
pub data OperatorKind : Type 0 where
  arithmetic comparison conditional no_kind : OperatorKind

unfoldable pub kind_of : Operators → OperatorKind
kind_of Operators.plus = arithmetic
kind_of Operators.minus = arithmetic
kind_of Operators.multiple = arithmetic
kind_of Operators.division = arithmetic
kind_of Operators.modulo = arithmetic
kind_of Operators.conditional_and = conditional
kind_of Operators.conditional_or = conditional
kind_of Operators.none = no_kind
kind_of _ = comparison

-- The `switch` over the right type of `&&` and `||`.
unfoldable pub operate_truth : Table → TypeId → Result (Option NodeType)
operate_truth table TypeId.integer = ok (entry (table (codes "bool")))
operate_truth table TypeId.bool = ok (entry (table (codes "bool")))
operate_truth table _ = throw logical_with_others

-- An `INTEGER` or a `DOUBLE` on the left.
unfoldable pub operate_number :
    OperatorKind → Table → NodeType → NodeType → Result (Option NodeType)
operate_number arithmetic table lhs rhs =
    if same_type (type_id rhs) (type_id lhs) then ok (some lhs) else throw different_types
operate_number comparison table lhs rhs =
    if same_type (type_id rhs) (type_id lhs)
    then ok (entry (table (codes "bool")))
    else throw different_types
operate_number no_kind table lhs rhs = throw invalid_operator
operate_number conditional table lhs rhs =
    if same_type (type_id lhs) TypeId.double || same_type (type_id rhs) TypeId.double
    then throw logical_with_double
    else operate_truth table (type_id rhs)

-- A `STRING` on the left; of the arithmetic operators there is only `+`.
unfoldable pub compare_strings :
    OperatorKind → Table → NodeType → NodeType → Result (Option NodeType)
compare_strings comparison table lhs rhs =
    if same_type (type_id rhs) (type_id lhs)
    then ok (entry (table (codes "bool")))
    else throw different_types
compare_strings _ table lhs rhs = throw string_operator

unfoldable pub operate_string : Operators → Table → NodeType → NodeType → Result (Option NodeType)
operate_string Operators.plus table lhs rhs =
    if same_type (type_id rhs) (type_id lhs)
    then ok (entry (table (codes "string")))
    else throw different_types
operate_string op table lhs rhs = compare_strings (kind_of op) table lhs rhs

unfoldable pub operate_bool : OperatorKind → Table → NodeType → Result (Option NodeType)
operate_bool conditional table rhs = operate_truth table (type_id rhs)
operate_bool _ table rhs = throw bool_operator

-- Behind the `switch`: the message of the exception prints the type on the left, the name of the
-- operator and the type on the right.
unfoldable pub not_implemented : NodeType → NodeType → Operators → Result (Option NodeType)
not_implemented lhs rhs op =
    bind (dump_type lhs)
      λ _. bind (op_to_string op) λ _. bind (dump_type rhs) λ _. throw no_operator

-- The `switch` over the type on the left.
unfoldable pub operate_on :
    TypeId → Table → NodeType → NodeType → Operators → Result (Option NodeType)
operate_on TypeId.array table lhs rhs op = throw array_operator
operate_on TypeId.tuple table lhs rhs op = throw tuple_operator
operate_on TypeId.integer table lhs rhs op = operate_number (kind_of op) table lhs rhs
operate_on TypeId.double table lhs rhs op = operate_number (kind_of op) table lhs rhs
operate_on TypeId.string table lhs rhs op = operate_string op table lhs rhs
operate_on TypeId.bool table lhs rhs op = operate_bool (kind_of op) table rhs
operate_on TypeId.date table lhs rhs op = throw date_operator
operate_on _ table lhs rhs op = not_implemented lhs rhs op

unfoldable pub operate : Table → NodeType → NodeType → Operators → Result (Option NodeType)
unfolding operate_on
operate table lhs rhs op = operate_on (type_id lhs) table lhs rhs op

unfoldable pub named_type : Option (Option NodeType) → Result (Option NodeType)
named_type none = throw undefined_type
named_type (some t) = ok t

-- The type of a column by the name of its type; a date is an integer.
unfoldable pub column_type : Table → Bytes → Result (Option NodeType)
unfolding bytes_eq named_type
column_type table name =
    if bytes_eq name (codes "int")
    then ok (entry (table (codes "integer")))
    else if bytes_eq name (codes "double")
    then ok (entry (table (codes "double")))
    else if bytes_eq name (codes "string")
    then ok (entry (table (codes "string")))
    else if bytes_eq name (codes "date")
    then ok (entry (table (codes "integer")))
    else named_type (table name)

-- The `types_` that the loop of `TupleType::analyze` appends.
unfoldable pub column_types : Table → List Bytes → Result (List (Option NodeType))
column_types table [] = ok []
column_types table (name ∷ names) =
    bind (column_type table name) λ t. bind (column_types table names) λ ts. ok (t ∷ ts)
