-- ===== src/Examples/Typing.antt =====
-- Runs of the analysis of types.
use reir.Prelude.{true, ◌≡◌, refl, [], ◌∷◌, none, some, codes, ok, fault, bytes_eq, if◌then◌else◌}
use reir.Ast.{TypeId, Operators, NodeType, Types, primary_type, tuple_type}
use reir.Analyze.{Table, operate, operate_number, same_type, not_implemented, kind_of}
use reir.Dump.{op_to_string, type_to_string, dump_type}
use reir.Equality.{equals}
use reir.Equality.Printing.{equals-dump_type}
use reir.Dump.{dump_type}
use reir.Analyze.Operate.{Typed, operate-Typed}

abbrev int_type : NodeType
int_type = primary_type TypeId.integer

abbrev bool_type : NodeType
bool_type = primary_type TypeId.bool

-- The entries of the table that the examples look up.
abbrev table : Table
table name =
    if bytes_eq name (codes "bool")
    then some (some bool_type)
    else if bytes_eq name (codes "integer")
    then some (some int_type)
    else none

compare_ints : operate table int_type int_type Operators.lessthan ≡ ok (some bool_type)
unfolding operate bytes_eq operate_number kind_of same_type
compare_ints = refl

operate-Typed_example :
    Typed (kind_of Operators.lessthan) table TypeId.integer TypeId.integer (some bool_type)
operate-Typed_example =
    operate-Typed table int_type int_type Operators.lessthan (some bool_type) compare_ints

-- A pointer on the left of `||`.
or_of_pointers :
    operate table (primary_type TypeId.pointer) int_type Operators.conditional_or ≡ fault
unfolding operate not_implemented op_to_string dump_type type_to_string
or_of_pointers = refl

abbrev pair_type : NodeType
pair_type =
    tuple_type TypeId.tuple
      (record {
        type_names = codes "int" ∷ [];
        names = codes "a" ∷ [];
        props = 0 ∷ [];
        params = none ∷ [];
      })
      (Types.cons int_type Types.nil)

-- The type of a row, with the same name for its element.
abbrev row_type : NodeType
row_type =
    tuple_type TypeId.none_type
      (record { type_names = []; names = codes "a" ∷ []; props = []; params = [] })
      (Types.cons int_type Types.nil)

equal_types : equals pair_type row_type ≡ ok true
unfolding equals bytes_eq same_type
equal_types = refl

equals-dump_type_example : dump_type pair_type ≡ dump_type row_type
equals-dump_type_example = equals-dump_type pair_type row_type equal_types
