-- ===== src/Codegen/Rows.antt =====
-- Rows in keys and values: `Define`, `Insert` and `Scan` of src/reir/exec/ast_statement_codegen.cpp. The
-- code that they emit copies the columns between a tuple, a key and a value; modelled are the
-- buffers, the places in them, and the errors. The places of an insert are `int`s and those of a scan
-- `uint32_t`s, to which a `size_t` is added: both are patterns of 32 bits.
pub mod Layout
pub mod Range
pub mod Agreement
use reir.Prelude.{
  ℕ, zero, suc, ◌+◌, ◌-◌, ◌%◌, ◌^◌, Bool, true, false, not, List, [], ◌∷◌, ◌++◌, Option, none, some,
  Bytes, ltb, ◌==◌, if◌then◌else◌, length, get_elem?, Result, ok, throw, fault, bind,
  undefined_table, fixed_length_needed, already_initialized, unsupported_column, undefined_type,
}
use reir.Ast.{TypeId, TupleType, NodeType, Types}
use reir.Parser.Types.{type_id}
use reir.Db.AttrType as AttrType
use reir.Db.AttrType.{AttrType}
use reir.Db.Attribute.{Attribute}
use reir.Db.Schema.{
  Schema, get_tuple_length, schema_is_key, fixed_key_length, fixed_value_length,
  get_fixed_key_length, get_fixed_value_length, get_prefix, columns,
}

-- The attribute type of a column; a parameter is an `int` that is not negative.
unfoldable pub string_type : Option ℕ → AttrType
string_type none = record { type = AttrType.string; param = 0 }
string_type (some n) = record { type = AttrType.string; param = n }

-- None for a type that no attribute is made of.
unfoldable pub column_attr : TypeId → Option ℕ → Option AttrType
unfolding string_type
column_attr TypeId.integer param = some (record { type = AttrType.integer; param = 0 })
column_attr TypeId.double param = some (record { type = AttrType.double; param = 0 })
column_attr TypeId.string param = some (string_type param)
column_attr _ param = none

unfoldable pub add_attr : Option AttrType → Bytes → ℕ → List Attribute → List Attribute
add_attr none name prop attrs = attrs
add_attr (some t) name prop attrs = record { name = name; type = t; property = prop } ∷ attrs

-- The loop of `Define::alloca_stack` over the columns, whose lists are read at the same index.
unfoldable pub schema_attrs :
    List Bytes → Types → List ℕ → List (Option ℕ) → Result (List Attribute)
unfolding column_attr add_attr
schema_attrs [] types props params = ok []
schema_attrs (n ∷ names) (Types.cons t types) (p ∷ props) (a ∷ params) =
    bind (schema_attrs names types props params)
      λ attrs. ok (add_attr (column_attr (type_id t) a) n p attrs)
schema_attrs (n ∷ names) _ _ _ = fault

-- The schema that `Define::alloca_stack` makes of an analyzed tuple type: it enters it in
-- `local_schema_table_`, and gives it to `create_table`.
unfoldable pub define_schema : Bytes → TupleType → Types → Result Schema
unfolding schema_attrs
define_schema name t types =
    bind (schema_attrs t.names types t.props t.params)
      λ attrs. ok (record { name = name; attrs = attrs })

-- Where a column of the row stands in a key or in a value.
pub data Place : Type 0 where
  in_key in_value : ℕ → Place

-- A copy from the tuple.
pub record Copy : Type 0 where
  pub place : Place
  pub src : ℕ
  pub len : ℕ

-- `x += n` of an `int` and a `size_t`.
unfoldable pub add_size : ℕ → ℕ → ℕ
add_size x n = (x + n) % 2 ^ 32

-- `static_cast<uint64_t>` of an `int`.
unfoldable pub widen : ℕ → ℕ
widen x = if ltb x (2 ^ 31) then x else x + (2 ^ 64 - 2 ^ 32)

-- The loop of `Insert::codegen` from the element `i` of the row on, with `k` elements left.
unfoldable pub copies : Schema → ℕ → ℕ → ℕ → ℕ → ℕ → Result (List Copy × ℕ × ℕ)
unfolding add_size
copies s zero i key_idx value_idx offset = ok ([], key_idx, value_idx)
copies s (suc k) i key_idx value_idx offset = bind (schema_is_key s i) λ is_key.
    bind (get_tuple_length s i) λ n. elim is_key [
      | true ↦
          bind (copies s k (suc i) (add_size key_idx n) value_idx (add_size offset n))
            λ (cs, key_len, value_len).
              ok (record { place = in_key key_idx; src = offset; len = n } ∷ cs, key_len, value_len)
      | false ↦
          bind (copies s k (suc i) key_idx (add_size value_idx n) (add_size offset n))
            λ (cs, key_len, value_len). ok (
              record { place = in_value value_idx; src = offset; len = n } ∷ cs,
              key_len,
              value_len,
            )
    ]

-- The copies of a row with the given number of elements, behind that of the prefix, and the lengths
-- of the key and of the value that are inserted.
unfoldable pub insert_copies : Schema → ℕ → Result (List Copy × ℕ × ℕ)
unfolding widen
insert_copies s elements =
    bind (copies s elements 0 (length (get_prefix s) % 2 ^ 32) 0 0)
      λ (cs, key_idx, value_idx). ok (cs, widen key_idx, widen value_idx)

-- The sizes of the buffers that `Insert::alloca_stack` takes.
unfoldable pub insert_buffers : Option Schema → Bool → Result (ℕ × ℕ)
insert_buffers none initialized = throw undefined_table
insert_buffers (some s) initialized =
    if not (fixed_key_length s)
    then throw fixed_length_needed
    else if not (fixed_value_length s)
    then throw fixed_length_needed
    else (bind (get_fixed_key_length s) λ key.
        bind (get_fixed_value_length s)
          λ value. if initialized then throw already_initialized else ok (key, value))

-- The loop of `Scan::codegen` from the column `i` on, with `k` columns left: where it loads each
-- column.
unfoldable pub loads : Schema → ℕ → ℕ → ℕ → ℕ → Result (List Place)
unfolding add_size
loads s zero i key_offset value_offset = ok []
loads s (suc k) i key_offset value_offset = bind (schema_is_key s i) λ is_key. elim is_key [
  | true ↦
      bind (loads s k (suc i) (add_size key_offset 8) value_offset)
        λ ps. ok (in_key key_offset ∷ ps)
  | false ↦
      bind (loads s k (suc i) key_offset (add_size value_offset 8))
        λ ps. ok (in_value value_offset ∷ ps)
]

unfoldable pub scan_loads : Schema → Result (List Place)
scan_loads s = loads s (columns s) 0 (length (get_prefix s) % 2 ^ 32) 0

-- `s[i]++` of a `char`.
unfoldable pub increment_at : Bytes → ℕ → Result Bytes
increment_at [] i = fault
increment_at (c ∷ s) zero = ok ((c + 1) % 256 ∷ s)
increment_at (c ∷ s) (suc i) = bind (increment_at s i) λ t. ok (c ∷ t)

-- The end of the keys that are scanned: the byte in front of the colon is incremented. The index of
-- a prefix without such a byte wraps round.
unfoldable pub prefix_end : Bytes → Result Bytes
unfolding increment_at
prefix_end prefix = if ltb (length prefix) 2 then fault else increment_at prefix (length prefix - 2)

-- The rows that are scanned have integer columns.
unfoldable pub all_integer : List Attribute → Result (Unit {0})
all_integer [] = ok tt
all_integer (a ∷ attrs) =
    let rest = all_integer attrs in
    if a.type.type == AttrType.integer then rest else throw unsupported_column

-- The bounds and the sizes of the buffers of `Scan::alloca_stack`.
unfoldable pub scan_buffers : Option Schema → Bool → Result (Bytes × Bytes × ℕ × ℕ)
unfolding prefix_end all_integer
scan_buffers none initialized = fault
scan_buffers (some s) initialized =
    if not (fixed_key_length s)
    then throw fixed_length_needed
    else if not (fixed_value_length s)
    then throw fixed_length_needed
    else (bind (prefix_end (get_prefix s)) λ last. bind (get_fixed_key_length s) λ key.
        bind (get_fixed_value_length s) λ value.
          if initialized
          then throw already_initialized
          else (bind (all_integer s.attrs) λ _. ok (get_prefix s, last, key, value)))
