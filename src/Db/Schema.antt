-- ===== src/Db/Schema.antt =====
-- Schemas, src/reir/db/schema.hpp and schema.cpp. The field `keys_` is never read or written, and an
-- access outside a vector is `fault`.
pub mod Lengths
pub mod Text
pub mod Columns
pub mod Layout
use reir.Prelude.{
  ℕ, zero, suc, ◌+◌, Bool, true, false, not, ◌&&◌, List, [], ◌∷◌, ◌++◌, Option, none, some, Bytes,
  bytes_eq, ◌==◌, if◌then◌else◌, length, get_elem?, Result, ok, throw, fault, diverge, bind,
  size_mismatch, variable_length,
}
use reir.Db.Memory.{store}
use reir.Db.MaybeValue.{MaybeValue}
use reir.Db.Attribute.{
  Attribute, is_key, attribute_fixed_length, attribute_default_size, attribute_encoded_length,
  attribute_encode, attribute_decode, attribute_eq, serialize_attribute, deserialize_attribute,
}
use reir.Db.AttrType.{read_to}

pub record Schema : Type 0 where
  pub name : Bytes
  pub attrs : List Attribute

abbrev pub not_key : Attribute → Bool
not_key a = not (is_key a)

unfoldable pub get_tuple_length : Schema → ℕ → Result ℕ
get_tuple_length s i = elim (get_elem? s.attrs i) [
  | none ↦ fault
  | some a ↦ attribute_default_size a
]

unfoldable pub schema_is_key : Schema → ℕ → Result Bool
schema_is_key s i = elim (get_elem? s.attrs i) [ none ↦ fault | some a ↦ ok (is_key a) ]

-- The loops of `fixed_key_length` and `fixed_value_length`.
unfoldable pub all_fixed : (Attribute → Bool) → List Attribute → Bool
all_fixed chosen [] = true
all_fixed chosen (a ∷ attrs) =
    if chosen a && not (attribute_fixed_length a) then false else all_fixed chosen attrs

unfoldable pub fixed_key_length : Schema → Bool
fixed_key_length s = all_fixed is_key s.attrs

unfoldable pub fixed_value_length : Schema → Bool
fixed_value_length s = all_fixed not_key s.attrs

unfoldable pub sum_default_sizes : (Attribute → Bool) → List Attribute → Result ℕ
sum_default_sizes chosen [] = ok 0
sum_default_sizes chosen (a ∷ attrs) =
    let rest = sum_default_sizes chosen attrs in
    if chosen a then (bind (attribute_default_size a) λ n. bind rest λ m. ok (n + m)) else rest

unfoldable pub get_fixed_key_length : Schema → Result ℕ
get_fixed_key_length s =
    if not (fixed_key_length s)
    then throw variable_length
    else (bind (sum_default_sizes is_key s.attrs) λ n. ok (length s.name + 1 + n + 1))

unfoldable pub get_fixed_value_length : Schema → Result ℕ
get_fixed_value_length s =
    if not (fixed_value_length s) then throw variable_length else sum_default_sizes not_key s.attrs

-- `get_key_prefix` and `get_prefix`.
unfoldable pub get_prefix : Schema → Bytes
get_prefix s = s.name ++ b':' ∷ []

unfoldable pub add_column : Schema → Attribute → Schema
add_column s a = record s { attrs = s.attrs ++ a ∷ [] }

-- The sum of the encoded lengths of the columns that are chosen.
unfoldable pub sum_lengths : (Attribute → Bool) → List Attribute → List MaybeValue → Result ℕ
sum_lengths chosen [] tuple = ok 0
sum_lengths chosen (a ∷ attrs) [] = if chosen a then fault else sum_lengths chosen attrs []
sum_lengths chosen (a ∷ attrs) (m ∷ tuple) =
    let rest = sum_lengths chosen attrs tuple in
    if chosen a then (bind (attribute_encoded_length a m) λ n. bind rest λ k. ok (n + k)) else rest

abbrev every : Attribute → Bool
every a = true

unfoldable pub check_tuple_size : Schema → List MaybeValue → Result (Unit {0})
check_tuple_size s tuple = if length tuple == length s.attrs then ok tt else throw size_mismatch

unfoldable pub schema_encoded_length : Schema → List MaybeValue → Result ℕ
schema_encoded_length s tuple =
    bind (check_tuple_size s tuple)
      λ _. bind (sum_lengths every s.attrs tuple) λ n. ok (length s.name + 1 + n)

unfoldable pub key_length : Schema → List MaybeValue → Result ℕ
key_length s tuple = bind (sum_lengths is_key s.attrs tuple) λ n. ok (length s.name + 1 + n)

-- `value_length` and `val_length`.
unfoldable pub value_length : Schema → List MaybeValue → Result ℕ
value_length s tuple = sum_lengths not_key s.attrs tuple

-- The loop of `encode`, from `offset` on.
unfoldable pub encode_columns : List Attribute → List MaybeValue → Bytes → ℕ → Result Bytes
encode_columns [] tuple buffer offset = ok buffer
encode_columns (a ∷ attrs) [] buffer offset = fault
encode_columns (a ∷ attrs) (m ∷ tuple) buffer offset =
    bind (attribute_encode a m buffer offset) λ buffer'.
      bind (attribute_encoded_length a m) λ n. encode_columns attrs tuple buffer' (offset + n)

-- The loops of `encode_key` and `encode_value`, which ask for the length first.
unfoldable pub encode_chosen :
    (Attribute → Bool) → List Attribute → List MaybeValue → Bytes → ℕ → Result Bytes
encode_chosen chosen [] tuple buffer offset = ok buffer
encode_chosen chosen (a ∷ attrs) [] buffer offset =
    if chosen a then fault else encode_chosen chosen attrs [] buffer offset
encode_chosen chosen (a ∷ attrs) (m ∷ tuple) buffer offset =
    if chosen a
    then (bind (attribute_encoded_length a m) λ n.
        bind (attribute_encode a m buffer offset)
          λ buffer'. encode_chosen chosen attrs tuple buffer' (offset + n))
    else encode_chosen chosen attrs tuple buffer offset

-- The two stores of the name and the colon.
unfoldable pub store_prefix : Schema → Bytes → Result Bytes
store_prefix s buffer =
    bind (store buffer 0 s.name) λ buffer'. store buffer' (length s.name) (b':' ∷ [])

unfoldable pub schema_encode : Schema → List MaybeValue → Bytes → Result Bytes
schema_encode s tuple buffer = bind (check_tuple_size s tuple) λ _.
    bind (store_prefix s buffer) λ buffer'. encode_columns s.attrs tuple buffer' (length s.name + 1)

unfoldable pub encode_key : Schema → List MaybeValue → Bytes → Result Bytes
encode_key s tuple buffer =
    bind (store_prefix s buffer)
      λ buffer'. encode_chosen is_key s.attrs tuple buffer' (length s.name + 1)

unfoldable pub encode_value : Schema → List MaybeValue → Bytes → Result Bytes
encode_value s tuple buffer = encode_chosen not_key s.attrs tuple buffer 0

unfoldable pub decode_columns : List Attribute → Bytes → ℕ → Result (List MaybeValue)
decode_columns [] buffer offset = ok []
decode_columns (a ∷ attrs) buffer offset = bind (attribute_decode a buffer offset) λ m.
    bind (attribute_encoded_length a m)
      λ n. bind (decode_columns attrs buffer (offset + n)) λ tuple. ok (m ∷ tuple)

-- The columns are read from the start of the buffer.
unfoldable pub schema_decode : Schema → Bytes → List MaybeValue → Result (List MaybeValue)
schema_decode s buffer tuple = bind (check_tuple_size s tuple) λ _. decode_columns s.attrs buffer 0

unfoldable pub columns : Schema → ℕ
columns s = length s.attrs

unfoldable pub attributes_eq : List Attribute → List Attribute → Bool
attributes_eq [] [] = true
attributes_eq (a ∷ rest) (b ∷ rest') = attribute_eq a b && attributes_eq rest rest'
attributes_eq _ _ = false

unfoldable pub schema_eq : Schema → Schema → Bool
schema_eq s t = bytes_eq s.name t.name && attributes_eq s.attrs t.attrs

unfoldable pub serialize_attributes : List Attribute → Bytes
serialize_attributes [] = []
serialize_attributes (a ∷ attrs) = serialize_attribute a ++ serialize_attributes attrs

unfoldable pub serialize_schema : Schema → Bytes
serialize_schema s = s.name ++ b':' ∷ serialize_attributes s.attrs

-- The loop of `deserialize`; an attribute takes at least one byte, so the fuel is the length of the
-- text and one.
unfoldable pub deserialize_attributes : ℕ → Bytes → Result (List Attribute)
deserialize_attributes zero s = diverge
deserialize_attributes (suc f) [] = ok []
deserialize_attributes (suc f) (c ∷ s) =
    bind (deserialize_attribute (c ∷ s))
      λ (a, s'). bind (deserialize_attributes f s') λ attrs. ok (a ∷ attrs)

unfoldable pub deserialize_schema : Bytes → Result Schema
deserialize_schema buf = bind (read_to b':' buf) λ (name, s).
    bind (deserialize_attributes (suc (length s)) s)
      λ attrs. ok (record { name = name; attrs = attrs })
