-- ===== src/Examples/Storage.antt =====
-- Runs of the storage layer.
use reir.Prelude.{
  length, ap, contains, ℕ, ◌+◌, ◌≡◌, ◌≢◌, refl, arith, true, false, List, [], ◌∷◌, Option, none,
  some, Bytes, ◌++◌, codes, bytes_eq, bytes_eq_iff, Bool-cases, inl, inr, if◌then◌else◌, ◌==◌, ok,
  fault,
}
use reir.Db.Memory.{store, load, le_bytes, from_le}
use reir.Db.Value.{
  Value, ValType, of_slice, of_int64, serialize, deserialize, serialized_length, is_varchar,
  as_varchar, as_int, is_int,
}
use reir.Db.Value.Laws.{deserialize-serialize, serialize-varchar-overflow}
use reir.Db.MaybeValue.{MaybeValue, value_of, null, of_value, serialize_maybe, deserialize_maybe}
use reir.Db.MaybeValue.Laws.{deserialize-serialize_maybe}
use reir.Db.AttrType.{AttrType, encode, encoded_length}
use reir.Db.Attribute.{
  Attribute, is_key, attribute_encode, attribute_decode, attribute_encoded_length,
}
use reir.Db.Attribute.Coding.{attribute_decode-encode, attribute_decode-encode-null}
use reir.Db.Schema.{
  Schema, serialize_schema, deserialize_schema, schema_encoded_length, key_length, value_length,
  check_tuple_size, sum_lengths, not_key, encode_chosen, store_prefix, encode_key, encode_value,
  get_prefix,
}
use reir.Db.Schema.Columns.{cells, words}
use reir.Db.Schema.Layout.{encode_key-encode_value}
use reir.Db.Schema.Text.{IsSaved, deserialize-serialize_schema}
use reir.Db.Schema.Lengths.{encoded_length-key-value}
use reir.Db.MetaData.{MetaData, create_table, get_schema}
use reir.Db.MetaData.Laws.{get_schema-create_table, get_schema-create_table-other}

abbrev buffer : Bytes
buffer = 1 ∷ 2 ∷ 3 ∷ 4 ∷ 5 ∷ 6 ∷ 7 ∷ 8 ∷ 9 ∷ 10 ∷ 11 ∷ 12 ∷ []

abbrev text_value : Value
text_value = of_slice (codes "hi")

abbrev text_buffer : Bytes
text_buffer = 1 ∷ 2 ∷ 0 ∷ 0 ∷ 0 ∷ 0 ∷ 0 ∷ 0 ∷ 0 ∷ b'h' ∷ b'i' ∷ 12 ∷ []

serialize_text : serialize text_value buffer 1 ≡ ok text_buffer
unfolding serialize store le_bytes
serialize_text = refl

deserialize-serialize_example : deserialize text_buffer 1 ValType.varchar ≡ ok text_value
deserialize-serialize_example =
    deserialize-serialize text_value buffer 1 (omega arith) serialize_text

two_bytes : serialized_length text_value ≡ ok 2
unfolding serialized_length
two_bytes = refl

serialize-varchar-overflow_example : serialize text_value (0 ∷ 0 ∷ []) 0 ≡ fault
serialize-varchar-overflow_example = serialize-varchar-overflow (codes "hi") (0 ∷ 0 ∷ []) two_bytes

serialize_there : serialize_maybe (of_value text_value) buffer 0 ≡ ok text_buffer
unfolding serialize_maybe serialize store le_bytes
serialize_there = refl

deserialize-serialize_maybe_example :
    deserialize_maybe null text_buffer 0 ValType.varchar
    ≡ ok (if true then of_value text_value else record null { exists = false })
deserialize-serialize_maybe_example =
    deserialize-serialize_maybe (of_value text_value) null ValType.varchar buffer 0
      (λ h. (omega arith, refl)) serialize_there

abbrev string_type : AttrType
string_type = record { type = 2; param = 16 }

encode_text : encode string_type text_value buffer 1 ≡ ok text_buffer
unfolding encode store le_bytes is_varchar as_varchar
encode_text = refl

abbrev number_column : Bytes → ℕ → Attribute
number_column n p = record { name = n; type = record { type = 0; param = 0 }; property = p }

-- The first column is a key.
abbrev numbers : Schema
numbers = record {
  name = codes "t";
  attrs = number_column (codes "k") 2 ∷ number_column (codes "v") 0 ∷ [];
}

abbrev two_numbers : List ℕ
two_numbers = 258 ∷ 7 ∷ []

encode_key-encode_value_example :
    (encode_key numbers (cells two_numbers) (codes "0123456789")
      ≡ ok (get_prefix numbers ++ words is_key numbers.attrs two_numbers))
    × (encode_value numbers (cells two_numbers) (codes "01234567")
        ≡ ok (words not_key numbers.attrs two_numbers))
unfolding key_length value_length sum_lengths is_key attribute_encoded_length encoded_length
    value_of
encode_key-encode_value_example =
    encode_key-encode_value numbers two_numbers (codes "0123456789") (codes "01234567")
      ((refl, refl), ((refl, refl), tt)) refl refl

the_key :
    encode_key numbers (cells two_numbers) (codes "0123456789")
    ≡ ok (codes "t:" ++ 2 ∷ 1 ∷ 0 ∷ 0 ∷ 0 ∷ 0 ∷ 0 ∷ 0 ∷ [])
unfolding encode_key encode_chosen store_prefix store le_bytes is_key attribute_encoded_length
    encoded_length value_of attribute_encode encode as_int is_int
the_key = refl

abbrev nullable_name : Attribute
nullable_name = record { name = codes "name"; type = string_type; property = 1 }

encode_name : attribute_encode nullable_name (of_value text_value) buffer 0 ≡ ok text_buffer
unfolding attribute_encode encode store le_bytes value_of is_varchar as_varchar
encode_name = refl

attribute_decode-encode_example :
    attribute_decode nullable_name text_buffer 0 ≡ ok (of_value text_value)
attribute_decode-encode_example =
    attribute_decode-encode nullable_name text_value buffer 0 (omega arith) encode_name

load_flag : load buffer 0 1 ≡ ok (1 ∷ [])
unfolding load
load_flag = refl

encode_null : attribute_encode nullable_name null buffer 0 ≡ ok buffer
unfolding attribute_encode
encode_null = refl

flag_set : (from_le (1 ∷ []) == 0) ≡ false
unfolding from_le
flag_set = refl

attribute_decode-encode-null_example : attribute_decode nullable_name buffer 0 ≢ ok null
attribute_decode-encode-null_example =
    attribute_decode-encode-null nullable_name null buffer 0 1 refl refl load_flag flag_set
      encode_null

abbrev id : Attribute
id = record { name = codes "id"; type = record { type = 0; param = 0 }; property = 2 }

abbrev users : Schema
users = record { name = codes "users"; attrs = id ∷ nullable_name ∷ [] }

users-IsSaved : IsSaved users
unfolding contains
users-IsSaved = (
  refl,
  (
    (refl, (omega arith, omega arith), omega arith),
    ((refl, (omega arith, omega arith), omega arith), tt),
  ),
)

deserialize-serialize_schema_example : deserialize_schema (serialize_schema users) ≡ ok users
deserialize-serialize_schema_example = deserialize-serialize_schema users users-IsSaved

abbrev tuple : List MaybeValue
tuple = of_value (of_int64 7) ∷ of_value text_value ∷ []

tuple_length : schema_encoded_length users tuple ≡ ok 17
unfolding schema_encoded_length check_tuple_size sum_lengths attribute_encoded_length value_of
    encoded_length is_varchar as_varchar
tuple_length = refl

encoded_length-key-value_example :
    (k : ℕ) × (v : ℕ) × (key_length users tuple ≡ ok k)
    × (value_length users tuple ≡ ok v)
    × (17 ≡ k + v)
encoded_length-key-value_example = encoded_length-key-value users tuple 17 tuple_length

-- A store: the pairs that were put, the last one first.
abbrev Pairs : Type 0
Pairs = List (Bytes × Bytes)

abbrev put : Pairs → Bytes → Bytes → Pairs
put d k v = (k, v) ∷ d

abbrev find : Pairs → Bytes → Option Bytes
find [] k = none
find ((k', v) ∷ d) k = if bytes_eq k' k then some v else find d k

find-put : (d : Pairs) (k v : Bytes) → find (put d k v) k ≡ some v
find-put d k v = rw ((bytes_eq_iff k k).1 refl) refl

find-put-other : (d : Pairs) (k v k' : Bytes) → k ≢ k' → find (put d k v) k' ≡ find d k'
find-put-other d k v k' ne = elim (Bool-cases (bytes_eq k k')) [
  | inl same ↦ absurd (ne ((bytes_eq_iff k k').0 same))
  | inr other ↦ rw other refl
]

abbrev empty : MetaData Pairs
empty = record { tables = []; db = [] }

get_schema-create_table_example :
    get_schema Pairs put find
      (create_table Pairs put find empty (codes "users") (id ∷ nullable_name ∷ []))
      (codes "users")
    ≡ ok users
get_schema-create_table_example =
    get_schema-create_table Pairs put find find-put empty (codes "users") (id ∷ nullable_name ∷ [])
      users-IsSaved

get_schema-create_table-other_example :
    get_schema Pairs put find
      (create_table Pairs put find empty (codes "users") (id ∷ []))
      (codes "item")
    ≡ get_schema Pairs put find empty (codes "item")
get_schema-create_table-other_example =
    get_schema-create_table-other Pairs put find find-put-other empty (codes "users") (codes "item")
      (id ∷ []) (λ e. omega (arith, ap length e))
