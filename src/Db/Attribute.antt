-- ===== src/Db/Attribute.antt =====
-- Attributes, src/reir/db/attribute.hpp and attribute.cpp. A property is a set of bits below 2 ^ 32;
-- the message that `fixed_length` writes to the standard error is left out.
pub mod Coding
pub mod Text
use reir.Prelude.{
  ℕ, ◌+◌, ◌%◌, ◌^◌, Bool, true, false, [], ◌∷◌, ◌++◌, Bytes, bytes_eq, ◌==◌, ◌&&◌, not, bit_and,
  if◌then◌else◌, Result, ok, throw, bind, null_cell, tuple_must_be_set,
}
use reir.Prelude.Decimal.{print, stoll}
use reir.Db.Memory.{store, load, from_le}
use reir.Db.MaybeValue.{MaybeValue, value_of, of_value, null}
use reir.Db.AttrType.{
  AttrType, fixed_length, default_size, encoded_length, encode, decode, type_eq, serialize_type,
  deserialize_type, skip_to, read_to,
}

abbrev pub none : ℕ
none = 0

abbrev pub nullable : ℕ
nullable = 1

abbrev pub key : ℕ
key = 2

abbrev pub unique : ℕ
unique = 4

pub record Attribute : Type 0 where
  pub name : Bytes
  pub type : AttrType
  pub property : ℕ

-- `property_ & flag`, as a `bool`.
abbrev pub has : Attribute → ℕ → Bool
has a flag = not (bit_and a.property flag == 0)

unfoldable pub is_key : Attribute → Bool
is_key a = has a key

unfoldable pub attribute_fixed_length : Attribute → Bool
attribute_fixed_length a = fixed_length a.type

unfoldable pub attribute_default_size : Attribute → Result ℕ
attribute_default_size a =
    if has a nullable then (bind (default_size a.type) λ n. ok (n + 1)) else default_size a.type

unfoldable pub attribute_encoded_length : Attribute → MaybeValue → Result ℕ
attribute_encoded_length a m =
    if a.property == nullable
    then (if not m.exists
        then ok 1
        else (bind (value_of m) λ v. bind (encoded_length a.type v) λ n. ok (1 + n)))
    else if not m.exists
    then throw null_cell
    else (bind (value_of m) λ v. encoded_length a.type v)

-- `encode(tuple, &buffer[at])`; a null leaves the buffer as it is.
unfoldable pub attribute_encode : Attribute → MaybeValue → Bytes → ℕ → Result Bytes
attribute_encode a m buffer at =
    if a.property == nullable
    then (if m.exists
        then (bind (store buffer at (1 ∷ []))
            λ buffer'. bind (value_of m) λ v. encode a.type v buffer' (at + 1))
        else ok buffer)
    else if m.exists
    then (bind (value_of m) λ v. encode a.type v buffer at)
    else throw tuple_must_be_set

unfoldable pub attribute_decode : Attribute → Bytes → ℕ → Result MaybeValue
attribute_decode a buffer at =
    if a.property == nullable
    then (bind (load buffer at 1) λ flag.
        if from_le flag == 0
        then ok null
        else (bind (decode a.type buffer (at + 1)) λ v. ok (of_value v)))
    else (bind (decode a.type buffer at) λ v. ok (of_value v))

unfoldable pub attribute_eq : Attribute → Attribute → Bool
unfolding bytes_eq type_eq
attribute_eq a b = bytes_eq a.name b.name && (type_eq a.type b.type && a.property == b.property)

unfoldable pub serialize_attribute : Attribute → Bytes
serialize_attribute a =
    b'(' ∷ (a.name ++ b' ' ∷ (serialize_type a.type ++ b' ' ∷ (print a.property ++ b')' ∷ [])))

-- `s.eof()` stays false, since nothing reads through the stream itself.
unfoldable pub deserialize_attribute : Bytes → Result (Attribute × Bytes)
unfolding skip_to read_to stoll deserialize_type
deserialize_attribute s = bind (skip_to b'(' s) λ s. bind (read_to b' ' s) λ (name, s).
    bind (deserialize_type s) λ (type, s). bind (read_to b')' s) λ (p, s).
      bind (stoll p)
        λ property. ok (record { name = name; type = type; property = property % 2 ^ 32 }, s)
