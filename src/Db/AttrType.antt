-- ===== src/Db/AttrType.antt =====
-- The types of attributes, src/reir/db/attr_type.hpp and attr_type.cpp. The enumeration has
-- `size_t` under it, and a cast gives it any value of that type, so a type is its number. A stream is
-- the bytes still to be read; to go past its end by a `std::istreambuf_iterator` is undefined, and
-- `fault` here.
pub mod Text
pub mod Coding
use reir.Prelude.{
  ℕ, ◌+◌, ◌%◌, ◌^◌, Bool, true, false, List, [], ◌∷◌, ◌++◌, Bytes, codes, bytes_eq, ◌==◌, ◌&&◌, not,
  ◌||◌, if◌then◌else◌, length, Result, ok, throw, fault, bind, type_mismatch, unknown_attr_type,
  unimplemented,
}
use reir.Prelude.Decimal.{print, stoll}
use reir.Db.Memory.{store, load, le_bytes, from_le, read_size_t}
use reir.Db.Value.{Value, of_int64, of_slice, is_int, is_varchar, as_int, as_varchar, word}

abbrev pub integer : ℕ
integer = 0

abbrev pub double : ℕ
double = 1

abbrev pub string : ℕ
string = 2

abbrev pub date : ℕ
date = 3

abbrev pub unknown : ℕ
unknown = 4

pub record AttrType : Type 0 where
  pub type : ℕ
  pub param : ℕ

-- `AttrType(const std::string&)`
unfoldable pub of_name : Bytes → AttrType
unfolding bytes_eq
of_name t =
    if bytes_eq t (codes "int")
    then record { type = integer; param = 0 }
    else if bytes_eq t (codes "string")
    then record { type = string; param = 16 }
    else record { type = unknown; param = 0 }

unfoldable pub fixed_length : AttrType → Bool
fixed_length t = not (t.type == string) || not (t.param == 0)

unfoldable pub default_size : AttrType → Result ℕ
default_size t =
    if t.type == integer
    then ok 8
    else if t.type == string
    then ok t.param
    else if t.type == date
    then ok 8
    else if t.type == double
    then ok 8
    else throw unknown_attr_type

unfoldable pub encoded_length : AttrType → Value → Result ℕ
encoded_length t v =
    if t.type == integer
    then ok word
    else if t.type == string
    then (if is_varchar v then (bind (as_varchar v) λ s. ok (length s)) else throw type_mismatch)
    else throw unknown_attr_type

-- `encode(value, &buffer[at])`: the buffer after the call.
unfoldable pub encode : AttrType → Value → Bytes → ℕ → Result Bytes
encode t v buffer at =
    if t.type == integer
    then (if is_int v
        then (bind (as_int v) λ n. store buffer at (le_bytes word n))
        else throw type_mismatch)
    else if t.type == string
    then (if is_varchar v
        then (bind (as_varchar v) λ s.
            bind (store buffer at (le_bytes word (length s)))
              λ buffer'. store buffer' (at + word) s)
        else throw type_mismatch)
    else throw unimplemented

-- `decode(&buffer[at], tuple)`: the value that is assigned.
unfoldable pub decode : AttrType → Bytes → ℕ → Result Value
decode t buffer at =
    if t.type == integer
    then (bind (load buffer at word) λ b. ok (of_int64 (from_le b)))
    else if t.type == string
    then (bind (read_size_t buffer at)
        λ len. bind (load buffer (at + word) len) λ s. ok (of_slice s))
    else throw unimplemented

unfoldable pub type_eq : AttrType → AttrType → Bool
type_eq s t = s.type == t.type && s.param == t.param

unfoldable pub serialize_type : AttrType → Bytes
serialize_type t = b'(' ∷ (print t.type ++ b' ' ∷ (print t.param ++ b')' ∷ []))

-- `while (*it != c) ++it; ++it;`
unfoldable pub skip_to : ℕ → Bytes → Result Bytes
skip_to c [] = fault
skip_to c (x ∷ s) = if x == c then ok s else skip_to c s

-- `while (*it != c) t << *it++; ++it;`: the text in front of `c`, and what is behind it.
unfoldable pub read_to : ℕ → Bytes → Result (Bytes × Bytes)
read_to c [] = fault
read_to c (x ∷ s) = if x == c then ok ([], s) else bind (read_to c s) λ (t, rest). ok (x ∷ t, rest)

unfoldable pub deserialize_type : Bytes → Result (AttrType × Bytes)
unfolding skip_to read_to stoll
deserialize_type s = bind (skip_to b'(' s) λ s. bind (read_to b' ' s) λ (t, s).
    bind (stoll t) λ type.
      bind (read_to b')' s)
        λ (p, s). bind (stoll p) λ param. ok (record { type = type; param = param }, s)
