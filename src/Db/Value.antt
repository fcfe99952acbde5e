-- ===== src/Db/Value.antt =====
-- Values, src/reir/db/value.hpp and value.cpp. An `int64_t` and a `double` are their 64-bit
-- patterns. Assignment copies the contents of the `ValueImpl`, so a value stands here for what its
-- `pimpl_` points to; copies that share a `pimpl_` are not modelled.
pub mod Laws
use reir.Prelude.{
  ℕ, zero, suc, ◌+◌, ◌-◌, ◌*◌, ◌/◌, ◌%◌, Bool, true, false, List, [], ◌∷◌, ◌++◌, Bytes, ◌==◌, ◌&&◌,
  ltb, if◌then◌else◌, bytes_eq, length, take, drop, Result, ok, throw, abort, fault, bind,
  unknown_valtype, bad_get, leb, ◌||◌, ◌^◌,
}
use reir.Db.Memory.{load, store, le_bytes, from_le, read_size_t}

pub data ValType : Type 0 where
  int varchar float unknown : ValType

-- `boost::variant<int64_t, std::string, double>`
pub data Variant : Type 0 where
  int64 : ℕ → Variant
  text : Bytes → Variant
  double : ℕ → Variant

pub record Value : Type 0 where
  pub type : ValType
  pub value : Variant

-- The constructors.
abbrev pub of_slice : Bytes → Value
of_slice s = record { type = ValType.varchar; value = text s }

abbrev pub of_int64 : ℕ → Value
of_int64 v = record { type = ValType.int; value = int64 v }

abbrev pub of_double : ℕ → Value
of_double v = record { type = ValType.float; value = double v }

abbrev pub default : Value
default = record { type = ValType.unknown; value = int64 0 }

abbrev is_type : ValType → ValType → Bool
is_type int int = true
is_type varchar varchar = true
is_type float float = true
is_type unknown unknown = true
is_type _ _ = false

unfoldable pub is_int : Value → Bool
is_int v = is_type v.type ValType.int

unfoldable pub is_varchar : Value → Bool
is_varchar v = is_type v.type ValType.varchar

unfoldable pub is_float : Value → Bool
is_float v = is_type v.type ValType.float

-- `boost::get<T>`, which throws `bad_get` on another alternative.
abbrev pub get_int64 : Variant → Result ℕ
get_int64 (int64 n) = ok n
get_int64 _ = throw bad_get

abbrev pub get_text : Variant → Result Bytes
get_text (text s) = ok s
get_text _ = throw bad_get

abbrev pub get_double : Variant → Result ℕ
get_double (double n) = ok n
get_double _ = throw bad_get

-- With NDEBUG off, `as_int` and its siblings assert their type.
unfoldable pub as_int : Value → Result ℕ
unfolding is_int
as_int v = if is_int v then get_int64 v.value else abort

unfoldable pub as_varchar : Value → Result Bytes
unfolding is_varchar
as_varchar v = if is_varchar v then get_text v.value else abort

unfoldable pub as_float : Value → Result ℕ
unfolding is_float
as_float v = if is_float v then get_double v.value else abort

-- The sizes in bytes of an `int64_t`, a `double` and a `size_t`.
abbrev pub word : ℕ
word = 8

length_as : ValType → Variant → Result ℕ
length_as int v = ok word
length_as varchar v = bind (get_text v) λ s. ok (length s)
length_as float v = ok word
length_as unknown v = throw unknown_valtype

unfoldable pub serialized_length : Value → Result ℕ
unfolding length_as
serialized_length v = length_as v.type v.value

serialize_as : ValType → Variant → Bytes → ℕ → Result Bytes
serialize_as int v buffer at = bind (get_int64 v) λ n. store buffer at (le_bytes word n)
serialize_as varchar v buffer at =
    bind (get_text v)
      λ s. bind (store buffer at (le_bytes word (length s))) λ buffer'. store buffer' (at + word) s
serialize_as float v buffer at = bind (get_double v) λ n. store buffer at (le_bytes word n)
serialize_as unknown v buffer at = throw unknown_valtype

-- `serialize(&buffer[at])`: the buffer after the call.
unfoldable pub serialize : Value → Bytes → ℕ → Result Bytes
unfolding serialize_as
serialize v buffer at = serialize_as v.type v.value buffer at

-- `deserialize(&buffer[at], as)`.
unfoldable pub deserialize : Bytes → ℕ → ValType → Result Value
deserialize buffer at int = bind (load buffer at word) λ b. ok (of_int64 (from_le b))
deserialize buffer at varchar =
    bind (read_size_t buffer at) λ len. bind (load buffer (at + word) len) λ s. ok (of_slice s)
deserialize buffer at float = bind (load buffer at word) λ b. ok (of_double (from_le b))
deserialize buffer at unknown = throw unknown_valtype

-- The `==` of two `double`s by their patterns: no NaN equals anything, and the two zeros are equal.
abbrev magnitude_bits : ℕ → ℕ
magnitude_bits n = n % 2 ^ 63

double_eq : ℕ → ℕ → Bool
double_eq a b =
    leb (magnitude_bits a) 0x7FF0000000000000
    && leb (magnitude_bits b) 0x7FF0000000000000
    && (a == b || (magnitude_bits a == 0 && magnitude_bits b == 0))

variant_eq : Variant → Variant → Bool
unfolding double_eq bytes_eq
variant_eq (int64 a) (int64 b) = a == b
variant_eq (text a) (text b) = bytes_eq a b
variant_eq (double a) (double b) = double_eq a b
variant_eq _ _ = false

unfoldable pub value_eq : Value → Value → Bool
unfolding variant_eq
value_eq v w = is_type v.type w.type && variant_eq v.value w.value
