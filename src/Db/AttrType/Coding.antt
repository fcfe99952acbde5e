-- ===== src/Db/AttrType/Coding.antt =====
-- The codec of the types of attributes, src/reir/db/attr_type.cpp, beside that of values.
use reir.Prelude.{
  ℕ, ◌+◌, ◌≤◌, ◌≡◌, refl, ◌∙◌, true, false, Bool-cases, inl, inr, Bytes, ◌==◌, ok, throw, Error,
}
use reir.Db.Memory.{load}
use reir.Db.Value.{
  ValType, int, varchar, float, unknown, Variant, int64, text, double, Value, is_int, is_varchar,
  as_int, as_varchar, serialize, deserialize,
}
use reir.Db.Value.Laws.{IsStorable, Fits, deserialize-serialize, serialize-keeps}
use reir.Db.AttrType.{AttrType, integer, string, encode, decode}

absurd_throw {ℓ} : {C : Type ℓ} {e : Error} {b : Bytes} → throw e ≡ ok b → C
absurd_throw h = cc

-- Where `encode` succeeds, it writes what `serialize` writes, and `decode` reads as `deserialize` does.
abbrev Agrees : AttrType → ValType → Variant → Bytes → ℕ → Bytes → Type 0
Agrees t k x buffer at after =
    (serialize (record { type = k; value = x }) buffer at ≡ ok after)
    × (decode t after at ≡ deserialize after at k)

integer-Agrees :
    (t : AttrType) (k : ValType) (x : Variant) (buffer : Bytes) (at : ℕ) {after : Bytes}
    → Fits k x
    → (t.type == integer) ≡ true
    → encode t (record { type = k; value = x }) buffer at ≡ ok after
    → Agrees t k x buffer at after
unfolding encode decode serialize deserialize is_int as_int
integer-Agrees t int (int64 n) buffer at fits i h = (rw i at h, rw i refl)
integer-Agrees t int (text _) buffer at fits i h = absurd fits
integer-Agrees t int (double _) buffer at fits i h = absurd fits
integer-Agrees t varchar x buffer at fits i h = absurd_throw (rw i at h)
integer-Agrees t float x buffer at fits i h = absurd_throw (rw i at h)
integer-Agrees t unknown x buffer at fits i h = absurd fits

string-Agrees :
    (t : AttrType) (k : ValType) (x : Variant) (buffer : Bytes) (at : ℕ) {after : Bytes}
    → Fits k x
    → (t.type == integer) ≡ false
    → (t.type == string) ≡ true
    → encode t (record { type = k; value = x }) buffer at ≡ ok after
    → Agrees t k x buffer at after
unfolding encode decode serialize deserialize is_varchar as_varchar
string-Agrees t varchar (text s) buffer at fits i e h = (rw (i, e) at h, rw (i, e) refl)
string-Agrees t varchar (int64 _) buffer at fits i e h = absurd fits
string-Agrees t varchar (double _) buffer at fits i e h = absurd fits
string-Agrees t int x buffer at fits i e h = absurd_throw (rw (i, e) at h)
string-Agrees t float x buffer at fits i e h = absurd_throw (rw (i, e) at h)
string-Agrees t unknown x buffer at fits i e h = absurd fits

encode-Agrees :
    (t : AttrType) (k : ValType) (x : Variant) (buffer : Bytes) (at : ℕ) {after : Bytes}
    → Fits k x
    → encode t (record { type = k; value = x }) buffer at ≡ ok after
    → Agrees t k x buffer at after
unfolding encode
encode-Agrees t k x buffer at fits h = elim (Bool-cases (t.type == integer)) [
  | inl i ↦ integer-Agrees t k x buffer at fits i h
  | inr n ↦ elim (Bool-cases (t.type == string)) [
    | inl s ↦ string-Agrees t k x buffer at fits n s h
    | inr o ↦ absurd_throw (rw (n, o) at h)
  ]
]

-- If a storable value is written to a buffer by `encode`, `decode` reads it there.
pub decode-encode :
    (t : AttrType) (v : Value) (buffer : Bytes) (at : ℕ) {after : Bytes}
    → IsStorable v
    → encode t v buffer at ≡ ok after
    → decode t after at ≡ ok v
decode-encode t v buffer at fits h =
    let (s, d) = encode-Agrees t v.type v.value buffer at fits h in
    d ∙ deserialize-serialize v buffer at fits s

pub encode-keeps :
    (t : AttrType) (v : Value) (buffer : Bytes) (at from n : ℕ) {after : Bytes}
    → IsStorable v
    → from + n ≤ at
    → encode t v buffer at ≡ ok after
    → load after from n ≡ load buffer from n
encode-keeps t v buffer at from n fits le h =
    serialize-keeps v buffer at from n fits le (encode-Agrees t v.type v.value buffer at fits h).0
