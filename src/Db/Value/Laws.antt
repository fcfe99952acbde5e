-- ===== src/Db/Value/Laws.antt =====
-- The codec of values, serialize and deserialize of src/reir/db/value.cpp.
use reir.Prelude.{
  ℕ, ◌+◌, ◌<◌, ◌≤◌, ◌^◌, ◌≡◌, refl, ◌∙◌, arith, Bytes, length, Result, ok, fault, bind, bind-eq-ok,
  ◌⊎◌, inl, inr,
}
use reir.Db.Memory.{store, load, le_bytes, read_size_t}
use reir.Db.Memory.Laws.{
  store-cases, store-over, length-store, load-word, load-store, load-store-before, from_le-le_bytes,
}
use reir.Db.Value.{
  ValType, int, varchar, float, unknown, Variant, int64, text, double, Value, serialize,
  deserialize, word, serialized_length, of_slice,
}

abbrev pub Fits : ValType → Variant → Type 0
Fits int (int64 n) = n < 2 ^ 64
Fits varchar (text s) = length s < 2 ^ 64
Fits float (double n) = n < 2 ^ 64
Fits _ _ = ⊥

-- A value of one of the constructors but the default one, of a size that 64 bits hold.
abbrev pub IsStorable : Value → Type 0
IsStorable v = Fits v.type v.value

varchar-roundtrip :
    (s : Bytes) (buffer : Bytes) (at : ℕ) {middle after : Bytes}
    → length s < 2 ^ 64
    → store buffer at (le_bytes word (length s)) ≡ ok middle
    → store middle (at + word) s ≡ ok after
    → deserialize after at varchar ≡ ok (of_slice s)
unfolding deserialize read_size_t
varchar-roundtrip s buffer at fits h k =
    rw
      (
        load-store-before _ (at + word) s at 8 (omega arith) k,
        load-word buffer at (length s) h,
        from_le-le_bytes 8 (length s) fits,
        load-store _ (at + word) s k,
      )
      refl

Fits-roundtrip :
    (t : ValType) (x : Variant) (buffer : Bytes) (at : ℕ) {after : Bytes}
    → Fits t x
    → serialize (record { type = t; value = x }) buffer at ≡ ok after
    → deserialize after at t ≡ ok (record { type = t; value = x })
unfolding deserialize serialize
Fits-roundtrip int (int64 n) buffer at fits h =
    rw (load-word buffer at n h, from_le-le_bytes 8 n fits) refl
Fits-roundtrip float (double n) buffer at fits h =
    rw (load-word buffer at n h, from_le-le_bytes 8 n fits) refl
Fits-roundtrip varchar (text s) buffer at fits h =
    let (middle, first, second) =
      bind-eq-ok (store buffer at (le_bytes word (length s))) (λ b. store b (at + word) s) h in
    varchar-roundtrip s buffer at fits first second
Fits-roundtrip unknown x buffer at fits h = elim fits [ ]
Fits-roundtrip int (text _) buffer at fits h = elim fits [ ]
Fits-roundtrip int (double _) buffer at fits h = elim fits [ ]
Fits-roundtrip varchar (int64 _) buffer at fits h = elim fits [ ]
Fits-roundtrip varchar (double _) buffer at fits h = elim fits [ ]
Fits-roundtrip float (int64 _) buffer at fits h = elim fits [ ]
Fits-roundtrip float (text _) buffer at fits h = elim fits [ ]

-- If a storable value is written to a buffer by `serialize`, `deserialize` reads it there.
pub deserialize-serialize :
    (v : Value) (buffer : Bytes) (at : ℕ) {after : Bytes}
    → IsStorable v
    → serialize v buffer at ≡ ok after
    → deserialize after at v.type ≡ ok v
deserialize-serialize v = Fits-roundtrip v.type v.value

-- What stands in front of a value is not written to.
Fits-keeps :
    (t : ValType) (x : Variant) (buffer : Bytes) (at from n : ℕ) {after : Bytes}
    → Fits t x
    → from + n ≤ at
    → serialize (record { type = t; value = x }) buffer at ≡ ok after
    → load after from n ≡ load buffer from n
unfolding serialize
Fits-keeps int (int64 k) buffer at from n fits le h =
    load-store-before buffer at (le_bytes word k) from n le h
Fits-keeps float (double k) buffer at from n fits le h =
    load-store-before buffer at (le_bytes word k) from n le h
Fits-keeps varchar (text s) buffer at from n fits le h =
    let (middle, first, second) =
      bind-eq-ok (store buffer at (le_bytes word (length s))) (λ b. store b (at + word) s) h in
    load-store-before middle (at + word) s from n (omega arith) second
    ∙ load-store-before buffer at (le_bytes word (length s)) from n le first
Fits-keeps unknown x buffer at from n fits le h = absurd fits
Fits-keeps int (text _) buffer at from n fits le h = absurd fits
Fits-keeps int (double _) buffer at from n fits le h = absurd fits
Fits-keeps varchar (int64 _) buffer at from n fits le h = absurd fits
Fits-keeps varchar (double _) buffer at from n fits le h = absurd fits
Fits-keeps float (int64 _) buffer at from n fits le h = absurd fits
Fits-keeps float (text _) buffer at from n fits le h = absurd fits

pub serialize-keeps :
    (v : Value) (buffer : Bytes) (at from n : ℕ) {after : Bytes}
    → IsStorable v
    → from + n ≤ at
    → serialize v buffer at ≡ ok after
    → load after from n ≡ load buffer from n
serialize-keeps v = Fits-keeps v.type v.value

ok_injective : {a b : ℕ} → ok a ≡ ok b → a ≡ b
ok_injective h = cc

fault-behind :
    {m : Result Bytes} {f : Bytes → Result Bytes}
    → (m ≡ fault) ⊎ ((b : Bytes) × (m ≡ ok b))
    → ((b : Bytes) → m ≡ ok b → f b ≡ fault)
    → bind m f ≡ fault
fault-behind (inl e) k = rw e refl
fault-behind (inr (b, e)) k = rw e (k b e)

-- To serialize a string into a buffer of exactly its `serialized_length` goes outside the buffer.
pub serialize-varchar-overflow :
    (s : Bytes) (buffer : Bytes)
    → serialized_length (of_slice s) ≡ ok (length buffer)
    → serialize (of_slice s) buffer 0 ≡ fault
unfolding serialized_length serialize
serialize-varchar-overflow s buffer h =
    let n : length s ≡ length buffer = ok_injective h in
    fault-behind (store-cases buffer 0 (le_bytes word (length s))) λ middle e.
      store-over middle 8 s
        (let l = length-store buffer 0 (le_bytes word (length s)) e in omega arith)
