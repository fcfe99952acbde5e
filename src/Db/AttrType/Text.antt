-- ===== src/Db/AttrType/Text.antt =====
-- The text form of the types of attributes, src/reir/db/attr_type.cpp.
use reir.Prelude.{
  ℕ, ◌<◌, ◌^◌, ◌≡◌, refl, arith, true, false, [], ◌∷◌, ◌++◌, append_assoc, Bytes, contains, ◌==◌,
  ok,
}
use reir.Prelude.Decimal.{print, stoll, read-print, contains-print, is_digit}
use reir.Db.AttrType.{AttrType, serialize_type, deserialize_type, skip_to, read_to}

pub read_to-text :
    (c : ℕ) (t rest : Bytes) → contains t c ≡ false → read_to c (t ++ c ∷ rest) ≡ ok (t, rest)
unfolding read_to contains
read_to-text c [] rest h = let e : (c == c) ≡ true = ground arith in rw e refl
read_to-text c (x ∷ t) rest h =
    let e : (x == c) ≡ false = ground arith in rw (e, read_to-text c t rest (ground arith)) refl

pub stoll-print : (n : ℕ) → n < 2 ^ 63 → stoll (print n) ≡ ok n
unfolding stoll
stoll-print n h = read-print 64 n h

-- The numbers of a type that `std::stoll` reads.
abbrev pub IsWritable : AttrType → Type 0
IsWritable t = (t.type < 2 ^ 63) × (t.param < 2 ^ 63)

pub deserialize-serialize_type :
    (t : AttrType) (rest : Bytes)
    → IsWritable t
    → deserialize_type (serialize_type t ++ rest) ≡ ok (t, rest)
unfolding deserialize_type serialize_type skip_to
deserialize-serialize_type t rest (h, k) =
    let first =
      read_to-text b' ' (print t.type) (print t.param ++ b')' ∷ rest)
        (contains-print b' ' t.type (unfold is_digit in refl)) in
    let second =
      read_to-text b')' (print t.param) rest
        (contains-print b')' t.param (unfold is_digit in refl)) in
    rw
      (
        append_assoc (print t.type) (b' ' ∷ (print t.param ++ b')' ∷ [])) rest,
        append_assoc (print t.param) (b')' ∷ []) rest,
        first,
        stoll-print t.type h,
        second,
        stoll-print t.param k,
      )
      refl
