-- ===== src/Db/Attribute/Text.antt =====
-- The text form of attributes, src/reir/db/attribute.cpp.
use reir.Prelude.{
  ℕ, ◌<◌, ◌%◌, ◌^◌, ◌≡◌, refl, arith, false, [], ◌∷◌, ◌++◌, append_assoc, Bytes, contains, ok,
}
use reir.Prelude.Decimal.{print, stoll, contains-print, read-blank-print, is_digit}
use reir.Db.AttrType.{serialize_type, skip_to}
use reir.Db.AttrType.Text.{read_to-text, IsWritable, deserialize-serialize_type}
use reir.Db.Attribute.{Attribute, serialize_attribute, deserialize_attribute}

stoll-blank-print : (n : ℕ) → n < 2 ^ 63 → stoll (b' ' ∷ print n) ≡ ok n
unfolding stoll
stoll-blank-print n h = read-blank-print 64 n h

-- No blank stands in the name; the numbers can be read, and the property is of its width.
abbrev pub IsNamed : Attribute → Type 0
IsNamed a = (contains a.name b' ' ≡ false) × IsWritable a.type × (a.property < 2 ^ 32)

pub deserialize-serialize_attribute :
    (a : Attribute) (rest : Bytes)
    → IsNamed a
    → deserialize_attribute (serialize_attribute a ++ rest) ≡ ok (a, rest)
unfolding deserialize_attribute serialize_attribute skip_to contains
deserialize-serialize_attribute a rest (n, t, p) =
    let tail = b' ' ∷ (print a.property ++ b')' ∷ rest) in
    let name = read_to-text b' ' a.name (serialize_type a.type ++ tail) n in
    let type = deserialize-serialize_type a.type tail t in
    let property =
      read_to-text b')' (b' ' ∷ print a.property) rest
        (contains-print b')' a.property (unfold is_digit in refl)) in
    let small : a.property % 2 ^ 32 ≡ a.property = omega arith in
    rw
      (
        append_assoc a.name
            (b' ' ∷ (serialize_type a.type ++ b' ' ∷ (print a.property ++ b')' ∷ []))) rest,
        append_assoc (serialize_type a.type) (b' ' ∷ (print a.property ++ b')' ∷ [])) rest,
        append_assoc (print a.property) (b')' ∷ []) rest,
        name,
        type,
        property,
        stoll-blank-print a.property (omega arith),
        small,
      )
      refl
