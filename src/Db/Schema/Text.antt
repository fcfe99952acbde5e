-- ===== src/Db/Schema/Text.antt =====
-- The text form of schemas, src/reir/db/schema.cpp.
use reir.Prelude.{
  ℕ, zero, suc, ◌<◌, ◌≡◌, refl, ◌∙◌, arith, false, List, [], ◌∷◌, ◌++◌, Bytes, contains, length,
  length-append, ok, bind,
}
use reir.Db.AttrType.Text.{read_to-text}
use reir.Db.Attribute.{Attribute, serialize_attribute, deserialize_attribute}
use reir.Db.Attribute.Text.{IsNamed, deserialize-serialize_attribute}
use reir.Db.Schema.{
  Schema, serialize_attributes, serialize_schema, deserialize_attributes, deserialize_schema,
}

abbrev pub AreNamed : List Attribute → Type 0
AreNamed [] = Unit
AreNamed (a ∷ attrs) = IsNamed a × AreNamed attrs

-- No colon stands in the name.
abbrev pub IsSaved : Schema → Type 0
IsSaved s = (contains s.name b':' ≡ false) × AreNamed s.attrs

-- The loop takes an attribute from the front.
deserialize_attributes-step :
    (f : ℕ) (s : Bytes) {a : Attribute} {s' : Bytes}
    → length s' < length s
    → deserialize_attribute s ≡ ok (a, s')
    → deserialize_attributes (suc f) s
      ≡ bind (deserialize_attributes f s') (λ attrs. ok (a ∷ attrs))
unfolding deserialize_attributes
deserialize_attributes-step f [] l h = absurd (omega arith)
deserialize_attributes-step f (c ∷ s) l h = rw h refl

serialize_attribute-positive : (a : Attribute) → 0 < length (serialize_attribute a)
unfolding serialize_attribute
serialize_attribute-positive a = omega arith

deserialize-serialize_attributes :
    (f : ℕ) (attrs : List Attribute)
    → AreNamed attrs
    → length (serialize_attributes attrs) < f
    → deserialize_attributes f (serialize_attributes attrs) ≡ ok attrs
unfolding deserialize_attributes serialize_attributes
deserialize-serialize_attributes zero attrs h n = absurd (omega arith)
deserialize-serialize_attributes (suc f) [] h n = refl
deserialize-serialize_attributes (suc f) (a ∷ attrs) (h, k) n =
    let longer = length-append (serialize_attribute a) (serialize_attributes attrs) in
    let positive = serialize_attribute-positive a in
    deserialize_attributes-step f (serialize_attribute a ++ serialize_attributes attrs)
      (omega arith) (deserialize-serialize_attribute a (serialize_attributes attrs) h)
    ∙ rw (deserialize-serialize_attributes f attrs k (omega arith)) refl

-- What `deserialize` reads from the text that `serialize` writes for a schema is the schema, if
-- its name has no colon, the names of its attributes have no blank, the numbers of their types
-- and the parameters of these are below 2 ^ 63, and their properties are below 2 ^ 32.
pub deserialize-serialize_schema :
    (s : Schema) → IsSaved s → deserialize_schema (serialize_schema s) ≡ ok s
unfolding deserialize_schema serialize_schema
deserialize-serialize_schema s (n, k) =
    rw
      (
        read_to-text b':' s.name (serialize_attributes s.attrs) n,
        deserialize-serialize_attributes (suc (length (serialize_attributes s.attrs))) s.attrs k
            (omega arith),
      )
      refl
