-- ===== src/Db/MetaData/Laws.antt =====
-- The catalogue of src/reir/db/metadata.cpp over a store that keeps what is put: create_table and
-- get_schema.
use reir.Prelude.{◌≡◌, ◌≢◌, refl, List, [], ◌∷◌, ◌++◌, Option, some, Bytes, codes, ok}
use reir.Db.Attribute.{Attribute}
use reir.Db.Schema.{serialize_schema}
use reir.Db.Schema.Text.{IsSaved, deserialize-serialize_schema}
use reir.Db.MetaData.{MetaData, create_table, get_schema, key_of, schema_of}

append-cancel : (front a b : Bytes) → front ++ a ≡ front ++ b → a ≡ b
append-cancel [] a b h = h
append-cancel (x ∷ front) a b h = append-cancel front a b (cc)

-- Two tables have two keys.
key_of-injective : (a b : Bytes) → key_of a ≡ key_of b → a ≡ b
key_of-injective a b = append-cancel (codes "table:global_schema:") a b

module _ (Db : Type 0) (put : Db → Bytes → Bytes → Db) (get : Db → Bytes → Option Bytes) where
  -- What is put under a key is got there.
  abbrev pub GetsPut : Type 0
  GetsPut = (d : Db) (k v : Bytes) → get (put d k v) k ≡ some v

  -- A put leaves the other keys as they are.
  abbrev pub KeepsOthers : Type 0
  KeepsOthers = (d : Db) (k v k' : Bytes) → k ≢ k' → get (put d k v) k' ≡ get d k'

  -- After `create_table`, `get_schema` returns the schema with the columns given, whatever stood
  -- under the name, if the store returns what was put and the schema is one whose text can be
  -- read.
  pub get_schema-create_table :
      GetsPut
      → (m : MetaData Db) (name : Bytes) (attrs : List Attribute)
      → IsSaved (record { name = name; attrs = attrs })
      → get_schema Db put get (create_table Db put get m name attrs) name
        ≡ ok (record { name = name; attrs = attrs })
  unfolding create_table get_schema schema_of
  get_schema-create_table h m name attrs saved =
      rw (h m.db (key_of name) (serialize_schema (record { name = name; attrs = attrs })))
        (deserialize-serialize_schema (record { name = name; attrs = attrs }) saved)

  -- If a put leaves the other keys of the store as they are, `create_table` leaves what
  -- `get_schema` says of the other names.
  pub get_schema-create_table-other :
      KeepsOthers
      → (m : MetaData Db) (name other : Bytes) (attrs : List Attribute) → name ≢ other
      → get_schema Db put get (create_table Db put get m name attrs) other
        ≡ get_schema Db put get m other
  unfolding create_table get_schema
  get_schema-create_table-other h m name other attrs ne =
      rw
        (h m.db (key_of name) (serialize_schema (record { name = name; attrs = attrs }))
          (key_of other) (λ e. ne (key_of-injective name other e)))
        refl
