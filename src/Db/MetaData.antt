-- ===== src/Db/MetaData.antt =====
-- The catalogue of tables, src/reir/db/metadata.hpp and metadata.cpp. The LevelDB behind it is a
-- parameter: a store with `Put` and `Get` by key; `create_table` does not look at the status of `Put`.
pub mod Laws
use reir.Prelude.{
  List, [], ◌∷◌, ◌++◌, Option, none, some, Bool, Bytes, codes, bytes_eq, if◌then◌else◌, Result, ok,
  throw, bind, table_not_found,
}
use reir.Db.Attribute.{Attribute}
use reir.Db.Schema.{Schema, serialize_schema, deserialize_schema}

-- `tables_.insert`: a key that is there keeps its schema.
unfoldable pub insert_table : Bytes → Schema → List (Bytes × Schema) → List (Bytes × Schema)
insert_table key s [] = (key, s) ∷ []
insert_table key s ((k, t) ∷ rest) =
    if bytes_eq key k then (k, t) ∷ rest else (k, t) ∷ insert_table key s rest

abbrev pub key_of : Bytes → Bytes
key_of name = codes "table:global_schema:" ++ name

-- What `get_schema` makes of the outcome of `Get`.
unfoldable pub schema_of : Option Bytes → Result Schema
schema_of none = throw table_not_found
schema_of (some value) = deserialize_schema value

module _ (Db : Type 0) where
  pub record MetaData : Type 0 where
    pub tables : List (Bytes × Schema)
    pub db : Db

  module _ (put : Db → Bytes → Bytes → Db) (get : Db → Bytes → Option Bytes) where
    unfoldable pub create_table : MetaData → Bytes → List Attribute → MetaData
    create_table m name attrs =
        let new_schema : Schema = record { name = name; attrs = attrs } in
        record {
          tables = insert_table (key_of name) new_schema m.tables;
          db = put m.db (key_of name) (serialize_schema new_schema);
        }

    -- The body of `drop_table` is empty.
    unfoldable pub drop_table : MetaData → Bytes → MetaData
    drop_table m name = m

    unfoldable pub get_schema : MetaData → Bytes → Result Schema
    get_schema m name = schema_of (get m.db (key_of name))
