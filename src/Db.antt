-- ===== src/Db.antt =====
-- The storage layer, src/reir/db: values, attributes, schemas and their catalogue.
pub mod Memory
pub mod Value
pub mod MaybeValue
pub mod AttrType
pub mod Attribute
pub mod Schema
pub mod MetaData
