-- ===== src/Examples/Rows.antt =====
-- Runs of the layout of rows: a table `t` with a key `a` and a column `b`.
use reir.Prelude.{
  ℕ, ◌+◌, ◌≡◌, refl, Bool, false, not, ◌&&◌, Bytes, ◌++◌, [], ◌∷◌, List, some, none, map, codes, ok,
  arith,
}
use reir.Ast.{TypeId, Types, primary_type}
use reir.Db.AttrType as AttrType
use reir.Db.Attribute.{is_key, attribute_fixed_length, attribute_default_size}
use reir.Db.AttrType.{default_size, fixed_length}
use reir.Db.Schema.{
  Schema, columns, get_prefix, get_tuple_length, schema_is_key, sum_default_sizes, all_fixed,
  get_fixed_key_length, get_fixed_value_length, fixed_key_length, fixed_value_length,
}
use reir.Slice.{bytes_less}
use reir.Codegen.Rows.{
  in_key, in_value, Copy, define_schema, insert_buffers, insert_copies, scan_loads, prefix_end,
  all_integer, copies,
}
use reir.Codegen.Rows.Layout.{AllWithin, insert_copies-AllWithin}
use reir.Codegen.Rows.Agreement.{scan_loads-insert_copies}
use reir.Codegen.Rows.Range.{prefix_end-extends}

abbrev table : Schema
table = record {
  name = codes "t";
  attrs =
      record {
        name = codes "a";
        type = record { type = AttrType.integer; param = 0 };
        property = 2;
      }
      ∷ record {
        name = codes "b";
        type = record { type = AttrType.integer; param = 0 };
        property = 0;
      }
      ∷ [];
}

defined :
    define_schema
      (codes "t")
      (record {
        type_names = codes "int" ∷ codes "int" ∷ [];
        names = codes "a" ∷ codes "b" ∷ [];
        props = 2 ∷ 0 ∷ [];
        params = none ∷ none ∷ [];
      })
      (Types.cons
        (primary_type TypeId.integer)
        (Types.cons (primary_type TypeId.integer) Types.nil))
    ≡ ok table
unfolding define_schema
defined = refl

abbrev two_copies : List Copy
two_copies =
    record { place = in_key 2; src = 0; len = 8 }
    ∷ record { place = in_value 0; src = 8; len = 8 }
    ∷ []

copied : insert_copies table (columns table) ≡ ok (two_copies, 10, 8)
unfolding insert_copies columns get_prefix schema_is_key is_key get_tuple_length
    attribute_default_size default_size copies
copied = refl

buffers : insert_buffers (some table) false ≡ ok (11, 8)
unfolding insert_buffers fixed_key_length all_fixed is_key attribute_fixed_length fixed_length
    fixed_value_length get_fixed_key_length sum_default_sizes attribute_default_size default_size
    get_fixed_value_length
buffers = refl

abbrev key_len : ℕ
key_len = 10

abbrev value_len : ℕ
value_len = 8

insert_copies-AllWithin_example : (key_len + 1 ≡ 11) × (value_len ≡ 8) × AllWithin 10 8 two_copies
insert_copies-AllWithin_example =
    insert_copies-AllWithin table false 11 8 10 8 two_copies buffers (omega arith) (omega arith)
      copied

integers : all_integer table.attrs ≡ ok tt
unfolding all_integer
integers = refl

scan_loads-insert_copies_example : scan_loads table ≡ ok (map (λ c. c.place) two_copies)
scan_loads-insert_copies_example =
    scan_loads-insert_copies table two_copies 10 8 integers (refl, (refl, tt)) copied

last_key : prefix_end (get_prefix table) ≡ ok (codes "u:")
unfolding prefix_end get_prefix
last_key = refl

-- A cursor as the engine documents it.
abbrev half_open : Bytes → Bytes → Bytes → Bool
half_open first last key = not (bytes_less key first) && bytes_less key last

-- A key of the table `ts`.
prefix_end-extends_example :
    half_open (get_prefix table) (codes "u:") (table.name ++ codes "s:1")
    ≡ not (bytes_less (codes "s:1") (codes ":"))
prefix_end-extends_example =
    prefix_end-extends half_open table [] (codes "s:1") (codes "u:") b't' (λ first last key. refl)
      refl (omega arith) last_key

within : bytes_less (codes "s:1") (codes ":") ≡ false
unfolding bytes_less
within = refl
