-- ===== src/Analyze/Statements.antt =====
-- The `analyze` methods of src/reir/exec/ast_statement.hpp, on the tables of Analyze.Expressions.
-- A variable stays in its table behind the block that declares it.
use reir.Prelude.{
  ℕ, ◌||◌, Option, none, some, Bytes, bytes_eq, Result, ok, throw, fault, bind, List, [], ◌∷◌,
  unknown_variable_type,
}
use reir.Ast.{
  Part, unset_part, no_part, part, TypeId, TupleType, NodeType, Types, array_type, tuple_type,
  Expression, row_literal, array_literal, Statement, Block, Init, ElseBlock, block, define, emit,
  expr_statement, for, define_tuple, if_else, jump, insert, scan, let_, transaction, unset_init,
  no_init, init, no_else, else_block,
}
use reir.Parser.Types.{type_id}
use reir.Analyze.{Table, entry, column_types}
use reir.Analyze.Expressions as E
use reir.Analyze.Expressions.{Context, set_type, set_variable, deref, analyze}

-- The pointers that the columns give, behind those that are there.
unfoldable pub push_types : Types → List (Option NodeType) → Types
push_types Types.nil [] = Types.nil
push_types Types.nil (none ∷ ts) = Types.cons_null (push_types Types.nil ts)
push_types Types.nil (some t ∷ ts) = Types.cons t (push_types Types.nil ts)
push_types (Types.cons t us) ts = Types.cons t (push_types us ts)
push_types (Types.cons_null us) ts = Types.cons_null (push_types us ts)

-- `TupleType::analyze`.
unfoldable pub analyze_tuple : Table → TypeId → TupleType → Types → Result NodeType
analyze_tuple table i t ts =
    bind (column_types table t.type_names) λ us. ok (tuple_type i t (push_types ts us))

-- The analysis of a tuple type that was parsed, entered under a name.
unfoldable pub define_type : Bytes → TupleType → Context → Result Context
unfolding analyze_tuple push_types
define_type name t c =
    bind (analyze_tuple c.types TypeId.tuple t Types.nil) λ u. ok (set_type c name (some u))

unfoldable pub analyze_schema : Option TupleType → Bytes → Context → Result Context
analyze_schema none name c = fault
analyze_schema (some t) name c = define_type name t c

-- The cases of `Let`: what its expression is.
pub data Initializer : Type 0 where
  from_row from_array from_other : Initializer

unfoldable pub initializer : Expression → Initializer
initializer (row_literal es) = from_row
initializer (array_literal es) = from_array
initializer _ = from_other

-- A row, of the type that is written, if one is: that has to be a tuple type.
unfoldable pub declare_row : Option NodeType → Bytes → Option NodeType → Context → Result Context
declare_row none name t c = ok (set_variable c name t)
declare_row (some (tuple_type i u us)) name t c =
    bind (analyze_tuple c.types i u us)
      λ ty. ok (set_variable (set_type c name (some ty)) name (some ty))
declare_row (some _) name t c = fault

-- The type of the first element gives a second array type, of the same elements.
unfoldable pub declare_array : Bytes → Option NodeType → Context → Result Context
declare_array name t c = bind (deref t) λ ty.
    let a = array_type (type_id ty) in ok (set_variable (set_type c name (some a)) name (some a))

unfoldable pub declare_other : Option NodeType → Bytes → Option NodeType → Context → Result Context
declare_other none name t c = ok (set_variable c name t)
declare_other (some _) name t c = throw unknown_variable_type

unfoldable pub declare :
    Initializer → Option NodeType → Bytes → Option NodeType → Context → Result Context
declare from_row type = declare_row type
declare from_array type = declare_array
declare from_other type = declare_other type

-- `local_schema_table_[table]`, and the type of the rows that are scanned.
unfoldable pub open_scan : Bytes → Bytes → Context → Context
open_scan table row c =
    set_variable
      (record c {
        types = E.insert c.types table (entry (c.types table));
        schemas = λ j. bytes_eq j table || c.schemas j;
      })
      row (entry (c.types table))

-- What analyzes a statement gives the tables.
abbrev pub Tables : Type 0
Tables = Context → Result Context

module _ (address : ℕ → Bytes) where
  -- An expression, whose type stays in its node.
  unfoldable pub analyze_value : Expression → Context → Result Context
  analyze_value e c = bind (analyze address e c) λ (c₁, _). ok c₁

  -- A pointer without a value is read.
  unfoldable pub analyze_optional : Part → Context → Result Context
  analyze_optional unset_part c = fault
  analyze_optional no_part c = ok c
  analyze_optional (part e) c = analyze_value e c

  unfoldable pub analyze_define : Option TupleType → Bytes → Context → Result Context
  unfolding analyze_schema
  analyze_define schema name c = analyze_schema schema name c

  unfoldable pub analyze_for : Tables → Part → Part → Tables → Tables
  unfolding analyze_optional
  analyze_for first cond every blk c =
      bind (first c)
        λ c₁. bind (analyze_optional cond c₁) λ c₂. bind (analyze_optional every c₂) λ c₃. blk c₃

  unfoldable pub analyze_if : Expression → Tables → Tables → Tables
  unfolding analyze_value
  analyze_if cond true_block false_block c =
      bind (analyze_value cond c) λ c₁. bind (true_block c₁) λ c₂. false_block c₂

  unfoldable pub analyze_scan : Bytes → Bytes → Tables → Tables
  analyze_scan table row blk c = blk (open_scan table row c)

  unfoldable pub analyze_let : Option NodeType → Bytes → Expression → Tables
  unfolding declare initializer
  analyze_let type name e c =
      bind (analyze address e c) λ (c₁, t). declare (initializer e) type name t c₁

  unfoldable mutual
    unfolding analyze_define analyze_for analyze_if analyze_scan analyze_let

    pub analyze_statement : Statement → Context → Result Context
    analyze_statement (block b) c = analyze_block b c
    analyze_statement (define schema name) c = analyze_define schema name c
    analyze_statement (emit e) c = analyze_value e c
    analyze_statement (expr_statement e) c = analyze_value e c
    analyze_statement (for i cond every b) c =
        analyze_for (analyze_init i) cond every (analyze_block b) c
    analyze_statement (define_tuple name t) c = define_type name t c
    analyze_statement (if_else cond b e) c = analyze_if cond (analyze_block b) (analyze_else e) c
    analyze_statement (jump j) c = ok c
    analyze_statement (insert table e) c = analyze_value e c
    analyze_statement (scan table row b) c = analyze_scan table row (analyze_block b) c
    analyze_statement (let_ type name e) c = analyze_let type name e c
    analyze_statement (transaction isolation b) c = analyze_block b c

    pub analyze_block : Block → Context → Result Context
    analyze_block Block.nil c = ok c
    analyze_block (Block.cons s b) c = bind (analyze_statement s c) (analyze_block b)

    pub analyze_init : Init → Context → Result Context
    analyze_init unset_init c = fault
    analyze_init no_init c = ok c
    analyze_init (init s) c = analyze_statement s c

    pub analyze_else : ElseBlock → Context → Result Context
    analyze_else no_else c = ok c
    analyze_else (else_block b) c = analyze_block b c
