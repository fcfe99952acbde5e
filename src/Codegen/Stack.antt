-- ===== src/Codegen/Stack.antt =====
-- The places on the stack: `alloca_stack` of the statements of src/reir/exec/ast_statement_codegen.cpp
-- and ast_statement.hpp, and the pass of compiler.cpp that calls it for each statement that
-- `each_statement` visits. An insert and a scan keep their places in themselves, and refuse to be
-- given others: the first argument says whether the pass has been there before. A table that the
-- pass creates is listed; the table of types of the analysis, which a tuple type enters again, is not
-- read any more.
pub mod Growth
pub mod Variables
pub mod Placed
pub mod Twice
pub mod Schemas
use reir.Prelude.{
  ℕ, Bool, true, false, List, [], ◌∷◌, ◌++◌, map, Option, none, some, Bytes, codes, if◌then◌else◌,
  Result, ok, throw, fault, bind, undefined_table,
}
use reir.Ast.{
  NodeType, TupleType, Types, Expression, Expressions, number, string, binary, pointer_of,
  row_literal, array_literal, variable_reference, function_call, array_reference, member_reference,
  assign, Statement, Block, Init, ElseBlock, block, define, emit, expr_statement, for, define_tuple,
  if_else, jump, insert, scan, let_, transaction, unset_init, no_init, init, no_else, else_block,
}
use reir.Db.Schema.{Schema, get_prefix}
use reir.Codegen.Rows.{define_schema, insert_buffers, scan_buffers}
use reir.Codegen.Types.{
  LlvmType, int8, int64, array_of, struct, Map, Setting, put, TypeTable, llvm_types, get_type,
}

-- The tables of the `CompilerContext`, the allocations (the last one first), and the schemas that
-- are created (the last one first). A prefix has the name of its global.
pub record Frame : Type 0 where
  pub variables : Map LlvmType
  pub types : TypeTable
  pub schemas : Map Schema
  pub prefixes : Map Bytes
  pub slots : List LlvmType
  pub created : List Schema

abbrev pub Pass : Type 0
Pass = Frame → Result Frame

abbrev pub alloca : LlvmType → Frame → Frame
alloca t f = record f { slots = t ∷ f.slots }

abbrev pub set_variable : Bytes → LlvmType → Frame → Frame
set_variable n t f = record f { variables = put f.variables n t }

unfoldable pub find_or_create_prefix : Bytes → Bytes → Frame → Frame
find_or_create_prefix prefix name f = elim (f.prefixes prefix) [
  | none ↦ record f { prefixes = put f.prefixes prefix name }
  | some _ ↦ f
]

abbrev pub is_struct : LlvmType → Bool
is_struct (struct name ts) = true
is_struct _ = false

unfoldable pub alloca_struct : LlvmType → Frame → Frame
alloca_struct t f = if is_struct t then alloca t f else f

-- A definition without a schema is followed through null.
unfoldable pub define_place : (TupleType → Types) → Option TupleType → Bytes → Pass
define_place columns none name f = fault
define_place columns (some t) name f =
    bind (define_schema name t (columns t))
      λ s. ok (record f { schemas = put f.schemas name s; created = s ∷ f.created })

unfoldable pub row_struct : Bytes → Schema → LlvmType
row_struct row s = struct row (llvm_types (map (λ _. int64) s.attrs))

-- The places of a scan, with the bounds of its keys and the sizes of its buffers.
unfoldable pub scan_frame : Bytes → Bytes → Schema → Bytes × Bytes × ℕ × ℕ → Frame → Frame
unfolding find_or_create_prefix row_struct
scan_frame table row s (first, last, key, value) f =
    let f₁ =
      find_or_create_prefix last (table ++ codes "_table_prefix_end")
        (find_or_create_prefix first (table ++ codes "_table_prefix_begin") f) in
    let t = row_struct row s in
    let f₂ = alloca t (alloca (array_of int8 value) (alloca (array_of int8 key) f₁)) in
    set_variable row t (record f₂ { types = put f₂.types row t })

unfoldable pub scan_place : Option Schema → Bytes → Bytes → Bool → Pass
unfolding scan_frame
scan_place none table row again f = fault
scan_place (some s) table row again f =
    bind (scan_buffers (some s) again) λ r. ok (scan_frame table row s r f)

-- What a type is needed for.
abbrev pub Typed : Type 0
Typed = Expression → (LlvmType → Frame → Frame) → Pass

-- The buffers of an insert, below the place of its row.
unfoldable pub insert_frame : Bytes → Schema → ℕ → ℕ → Frame → Frame
unfolding find_or_create_prefix
insert_frame table s key value f = alloca (array_of int8 value) (
    alloca (array_of int8 key)
      (find_or_create_prefix (get_prefix s) (table ++ codes "_table_prefix") f))

unfoldable pub insert_place : Option Schema → Typed → Bytes → Expression → Bool → Pass
unfolding insert_frame
insert_place none typed table e again f = throw undefined_table
insert_place (some s) typed table e again f =
    bind (insert_buffers (some s) again)
      λ (key, value). typed e alloca (insert_frame table s key value f)

module _ (g : Setting) where
  unfoldable pub typed : Typed
  typed e k f =
      bind (get_type g f.variables e f.types) λ (t, types). ok (k t (record f { types = types }))

  -- For a value that `each_value` visits: the type of a struct is asked for twice.
  unfoldable pub visit_value : Expression → Pass
  unfolding typed
  visit_value e f = bind (get_type g f.variables e f.types) λ (t, types).
      let f₁ = record f { types = types } in
      let again = typed e alloca f₁ in if is_struct t then again else ok f₁

  unfoldable pub parent_places : Option Bytes → Pass
  unfolding visit_value
  parent_places none f = fault
  parent_places (some n) f = visit_value (variable_reference n) f

  unfoldable mutual
    unfolding visit_value parent_places

    pub value_places : Expression → Frame → Result Frame
    value_places (number n) f = ok f
    value_places (string s) f = ok f
    value_places (binary l op r) f = ok f
    value_places (pointer_of e) f = visit_value e f
    value_places (row_literal es) f = ok f
    value_places (array_literal es) f = bind (element_places es f) (visit_value (array_literal es))
    value_places (variable_reference n) f = visit_value (variable_reference n) f
    value_places (function_call p args) f = argument_places args f
    value_places (array_reference n idx) f =
        bind (visit_value (array_reference n idx) f) (parent_places n)
    value_places (member_reference p n) f =
        bind (visit_value (member_reference p n) f) (value_places p)
    value_places (assign e v) f = bind (visit_value (assign e v) f) (value_places v)

    pub element_places : Expressions → Frame → Result Frame
    element_places Expressions.nil f = ok f
    element_places (Expressions.cons e es) f = bind (value_places e f) (element_places es)

    pub argument_places : Expressions → Frame → Result Frame
    argument_places Expressions.nil f = ok f
    argument_places (Expressions.cons e es) f =
        bind (visit_value e f) λ f₁. bind (value_places e f₁) (argument_places es)

  -- The blocks of an `if` are asked too, and do nothing. The pointer to the first statement of a loop
  -- may have no value.
  unfoldable mutual
    unfolding typed value_places alloca_struct define_place scan_place insert_place

    pub alloca_stack : Bool → Statement → Frame → Result Frame
    alloca_stack again (block b) f = ok f
    alloca_stack again (define schema name) f = define_place g.columns schema name f
    alloca_stack again (emit e) f = typed e alloca f
    alloca_stack again (expr_statement e) f = bind (typed e alloca_struct f) (value_places e)
    alloca_stack again (for i cond every b) f = init_stack again i f
    alloca_stack again (define_tuple name t) f = ok f
    alloca_stack again (if_else cond b e) f = ok f
    alloca_stack again (jump j) f = ok f
    alloca_stack again (insert table e) f = insert_place (f.schemas table) typed table e again f
    alloca_stack again (scan table row b) f = scan_place (f.schemas table) table row again f
    alloca_stack again (let_ type n e) f = typed e (λ t f. set_variable n t (alloca t f)) f
    alloca_stack again (transaction isolation b) f = ok f

    pub init_stack : Bool → Init → Frame → Result Frame
    init_stack again unset_init f = fault
    init_stack again no_init f = ok f
    init_stack again (init s) f = alloca_stack again s f

  -- The pass is at the first statement of a loop twice: the loop calls it, and visits it.
  unfoldable mutual
    unfolding alloca_stack

    pub places : Statement → Frame → Result Frame
    places (block b) f = block_places b f
    places (for i cond every b) f = bind (init_stack true i f) (block_places b)
    places (if_else cond b e) f = bind (block_places b f) (else_places e)
    places (scan table row b) f = block_places b f
    places (transaction isolation b) f = block_places b f
    places (define schema name) f = ok f
    places (emit e) f = ok f
    places (expr_statement e) f = ok f
    places (define_tuple name t) f = ok f
    places (jump j) f = ok f
    places (insert table e) f = ok f
    places (let_ type n e) f = ok f

    pub block_places : Block → Frame → Result Frame
    block_places Block.nil f = ok f
    block_places (Block.cons s b) f =
        bind (alloca_stack false s f) λ f₁. bind (places s f₁) (block_places b)

    pub else_places : ElseBlock → Frame → Result Frame
    else_places no_else f = ok f
    else_places (else_block b) f = block_places b f
