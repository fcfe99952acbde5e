-- ===== src/Analyze/Expressions.antt =====
-- The `analyze` methods of src/reir/exec/ast_expression.hpp on the tables of
-- src/reir/exec/compiler_context.hpp. The `type_` that a node is given is the result, `none` for the
-- null pointer that its constructor leaves. A literal is entered in the table of types under its
-- address, which `address` gives by the number of the literals analyzed before.
use reir.Prelude.{
  ℕ, zero, suc, Bool, false, List, [], ◌∷◌, ◌++◌, Option, none, some, Bytes, codes, bytes_eq,
  if◌then◌else◌, Result, ok, throw, abort, fault, bind, undefined_variable, not_an_array,
  not_a_tuple, no_member, empty_array_literal,
}
use reir.Ast.{
  Operators, TypeId, NodeType, Types, primary_type, array_type, tuple_type, Expression, Expressions,
  number, string, binary, pointer_of, row_literal, array_literal, variable_reference, function_call,
  array_reference, member_reference, assign,
}
use reir.Parser.Types.{type_id}
use reir.Dump.{dump, dump_type}
use reir.Analyze.{Table, entry, operate}

-- The tables that the analysis reads and writes. Of `local_schema_table_` it matters which names
-- it has: the analysis enters null pointers.
pub record Context : Type 0 where
  pub types : Table
  pub variables : Table
  pub schemas : Bytes → Bool
  pub literals : ℕ

-- `table[name] = t`.
unfoldable pub insert : Table → Bytes → Option NodeType → Table
insert table name t j = if bytes_eq j name then some t else table j

abbrev pub set_type : Context → Bytes → Option NodeType → Context
set_type c name t = record c { types = insert c.types name t }

abbrev pub set_variable : Context → Bytes → Option NodeType → Context
set_variable c name t = record c { variables = insert c.variables name t }

-- The types that a context is made with.
unfoldable pub add_primary : Table → Bytes → TypeId → Table
unfolding insert
add_primary table name t = insert table name (some (primary_type t))

unfoldable pub initial_types : Table
unfolding add_primary
initial_types =
    add_primary
      (add_primary
        (add_primary
          (add_primary (add_primary (λ _. none) (codes "integer") TypeId.integer) (codes "string")
            TypeId.string)
          (codes "date") TypeId.date)
        (codes "double") TypeId.double)
      (codes "bool") TypeId.bool

abbrev pub initial : Context
initial = record {
  types = initial_types;
  variables = λ _. none;
  schemas = λ _. false;
  literals = 0;
}

-- `*t` of a pointer.
unfoldable pub deref : Option NodeType → Result NodeType
deref none = fault
deref (some t) = ok t

-- `assert(t)`.
unfoldable pub assert_type : Option NodeType → Result NodeType
assert_type none = abort
assert_type (some t) = ok t

-- The names of the constructor of a `TupleType` that is given types alone.
unfoldable pub anonymous : Types → List Bytes
anonymous Types.nil = []
anonymous (Types.cons t ts) = codes "(anonymous)" ∷ anonymous ts
anonymous (Types.cons_null ts) = codes "(anonymous)" ∷ anonymous ts

-- That constructor, which leaves `type_` at `NONE_TYPE`.
unfoldable pub row_type : Types → NodeType
unfolding anonymous
row_type ts =
    tuple_type TypeId.none_type
      (record { type_names = []; names = anonymous ts; props = []; params = [] }) ts

-- The pointer that `find` finds, and the variable of a name.
unfoldable pub found : Option (Option NodeType) → Result (Option NodeType)
found none = throw undefined_variable
found (some t) = ok t

unfoldable pub lookup_variable : Context → Bytes → Result (Option NodeType)
unfolding found
lookup_variable c name = found (c.variables name)

-- `types_[i]`.
unfoldable pub get_type? : Types → ℕ → Result (Option NodeType)
get_type? Types.nil i = fault
get_type? (Types.cons t ts) zero = ok (some t)
get_type? (Types.cons_null ts) zero = ok none
get_type? (Types.cons t ts) (suc i) = get_type? ts i
get_type? (Types.cons_null ts) (suc i) = get_type? ts i

-- The index of a name, which the loop also leaves in `offset_`.
unfoldable pub find_name : List Bytes → Bytes → ℕ → Option ℕ
find_name [] name i = none
find_name (n ∷ ns) name i = if bytes_eq n name then some i else find_name ns name (suc i)

-- The type of a member; the message of the exception prints the parent and its type.
unfoldable pub member_type : Expression → NodeType → Types → Option ℕ → Result (Option NodeType)
member_type parent type ts none = bind (dump parent) λ _. bind (dump_type type) λ _. throw no_member
member_type parent type ts (some i) = get_type? ts i

-- `dynamic_cast<TupleType*>` of the type of the parent, and the loop over the names.
unfoldable pub select : Expression → Bytes → Option NodeType → Result (Option NodeType)
select parent name (some (tuple_type i t ts)) =
    member_type parent (tuple_type i t ts) ts (find_name t.names name 0)
select parent name _ = throw not_a_tuple

-- `dynamic_cast<ArrayType*>` of the type of the parent.
unfoldable pub as_array : Option NodeType → Result NodeType
as_array (some (array_type t)) = ok (array_type t)
as_array _ = throw not_an_array

-- The parent of an array reference, whose pointer may be null.
unfoldable pub analyze_parent : Option Bytes → Context → Result (Option NodeType)
analyze_parent none c = fault
analyze_parent (some name) c = lookup_variable c name

-- What analyzes a node gives the tables and the type of the node.
abbrev pub Analysis : Type 0
Analysis = Context → Result (Context × Option NodeType)

module _ (address : ℕ → Bytes) where
  -- `analyze_type_table_[prefix + address] = type`.
  unfoldable pub enter_literal : Bytes → NodeType → Context → Context
  enter_literal prefix t c = record c {
    types = insert c.types (prefix ++ address c.literals) (some t);
    literals = suc c.literals;
  }

  unfoldable pub analyze_primary : Bytes → Analysis
  analyze_primary name c = ok (c, entry (c.types name))

  -- `operate` is given references to the types.
  unfoldable pub analyze_binary : Analysis → Operators → Analysis → Analysis
  analyze_binary left op right c = bind (left c) λ (c₁, s). bind (right c₁) λ (c₂, t).
      bind (deref s) λ lhs. bind (deref t) λ rhs. bind (operate c₂.types lhs rhs op) λ u. ok (c₂, u)

  unfoldable pub analyze_pointer : Analysis
  analyze_pointer c = ok (c, none)

  unfoldable pub analyze_row : (Context → Result (Context × Types)) → Analysis
  unfolding row_type
  analyze_row elements c =
      bind (elements c) λ (c₁, ts).
        ok (enter_literal (codes "__TupleLiteral:") (row_type ts) c₁, some (row_type ts))

  -- The first element, if there is one.
  unfoldable pub analyze_array : Option Analysis → Analysis
  analyze_array none c = throw empty_array_literal
  analyze_array (some first) c = bind (first c) λ (c₁, s). bind (deref s) λ t. ok (
    enter_literal (codes "__ArrayLiteral:") (array_type (type_id t)) c₁,
    some (array_type (type_id t)),
  )

  unfoldable pub analyze_variable : Bytes → Analysis
  unfolding lookup_variable
  analyze_variable n c = bind (lookup_variable c n) λ t. ok (c, t)

  unfoldable pub analyze_call : (Context → Result Context) → Analysis
  analyze_call args c = bind (args c) λ c₁. ok (c₁, entry (c.types (codes "integer")))

  unfoldable pub analyze_reference : Option Bytes → Analysis → Analysis
  unfolding analyze_parent as_array
  analyze_reference n idx c =
      bind (analyze_parent n c) λ s. bind (idx c) λ (c₁, _). bind (as_array s) λ t. ok (c₁, some t)

  unfoldable pub analyze_member : Expression → Analysis → Bytes → Analysis
  unfolding select
  analyze_member p parent n c = bind (parent c) λ (c₁, s). bind (select p n s) λ t. ok (c₁, t)

  unfoldable pub analyze_assign : Analysis → Analysis → Analysis
  analyze_assign target value c = bind (target c) λ (c₁, _). value c₁

  unfoldable mutual
    unfolding analyze_primary analyze_binary analyze_pointer analyze_row analyze_array
        analyze_variable analyze_call analyze_reference analyze_member analyze_assign

    pub analyze : Expression → Context → Result (Context × Option NodeType)
    analyze (number n) c = analyze_primary (codes "integer") c
    analyze (string s) c = analyze_primary (codes "string") c
    analyze (binary l op r) c = analyze_binary (analyze l) op (analyze r) c
    analyze (pointer_of e) c = analyze_pointer c
    analyze (row_literal es) c = analyze_row (analyze_elements es) c
    analyze (array_literal Expressions.nil) c = analyze_array none c
    analyze (array_literal (Expressions.cons e es)) c = analyze_array (some (analyze e)) c
    analyze (variable_reference n) c = analyze_variable n c
    analyze (function_call p args) c = analyze_call (analyze_arguments args) c
    analyze (array_reference n idx) c = analyze_reference n (analyze idx) c
    analyze (member_reference p n) c = analyze_member p (analyze p) n c
    analyze (assign e v) c = analyze_assign (analyze e) (analyze v) c

    -- The loop over the elements of a row.
    pub analyze_elements : Expressions → Context → Result (Context × Types)
    analyze_elements Expressions.nil c = ok (c, Types.nil)
    analyze_elements (Expressions.cons e es) c = bind (analyze e c) λ (c₁, s).
        bind (assert_type s) λ t. bind (analyze_elements es c₁) λ (c₂, ts). ok (c₂, Types.cons t ts)

    -- The loop over the arguments of a call.
    pub analyze_arguments : Expressions → Context → Result Context
    analyze_arguments Expressions.nil c = ok c
    analyze_arguments (Expressions.cons e es) c =
        bind (analyze e c) λ (c₁, _). analyze_arguments es c₁
