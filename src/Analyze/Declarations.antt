-- ===== src/Analyze/Declarations.antt =====
-- Declarations of types and variables, of src/reir/exec/ast_node.cpp and ast_statement.hpp, in tables
-- without null pointers.
use reir.Prelude.{
  ◌≡◌, refl, inl, inr, Bool, true, false, ◌||◌, List, [], ◌∷◌, Option, none, some, Bytes, bytes_eq,
  Result, Runs, returns, raises, Runs-bind, Runs-if, Option-cases,
}
use reir.Ast.{TypeId, TupleType, NodeType, Types, primary_type, array_type, tuple_type}
use reir.Parser.Types.{type_id}
use reir.Analyze.{Table, named_type, column_type, column_types}
use reir.Analyze.Expressions.{Context, set_type, set_variable, deref}
use reir.Analyze.Statements.{
  Initializer, from_row, from_array, from_other, push_types, analyze_tuple, define_type, declare,
  declare_row, declare_array, declare_other,
}
use reir.Analyze.Tables.{
  IsWhole, AreWhole, IsWholePointer, IsWholeTable, HasBuiltins, IsSound, insert-IsWholeTable,
  insert-HasBuiltins, insert-Declares-name, is_among,
}
use reir.Analyze.Scripts.{IsPaired, Paired, IsRowType, IsDeclaration}

-- A statement leaves such a context, or throws.
abbrev pub Leads : List Bytes → Result Context → Type 0
Leads names = Runs (IsSound names)

pub set_type-IsSound :
    (name : Bytes) (t : NodeType) (names : List Bytes) (c : Context)
    → IsWhole t
    → IsSound names c
    → IsSound (name ∷ names) (set_type c name (some t))
set_type-IsSound name t names c w (h, v, b, d) = (
  insert-IsWholeTable c.types name t h w,
  v,
  insert-HasBuiltins c.types name t w b,
  insert-Declares-name c.types name t names w d,
)

or_true : (a : Bool) {b : Bool} → b ≡ true → a || b ≡ true
or_true true e = refl
or_true false e = e

-- The new name need not be kept in mind.
pub forget :
    (name : Bytes) (names : List Bytes) (c : Context) → IsSound (name ∷ names) c → IsSound names c
unfolding is_among
forget name names c (h, v, b, d) = (h, v, b, λ j e. d j (or_true (bytes_eq j name) e))

pub set_variable-IsSound :
    (name : Bytes) (t : Option NodeType) (names : List Bytes) (c : Context)
    → IsWholePointer t
    → IsSound names c
    → IsSound names (set_variable c name t)
set_variable-IsSound name none names c w h = absurd w
set_variable-IsSound name (some t) names c w (h, v, b, d) =
    (h, insert-IsWholeTable c.variables name t v w, b, d)

push :
    (u : Option NodeType) (us : List (Option NodeType)) (n : Bytes) (ns : List Bytes)
    → IsWholePointer u
    → AreWhole (push_types Types.nil us) ns
    → AreWhole (push_types Types.nil (u ∷ us)) (n ∷ ns)
unfolding push_types
push none us n ns w ws = absurd w
push (some u) us n ns w ws = (w, ws)

named_type-Runs :
    (table : Table) (name : Bytes)
    → IsWholeTable table
    → Runs IsWholePointer (named_type (table name))
unfolding named_type
named_type-Runs table name h = elim (Option-cases (table name)) [
  | inl e ↦ rw (e, named_type) raises
  | inr (t, e) ↦ rw (e, named_type) (returns (h name t e))
]

column_type-Runs :
    (table : Table) (name : Bytes)
    → IsWholeTable table
    → HasBuiltins table
    → Runs IsWholePointer (column_type table name)
unfolding column_type
column_type-Runs table name h (i, s, b, d) = Runs-if _ (returns i) (
    Runs-if _ (returns d)
      (Runs-if _ (returns s) (Runs-if _ (returns i) (named_type-Runs table name h))))

column_types-Runs :
    (table : Table) (types names : List Bytes)
    → Paired types names
    → IsWholeTable table
    → HasBuiltins table
    → Runs (λ ts. AreWhole (push_types Types.nil ts) names) (column_types table types)
unfolding column_types push_types
column_types-Runs table [] [] p h b = returns tt
column_types-Runs table [] (n ∷ ns) p h b = absurd p
column_types-Runs table (t ∷ ts) [] p h b = absurd p
column_types-Runs table (t ∷ ts) (n ∷ ns) p h b =
    Runs-bind (column_type-Runs table t h b)
      λ u w. Runs-bind (column_types-Runs table ts ns p h b) λ us ws. returns (push u us n ns w ws)

analyze_tuple-Runs :
    (i : TypeId) (t : TupleType) (names : List Bytes) (c : Context)
    → IsPaired t
    → IsSound names c
    → Runs IsWhole (analyze_tuple c.types i t Types.nil)
unfolding analyze_tuple
analyze_tuple-Runs i t names c p (h, _, b, _) =
    Runs-bind (column_types-Runs c.types t.type_names t.names p h b) λ us w. returns w

pub define_type-Leads :
    (name : Bytes) (t : TupleType) (names : List Bytes) (c : Context)
    → IsPaired t
    → IsSound names c
    → Leads (name ∷ names) (define_type name t c)
unfolding define_type
define_type-Leads name t names c p h =
    Runs-bind (analyze_tuple-Runs TypeId.tuple t names c p h)
      λ u w. returns (set_type-IsSound name u names c w h)

set_both :
    (name : Bytes) (t : NodeType) (names : List Bytes) (c : Context)
    → IsWhole t
    → IsSound names c
    → IsSound names (set_variable (set_type c name (some t)) name (some t))
set_both name t names c w h =
    set_variable-IsSound name (some t) names (set_type c name (some t)) w
      (forget name names (set_type c name (some t)) (set_type-IsSound name t names c w h))

declare_row-Leads :
    (type : Option NodeType) (name : Bytes) (t : Option NodeType) (names : List Bytes) (c : Context)
    → IsRowType type
    → IsWholePointer t
    → IsSound names c
    → Leads names (declare_row type name t c)
unfolding declare_row
declare_row-Leads none name t names c p w h = returns (set_variable-IsSound name t names c w h)
declare_row-Leads (some (tuple_type i u Types.nil)) name t names c p w h =
    Runs-bind (analyze_tuple-Runs i u names c p h) λ ty wt. returns (set_both name ty names c wt h)
declare_row-Leads (some (tuple_type i u (Types.cons v us))) name t names c p w h = absurd p
declare_row-Leads (some (tuple_type i u (Types.cons_null us))) name t names c p w h = absurd p
declare_row-Leads (some (primary_type i)) name t names c p w h = absurd p
declare_row-Leads (some (array_type i)) name t names c p w h = absurd p

declare_array-Leads :
    (name : Bytes) (t : Option NodeType) (names : List Bytes) (c : Context)
    → IsWholePointer t
    → IsSound names c
    → Leads names (declare_array name t c)
unfolding declare_array deref
declare_array-Leads name none names c w h = absurd w
declare_array-Leads name (some t) names c w h =
    returns (set_both name (array_type (type_id t)) names c tt h)

pub declare-Leads :
    (i : Initializer) (type : Option NodeType) (name : Bytes) (t : Option NodeType)
    (names : List Bytes) (c : Context)
    → IsDeclaration i type
    → IsWholePointer t
    → IsSound names c
    → Leads names (declare i type name t c)
unfolding declare declare_other
declare-Leads from_row type name t names c p w h = declare_row-Leads type name t names c p w h
declare-Leads from_array type name t names c p w h = declare_array-Leads name t names c w h
declare-Leads from_other none name t names c p w h =
    returns (set_variable-IsSound name t names c w h)
declare-Leads from_other (some _) name t names c p w h = raises
