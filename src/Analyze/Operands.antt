-- ===== src/Analyze/Operands.antt =====
-- Which expressions of src/reir/exec/ast_expression.hpp are safe to analyze, and the types that the
-- analysis makes of the types of their parts.
use reir.Prelude.{
  ◌≡◌, refl, inl, inr, Bool, true, List, Option, none, some, Bytes, Result, ok, Runs, returns,
  raises, Runs-if, Option-cases,
}
use reir.Ast.{
  TypeId, Operators, NodeType, primary_type, array_type, tuple_type, Expression, Expressions,
  number, string, binary, pointer_of, row_literal, array_literal, variable_reference, function_call,
  array_reference, member_reference, assign,
}
use reir.Parser.Types.{type_id}
use reir.Dump.{op_to_string, dump}
use reir.Dump.Safety.{Prints, prints, faults, is_named, are_named, is_some, dump-Prints}
use reir.Analyze.{
  Table, operate, operate_on, operate_number, operate_string, operate_bool, operate_truth,
  compare_strings, not_implemented, kind_of, OperatorKind, arithmetic, comparison, conditional,
  no_kind,
}
use reir.Analyze.Expressions.{
  Context, select, member_type, lookup_variable, as_array, deref, assert_type, find_name,
}
use reir.Analyze.Tables.{IsWhole, IsWholePointer, HasBuiltins, IsSound, find_name-get_type?}
use reir.Analyze.Whole.{dump_type-Returns}

-- The operators whose name can be read: neither `||` nor the lack of one.
abbrev pub HasName : Operators → Type 0
HasName Operators.conditional_or = ⊥
HasName Operators.none = ⊥
HasName _ = Unit

-- No address is taken, no `||` is there, and the parent of an array reference is a variable.
abbrev mutual
  pub IsPlain : Expression → Type 0
  IsPlain (number n) = Unit
  IsPlain (string s) = Unit
  IsPlain (binary l op r) = HasName op × IsPlain l × IsPlain r
  IsPlain (pointer_of e) = ⊥
  IsPlain (row_literal es) = ArePlain es
  IsPlain (array_literal es) = ArePlain es
  IsPlain (variable_reference n) = Unit
  IsPlain (function_call p args) = IsPlain p × ArePlain args
  IsPlain (array_reference none idx) = ⊥
  IsPlain (array_reference (some n) idx) = IsPlain idx
  IsPlain (member_reference p n) = IsPlain p
  IsPlain (assign e v) = IsPlain e × IsPlain v

  pub ArePlain : Expressions → Type 0
  ArePlain Expressions.nil = Unit
  ArePlain (Expressions.cons e es) = IsPlain e × ArePlain es

mutual
  unfolding is_named is_some

  pub IsPlain-is_named : (e : Expression) → IsPlain e → is_named e ≡ true
  IsPlain-is_named (number n) h = refl
  IsPlain-is_named (string s) h = refl
  IsPlain-is_named (binary l op r) (o, h, k) = rw (IsPlain-is_named l h, IsPlain-is_named r k) refl
  IsPlain-is_named (pointer_of e) h = absurd h
  IsPlain-is_named (row_literal es) h = ArePlain-are_named es h
  IsPlain-is_named (array_literal es) h = ArePlain-are_named es h
  IsPlain-is_named (variable_reference n) h = refl
  IsPlain-is_named (function_call p args) (h, k) =
      rw (IsPlain-is_named p h, ArePlain-are_named args k) refl
  IsPlain-is_named (array_reference none idx) h = absurd h
  IsPlain-is_named (array_reference (some n) idx) h = IsPlain-is_named idx h
  IsPlain-is_named (member_reference p n) h = IsPlain-is_named p h
  IsPlain-is_named (assign e v) (h, k) = rw (IsPlain-is_named e h, IsPlain-is_named v k) refl

  pub ArePlain-are_named : (es : Expressions) → ArePlain es → are_named es ≡ true
  ArePlain-are_named Expressions.nil h = refl
  ArePlain-are_named (Expressions.cons e es) (h, k) =
      rw (IsPlain-is_named e h, ArePlain-are_named es k) refl

pub printed : (b : Bool) (m : Result Bytes) → Prints b m → b ≡ true → (s : Bytes) × (m ≡ ok s)
printed b m (prints {s}) e = (s, refl)
printed b m faults e = cc

-- A type that is no null pointer.
abbrev pub Gives : Result (Option NodeType) → Type 0
Gives = Runs IsWholePointer

pub truth-Gives : (table : Table) (t : TypeId) → HasBuiltins table → Gives (operate_truth table t)
unfolding operate_truth
truth-Gives table TypeId.integer (_, _, b, _) = returns b
truth-Gives table TypeId.bool (_, _, b, _) = returns b
truth-Gives table _ h = raises

pub number-Gives :
    (k : OperatorKind) (table : Table) (lhs rhs : NodeType)
    → HasBuiltins table
    → IsWhole lhs
    → Gives (operate_number k table lhs rhs)
unfolding operate_number
number-Gives arithmetic table lhs rhs h w = Runs-if _ (returns w) raises
number-Gives comparison table lhs rhs (_, _, b, _) w = Runs-if _ (returns b) raises
number-Gives no_kind table lhs rhs h w = raises
number-Gives conditional table lhs rhs h w = Runs-if _ raises (truth-Gives table (type_id rhs) h)

pub compare_strings-Gives :
    (k : OperatorKind) (table : Table) (lhs rhs : NodeType)
    → HasBuiltins table
    → Gives (compare_strings k table lhs rhs)
unfolding compare_strings
compare_strings-Gives comparison table lhs rhs (_, _, b, _) = Runs-if _ (returns b) raises
compare_strings-Gives arithmetic table lhs rhs h = raises
compare_strings-Gives conditional table lhs rhs h = raises
compare_strings-Gives no_kind table lhs rhs h = raises

pub string-Gives :
    (op : Operators) (table : Table) (lhs rhs : NodeType)
    → HasBuiltins table
    → Gives (operate_string op table lhs rhs)
unfolding operate_string
string-Gives Operators.plus table lhs rhs (_, s, _, _) = Runs-if _ (returns s) raises
string-Gives op table lhs rhs h = compare_strings-Gives (kind_of op) table lhs rhs h

pub bool-Gives :
    (k : OperatorKind) (table : Table) (rhs : NodeType)
    → HasBuiltins table
    → Gives (operate_bool k table rhs)
unfolding operate_bool
bool-Gives conditional table rhs h = truth-Gives table (type_id rhs) h
bool-Gives arithmetic table rhs h = raises
bool-Gives comparison table rhs h = raises
bool-Gives no_kind table rhs h = raises

op_to_string-Returns : (op : Operators) → HasName op → (s : Bytes) × (op_to_string op ≡ ok s)
unfolding op_to_string
op_to_string-Returns Operators.conditional_or h = absurd h
op_to_string-Returns Operators.none h = absurd h
op_to_string-Returns _ h = (_, refl)

pub not_implemented-Gives :
    (lhs rhs : NodeType) (op : Operators)
    → IsWhole lhs
    → IsWhole rhs
    → HasName op
    → Gives (not_implemented lhs rhs op)
unfolding not_implemented
not_implemented-Gives lhs rhs op w w' h =
    let (s, e) = dump_type-Returns lhs w in
    let (n, e') = op_to_string-Returns op h in
    let (t, e'') = dump_type-Returns rhs w' in rw (e, e', e'') raises

pub operate_on-Gives :
    (l : TypeId) (table : Table) (lhs rhs : NodeType) (op : Operators)
    → HasBuiltins table
    → IsWhole lhs
    → IsWhole rhs
    → HasName op
    → Gives (operate_on l table lhs rhs op)
unfolding operate_on
operate_on-Gives TypeId.array table lhs rhs op h w w' n = raises
operate_on-Gives TypeId.tuple table lhs rhs op h w w' n = raises
operate_on-Gives TypeId.date table lhs rhs op h w w' n = raises
operate_on-Gives TypeId.integer table lhs rhs op h w w' n =
    number-Gives (kind_of op) table lhs rhs h w
operate_on-Gives TypeId.double table lhs rhs op h w w' n =
    number-Gives (kind_of op) table lhs rhs h w
operate_on-Gives TypeId.string table lhs rhs op h w w' n = string-Gives op table lhs rhs h
operate_on-Gives TypeId.bool table lhs rhs op h w w' n = bool-Gives (kind_of op) table rhs h
operate_on-Gives _ table lhs rhs op h w w' n = not_implemented-Gives lhs rhs op w w' n

pub operate-Gives :
    (table : Table) (lhs rhs : NodeType) (op : Operators)
    → HasBuiltins table
    → IsWhole lhs
    → IsWhole rhs
    → HasName op
    → Gives (operate table lhs rhs op)
unfolding operate
operate-Gives table lhs rhs = operate_on-Gives (type_id lhs) table lhs rhs

pub variable-Gives :
    (names : List Bytes) (c : Context) (name : Bytes)
    → IsSound names c
    → Gives (lookup_variable c name)
unfolding lookup_variable
variable-Gives names c name (_, h, _, _) = elim (Option-cases (c.variables name)) [
  | inl e ↦ rw e raises
  | inr (t, e) ↦ rw e (returns (h name t e))
]

pub deref-Runs : (t : Option NodeType) → IsWholePointer t → Runs IsWhole (deref t)
unfolding deref
deref-Runs none w = absurd w
deref-Runs (some t) w = returns w

pub assert-Runs : (t : Option NodeType) → IsWholePointer t → Runs IsWhole (assert_type t)
unfolding assert_type
assert-Runs none w = absurd w
assert-Runs (some t) w = returns w

pub array-Runs : (t : Option NodeType) → Runs IsWhole (as_array t)
unfolding as_array
array-Runs (some (array_type t)) = returns tt
array-Runs _ = raises

pub member-Gives :
    (p : Expression) (name : Bytes) (t : Option NodeType)
    → IsPlain p
    → IsWholePointer t
    → Gives (select p name t)
unfolding select member_type
member-Gives p name none h w = raises
member-Gives p name (some (primary_type t)) h w = raises
member-Gives p name (some (array_type t)) h w = raises
member-Gives p name (some (tuple_type i t ts)) h w =
    elim (Option-cases (find_name t.names name 0)) [
      | inl e ↦
          let (s, e') = printed _ (dump p) (dump-Prints p) (IsPlain-is_named p h) in
          let (s', e'') = dump_type-Returns (tuple_type i t ts) w in rw (e, e', e'') raises
      | inr (k, e) ↦
          let (u, e', w') = find_name-get_type? ts t.names name k w e in rw (e, e') (returns w')
    ]
