-- ===== src/Analyze/Operate.antt =====
-- Typing rules for `operate` of src/reir/exec/ast_node.cpp, and the names of operators.
use reir.Prelude.{
  ◌≡◌, refl, Bool, true, false, ◌||◌, Option, codes, ok, WhenOk-weaken, WhenOk-bind, itself, WhenOk,
  on_ok, on_throw, WhenOk-if, WhenOk-eq,
}
use reir.Ast.{TypeId, Operators, NodeType}
use reir.Parser.Types.{type_id}
use reir.Dump.{op_to_string, dump_type}
use reir.Analyze.{
  Table, OperatorKind, arithmetic, comparison, conditional, no_kind, kind_of, same_type,
  operate_truth, operate_number, compare_strings, operate_string, operate_bool, operate_on, operate,
  not_implemented, entry,
}

-- The types that `&&` and `||` take.
pub is_truth : TypeId → Bool
is_truth TypeId.integer = true
is_truth TypeId.bool = true
is_truth _ = false

-- The typing rules: two operands of one `type_` for what computes and for what compares, which gives
-- a `bool`, and integers or truth values for `&&` and `||`, which give one too.
pub Typed : OperatorKind → Table → TypeId → TypeId → Option NodeType → Type 0
Typed arithmetic table l r t = same_type r l ≡ true
Typed comparison table l r t = (same_type r l ≡ true) × (t ≡ entry (table (codes "bool")))
Typed conditional table l r t =
    (is_truth l ≡ true) × (is_truth r ≡ true) × (t ≡ entry (table (codes "bool")))
Typed no_kind table l r t = ⊥

truth-Typed :
    (r : TypeId) (table : Table)
    → WhenOk (λ t. (is_truth r ≡ true) × (t ≡ entry (table (codes "bool")))) (operate_truth table r)
unfolding operate_truth is_truth
truth-Typed TypeId.integer table = on_ok (refl, refl)
truth-Typed TypeId.bool table = on_ok (refl, refl)
truth-Typed _ table = on_throw

first_holds : (a b c : Bool) → a || b ≡ true → b || c ≡ false → a ≡ true
first_holds true b c h e = refl
first_holds false true c h e = cc
first_holds false false c h e = cc

number-Typed :
    (k : OperatorKind) (table : Table) (lhs rhs : NodeType)
    → is_truth (type_id lhs) || same_type (type_id lhs) TypeId.double ≡ true
    → WhenOk (Typed k table (type_id lhs) (type_id rhs)) (operate_number k table lhs rhs)
unfolding operate_number Typed
number-Typed arithmetic table lhs rhs h = WhenOk-if _ (λ e. on_ok e) (λ _. on_throw)
number-Typed comparison table lhs rhs h = WhenOk-if _ (λ e. on_ok (e, refl)) (λ _. on_throw)
number-Typed no_kind table lhs rhs h = on_throw
number-Typed conditional table lhs rhs h =
    WhenOk-if (same_type (type_id lhs) TypeId.double || same_type (type_id rhs) TypeId.double)
      (λ _. on_throw)
      λ e. WhenOk-weaken (truth-Typed (type_id rhs) table) λ t (r, b). (first_holds _ _ _ h e, r, b)

compare_strings-Typed :
    (k : OperatorKind) (table : Table) (lhs rhs : NodeType)
    → WhenOk (Typed k table (type_id lhs) (type_id rhs)) (compare_strings k table lhs rhs)
unfolding compare_strings Typed
compare_strings-Typed comparison table lhs rhs = WhenOk-if _ (λ e. on_ok (e, refl)) (λ _. on_throw)
compare_strings-Typed arithmetic table lhs rhs = on_throw
compare_strings-Typed conditional table lhs rhs = on_throw
compare_strings-Typed no_kind table lhs rhs = on_throw

string-Typed :
    (op : Operators) (table : Table) (lhs rhs : NodeType)
    → WhenOk
        (Typed (kind_of op) table (type_id lhs) (type_id rhs))
        (operate_string op table lhs rhs)
unfolding operate_string Typed kind_of
string-Typed Operators.plus table lhs rhs = WhenOk-if _ (λ e. on_ok e) (λ _. on_throw)
string-Typed op table lhs rhs = compare_strings-Typed (kind_of op) table lhs rhs

bool-Typed :
    (k : OperatorKind) (table : Table) (l : TypeId) (rhs : NodeType)
    → is_truth l ≡ true
    → WhenOk (Typed k table l (type_id rhs)) (operate_bool k table rhs)
unfolding operate_bool Typed
bool-Typed conditional table l rhs h =
    WhenOk-weaken (truth-Typed (type_id rhs) table) λ t (r, b). (h, r, b)
bool-Typed arithmetic table l rhs h = on_throw
bool-Typed comparison table l rhs h = on_throw
bool-Typed no_kind table l rhs h = on_throw

not_implemented-never :
    {P : Option NodeType → Type 0} (lhs rhs : NodeType) (op : Operators)
    → WhenOk P (not_implemented lhs rhs op)
unfolding not_implemented
not_implemented-never lhs rhs op = WhenOk-bind (itself (dump_type lhs)) λ _ _.
    WhenOk-bind (itself (op_to_string op))
      λ _ _. WhenOk-bind (itself (dump_type rhs)) λ _ _. on_throw

operate_on-Typed :
    (l : TypeId) (table : Table) (lhs rhs : NodeType) (op : Operators)
    → type_id lhs ≡ l
    → WhenOk (Typed (kind_of op) table (type_id lhs) (type_id rhs)) (operate_on l table lhs rhs op)
unfolding operate_on
operate_on-Typed TypeId.array table lhs rhs op e = on_throw
operate_on-Typed TypeId.tuple table lhs rhs op e = on_throw
operate_on-Typed TypeId.integer table lhs rhs op e =
    number-Typed (kind_of op) table lhs rhs (unfold is_truth same_type in rw e refl)
operate_on-Typed TypeId.double table lhs rhs op e =
    number-Typed (kind_of op) table lhs rhs (unfold is_truth same_type in rw e refl)
operate_on-Typed TypeId.string table lhs rhs op e = string-Typed op table lhs rhs
operate_on-Typed TypeId.bool table lhs rhs op e =
    bool-Typed (kind_of op) table (type_id lhs) rhs (unfold is_truth in rw e refl)
operate_on-Typed TypeId.date table lhs rhs op e = on_throw
operate_on-Typed _ table lhs rhs op e = not_implemented-never lhs rhs op

-- Where `operate` gives a type, the `type_`s of the operands are equal if the operator computes or
-- compares, and are those of integers or of truth values if it is `&&` or `||`, and the type given
-- is that of the table under `bool` if it compares or is one of the latter two. The `type_` of an
-- array is that of its elements.
pub operate-Typed :
    (table : Table) (lhs rhs : NodeType) (op : Operators) (t : Option NodeType)
    → operate table lhs rhs op ≡ ok t
    → Typed (kind_of op) table (type_id lhs) (type_id rhs) t
unfolding operate
operate-Typed table lhs rhs op t h =
    WhenOk-eq (operate_on-Typed (type_id lhs) table lhs rhs op refl) h
