-- ===== src/Analyze/Agreement.antt =====
-- Tables of types that agree on what `operate` of src/reir/exec/ast_node.cpp and the literals of
-- ast_expression.hpp ask for by name.
use reir.Prelude.{◌≡◌, refl, ◌++◌, Bytes, Option, codes, bytes_eq}
use reir.Ast.{TypeId, Operators, NodeType}
use reir.Parser.Types.{type_id}
use reir.Analyze.{
  Table, entry, operate, operate_on, operate_number, operate_string, operate_bool, operate_truth,
  compare_strings, kind_of, OperatorKind, arithmetic, comparison, conditional, no_kind,
}
use reir.Analyze.Expressions.{insert}

abbrev pub Agree : Table → Table → Type 0
Agree T U =
    (entry (T (codes "bool")) ≡ entry (U (codes "bool")))
    × (entry (T (codes "string")) ≡ entry (U (codes "string")))
    × (entry (T (codes "integer")) ≡ entry (U (codes "integer")))

module _ (T U : Table) (agree : Agree T U) where
  truth-Agree : (t : TypeId) → operate_truth T t ≡ operate_truth U t
  unfolding operate_truth
  truth-Agree TypeId.integer = rw (agree.0) refl
  truth-Agree TypeId.bool = rw (agree.0) refl
  truth-Agree _ = refl

  number-Agree :
      (k : OperatorKind) (l r : NodeType) → operate_number k T l r ≡ operate_number k U l r
  unfolding operate_number
  number-Agree arithmetic l r = refl
  number-Agree comparison l r = rw (agree.0) refl
  number-Agree no_kind l r = refl
  number-Agree conditional l r = rw (truth-Agree (type_id r)) refl

  compare_strings-Agree :
      (k : OperatorKind) (l r : NodeType) → compare_strings k T l r ≡ compare_strings k U l r
  unfolding compare_strings
  compare_strings-Agree comparison l r = rw (agree.0) refl
  compare_strings-Agree arithmetic l r = refl
  compare_strings-Agree conditional l r = refl
  compare_strings-Agree no_kind l r = refl

  string-Agree :
      (op : Operators) (l r : NodeType) → operate_string op T l r ≡ operate_string op U l r
  unfolding operate_string
  string-Agree Operators.plus l r = rw (agree.1) refl
  string-Agree op l r = compare_strings-Agree (kind_of op) l r

  bool-Agree : (k : OperatorKind) (r : NodeType) → operate_bool k T r ≡ operate_bool k U r
  unfolding operate_bool
  bool-Agree conditional r = truth-Agree (type_id r)
  bool-Agree arithmetic r = refl
  bool-Agree comparison r = refl
  bool-Agree no_kind r = refl

  on-Agree :
      (i : TypeId) (l r : NodeType) (op : Operators) → operate_on i T l r op ≡ operate_on i U l r op
  unfolding operate_on
  on-Agree TypeId.integer l r op = number-Agree (kind_of op) l r
  on-Agree TypeId.double l r op = number-Agree (kind_of op) l r
  on-Agree TypeId.string l r op = string-Agree op l r
  on-Agree TypeId.bool l r op = bool-Agree (kind_of op) r
  on-Agree _ l r op = refl

  pub operate-Agree : (l r : NodeType) (op : Operators) → operate T l r op ≡ operate U l r op
  unfolding operate
  operate-Agree l r = on-Agree (type_id l) l r

-- Tables that agree still do when a literal is entered.
pub Agree-literal :
    (T U : Table) (t : Option NodeType) (tail : Bytes)
    → Agree T U
    → Agree T (insert U (codes "__TupleLiteral:" ++ tail) t)
      × Agree T (insert U (codes "__ArrayLiteral:" ++ tail) t)
unfolding insert bytes_eq
Agree-literal T U t tail h = (h, h)
