-- ===== src/Analyze/Rules.antt =====
-- Typing rules for the expressions of src/reir/exec/ast_expression.hpp: the pointer that the analysis
-- leaves in a node, by the tables of types and of variables that it starts with.
use reir.Prelude.{ℕ, ◌≡◌, Option, none, some, Bytes, codes, ok}
use reir.Ast.{
  Operators, TypeId, TupleType, NodeType, Types, array_type, tuple_type, Expression, Expressions,
  number, string, binary, pointer_of, row_literal, array_literal, variable_reference, function_call,
  array_reference, member_reference, assign,
}
use reir.Parser.Types.{type_id}
use reir.Analyze.{Table, entry, operate}
use reir.Analyze.Expressions.{row_type, find_name, get_type?}

module _ (types variables : Table) where
  mutual
    -- The operand of `&`, the function of a call, and what stands behind the first element of an
    -- array are not looked at.
    pub data IsTyped : Expression → Option NodeType → Type 0 where
      number_rule : {n : ℕ} → IsTyped (number n) (entry (types (codes "integer")))
      string_rule : {s : Bytes} → IsTyped (string s) (entry (types (codes "string")))
      binary_rule :
          {l r : Expression} {op : Operators} {lhs rhs : NodeType} {t : Option NodeType}
          → IsTyped l (some lhs)
          → IsTyped r (some rhs)
          → operate types lhs rhs op ≡ ok t
          → IsTyped (binary l op r) t
      pointer_rule : {e : Expression} → IsTyped (pointer_of e) none
      row_rule :
          {es : Expressions} {ts : Types}
          → AreTyped es ts
          → IsTyped (row_literal es) (some (row_type ts))
      array_rule :
          {e : Expression} {es : Expressions} {t : NodeType}
          → IsTyped e (some t)
          → IsTyped (array_literal (Expressions.cons e es)) (some (array_type (type_id t)))
      variable_rule :
          {n : Bytes} {t : Option NodeType}
          → variables n ≡ some t
          → IsTyped (variable_reference n) t
      call_rule :
          {p : Expression} {args : Expressions}
          → AreAnalyzed args
          → IsTyped (function_call p args) (entry (types (codes "integer")))
      -- The type of the array, not of its elements.
      reference_rule :
          {n : Bytes} {idx : Expression} {t : TypeId} {u : Option NodeType}
          → variables n ≡ some (some (array_type t))
          → IsTyped idx u
          → IsTyped (array_reference (some n) idx) (some (array_type t))
      member_rule :
          {p : Expression} {n : Bytes} {i : TypeId} {t : TupleType} {ts : Types} {k : ℕ}
          {u : Option NodeType}
          → IsTyped p (some (tuple_type i t ts))
          → find_name t.names n 0 ≡ some k
          → get_type? ts k ≡ ok u
          → IsTyped (member_reference p n) u
      assign_rule :
          {e v : Expression} {s t : Option NodeType}
          → IsTyped e s
          → IsTyped v t
          → IsTyped (assign e v) t

    -- The elements of a row, none of them null.
    pub data AreTyped : Expressions → Types → Type 0 where
      nil_rule : AreTyped Expressions.nil Types.nil
      cons_rule :
          {e : Expression} {es : Expressions} {t : NodeType} {ts : Types}
          → IsTyped e (some t)
          → AreTyped es ts
          → AreTyped (Expressions.cons e es) (Types.cons t ts)

    -- The arguments of a call.
    pub data AreAnalyzed : Expressions → Type 0 where
      no_arguments : AreAnalyzed Expressions.nil
      arguments :
          {e : Expression} {es : Expressions} {t : Option NodeType}
          → IsTyped e t
          → AreAnalyzed es
          → AreAnalyzed (Expressions.cons e es)
