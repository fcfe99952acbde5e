-- ===== src/Equality.antt =====
-- `equals` of the types of src/reir/exec/ast_node.hpp, after the analysis, and their printers.
pub mod Printing
use reir.Prelude.{
  ℕ, suc, Bool, true, false, ◌&&◌, List, Option, none, some, Bytes, bytes_eq, ◌==◌, length,
  get_elem?, Result, ok, fault, bind,
}
use reir.Ast.{NodeType, Types, primary_type, array_type, tuple_type}
use reir.Analyze.{same_type}

-- `names_[i] != r->names_[i]`, negated.
unfoldable pub names_equal : Option Bytes → Option Bytes → Result Bool
names_equal (some n) (some m) = ok (bytes_eq n m)
names_equal _ _ = fault

unfoldable pub types_count : Types → ℕ
types_count Types.nil = 0
types_count (Types.cons t ts) = suc (types_count ts)
types_count (Types.cons_null ts) = suc (types_count ts)

-- `&&` of tests that may fault.
unfoldable pub and_then : Result Bool → Result Bool → Result Bool
and_then m n = bind m λ b. elim b [ true ↦ n | false ↦ ok false ]

unfoldable mutual
  unfolding names_equal types_count and_then

  -- What is no type of the same class is not equal.
  pub equals : NodeType → NodeType → Result Bool
  equals (primary_type s) (primary_type t) = ok (same_type s t)
  equals (array_type s) (array_type t) = ok (same_type s t)
  equals (tuple_type i t ts) (tuple_type j u us) =
      and_then (ok (types_count ts == types_count us && length t.names == length u.names))
        (types_equal ts us t.names u.names 0)
  equals _ _ = ok false

  -- The loop over `types_`, from the index `i` on.
  pub types_equal : Types → Types → List Bytes → List Bytes → ℕ → Result Bool
  types_equal Types.nil us ns ms i = ok true
  types_equal (Types.cons t ts) (Types.cons u us) ns ms i =
      and_then (equals t u)
        (and_then (names_equal (get_elem? ns i) (get_elem? ms i)) (types_equal ts us ns ms (suc i)))
  types_equal (Types.cons t ts) _ ns ms i = fault
  types_equal (Types.cons_null ts) us ns ms i = fault
