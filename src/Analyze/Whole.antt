-- ===== src/Analyze/Whole.antt =====
-- Types without null pointers are printed, for the messages of the analysis of
-- src/reir/exec/ast_node.hpp.
use reir.Prelude.{
  ℕ, suc, ◌+◌, ◌≡◌, arith, ap, ◌∙◌, refl, List, [], ◌∷◌, ◌++◌, some, Bytes, codes, get_elem?,
  Result, ok,
}
use reir.Ast.{TypeId, NodeType, Types, primary_type, array_type, tuple_type}
use reir.Dump.{type_to_string, ◌<<◌, dump_type, dump_types, name_of}
use reir.Analyze.Tables.{IsWhole, AreWhole}

-- A whole type is printed.
abbrev pub Returns : Result Bytes → Type 0
Returns m = (s : Bytes) × (m ≡ ok s)

both : (m n : Result Bytes) → Returns m → Returns n → Returns (m << n)
unfolding ◌<<◌
both m n (s, e) (t, e') = (s ++ t, rw (e, e') refl)

type_to_string-Returns : (t : TypeId) → Returns (type_to_string t)
unfolding type_to_string
type_to_string-Returns TypeId.none_type = (_, refl)
type_to_string-Returns TypeId.integer = (_, refl)
type_to_string-Returns TypeId.double = (_, refl)
type_to_string-Returns TypeId.string = (_, refl)
type_to_string-Returns TypeId.date = (_, refl)
type_to_string-Returns TypeId.bool = (_, refl)
type_to_string-Returns TypeId.function = (_, refl)
type_to_string-Returns TypeId.pointer = (_, refl)
type_to_string-Returns TypeId.array = (_, refl)
type_to_string-Returns TypeId.tuple = (_, refl)

name_of-Returns :
    (names : List Bytes) (i : ℕ) (n : Bytes)
    → get_elem? names i ≡ some n
    → Returns (name_of (get_elem? names i))
unfolding name_of
name_of-Returns names i n e = (n, rw e refl)

mutual
  unfolding dump_type

  dump_type-IsWhole : (t : NodeType) → IsWhole t → Returns (dump_type t)
  dump_type-IsWhole (primary_type t) h = type_to_string-Returns t
  dump_type-IsWhole (array_type t) h = (codes "[ARRAY]", refl)
  dump_type-IsWhole (tuple_type i t ts) h =
      both _ _ (_, refl)
        (both _ _
          (dump_types-AreWhole ts t.names t.names 0 h λ j. ap (get_elem? t.names) (omega arith))
          (_, refl))

  -- The names from the index `i` on are `rest`.
  dump_types-AreWhole :
      (ts : Types) (names rest : List Bytes) (i : ℕ)
      → AreWhole ts rest
      → ((j : ℕ) → get_elem? names (i + j) ≡ get_elem? rest j)
      → Returns (dump_types ts names i)
  dump_types-AreWhole Types.nil names rest i h at = ([], refl)
  dump_types-AreWhole (Types.cons t ts) names [] i h at = absurd h
  dump_types-AreWhole (Types.cons_null ts) names rest i h at = absurd h
  dump_types-AreWhole (Types.cons t ts) names (n ∷ rest) i (w, h) at =
      both _ _ (_, refl)
        (both _ _ (dump_type-IsWhole t w) (
          both _ _ (_, refl)
            (both _ _ (name_of-Returns names i n (ap (get_elem? names) (omega arith) ∙ at 0)) (
              dump_types-AreWhole ts names rest (suc i) h
                λ j. ap (get_elem? names) (omega arith) ∙ at (suc j)))))

pub dump_type-Returns : (t : NodeType) → IsWhole t → Returns (dump_type t)
dump_type-Returns = dump_type-IsWhole
