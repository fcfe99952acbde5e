-- ===== src/Equality/Printing.antt =====
-- Equal types of src/reir/exec/ast_node.hpp on a stream.
use reir.Prelude.{
  ℕ, suc, ◌≡◌, refl, ap, arith, Bool, true, false, ◌&&◌, List, Option, none, some, Bytes,
  bytes_eq_iff, ==_iff, ◌==◌, length, get_elem?, Result, ok, WhenOk, on_ok, on_throw, on_abort,
  on_fault, on_diverge, WhenOk-weaken, WhenOk-eq,
}
use reir.Ast.{TypeId, NodeType, Types, primary_type, array_type, tuple_type}
use reir.Analyze.{same_type}
use reir.Dump.{type_index, type_to_string, dump_type, dump_types}
use reir.Equality.{names_equal, types_count, and_then, equals, types_equal}

-- If the test holds, so does this.
abbrev pub Decides : Type 0 → Result Bool → Type 0
Decides P = WhenOk (λ b. b ≡ true → P)

and_then-Decides :
    (P Q : Type 0) (m n : Result Bool)
    → Decides P m
    → (P → Decides Q n)
    → Decides (P × Q) (and_then m n)
unfolding and_then
and_then-Decides P Q (ok true) n (on_ok p) hn = WhenOk-weaken (hn (p refl)) λ b q e. (p refl, q e)
and_then-Decides P Q (ok false) n h hn = on_ok λ e. cc
and_then-Decides P Q _ n on_throw hn = on_throw
and_then-Decides P Q _ n on_abort hn = on_abort
and_then-Decides P Q _ n on_fault hn = on_fault
and_then-Decides P Q _ n on_diverge hn = on_diverge

names-Decides : (o p : Option Bytes) → Decides (o ≡ p) (names_equal o p)
unfolding names_equal
names-Decides (some n) (some m) = on_ok λ e. ap some ((bytes_eq_iff n m).0 e)
names-Decides (some n) none = on_fault
names-Decides none p = on_fault

-- The index of a type identifies it for the table of names.
named_same : (s t : TypeId) → same_type s t ≡ true → type_to_string s ≡ type_to_string t
unfolding same_type type_to_string
named_same s t e = rw ((==_iff (type_index s) (type_index t)).0 e) refl

and_left : (a b : Bool) → a && b ≡ true → a ≡ true
and_left true b e = refl
and_left false b e = e

mutual
  unfolding equals types_equal dump_type dump_types types_count

  equals-Decides : (t u : NodeType) → Decides (dump_type t ≡ dump_type u) (equals t u)
  equals-Decides (primary_type s) (primary_type t) = on_ok λ e. named_same s t e
  equals-Decides (primary_type s) (array_type t) = on_ok λ e. cc
  equals-Decides (primary_type s) (tuple_type i t ts) = on_ok λ e. cc
  equals-Decides (array_type s) (array_type t) = on_ok λ e. refl
  equals-Decides (array_type s) (primary_type t) = on_ok λ e. cc
  equals-Decides (array_type s) (tuple_type i t ts) = on_ok λ e. cc
  equals-Decides (tuple_type i t ts) (primary_type s) = on_ok λ e. cc
  equals-Decides (tuple_type i t ts) (array_type s) = on_ok λ e. cc
  equals-Decides (tuple_type i t ts) (tuple_type j u us) =
      WhenOk-weaken
        (and_then-Decides (types_count ts ≡ types_count us)
          (dump_types ts t.names 0 ≡ dump_types us u.names 0)
          (ok (types_count ts == types_count us && length t.names == length u.names))
          (types_equal ts us t.names u.names 0)
          (on_ok λ e. (==_iff (types_count ts) (types_count us)).0 (and_left _ _ e))
          (λ same. types-Decides ts us t.names u.names 0 same))
        λ b h e. rw ((h e).1) refl

  types-Decides :
      (ts us : Types) (ns ms : List Bytes) (i : ℕ)
      → types_count ts ≡ types_count us
      → Decides (dump_types ts ns i ≡ dump_types us ms i) (types_equal ts us ns ms i)
  types-Decides Types.nil Types.nil ns ms i same = on_ok λ e. refl
  types-Decides Types.nil (Types.cons u us) ns ms i same = absurd (omega (arith, same))
  types-Decides Types.nil (Types.cons_null us) ns ms i same = absurd (omega (arith, same))
  types-Decides (Types.cons t ts) Types.nil ns ms i same = on_fault
  types-Decides (Types.cons t ts) (Types.cons_null us) ns ms i same = on_fault
  types-Decides (Types.cons_null ts) us ns ms i same = on_fault
  types-Decides (Types.cons t ts) (Types.cons u us) ns ms i same =
      WhenOk-weaken
        (and_then-Decides (dump_type t ≡ dump_type u)
          ((get_elem? ns i ≡ get_elem? ms i)
            × (dump_types ts ns (suc i) ≡ dump_types us ms (suc i)))
          (equals t u)
          (and_then (names_equal (get_elem? ns i) (get_elem? ms i))
            (types_equal ts us ns ms (suc i)))
          (equals-Decides t u)
          (λ _.
            and_then-Decides _ _ _ _ (names-Decides (get_elem? ns i) (get_elem? ms i))
              (λ _. types-Decides ts us ns ms (suc i) (omega (arith, same)))))
        λ b h e. let (first, (name, others)) = h e in rw (first, name, others) refl

-- Types that are equal are printed the same.
pub equals-dump_type : (t u : NodeType) → equals t u ≡ ok true → dump_type t ≡ dump_type u
equals-dump_type t u h = WhenOk-eq (equals-Decides t u) h refl
