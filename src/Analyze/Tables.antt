-- ===== src/Analyze/Tables.antt =====
-- Types without null pointers, and tables of such types, for the analysis of
-- src/reir/exec/ast_expression.hpp and ast_statement.hpp.
use reir.Prelude.{
  ℕ, suc, ◌+◌, ◌≡◌, arith, refl, subst, inl, inr, Bool, true, false, ◌||◌, List, [], ◌∷◌, Option,
  none, some, Bytes, codes, bytes_eq, Result, ok, Bool-cases,
}
use reir.Ast.{TypeId, NodeType, Types, primary_type, array_type, tuple_type}
use reir.Analyze.{Table, entry}
use reir.Analyze.Expressions.{
  Context, initial, initial_types, add_primary, insert, row_type, anonymous, get_type?, find_name,
}

-- A tuple has a type for each of its names, and none of them is null.
abbrev mutual
  pub IsWhole : NodeType → Type 0
  IsWhole (primary_type t) = Unit
  IsWhole (array_type t) = Unit
  IsWhole (tuple_type i t ts) = AreWhole ts t.names

  pub AreWhole : Types → List Bytes → Type 0
  AreWhole Types.nil [] = Unit
  AreWhole Types.nil (n ∷ ns) = ⊥
  AreWhole (Types.cons t ts) [] = ⊥
  AreWhole (Types.cons t ts) (n ∷ ns) = IsWhole t × AreWhole ts ns
  AreWhole (Types.cons_null ts) ns = ⊥

abbrev pub IsWholePointer : Option NodeType → Type 0
IsWholePointer none = ⊥
IsWholePointer (some t) = IsWhole t

-- No null pointer is in the table.
abbrev pub IsWholeTable : Table → Type 0
IsWholeTable table = (name : Bytes) (t : Option NodeType) → table name ≡ some t → IsWholePointer t

abbrev pub Has : Table → Bytes → Type 0
Has table name = IsWholePointer (entry (table name))

-- The types that the analysis asks for by name are in the table.
abbrev pub HasBuiltins : Table → Type 0
HasBuiltins table =
    Has table (codes "integer")
    × Has table (codes "string")
    × Has table (codes "bool")
    × Has table (codes "double")

unfoldable pub is_among : List Bytes → Bytes → Bool
is_among [] name = false
is_among (n ∷ ns) name = bytes_eq name n || is_among ns name

-- Each of the names is in the table.
abbrev pub Declares : List Bytes → Table → Type 0
Declares names table = (name : Bytes) → is_among names name ≡ true → Has table name

-- The tables of a context, with what is known to be declared.
abbrev pub IsSound : List Bytes → Context → Type 0
IsSound names c =
    IsWholeTable c.types × IsWholeTable c.variables × HasBuiltins c.types × Declares names c.types

pub some_injective {ℓ} : {A : Type ℓ} {a b : A} → some a ≡ some b → a ≡ b
some_injective h = cc

pub insert-IsWholeTable :
    (table : Table) (name : Bytes) (t : NodeType)
    → IsWholeTable table
    → IsWhole t
    → IsWholeTable (insert table name (some t))
unfolding insert
insert-IsWholeTable table name t h w j u e = elim (Bool-cases (bytes_eq j name)) [
  | inl same ↦ subst IsWholePointer (some_injective (rw same at e)) w
  | inr other ↦ h j u (rw other at e)
]

pub insert-Has :
    (table : Table) (name : Bytes) (t : NodeType) (j : Bytes)
    → IsWhole t
    → Has table j
    → Has (insert table name (some t)) j
unfolding insert
insert-Has table name t j w h = elim (Bool-cases (bytes_eq j name)) [
  | inl same ↦ rw same w
  | inr other ↦ rw other h
]

pub insert-HasBuiltins :
    (table : Table) (name : Bytes) (t : NodeType)
    → IsWhole t
    → HasBuiltins table
    → HasBuiltins (insert table name (some t))
insert-HasBuiltins table name t w (i, s, b, d) = (
  insert-Has table name t _ w i,
  insert-Has table name t _ w s,
  insert-Has table name t _ w b,
  insert-Has table name t _ w d,
)

pub insert-Declares :
    (table : Table) (name : Bytes) (t : NodeType) (names : List Bytes)
    → IsWhole t
    → Declares names table
    → Declares names (insert table name (some t))
insert-Declares table name t names w h j e = insert-Has table name t j w (h j e)

-- A type is declared under its name.
pub insert-Declares-name :
    (table : Table) (name : Bytes) (t : NodeType) (names : List Bytes)
    → IsWhole t
    → Declares names table
    → Declares (name ∷ names) (insert table name (some t))
unfolding insert is_among
insert-Declares-name table name t names w h j e = elim (Bool-cases (bytes_eq j name)) [
  | inl same ↦ rw same w
  | inr other ↦ rw other (h j (rw other at e))
]

pub add_primary-IsWholeTable :
    (table : Table) (name : Bytes) (t : TypeId)
    → IsWholeTable table
    → IsWholeTable (add_primary table name t)
unfolding add_primary
add_primary-IsWholeTable table name t h = insert-IsWholeTable table name (primary_type t) h tt

pub initial-IsSound : IsSound [] initial
unfolding initial_types bytes_eq insert is_among
initial-IsSound = (
  add_primary-IsWholeTable _ _ _ (
      add_primary-IsWholeTable _ _ _ (
        add_primary-IsWholeTable _ _ _ (
          add_primary-IsWholeTable _ _ _
            (add_primary-IsWholeTable (λ _. none) _ _ λ name t e. cc)))),
  λ name t e. cc,
  (tt, tt, tt, tt),
  λ name e. cc,
)

abbrev pub IsAll : Types → Type 0
IsAll Types.nil = Unit
IsAll (Types.cons t ts) = IsWhole t × IsAll ts
IsAll (Types.cons_null ts) = ⊥

pub anonymous-AreWhole : (ts : Types) → IsAll ts → AreWhole ts (anonymous ts)
unfolding anonymous
anonymous-AreWhole Types.nil h = tt
anonymous-AreWhole (Types.cons t ts) (w, h) = (w, anonymous-AreWhole ts h)
anonymous-AreWhole (Types.cons_null ts) h = absurd h

pub row_type-IsWhole : (ts : Types) → IsAll ts → IsWhole (row_type ts)
unfolding row_type
row_type-IsWhole = anonymous-AreWhole

-- A name that is found has its type.
abbrev pub Finds : Types → Result (Option NodeType) → Type 0
Finds ts m = (t : NodeType) × (m ≡ ok (some t)) × IsWhole t

pub find_name-Finds :
    (ts : Types) (names : List Bytes) (name : Bytes) (k i : ℕ)
    → AreWhole ts names
    → find_name names name k ≡ some i
    → (j : ℕ) × (i ≡ k + j) × Finds ts (get_type? ts j)
unfolding find_name get_type?
find_name-Finds Types.nil [] name k i h e = cc
find_name-Finds Types.nil (n ∷ ns) name k i h e = absurd h
find_name-Finds (Types.cons t ts) [] name k i h e = absurd h
find_name-Finds (Types.cons_null ts) names name k i h e = absurd h
find_name-Finds (Types.cons t ts) (n ∷ ns) name k i (w, h) e = elim (Bool-cases (bytes_eq n name)) [
  | inl same ↦ let e' = some_injective (rw same at e) in (0, omega (arith, e'), (t, refl, w))
  | inr other ↦
      let (j, e', found) = find_name-Finds ts ns name (suc k) i h (rw other at e) in
      (suc j, omega (arith, e'), found)
]

pub find_name-get_type? :
    (ts : Types) (names : List Bytes) (name : Bytes) (i : ℕ)
    → AreWhole ts names
    → find_name names name 0 ≡ some i
    → Finds ts (get_type? ts i)
find_name-get_type? ts names name i h e =
    let (j, e', found) = find_name-Finds ts names name 0 i h e in
    subst (λ k. Finds ts (get_type? ts k)) (omega (arith, e')) found
