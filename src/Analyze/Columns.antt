-- ===== src/Analyze/Columns.antt =====
-- The types of the columns of a tuple, `TupleType::analyze` of src/reir/exec/ast_node.cpp.
use reir.Prelude.{
  ℕ, zero, suc, ◌≡◌, refl, subst, List, [], ◌∷◌, get_elem?, Option, none, some, Bytes, ok, bind,
  bind-eq-ok,
}
use reir.Ast.{NodeType}
use reir.Analyze.{Table, column_type, column_types}

ok_injective {ℓ} : {A : Type ℓ} {a b : A} → ok a ≡ ok b → a ≡ b
ok_injective h = cc

-- What stands at an index: nothing if no column does, else the type of that column.
abbrev pub HasType : Table → Option Bytes → Option (Option NodeType) → Type 0
HasType table none t = t ≡ none
HasType table (some name) t = (x : Option NodeType) × (column_type table name ≡ ok x) × (t ≡ some x)

-- The types of the first column and of the others.
column_types-cons :
    (table : Table) (name : Bytes) (names : List Bytes) (types : List (Option NodeType))
    → column_types table (name ∷ names) ≡ ok types
    → (t : Option NodeType) × (ts : List (Option NodeType)) × (column_type table name ≡ ok t)
      × (column_types table names ≡ ok ts)
      × (t ∷ ts ≡ types)
unfolding column_types
column_types-cons table name names types h =
    let (t, e, h') =
      bind-eq-ok (column_type table name) (λ t. bind (column_types table names) λ ts. ok (t ∷ ts))
        h in
    let (ts, e', h'') = bind-eq-ok (column_types table names) (λ ts. ok (t ∷ ts)) h' in
    (t, ts, e, e', ok_injective h'')

column_types-nil :
    (table : Table) (types : List (Option NodeType)) → column_types table [] ≡ ok types → [] ≡ types
unfolding column_types
column_types-nil table types h = ok_injective h

-- If the columns of a tuple are analyzed, the type at the index of a column is that of the
-- column, and there is none at another index.
pub column_types-HasType :
    (table : Table) (names : List Bytes) (types : List (Option NodeType)) (i : ℕ)
    → column_types table names ≡ ok types
    → HasType table (get_elem? names i) (get_elem? types i)
column_types-HasType table [] types i h =
    subst (λ ts. get_elem? ts i ≡ none) (column_types-nil table types h) refl
column_types-HasType table (name ∷ names) types zero h =
    let (t, ts, e, _, same) = column_types-cons table name names types h in
    subst (λ us. HasType table (some name) (get_elem? us zero)) same (t, e, refl)
column_types-HasType table (name ∷ names) types (suc i) h =
    let (t, ts, _, e, same) = column_types-cons table name names types h in
    subst (λ us. HasType table (get_elem? names i) (get_elem? us (suc i))) same
      (column_types-HasType table names ts i e)
