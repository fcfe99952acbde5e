-- ===== src/Codegen/Stack/Growth.antt =====
-- No pass of src/reir/exec/compiler.cpp over the statements takes the place of a variable away: the
-- frames that `alloca_stack` of ast_statement_codegen.cpp makes.
use reir.Prelude.{
  ℕ, ◌++◌, ◌∙◌, codes, ◌≡◌, refl, inl, inr, Bool, true, Bool-cases, List, ◌∷◌, Option, none, some,
  Bytes, bytes_eq, bytes_eq_iff, sym, subst, bind, WhenOk, on_ok, on_fault, WhenOk-bind,
  WhenOk-weaken, itself,
}
use reir.Ast.{TupleType, Types}
use reir.Db.Schema.{Schema}
use reir.Codegen.Rows.{define_schema, scan_buffers}
use reir.Codegen.Types.{LlvmType, put, is_there}
use reir.Codegen.Stack.{
  Frame, Pass, alloca_struct, is_struct, set_variable, find_or_create_prefix, define_place,
  scan_frame, scan_place, row_struct,
}

abbrev pub Has : Bytes → Frame → Type 0
Has n f = is_there (f.variables n) ≡ true

abbrev pub HasSchema : Bytes → Frame → Type 0
HasSchema n f = is_there (f.schemas n) ≡ true

-- No variable loses its place, and no table its schema.
abbrev pub Grows : Frame → Frame → Type 0
Grows f f' = ((n : Bytes) → Has n f → Has n f') × ((n : Bytes) → HasSchema n f → HasSchema n f')

pub Grows-stay : (f : Frame) → Grows f f
Grows-stay f = (λ n a. a, λ n a. a)

pub Grows-then : (f f' f'' : Frame) → Grows f f' → Grows f' f'' → Grows f f''
Grows-then f f' f'' (h, h') (k, k') = (λ n a. k n (h n a), λ n a. k' n (h' n a))

abbrev pub Growing : Pass → Type 0
Growing p = (f : Frame) → WhenOk (Grows f) (p f)

pub both : (p q : Pass) → Growing p → Growing q → Growing (λ f. bind (p f) q)
both p q hp hq f = WhenOk-bind (hp f) λ f₁ h. WhenOk-weaken (hq f₁) λ f₂ k. Grows-then f f₁ f₂ h k

pub Has-set : (n : Bytes) (t : LlvmType) (f : Frame) → Has n (set_variable n t f)
unfolding put is_there
Has-set n t f = rw ((bytes_eq_iff n n).1 refl) refl

pub Grows-set : (n : Bytes) (t : LlvmType) (f : Frame) → Grows f (set_variable n t f)
unfolding put is_there
Grows-set n t f =
    (λ m h. elim (Bool-cases (bytes_eq m n)) [ inl e ↦ rw e refl | inr e ↦ rw e h ], λ m h. h)

-- A schema that is entered.
pub schema-Grows :
    (n : Bytes) (s : Schema) (c : List Schema) (f : Frame)
    → Grows f (record f { schemas = put f.schemas n s; created = c })
unfolding put is_there
schema-Grows n s c f =
    (λ m h. h, λ m h. elim (Bool-cases (bytes_eq m n)) [ inl e ↦ rw e refl | inr e ↦ rw e h ])

pub define-Growing :
    (columns : TupleType → Types) (t : Option TupleType) (name : Bytes)
    → Growing (define_place columns t name)
unfolding define_place
define-Growing columns none name f = on_fault
define-Growing columns (some t) name f =
    WhenOk-bind (itself (define_schema name t (columns t)))
      λ s e. on_ok (schema-Grows name s (s ∷ f.created) f)

pub variables-prefix :
    (prefix name : Bytes) (f : Frame)
    → (find_or_create_prefix prefix name f).variables ≡ f.variables
unfolding find_or_create_prefix
variables-prefix prefix name f =
    elim (f.prefixes prefix)
      as (λ o.
        (elim o as (λ _. Frame) [
          | none ↦ record f { prefixes = put f.prefixes prefix name }
          | some _ ↦ f
        ]).variables
        ≡ f.variables) [ none ↦ refl | some _ ↦ refl ]

pub schemas-prefix :
    (prefix name : Bytes) (f : Frame) → (find_or_create_prefix prefix name f).schemas ≡ f.schemas
unfolding find_or_create_prefix
schemas-prefix prefix name f =
    elim (f.prefixes prefix)
      as (λ o.
        (elim o as (λ _. Frame) [
          | none ↦ record f { prefixes = put f.prefixes prefix name }
          | some _ ↦ f
        ]).schemas
        ≡ f.schemas) [ none ↦ refl | some _ ↦ refl ]

-- With the same variables and schemas.
pub same-Grows : (f g : Frame) → g.variables ≡ f.variables → g.schemas ≡ f.schemas → Grows f g
same-Grows f g e e' = (
  λ n h. subst (λ m. is_there (m n) ≡ true) (sym e) h,
  λ n h. subst (λ m. is_there (m n) ≡ true) (sym e') h,
)

pub frame-Has :
    (table row : Bytes) (s : Schema) (r : Bytes × Bytes × ℕ × ℕ) (f : Frame)
    → Has row (scan_frame table row s r f) × Grows f (scan_frame table row s r f)
unfolding scan_frame
frame-Has table row s (begin, last, key, value) f =
    let g = find_or_create_prefix begin (table ++ codes "_table_prefix_begin") f in
    let h = find_or_create_prefix last (table ++ codes "_table_prefix_end") g in
    let e : h.variables ≡ f.variables =
      variables-prefix last (table ++ codes "_table_prefix_end") g
      ∙ variables-prefix begin (table ++ codes "_table_prefix_begin") f in
    let e' : h.schemas ≡ f.schemas =
      schemas-prefix last (table ++ codes "_table_prefix_end") g
      ∙ schemas-prefix begin (table ++ codes "_table_prefix_begin") f in
    (
      Has-set row (row_struct row s) h,
      Grows-then f h (scan_frame table row s (begin, last, key, value) f) (same-Grows f h e e')
          (Grows-set row (row_struct row s) h),
    )

pub scan-Has :
    (o : Option Schema) (table row : Bytes) (again : Bool) (f : Frame)
    → f.schemas table ≡ o
    → WhenOk (λ f'. (Has row f' × HasSchema table f') × Grows f f') (scan_place o table row again f)
unfolding scan_place is_there
scan-Has none table row again f e = on_fault
scan-Has (some s) table row again f e = WhenOk-bind (itself (scan_buffers (some s) again)) λ r _.
    let (p, k) = frame-Has table row s r f in on_ok ((p, k.1 table (rw (e, is_there) refl)), k)

-- With what a type is used for.
abbrev pub IsHarmless : (LlvmType → Frame → Frame) → Type 0
IsHarmless k = (t : LlvmType) (f : Frame) → Grows f (k t f)

pub struct-IsHarmless : IsHarmless alloca_struct
unfolding alloca_struct
struct-IsHarmless t f = (
  λ n h. elim (Bool-cases (is_struct t)) [ inl e ↦ rw e h | inr e ↦ rw e h ],
  λ n h. elim (Bool-cases (is_struct t)) [ inl e ↦ rw e h | inr e ↦ rw e h ],
)
