-- ===== src/Codegen/Rows/Layout.antt =====
-- Where the columns of a row stand in the buffers of src/reir/exec/ast_statement_codegen.cpp.
use reir.Prelude.{
  ℕ, suc, ◌+◌, ◌%◌, ◌^◌, ◌<◌, ◌≤◌, ◌≡◌, refl, sym, ◌∙◌, ap, arith, Bool, true, false, not, List, [],
  ◌∷◌, some, length, get_elem?, ok, bind, WhenOk, on_ok, on_throw, WhenOk-bind, WhenOk-eq,
  WhenOk-if, itself, length-append,
}
use reir.Db.Attribute.{Attribute, is_key, attribute_default_size}
use reir.Db.Schema.{
  Schema, not_key, get_tuple_length, schema_is_key, sum_default_sizes, get_prefix, columns,
  fixed_key_length, fixed_value_length, get_fixed_key_length, get_fixed_value_length,
}
use reir.Codegen.Rows.{
  Place, in_key, in_value, Copy, add_size, widen, copies, insert_buffers, insert_copies,
}

-- From the index `i` on the columns are `rest`.
abbrev pub From : Schema → ℕ → List Attribute → Type 0
From s i rest = (j : ℕ) → get_elem? s.attrs (i + j) ≡ get_elem? rest j

pub From-start : (s : Schema) → From s 0 s.attrs
From-start s j = ap (get_elem? s.attrs) (omega arith)

pub From-next :
    (s : Schema) (i : ℕ) (a : Attribute) (rest : List Attribute)
    → From s i (a ∷ rest)
    → From s (suc i) rest
From-next s i a rest h j = ap (get_elem? s.attrs) (omega arith) ∙ h (suc j)

pub From-head :
    (s : Schema) (i : ℕ) (a : Attribute) (rest : List Attribute)
    → From s i (a ∷ rest)
    → (schema_is_key s i ≡ ok (is_key a)) × (get_tuple_length s i ≡ attribute_default_size a)
unfolding schema_is_key get_tuple_length
From-head s i a rest h =
    let e : get_elem? s.attrs i ≡ some a = (ap (get_elem? s.attrs) (omega arith) ∙ h 0) in
    (rw (e, schema_is_key) refl, rw (e, get_tuple_length) refl)

-- A copy ends within the lengths of the key and of the value.
abbrev pub Within : ℕ → ℕ → Place → ℕ → Type 0
Within key value (in_key d) n = d + n ≤ key
Within key value (in_value d) n = d + n ≤ value

abbrev pub AllWithin : ℕ → ℕ → List Copy → Type 0
AllWithin key value [] = Unit
AllWithin key value (c ∷ cs) = Within key value c.place c.len × AllWithin key value cs

-- The lengths are those before the columns and those of the columns, if they are `int`s.
abbrev Lays : ℕ → ℕ → List Attribute → List Copy × ℕ × ℕ → Type 0
Lays ki vi rest (cs, key, value) =
    (m : ℕ) × (n : ℕ) × (sum_default_sizes is_key rest ≡ ok m)
    × (sum_default_sizes not_key rest ≡ ok n)
    × (ki + m < 2 ^ 31
        → vi + n < 2 ^ 31
        → (key ≡ ki + m) × (value ≡ vi + n) × AllWithin key value cs)

sizes-key :
    (a : Attribute) (rest : List Attribute) (l m n : ℕ)
    → is_key a ≡ true
    → attribute_default_size a ≡ ok l
    → sum_default_sizes is_key rest ≡ ok m
    → sum_default_sizes not_key rest ≡ ok n
    → (sum_default_sizes is_key (a ∷ rest) ≡ ok (l + m))
      × (sum_default_sizes not_key (a ∷ rest) ≡ ok n)
unfolding sum_default_sizes
sizes-key a rest l m n k e f g = (rw (k, e, f) refl, rw (k, g) refl)

sizes-value :
    (a : Attribute) (rest : List Attribute) (l m n : ℕ)
    → is_key a ≡ false
    → attribute_default_size a ≡ ok l
    → sum_default_sizes is_key rest ≡ ok m
    → sum_default_sizes not_key rest ≡ ok n
    → (sum_default_sizes is_key (a ∷ rest) ≡ ok m)
      × (sum_default_sizes not_key (a ∷ rest) ≡ ok (l + n))
unfolding sum_default_sizes
sizes-value a rest l m n k e f g = (rw (k, f) refl, rw (k, e, g) refl)

add_size-small : (x n : ℕ) → x + n < 2 ^ 31 → add_size x n ≡ x + n
unfolding add_size
add_size-small x n h = omega arith

widen-small : (x : ℕ) → x < 2 ^ 31 → widen x ≡ x
unfolding widen
widen-small x h = ground arith

-- The columns behind the first, which stands in the key or in the value.
module _ (s : Schema) (a : Attribute) (rest : List Attribute) (i ki vi offset l : ℕ)
    (e : attribute_default_size a ≡ ok l)
    (again : (i ki vi offset : ℕ)
      → From s i rest
      → WhenOk (Lays ki vi rest) (copies s (length rest) i ki vi offset))
    (next : From s (suc i) rest) where
  step-Lays :
      (b : Bool)
      → is_key a ≡ b
      → WhenOk (Lays ki vi (a ∷ rest)) (elim b [
        | true ↦
            bind
              (copies s (length rest) (suc i) (add_size ki l) vi (add_size offset l))
              λ (cs, key_len, value_len).
                ok (record { place = in_key ki; src = offset; len = l } ∷ cs, key_len, value_len)
        | false ↦
            bind
              (copies s (length rest) (suc i) ki (add_size vi l) (add_size offset l))
              λ (cs, key_len, value_len).
                ok (record { place = in_value vi; src = offset; len = l } ∷ cs, key_len, value_len)
      ])
  step-Lays true k =
      WhenOk-bind (again (suc i) (add_size ki l) vi (add_size offset l) next)
        λ (cs, key, value) (m, n, f, g, fits).
          let (f', g') = sizes-key a rest l m n k e f g in
          on_ok (
            l + m,
            n,
            f',
            g',
            λ p q.
                let same : add_size ki l ≡ ki + l = add_size-small ki l (omega arith) in
                let (ke, ve, w) = fits (omega (arith, same)) q in
                (omega (arith, ke, same), ve, (omega (arith, ke, same), w)),
          )
  step-Lays false k =
      WhenOk-bind (again (suc i) ki (add_size vi l) (add_size offset l) next)
        λ (cs, key, value) (m, n, f, g, fits).
          let (f', g') = sizes-value a rest l m n k e f g in
          on_ok (
            m,
            l + n,
            f',
            g',
            λ p q.
                let same : add_size vi l ≡ vi + l = add_size-small vi l (omega arith) in
                let (ke, ve, w) = fits p (omega (arith, same)) in
                (ke, omega (arith, ve, same), (omega (arith, ve, same), w)),
          )

copies-Lays :
    (s : Schema) (rest : List Attribute) (i ki vi offset : ℕ)
    → From s i rest
    → WhenOk (Lays ki vi rest) (copies s (length rest) i ki vi offset)
unfolding copies sum_default_sizes
copies-Lays s [] i ki vi offset h = on_ok (0, 0, refl, refl, λ p q. (omega arith, omega arith, tt))
copies-Lays s (a ∷ rest) i ki vi offset h =
    let (k, l) = From-head s i a rest h in
    rw (k, l)
      (WhenOk-bind (itself (attribute_default_size a)) λ n e.
        step-Lays s a rest i ki vi offset n e (copies-Lays s rest) (From-next s i a rest h)
          (is_key a) refl)

-- The sizes of the buffers.
key-Sizes :
    (s : Schema)
    → WhenOk
        (λ key.
          (m : ℕ) × (sum_default_sizes is_key s.attrs ≡ ok m) × (key ≡ length s.name + 1 + m + 1))
        (get_fixed_key_length s)
unfolding get_fixed_key_length
key-Sizes s =
    WhenOk-if (not (fixed_key_length s)) (λ _. on_throw)
      λ _. WhenOk-bind (itself (sum_default_sizes is_key s.attrs)) λ m e. on_ok (m, e, refl)

value-Sizes :
    (s : Schema)
    → WhenOk (λ value. sum_default_sizes not_key s.attrs ≡ ok value) (get_fixed_value_length s)
unfolding get_fixed_value_length
value-Sizes s =
    WhenOk-if (not (fixed_value_length s)) (λ _. on_throw)
      λ _. itself (sum_default_sizes not_key s.attrs)

abbrev Sizes : Schema → ℕ × ℕ → Type 0
Sizes s (key, value) =
    (m : ℕ) × (sum_default_sizes is_key s.attrs ≡ ok m)
    × (key ≡ length s.name + 1 + m + 1)
    × (sum_default_sizes not_key s.attrs ≡ ok value)

buffers-Sizes :
    (s : Schema) (initialized : Bool) → WhenOk (Sizes s) (insert_buffers (some s) initialized)
unfolding insert_buffers
buffers-Sizes s initialized =
    WhenOk-if (not (fixed_key_length s)) (λ _. on_throw)
      λ _.
        WhenOk-if (not (fixed_value_length s)) (λ _. on_throw)
          λ _. WhenOk-bind (key-Sizes s) λ key (m, e, k).
            WhenOk-bind (value-Sizes s)
              λ value v. WhenOk-if initialized (λ _. on_throw) λ _. on_ok (m, e, k, v)

-- What is shown of the copies and the lengths.
abbrev Fits : ℕ → ℕ → List Copy × ℕ × ℕ → Type 0
Fits key_size value_size (cs, key, value) =
    (key + 1 ≡ key_size) × (value ≡ value_size) × AllWithin key value cs

ok_injective {ℓ} : {A : Type ℓ} {a b : A} → ok a ≡ ok b → a ≡ b
ok_injective h = cc

-- If the buffers of an insert have sizes below 2 ^ 31 and the copies of a row with an element for
-- each column are computed, the key is one byte shorter than its buffer and the value is as long
-- as its buffer, and each copy ends within the key or within the value.
pub insert_copies-AllWithin :
    (s : Schema) (initialized : Bool) (key_size value_size key value : ℕ) (cs : List Copy)
    → insert_buffers (some s) initialized ≡ ok (key_size, value_size)
    → key_size < 2 ^ 31
    → value_size < 2 ^ 31
    → insert_copies s (columns s) ≡ ok (cs, key, value)
    → (key + 1 ≡ key_size) × (value ≡ value_size) × AllWithin key value cs
unfolding insert_copies columns get_prefix
insert_copies-AllWithin s initialized key_size value_size key value cs h small small' h' =
    let (m, e, k, v) = WhenOk-eq (buffers-Sizes s initialized) h in
    let start = length (get_prefix s) % 2 ^ 32 in
    WhenOk-eq {P = Fits key_size value_size}
      (WhenOk-bind (copies-Lays s s.attrs 0 start 0 0 (From-start s))
        λ (cs, key, value) (m', n', e', f', fits).
          let same : m ≡ m' = (ok_injective (sym e ∙ e')) in
          let same' : value_size ≡ n' = (ok_injective (sym v ∙ f')) in
          let long = length-append s.name (b':' ∷ []) in
          let begins : start ≡ length s.name + 1 = (omega (arith, k, long)) in
          let (ke, ve, w) = fits (omega (arith, begins, same, k)) (omega (arith, same')) in
          let kw = widen-small key (omega (arith, ke, begins, same, k)) in
          let vw = widen-small value (omega (arith, ve, same')) in
          on_ok (rw (kw, vw) (omega (arith, same, k, ke, begins), omega (arith, same', ve), w)))
      h'
