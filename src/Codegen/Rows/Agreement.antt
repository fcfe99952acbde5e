-- ===== src/Codegen/Rows/Agreement.antt =====
-- What an insert writes and a scan reads, src/reir/exec/ast_statement_codegen.cpp.
use reir.Prelude.{
  ℕ, suc, ◌%◌, ◌^◌, ◌≡◌, refl, Bool, true, false, Bool-cases, inl, inr, List, [], ◌∷◌, map, ◌==◌,
  length, Result, ok, throw, bind, WhenOk, on_ok, WhenOk-bind, WhenOk-eq, Error,
}
use reir.Db.AttrType as AttrType
use reir.Db.AttrType.{default_size}
use reir.Db.Attribute as Attribute
use reir.Db.Attribute.{Attribute, is_key, attribute_default_size, has}
use reir.Db.Schema.{Schema, get_prefix, columns}
use reir.Codegen.Rows.{
  Place, in_key, in_value, Copy, add_size, copies, insert_copies, loads, scan_loads, all_integer,
}
use reir.Codegen.Rows.Layout.{From, From-start, From-next, From-head}

-- No column may be null.
abbrev pub NoneNullable : List Attribute → Type 0
NoneNullable [] = Unit
NoneNullable (a ∷ attrs) = (has a Attribute.nullable ≡ false) × NoneNullable attrs

absurd_throw {ℓ κ} : {A : Type ℓ} {C : Type κ} {a : A} {e : Error} → throw e ≡ ok a → C
absurd_throw h = cc

integer-first :
    (a : Attribute) (rest : List Attribute)
    → all_integer (a ∷ rest) ≡ ok tt
    → has a Attribute.nullable ≡ false
    → (attribute_default_size a ≡ ok 8) × (all_integer rest ≡ ok tt)
unfolding all_integer attribute_default_size default_size
integer-first a rest h n = elim (Bool-cases (a.type.type == AttrType.integer)) [
  | inl e ↦ (rw (n, e) refl, rw e at h)
  | inr e ↦ absurd_throw (rw e at h)
]

abbrev Loaded : Result (List Place) → List Copy × ℕ × ℕ → Type 0
Loaded m (cs, _, _) = m ≡ ok (map (λ c. c.place) cs)

module _ (s : Schema) (n : ℕ) (i ki vi offset : ℕ)
    (again : (ki vi offset : ℕ)
      → WhenOk (Loaded (loads s n (suc i) ki vi)) (copies s n (suc i) ki vi offset)) where
  step-Loaded :
      (b : Bool)
      → WhenOk
          (Loaded (elim b [
            | true ↦ bind (loads s n (suc i) (add_size ki 8) vi) λ ps. ok (in_key ki ∷ ps)
            | false ↦ bind (loads s n (suc i) ki (add_size vi 8)) λ ps. ok (in_value vi ∷ ps)
          ]))
          (elim b [
            | true ↦
                bind
                  (copies s n (suc i) (add_size ki 8) vi (add_size offset 8))
                  λ (cs, key_len, value_len).
                    ok
                      (record { place = in_key ki; src = offset; len = 8 } ∷ cs, key_len, value_len)
            | false ↦
                bind
                  (copies s n (suc i) ki (add_size vi 8) (add_size offset 8))
                  λ (cs, key_len, value_len).
                    ok (
                      record { place = in_value vi; src = offset; len = 8 } ∷ cs,
                      key_len,
                      value_len,
                    )
          ])
  step-Loaded true =
      WhenOk-bind (again (add_size ki 8) vi (add_size offset 8)) λ (cs, _, _) e. on_ok (rw e refl)
  step-Loaded false =
      WhenOk-bind (again ki (add_size vi 8) (add_size offset 8)) λ (cs, _, _) e. on_ok (rw e refl)

copies-Loaded :
    (s : Schema) (rest : List Attribute) (i ki vi offset : ℕ)
    → From s i rest
    → all_integer rest ≡ ok tt
    → NoneNullable rest
    → WhenOk (Loaded (loads s (length rest) i ki vi)) (copies s (length rest) i ki vi offset)
unfolding copies loads
copies-Loaded s [] i ki vi offset h int null = on_ok refl
copies-Loaded s (a ∷ rest) i ki vi offset h int (null, nulls) =
    let (k, l) = From-head s i a rest h in
    let (eight, ints) = integer-first a rest int null in
    rw (k, l, eight)
      (step-Loaded s (length rest) i ki vi offset
        (λ ki vi offset.
          copies-Loaded s rest (suc i) ki vi offset (From-next s i a rest h) ints nulls)
        (is_key a))

-- If all columns of a schema are integers and none may be null, a scan loads each column from the
-- place in the key or in the value that an insert of a row with an element for each column copies
-- it to.
pub scan_loads-insert_copies :
    (s : Schema) (cs : List Copy) (key value : ℕ)
    → all_integer s.attrs ≡ ok tt
    → NoneNullable s.attrs
    → insert_copies s (columns s) ≡ ok (cs, key, value)
    → scan_loads s ≡ ok (map (λ c. c.place) cs)
unfolding insert_copies scan_loads columns
scan_loads-insert_copies s cs key value int null h =
    WhenOk-eq {P = Loaded (scan_loads s)}
      (WhenOk-bind
        (copies-Loaded s s.attrs 0 (length (get_prefix s) % 2 ^ 32) 0 0 (From-start s) int null)
        λ (cs, _, _) e. on_ok e)
      h
