-- ===== src/Db/Schema/Columns.antt =====
-- Columns of integers of src/reir/db/schema.hpp, and bytes that are written over others.
use reir.Prelude.{
  ℕ, zero, suc, ◌+◌, ◌≤◌, ◌≡◌, refl, sym, ap, ◌∙◌, arith, Bool, true, false, List, [], ◌∷◌, ◌++◌,
  map, Bytes, ◌==◌, if◌then◌else◌, leb, length, drop, length-append, take-append, ok,
}
use reir.Db.Memory.{store, le_bytes}
use reir.Db.Value.{of_int64}
use reir.Db.MaybeValue.{MaybeValue, of_value}
use reir.Db.AttrType as AttrType
use reir.Db.AttrType.{encode, encoded_length}
use reir.Db.Attribute as Attribute
use reir.Db.Attribute.{Attribute, is_key, attribute_encode, attribute_encoded_length}

-- A column of integers that may not be null.
abbrev pub IsPlain : Attribute → Type 0
IsPlain a =
    ((a.type.type == AttrType.integer) ≡ true) × ((a.property == Attribute.nullable) ≡ false)

-- As many numbers as columns, which are all of this kind.
abbrev pub ArePlain : List Attribute → List ℕ → Type 0
ArePlain [] [] = Unit
ArePlain (a ∷ attrs) (n ∷ ns) = IsPlain a × ArePlain attrs ns
ArePlain _ _ = ⊥

abbrev pub cells : List ℕ → List MaybeValue
cells = map (λ n. of_value (of_int64 n))

-- The numbers in the columns that are chosen, one behind another.
abbrev pub words : (Attribute → Bool) → List Attribute → List ℕ → Bytes
words chosen (a ∷ attrs) (n ∷ ns) =
    let rest = words chosen attrs ns in if chosen a then le_bytes 8 n ++ rest else rest
words chosen _ _ = []

pub same-drop : (m k : ℕ) (xs : Bytes) → m ≡ k → drop m xs ≡ drop k xs
same-drop m k xs e = ap (λ n. drop n xs) e

pub drop-behind : (front old : Bytes) (k : ℕ) → drop (length front + k) (front ++ old) ≡ drop k old
drop-behind [] old k = same-drop (0 + k) k old (omega arith)
drop-behind (x ∷ front) old k =
    same-drop (suc (length front) + k) (suc (length front + k)) (x ∷ (front ++ old)) (omega arith)
    ∙ drop-behind front old k

pub drop-nil : (k : ℕ) → drop {A = ℕ} k [] ≡ []
drop-nil zero = refl
drop-nil (suc k) = refl

pub drop-drop : (m k : ℕ) (old : Bytes) → drop m (drop k old) ≡ drop (k + m) old
drop-drop m zero old = same-drop m (0 + m) old (omega arith)
drop-drop zero (suc k) [] = same-drop (suc k) (suc k + 0) [] (omega arith)
drop-drop (suc m) (suc k) [] = sym (drop-nil (suc k + suc m))
drop-drop m (suc k) (x ∷ old) =
    drop-drop m k old ∙ same-drop (suc (k + m)) (suc k + m) (x ∷ old) (omega arith)

-- A store behind `front`, where there is enough room.
pub store-behind :
    (front bytes old : Bytes)
    → length bytes ≤ length old
    → store (front ++ old) (length front) bytes ≡ ok (front ++ (bytes ++ drop (length bytes) old))
unfolding store
store-behind front bytes old h =
    let fits : leb (length front + length bytes) (length (front ++ old)) ≡ true =
      (let e = length-append front old in ground arith) in
    rw (fits, take-append front old, drop-behind front old (length bytes)) refl
