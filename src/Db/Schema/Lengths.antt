-- ===== src/Db/Schema/Lengths.antt =====
-- The lengths of tuples, encoded_length, key_length and value_length of src/reir/db/schema.hpp.
use reir.Prelude.{
  ℕ, ◌+◌, ◌≡◌, refl, sym, ◌∙◌, arith, Bool, true, false, not, List, [], ◌∷◌, length, if◌then◌else◌,
  Result, ok, bind, bind-eq-ok,
}
use reir.Db.MaybeValue.{MaybeValue}
use reir.Db.Attribute.{Attribute, is_key, attribute_encoded_length}
use reir.Db.Schema.{
  Schema, every, not_key, sum_lengths, check_tuple_size, schema_encoded_length, key_length,
  value_length,
}

-- Sums over the keys and over the other columns, with the given total.
abbrev Splits : List Attribute → List MaybeValue → ℕ → Type 0
Splits attrs tuple n =
    (k : ℕ) × (v : ℕ) × (sum_lengths is_key attrs tuple ≡ ok k)
    × (sum_lengths not_key attrs tuple ≡ ok v)
    × (n ≡ k + v)

ok_injective : {a b : ℕ} → ok a ≡ ok b → a ≡ b
ok_injective h = cc

-- The length of a column is added to that of the columns behind it, if it is chosen.
chosen-ok :
    (b : Bool) {m r : Result ℕ} {one k : ℕ}
    → m ≡ ok one
    → r ≡ ok k
    → (if b then (bind m λ n. bind r λ k. ok (n + k)) else r) ≡ ok (if b then one + k else k)
chosen-ok true e e' = rw (e, e') refl
chosen-ok false e e' = e'

split_total :
    (b : Bool) (one rest k v : ℕ)
    → rest ≡ k + v
    → one + rest ≡ (if b then one + k else k) + (if not b then one + v else v)
split_total true one rest k v h = omega arith
split_total false one rest k v h = omega arith

sum_lengths-Splits :
    (attrs : List Attribute) (tuple : List MaybeValue) (n : ℕ)
    → sum_lengths every attrs tuple ≡ ok n
    → Splits attrs tuple n
unfolding sum_lengths
sum_lengths-Splits [] tuple n h = (0, 0, refl, refl, sym (ok_injective h))
sum_lengths-Splits (a ∷ attrs) [] n h = cc
sum_lengths-Splits (a ∷ attrs) (m ∷ tuple) n h =
    let (one, e, h') =
      bind-eq-ok (attribute_encoded_length a m)
        (λ n. bind (sum_lengths every attrs tuple) λ k. ok (n + k)) h in
    let (rest, e', h'') = bind-eq-ok (sum_lengths every attrs tuple) (λ k. ok (one + k)) h' in
    let (k, v, ek, ev, total) = sum_lengths-Splits attrs tuple rest e' in
    let sum = ok_injective h'' in
    (
      _,
      _,
      chosen-ok (is_key a) e ek,
      chosen-ok (not_key a) e ev,
      sym sum ∙ split_total (is_key a) one rest k v total,
    )

-- If the encoded length of a tuple is computed, so are those of its key, which includes the
-- prefix, and of its value, and it is their sum.
pub encoded_length-key-value :
    (s : Schema) (tuple : List MaybeValue) (n : ℕ)
    → schema_encoded_length s tuple ≡ ok n
    → (k : ℕ) × (v : ℕ) × (key_length s tuple ≡ ok k) × (value_length s tuple ≡ ok v) × (n ≡ k + v)
unfolding schema_encoded_length key_length value_length
encoded_length-key-value s tuple n h =
    let (u, _, h') =
      bind-eq-ok (check_tuple_size s tuple)
        (λ _. bind (sum_lengths every s.attrs tuple) λ n. ok (length s.name + 1 + n)) h in
    let (all, e, h'') =
      bind-eq-ok (sum_lengths every s.attrs tuple) (λ n. ok (length s.name + 1 + n)) h' in
    let (k, v, ek, ev, total) = sum_lengths-Splits s.attrs tuple all e in
    let sum = ok_injective h'' in (length s.name + 1 + k, v, rw ek refl, ev, omega arith)
