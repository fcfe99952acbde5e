-- ===== src/Db/Schema/Layout.antt =====
-- The bytes that `encode_key` and `encode_value` of src/reir/db/schema.hpp write.
use reir.Prelude.{
  ℕ, zero, suc, ◌+◌, ◌≤◌, ◌≡◌, refl, sym, ap, ap₂, ◌∙◌, arith, Bool, Bool-cases, inl, inr, List, [],
  ◌∷◌, ◌++◌, Bytes, length, drop, length-append, append_assoc, ok, bind,
}
use reir.Db.Memory.{store, le_bytes}
use reir.Db.Memory.Laws.{length-le_bytes}
use reir.Db.Value.{of_int64, is_int, as_int}
use reir.Db.MaybeValue.{of_value, value_of}
use reir.Db.AttrType.{encode, encoded_length}
use reir.Db.Attribute.{Attribute, is_key, attribute_encode, attribute_encoded_length}
use reir.Db.Schema.{
  Schema, not_key, encode_chosen, store_prefix, encode_key, encode_value, key_length, value_length,
  sum_lengths, get_prefix,
}
use reir.Db.Schema.Columns.{IsPlain, ArePlain, cells, words, drop-drop, store-behind}

column-plain :
    (a : Attribute) (n : ℕ) (buffer : Bytes) (at : ℕ)
    → IsPlain a
    → (attribute_encoded_length a (of_value (of_int64 n)) ≡ ok 8)
      × (attribute_encode a (of_value (of_int64 n)) buffer at ≡ store buffer at (le_bytes 8 n))
unfolding attribute_encoded_length attribute_encode encode encoded_length value_of is_int as_int
column-plain a n buffer at (i, p) = (rw (p, i) refl, rw (p, i) refl)

-- What stands behind the bytes that are written, is left.
abbrev over : Bytes → Bytes → Bytes
over bytes old = bytes ++ drop (length bytes) old

over-append : (a b old : Bytes) → a ++ over b (drop (length a) old) ≡ over (a ++ b) old
over-append a b old =
    rw (append_assoc a b, length-append a b, drop-drop (length b) (length a) old) refl

length-drop : (k : ℕ) (xs : Bytes) → length xs ≤ k + length (drop k xs)
length-drop zero xs = omega arith
length-drop (suc k) [] = omega arith
length-drop (suc k) (x ∷ xs) = omega (arith, length-drop k xs)

room :
    (n : ℕ) (w old : Bytes)
    → length (le_bytes 8 n ++ w) ≤ length old
    → length w ≤ length (drop (length (le_bytes 8 n)) old)
room n w old h =
    omega (arith, length-append (le_bytes 8 n) w, length-drop (length (le_bytes 8 n)) old)

module _ (chosen : Attribute → Bool) (a : Attribute) (attrs : List Attribute) (n : ℕ) (ns : List ℕ)
    (front old : Bytes) where
  chosen-step :
      IsPlain a
      → length (le_bytes 8 n ++ words chosen attrs ns) ≤ length old
      → encode_chosen chosen attrs
          (cells ns)
          ((front ++ le_bytes 8 n) ++ drop (length (le_bytes 8 n)) old)
          (length (front ++ le_bytes 8 n))
        ≡ ok (
            (front ++ le_bytes 8 n)
            ++ over (words chosen attrs ns) (drop (length (le_bytes 8 n)) old))
      → (bind (attribute_encoded_length a (of_value (of_int64 n))) λ k.
          bind
            (attribute_encode a (of_value (of_int64 n)) (front ++ old) (length front))
            λ buffer'. encode_chosen chosen attrs (cells ns) buffer' (length front + k))
        ≡ ok (front ++ over (le_bytes 8 n ++ words chosen attrs ns) old)
  chosen-step p h ih =
      let word = le_bytes 8 n in
      let (e, e') = column-plain a n (front ++ old) (length front) p in
      let fits : length word ≤ length old =
        omega (arith, length-append word (words chosen attrs ns)) in
      let at : length (front ++ word) ≡ length front + 8 =
        length-append front word ∙ ap (λ k. length front + k) (length-le_bytes 8 n) in
      rw (e, e', store-behind front word old fits)
        (ap₂ (encode_chosen chosen attrs (cells ns))
            (sym (append_assoc front word (drop (length word) old))) (sym at)
          ∙ ih
          ∙ ap ok (
              append_assoc front word (over (words chosen attrs ns) (drop (length word) old))
              ∙ ap (λ b. front ++ b) (over-append word (words chosen attrs ns) old)))

encode_chosen-words :
    (chosen : Attribute → Bool) (attrs : List Attribute) (ns : List ℕ) (front old : Bytes)
    → ArePlain attrs ns
    → length (words chosen attrs ns) ≤ length old
    → encode_chosen chosen attrs (cells ns) (front ++ old) (length front)
      ≡ ok (front ++ over (words chosen attrs ns) old)
unfolding encode_chosen
encode_chosen-words chosen [] [] front old p h = refl
encode_chosen-words chosen [] (n ∷ ns) front old p h = absurd p
encode_chosen-words chosen (a ∷ attrs) [] front old p h = absurd p
encode_chosen-words chosen (a ∷ attrs) (n ∷ ns) front old (p, ps) h = elim (Bool-cases (chosen a)) [
  | inl it ↦ rw it (
      chosen-step chosen a attrs n ns front old p (rw it at h) (
        encode_chosen-words chosen attrs ns (front ++ le_bytes 8 n)
          (drop (length (le_bytes 8 n)) old) ps (room n (words chosen attrs ns) old (rw it at h))))
  | inr other ↦ rw other (encode_chosen-words chosen attrs ns front old ps (rw other at h))
]

sum_lengths-words :
    (chosen : Attribute → Bool) (attrs : List Attribute) (ns : List ℕ)
    → ArePlain attrs ns
    → sum_lengths chosen attrs (cells ns) ≡ ok (length (words chosen attrs ns))
unfolding sum_lengths
sum_lengths-words chosen [] [] p = refl
sum_lengths-words chosen [] (n ∷ ns) p = absurd p
sum_lengths-words chosen (a ∷ attrs) [] p = absurd p
sum_lengths-words chosen (a ∷ attrs) (n ∷ ns) (p, ps) =
    let w = words chosen attrs ns in
    let total : 8 + length w ≡ length (le_bytes 8 n ++ w) =
      omega (arith, length-append (le_bytes 8 n) w, length-le_bytes 8 n) in
    elim (Bool-cases (chosen a)) [
      | inl it ↦
          rw (it, (column-plain a n [] 0 p).0, sum_lengths-words chosen attrs ns ps) (ap ok total)
      | inr other ↦ rw other (sum_lengths-words chosen attrs ns ps)
    ]

drop-all : (bytes old : Bytes) → length bytes ≡ length old → over bytes old ≡ bytes
drop-all [] [] h = refl
drop-all [] (y ∷ old) h = absurd (omega (arith, h))
drop-all (x ∷ bytes) [] h = absurd (omega (arith, h))
drop-all (x ∷ bytes) (y ∷ old) h = ap (λ b. x ∷ b) (drop-all bytes old (omega (arith, h)))

store_prefix-prefix :
    (s : Schema) (buffer : Bytes)
    → length s.name + 1 ≤ length buffer
    → store_prefix s buffer ≡ ok (get_prefix s ++ drop (length (get_prefix s)) buffer)
unfolding store_prefix get_prefix
store_prefix-prefix s buffer h =
    let colon : Bytes = b':' ∷ [] in
    let room : length colon ≤ length (drop (length s.name) buffer) =
      omega (arith, length-drop (length s.name) buffer) in
    rw
      (
        store-behind [] s.name buffer (omega arith),
        store-behind s.name colon (drop (length s.name) buffer) room,
        over-append s.name colon buffer,
      )
      refl

prefix-size : (s : Schema) → length (get_prefix s) ≡ length s.name + 1
unfolding get_prefix
prefix-size s = length-append s.name (b':' ∷ [])

ok_injective : {a b : ℕ} → ok a ≡ ok b → a ≡ b
ok_injective h = cc

key-words :
    (s : Schema) (ns : List ℕ) (key : Bytes)
    → ArePlain s.attrs ns
    → key_length s (cells ns) ≡ ok (length key)
    → encode_key s (cells ns) key ≡ ok (get_prefix s ++ words is_key s.attrs ns)
unfolding key_length encode_key
key-words s ns key p h =
    let w = words is_key s.attrs ns in
    let prefix = get_prefix s in
    let size : length prefix ≡ length s.name + 1 = prefix-size s in
    let total : length s.name + 1 + length w ≡ length key =
      ok_injective (rw (sum_lengths-words is_key s.attrs ns p) at h) in
    let left : length key ≤ length prefix + length (drop (length prefix) key) =
      length-drop (length prefix) key in
    let all : length (prefix ++ w) ≡ length key = omega (arith, length-append prefix w) in
    rw (store_prefix-prefix s key (omega arith), sym size)
      (encode_chosen-words is_key s.attrs ns prefix (drop (length prefix) key) p (omega arith)
        ∙ ap ok (over-append prefix w key ∙ drop-all (prefix ++ w) key all))

-- If the columns of a schema are integers that may not be null, and there is a number for each,
-- then `encode_key` fills a buffer of `key_length` bytes with the prefix and the words of the key
-- columns, and `encode_value` fills one of `value_length` bytes with the words of the others.
pub encode_key-encode_value :
    (s : Schema) (ns : List ℕ) (key value : Bytes)
    → ArePlain s.attrs ns
    → key_length s (cells ns) ≡ ok (length key)
    → value_length s (cells ns) ≡ ok (length value)
    → (encode_key s (cells ns) key ≡ ok (get_prefix s ++ words is_key s.attrs ns))
      × (encode_value s (cells ns) value ≡ ok (words not_key s.attrs ns))
unfolding value_length encode_value
encode_key-encode_value s ns key value p h h' =
    let w = words not_key s.attrs ns in
    let total : length w ≡ length value =
      ok_injective (sym (sum_lengths-words not_key s.attrs ns p) ∙ h') in
    (
      key-words s ns key p h,
      encode_chosen-words not_key s.attrs ns [] value p (omega arith)
          ∙ ap ok (drop-all w value total),
    )
