-- ===== src/Codegen/Rows/Range.antt =====
-- The keys that a scan of src/reir/exec/ast_statement_codegen.cpp asks the engine for.
use reir.Prelude.{
  ℕ, ◌+◌, ◌-◌, ◌%◌, ◌<◌, ◌≡◌, refl, sym, ◌∙◌, ap, arith, Bool, true, false, not, ◌&&◌, [], ◌∷◌,
  ◌++◌, Bytes, ltb, length, ok, append_assoc, length-append,
}
use reir.Slice.{bytes_less}
use reir.Db.Schema.{Schema, get_prefix}
use reir.Codegen.Rows.{increment_at, prefix_end}

-- Which keys a cursor of the engine comes to that is opened with a begin and an end. By default it
-- includes the begin and excludes the end, and the keys are in the order of their bytes.
abbrev pub IsHalfOpen : (Bytes → Bytes → Bytes → Bool) → Type 0
IsHalfOpen visits =
    (first last key : Bytes)
    → visits first last key ≡ not (bytes_less key first) && bytes_less key last

increment_at-append :
    (front : Bytes) (c : ℕ) (back : Bytes)
    → increment_at (front ++ c ∷ back) (length front) ≡ ok (front ++ (c + 1) % 256 ∷ back)
unfolding increment_at
increment_at-append [] c back = refl
increment_at-append (x ∷ front) c back = rw (increment_at-append front c back) refl

less-append : (front a b : Bytes) → bytes_less (front ++ a) (front ++ b) ≡ bytes_less a b
unfolding bytes_less
less-append [] a b = refl
less-append (x ∷ front) a b = ground (arith, less-append front a b)

-- Where the last byte of the name is incremented, the rest of a key does not matter.
less-next : (c : ℕ) (a b : Bytes) → c < 255 → bytes_less (c ∷ a) ((c + 1) % 256 ∷ b) ≡ true
unfolding bytes_less
less-next c a b h = ground arith

-- The name of a table, without its last byte, and that byte.
prefix_end-name :
    (front : Bytes) (c : ℕ)
    → prefix_end (front ++ c ∷ b':' ∷ []) ≡ ok (front ++ (c + 1) % 256 ∷ b':' ∷ [])
unfolding prefix_end
prefix_end-name front c =
    let n = length-append front (c ∷ b':' ∷ []) in
    let long : ltb (length (front ++ c ∷ b':' ∷ [])) 2 ≡ false = (ground (arith, n)) in
    let same : length (front ++ c ∷ b':' ∷ []) - 2 ≡ length front = (omega (arith, n)) in
    rw (long, same) (increment_at-append front c (b':' ∷ []))

ok_injective : {a b : Bytes} → ok a ≡ ok b → a ≡ b
ok_injective h = cc

and_true : (b : Bool) → not b && true ≡ not b
and_true true = refl
and_true false = refl

range-name :
    (front rest : Bytes) (c : ℕ)
    → c < 255
    → not (bytes_less ((front ++ c ∷ []) ++ rest) ((front ++ c ∷ []) ++ b':' ∷ []))
        && bytes_less ((front ++ c ∷ []) ++ rest) (front ++ (c + 1) % 256 ∷ b':' ∷ [])
      ≡ not (bytes_less rest (b':' ∷ []))
range-name front rest c h =
    rw
      (
        less-append (front ++ c ∷ []) rest (b':' ∷ []),
        append_assoc front (c ∷ []) rest,
        less-append front (c ∷ rest) ((c + 1) % 256 ∷ b':' ∷ []),
        less-next c rest (b':' ∷ []) h,
      )
      (and_true (bytes_less rest (b':' ∷ [])))

-- If a cursor comes to the keys from its begin on and before its end, in the order of their bytes,
-- and the last byte of the name of a table is below 255, the cursor of a scan comes to a key that
-- begins with the name just when the rest of the key is not below a colon.
pub prefix_end-extends :
    (visits : Bytes → Bytes → Bytes → Bool) (s : Schema) (front rest last : Bytes) (c : ℕ)
    → IsHalfOpen visits
    → s.name ≡ front ++ c ∷ []
    → c < 255
    → prefix_end (get_prefix s) ≡ ok last
    → visits (get_prefix s) last (s.name ++ rest) ≡ not (bytes_less rest (b':' ∷ []))
unfolding get_prefix
prefix_end-extends visits s front rest last c half e h e' =
    let same : front ++ (c + 1) % 256 ∷ b':' ∷ [] ≡ last = ok_injective (
      sym (prefix_end-name front c)
      ∙ ap prefix_end (sym (append_assoc front (c ∷ []) (b':' ∷ [])))
      ∙ ap (λ n. prefix_end (n ++ b':' ∷ [])) (sym e)
      ∙ e') in
    half (get_prefix s) last (s.name ++ rest) ∙ rw (e, sym same) (range-name front rest c h)
