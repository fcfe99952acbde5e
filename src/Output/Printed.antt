-- ===== src/Output/Printed.antt =====
-- How a row of integers is printed, src/reir/exec/compiler_context.hpp.
use reir.Prelude.{
  ℕ, suc, ◌*◌, ◌/◌, ◌^◌, ◌<◌, ◌≡◌, refl, sym, ap, ◌∙◌, arith, List, [], ◌∷◌, ◌++◌, map, Bytes,
  codes, lt→ltb, length, take, drop, length-append, take-append, drop-append, ok,
}
use reir.Prelude.Decimal.{print}
use reir.Db.Memory.{le_bytes}
use reir.Db.Memory.Laws.{length-le_bytes, from_le-le_bytes, load-behind}
use reir.Codegen.Types.{LlvmType, int64, struct, llvm_types}
use reir.Output.{row_size, emit_row, show_words, show_row}

abbrev pub AllBelow : ℕ → List ℕ → Type 0
AllBelow m [] = Unit
AllBelow m (n ∷ ns) = (n < m) × AllBelow m ns

-- A row of 64-bit integers in memory.
abbrev pub in_memory : List ℕ → Bytes
in_memory [] = []
in_memory (n ∷ ns) = le_bytes 8 n ++ in_memory ns

-- Numbers with commas between them.
abbrev pub listed_behind : List ℕ → Bytes
listed_behind [] = []
listed_behind (n ∷ ns) = codes ", " ++ (print n ++ listed_behind ns)

abbrev pub listed : List ℕ → Bytes
listed [] = []
listed (n ∷ ns) = print n ++ listed_behind ns

take-word : (n : ℕ) (b : Bytes) → take 8 (le_bytes 8 n ++ b) ≡ le_bytes 8 n
take-word n b =
    ap (λ k. take k (le_bytes 8 n ++ b)) (sym (length-le_bytes 8 n)) ∙ take-append (le_bytes 8 n) b

drop-word : (n : ℕ) (b : Bytes) → drop 8 (le_bytes 8 n ++ b) ≡ b
drop-word n b =
    ap (λ k. drop k (le_bytes 8 n ++ b)) (sym (length-le_bytes 8 n)) ∙ drop-append (le_bytes 8 n) b

words-behind :
    (ns : List ℕ) (i : ℕ)
    → AllBelow (2 ^ 64) ns
    → show_words (length ns) (suc i) (in_memory ns) ≡ listed_behind ns
unfolding show_words
words-behind [] i h = refl
words-behind (n ∷ ns) i (h, hs) =
    rw
      (
        lt→ltb 0 (suc i) (omega arith),
        take-word n (in_memory ns),
        drop-word n (in_memory ns),
        from_le-le_bytes 8 n h,
        words-behind ns (suc i) hs,
      )
      refl

words-listed :
    (ns : List ℕ) → AllBelow (2 ^ 64) ns → show_words (length ns) 0 (in_memory ns) ≡ listed ns
unfolding show_words
words-listed [] h = refl
words-listed (n ∷ ns) (h, hs) =
    rw
      (
        take-word n (in_memory ns),
        drop-word n (in_memory ns),
        from_le-le_bytes 8 n h,
        words-behind ns 0 hs,
      )
      refl

length-in_memory : (ns : List ℕ) → length (in_memory ns) ≡ 8 * length ns
length-in_memory [] = omega arith
length-in_memory (n ∷ ns) =
    omega
      (arith, length-append (le_bytes 8 n) (in_memory ns), length-le_bytes 8 n, length-in_memory ns)

size-in_memory :
    (bits : LlvmType → ℕ) (ns : List ℕ)
    → bits int64 ≡ 64
    → row_size bits (llvm_types (map (λ _. int64) ns)) ≡ 8 * length ns
unfolding row_size llvm_types
size-in_memory bits [] h = omega arith
size-in_memory bits (n ∷ ns) h = omega (arith, size-in_memory bits ns h)

shown :
    (ns : List ℕ) → AllBelow (2 ^ 64) ns → show_row (in_memory ns) ≡ b'[' ∷ (listed ns ++ codes "]")
unfolding show_row
shown ns h =
    let e : length (in_memory ns) / 8 ≡ length ns = omega (arith, length-in_memory ns) in
    rw (e, words-listed ns h) refl

emitted :
    (bits : LlvmType → ℕ) (name : Bytes) (ns : List ℕ) (rest : Bytes) (outputs : List Bytes)
    → bits int64 ≡ 64
    → emit_row bits (struct name (llvm_types (map (λ _. int64) ns))) (in_memory ns ++ rest) outputs
      ≡ ok (outputs ++ in_memory ns ∷ [])
unfolding emit_row
emitted bits name ns rest outputs h =
    rw (size-in_memory bits ns h ∙ sym (length-in_memory ns), load-behind [] (in_memory ns) rest)
      refl

-- If LLVM has 64 bits for its 64-bit integers, the emission of a struct of 64-bit integers that
-- stand one behind another at the start of a memory appends a row to the outputs, and the row is
-- printed as the integers in brackets, in decimal and without signs, with commas and blanks
-- between them.
pub emit_row-show_row :
    (bits : LlvmType → ℕ) (name : Bytes) (ns : List ℕ) (rest : Bytes) (outputs : List Bytes)
    → bits int64 ≡ 64
    → AllBelow (2 ^ 64) ns
    → (row : Bytes) × (emit_row bits
          (struct name (llvm_types (map (λ _. int64) ns)))
          (in_memory ns ++ rest)
          outputs
        ≡ ok (outputs ++ row ∷ []))
      × (show_row row ≡ b'[' ∷ (listed ns ++ codes "]"))
emit_row-show_row bits name ns rest outputs h k =
    (in_memory ns, emitted bits name ns rest outputs h, shown ns k)
