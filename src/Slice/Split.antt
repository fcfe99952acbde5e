-- ===== src/Slice/Split.antt =====
-- `split` and `count` of src/util/slice.hpp.
use reir.Prelude.{
  ℕ, zero, suc, ◌+◌, ◌-◌, ◌≤◌, ◌<◌, ◌≡◌, refl, sym, ◌∙◌, ap, ap₂, arith, List, [], ◌∷◌, ◌++◌, map,
  subst, bind, Option, none, some, Bytes, leb, take, drop, Result, ok, throw, abort, fault, diverge,
  Ends, ends_ok, ends_abort, Ends-bind, Ends-if, WhenOk, on_ok, on_throw, on_abort, on_fault,
  on_diverge,
}
use reir.Slice.{Slice, slice, find, drop_head, split, count, difference}
use reir.Slice.Find.{text, Matches, IsFirst, find-IsFirst}

-- The texts with the delimiter between them.
unfoldable pub intercalate : Bytes → List Bytes → Bytes
intercalate d [] = []
intercalate d (t ∷ []) = t
intercalate d (t ∷ u ∷ ts) = t ++ (d ++ intercalate d (u ∷ ts))

suc_add : (a b : ℕ) → suc a + b ≡ suc (a + b)
suc_add a b = omega arith

parts : (i n len : ℕ) → i + n ≤ len → len ≡ i + (n + (len - (i + n)))
parts i n len h = omega arith

module _ {ℓ} {A : Type ℓ} where
  drop-nil : (n : ℕ) → drop {A = A} n [] ≡ []
  drop-nil zero = refl
  drop-nil (suc n) = refl

  take-nil : (n : ℕ) → take {A = A} n [] ≡ []
  take-nil zero = refl
  take-nil (suc n) = refl

  take-add : (a b : ℕ) (xs : List A) → take (a + b) xs ≡ take a xs ++ take b (drop a xs)
  take-add zero b xs = ap (λ k. take k xs) (omega arith)
  take-add (suc a) b [] = take-nil (suc a + b) ∙ sym (take-nil b)
  take-add (suc a) b (x ∷ xs) =
      ap (λ k. take k (x ∷ xs)) (suc_add a b) ∙ ap (◌∷◌ x) (take-add a b xs)

  drop-add : (a b : ℕ) (xs : List A) → drop (a + b) xs ≡ drop b (drop a xs)
  drop-add zero b xs = ap (λ k. drop k xs) (omega arith)
  drop-add (suc a) b [] = drop-nil (suc a + b) ∙ sym (drop-nil b)
  drop-add (suc a) b (x ∷ xs) = ap (λ k. drop k (x ∷ xs)) (suc_add a b) ∙ drop-add a b xs

  -- A stretch of `n` elements behind the first `i`.
  take-cut :
      (i n len : ℕ) (xs : List A)
      → i + n ≤ len
      → take len xs ≡ take i xs ++ (take n (drop i xs) ++ take (len - (i + n)) (drop (i + n) xs))
  take-cut i n len xs h =
      ap (λ k. take k xs) (parts i n len h)
      ∙ take-add i (n + (len - (i + n))) xs
      ∙ ap (take i xs ++◌) (
          take-add n (len - (i + n)) (drop i xs)
          ∙ ap (λ ys. take n (drop i xs) ++ take (len - (i + n)) ys) (sym (drop-add i n xs)))

-- The slices cut the slice at the delimiter.
abbrev pub Cut : Slice → Slice → List Slice → Type 0
Cut d s [] = ⊥
Cut d s (p ∷ ps) = intercalate (text d) (map text (p ∷ ps)) ≡ text s

Cut-cons :
    (d s : Slice) (i : ℕ) (ps : List Slice)
    → i + d.len ≤ s.len
    → Matches s d i
    → Cut d (slice (drop (i + d.len) s.ptr) (s.len - (i + d.len))) ps
    → Cut d s (slice s.ptr i ∷ ps)
unfolding intercalate
Cut-cons d s i [] h m c = absurd c
Cut-cons d s i (p ∷ ps) h m c =
    ap₂ (λ x y. take i s.ptr ++ (x ++ y)) (sym m) c ∙ sym (take-cut i d.len s.len s.ptr h)

head-Ends :
    (s : Slice) (n : ℕ)
    → Ends (λ q. (n ≤ s.len) × (q ≡ slice (drop n s.ptr) (s.len - n))) (drop_head s n)
unfolding drop_head
head-Ends s n = Ends-if (leb n s.len) (λ e. ends_ok (ground arith, refl)) (λ _. ends_abort)

-- With a delimiter that is not empty and fuel above the length of the slice, `split` ends, and if
-- it returns, it returns at least one slice, and the texts of the slices with the delimiter
-- between them are the text of the slice.
pub split-Cut : (f : ℕ) (d s : Slice) → 0 < d.len → s.len < f → Ends (Cut d s) (split f d s)
unfolding split intercalate
split-Cut zero d s h l = absurd (omega arith)
split-Cut (suc f) d s h l =
    Ends-bind (find-IsFirst s d) λ o first. cut o first λ q small. split-Cut f d q h small
  where
    small_rest :
        (i : ℕ) (q : Slice)
        → i < s.len
        → q ≡ slice (drop (i + d.len) s.ptr) (s.len - (i + d.len))
        → q.len < f
    small_rest i q below e = omega (arith, ap (λ r. r.len) e)

    cut :
        (o : Option ℕ)
        → IsFirst s d 0 s.len o
        → ((q : Slice) → q.len < f → Ends (Cut d q) (split f d q))
        → Ends (Cut d s) (elim o [
          | none ↦ ok (s ∷ [])
          | some i ↦
              bind
                (drop_head s (i + d.len))
                λ q. bind (split f d q) λ rest. ok (slice s.ptr i ∷ rest)
        ])
    cut none first again = ends_ok refl
    cut (some i) (_, below, m, _) again = Ends-bind (head-Ends s (i + d.len)) λ q (fits, e).
        Ends-bind (again q (small_rest i q below e))
          λ rest c. ends_ok (Cut-cons d s i rest fits m (subst (λ r. Cut d r rest) e c))

abbrev pub IsZero : ℕ → Type 0
IsZero n = n ≡ 0

-- Whatever the target, if `count` returns, it returns 0.
pub count-IsZero : (f : ℕ) (s target : Slice) → WhenOk IsZero (count f s target)
unfolding count
count-IsZero zero s target = on_diverge
count-IsZero (suc f) s target = from (find s target) (λ q. count-IsZero f q target)
  where
    from :
        (m : Result (Option ℕ))
        → ((q : Slice) → WhenOk IsZero (count f q target))
        → WhenOk IsZero (
            bind m λ o. elim o [
              | none ↦ ok 0
              | some i ↦
                  count f
                    (slice (drop (i + target.len) s.ptr) (difference s.len (i + target.len)))
                    target
            ])
    from (ok none) again = on_ok refl
    from (ok (some i)) again = again _
    from (throw e) again = on_throw
    from abort again = on_abort
    from fault again = on_fault
    from diverge again = on_diverge
