-- ===== src/Slice/Find.antt =====
-- `find` of src/util/slice.hpp.
use reir.Prelude.{
  ℕ, zero, suc, ◌+◌, ◌≤◌, ◌<◌, ◌≡◌, refl, sym, arith, ◌↔◌, Bool, true, false, Bool-cases, inl, inr,
  Option, none, some, Bytes, bytes_eq_iff, take, drop, ok, Ends, ends_ok, ends_fault, Ends-bind,
  Ends-weaken, Ends-if, ◌==◌, subst, ◌⊎◌,
}
use reir.Db.Memory.{load}
use reir.Slice.{Slice, find, find_from, memcmp_is_zero}

-- The bytes of a slice.
abbrev pub text : Slice → Bytes
text s = take s.len s.ptr

-- The bytes at the index are those of the target.
abbrev pub Matches : Slice → Slice → ℕ → Type 0
Matches s target i = take target.len (drop i s.ptr) ≡ text target

-- The first match at an index from `i` on and below `n`.
abbrev pub IsFirst : Slice → Slice → ℕ → ℕ → Option ℕ → Type 0
IsFirst s target i n none = (j : ℕ) → i ≤ j → j < n → ¬ Matches s target j
IsFirst s target i n (some j) =
    (i ≤ j) × (j < n) × Matches s target j × ((k : ℕ) → i ≤ k → k < j → ¬ Matches s target k)

load-Ends : (p : Bytes) (i n : ℕ) → Ends (λ a. a ≡ take n (drop i p)) (load p i n)
unfolding load
load-Ends p i n = Ends-if _ (λ _. ends_ok refl) (λ _. ends_fault)

memcmp-Ends :
    (p : Bytes) (i : ℕ) (q : Bytes) (n : ℕ)
    → Ends (λ b. (b ≡ true) ↔ (take n (drop i p) ≡ take n q)) (memcmp_is_zero p i q n)
unfolding memcmp_is_zero
memcmp-Ends p i q n =
    Ends-bind (load-Ends p i n)
      λ a e. Ends-bind (load-Ends q 0 n) λ b e'. ends_ok (rw (sym e, sym e') (bytes_eq_iff a b))

le_cases : (i j : ℕ) → i ≤ j → (i ≡ j) ⊎ (suc i ≤ j)
le_cases i j h = elim (Bool-cases (i == j)) [
  | inl e ↦ inl (ground arith)
  | inr e ↦ inr (ground arith)
]

false_not_true : false ≡ true → ⊥
false_not_true e = cc

-- There is no match at `i`.
start_earlier :
    (s target : Slice) (i n : ℕ)
    → ¬ Matches s target i
    → (o : Option ℕ) → IsFirst s target (suc i) n o
    → IsFirst s target i n o
start_earlier s target i n other none h = λ j l l' m. elim (le_cases i j l) [
  | inl e ↦ other (subst (Matches s target) (sym e) m)
  | inr l'' ↦ h j l'' l' m
]
start_earlier s target i n other (some j) (l, l', m, h) = (
  omega arith,
  l',
  m,
  λ k p q m'. elim (le_cases i k p) [
    | inl e ↦ other (subst (Matches s target) (sym e) m')
    | inr p' ↦ h k p' q m'
  ],
)

find_from-IsFirst :
    (s target : Slice) (k i n : ℕ)
    → i + k ≡ n
    → Ends (IsFirst s target i n) (find_from s target k i)
unfolding find_from
find_from-IsFirst s target zero i n e = ends_ok λ j h h'. absurd (omega arith)
find_from-IsFirst s target (suc k) i n e =
    Ends-bind (memcmp-Ends s.ptr i target.ptr target.len)
      (decide (find_from-IsFirst s target k (suc i) n (omega arith)))
  where
    decide :
        Ends (IsFirst s target (suc i) n) (find_from s target k (suc i))
        → (b : Bool) → (b ≡ true) ↔ Matches s target i
        → Ends
            (IsFirst s target i n)
            (elim b [ true ↦ ok (some i) | false ↦ find_from s target k (suc i) ])
    decide later true (h, _) =
        ends_ok (omega arith, omega arith, h refl, λ j l l'. absurd (omega arith))
    decide later false (_, h) =
        Ends-weaken later (start_earlier s target i n λ m. false_not_true (h m))

-- `find` ends, and if it returns, it returns the first index in the slice at which the bytes are
-- those of the target, or nothing if there is none.
pub find-IsFirst : (s target : Slice) → Ends (IsFirst s target 0 s.len) (find s target)
unfolding find
find-IsFirst s target = find_from-IsFirst s target s.len 0 s.len (omega arith)
