-- ===== src/Slice.antt =====
-- `util::slice` of src/util/slice.hpp. The bytes behind `ptr_` are those to the end of its allocation,
-- none behind a null pointer; reading past them is undefined in C++, and `fault` here. A `size_t` is
-- its pattern.
pub mod Find
pub mod Split
use reir.Prelude.{
  ℕ, zero, suc, ◌+◌, ◌-◌, ◌%◌, ◌^◌, ◌≡◌, Bool, true, false, ◌||◌, ◌&&◌, not, List, [], ◌∷◌, ◌++◌,
  Option, none, some, Bytes, bytes_eq, ltb, leb, ◌==◌, if◌then◌else◌, length, get_elem?, take, drop,
  Result, ok, abort, fault, diverge, bind,
}
use reir.Db.Memory.{load}

pub record Slice : Type 0 where
  pub ptr : Bytes
  pub len : ℕ

abbrev pub slice : Bytes → ℕ → Slice
slice d n = record { ptr = d; len = n }

-- The default constructor.
abbrev pub null_slice : Slice
null_slice = slice [] 0

-- The `strlen` of a C string, and the bytes in front of its terminator.
unfoldable pub c_string : Bytes → Result Bytes
c_string [] = fault
c_string (zero ∷ s) = ok []
c_string (suc c ∷ s) = bind (c_string s) λ t. ok (suc c ∷ t)

unfoldable pub of_c_string : Bytes → Result Slice
of_c_string d = bind (c_string d) λ s. ok (slice d (length s))

-- The constructor from a `std::string`, whose data ends with a terminator.
unfoldable pub of_string : Bytes → Slice
of_string s = slice (s ++ 0 ∷ []) (length s)

-- `operator std::string`.
unfoldable pub to_string : Slice → Result Bytes
to_string s = load s.ptr 0 s.len

unfoldable pub first_is_zero : Bytes → Bool
first_is_zero [] = true
first_is_zero (c ∷ s) = c == 0

-- `empty`, a null pointer being that of no bytes.
unfoldable pub is_empty : Slice → Bool
unfolding first_is_zero
is_empty s = s.len == 0 || first_is_zero s.ptr

unfoldable pub byte_of : Option ℕ → Result ℕ
byte_of none = fault
byte_of (some c) = ok c

-- `operator[]` at an index that is not negative.
unfoldable pub at : Slice → ℕ → Result ℕ
unfolding byte_of
at s i = if ltb i s.len then byte_of (get_elem? s.ptr i) else abort

-- `memcmp(&p[i], q, n) == 0`.
unfoldable pub memcmp_is_zero : Bytes → ℕ → Bytes → ℕ → Result Bool
memcmp_is_zero p i q n = bind (load p i n) λ a. bind (load q 0 n) λ b. ok (bytes_eq a b)

-- The loop of `find` from `i` on, with `k` indices left; none for `npos`.
unfoldable pub find_from : Slice → Slice → ℕ → ℕ → Result (Option ℕ)
find_from s target zero i = ok none
find_from s target (suc k) i =
    bind (memcmp_is_zero s.ptr i target.ptr target.len)
      λ b. elim b [ true ↦ ok (some i) | false ↦ find_from s target k (suc i) ]

unfoldable pub find : Slice → Slice → Result (Option ℕ)
unfolding find_from
find s target = find_from s target s.len 0

-- `operator==`.
unfoldable pub slice_eq : Slice → Slice → Result Bool
unfolding memcmp_is_zero
slice_eq l r = if l.len == r.len then memcmp_is_zero l.ptr 0 r.ptr l.len else ok false

-- The assertion of `drop_head`.
unfoldable pub drop_head : Slice → ℕ → Result Slice
drop_head s n = if leb n s.len then ok (slice (drop n s.ptr) (s.len - n)) else abort

-- The `while` loop of `split`.
unfoldable pub split : ℕ → Slice → Slice → Result (List Slice)
split zero delimiter p = diverge
split (suc f) delimiter p = bind (find p delimiter) λ o. elim o [
  | none ↦ ok (p ∷ [])
  | some i ↦
      bind (drop_head p (i + delimiter.len))
        λ q. bind (split f delimiter q) λ rest. ok (slice p.ptr i ∷ rest)
]

unfoldable pub car : Slice → Slice → Result Slice
car s delimiter = bind (find s delimiter) λ o. elim o [ none ↦ ok s | some i ↦ ok (slice s.ptr i) ]

-- A difference of `size_t`s.
unfoldable pub difference : ℕ → ℕ → ℕ
difference a b = (a + (2 ^ 64 - b)) % 2 ^ 64

unfoldable pub cdr : Slice → Slice → Result Slice
unfolding difference
cdr s delimiter = bind (find s delimiter) λ o. elim o [
  | none ↦ ok null_slice
  | some i ↦ ok (slice (drop (i + delimiter.len) s.ptr) (difference s.len (i + delimiter.len)))
]

-- The `for (;;)` loop of `count`, whose counter is a constant.
unfoldable pub count : ℕ → Slice → Slice → Result ℕ
count zero cursor target = diverge
count (suc f) cursor target = bind (find cursor target) λ o. elim o [
  | none ↦ ok 0
  | some i ↦
      count f (slice (drop (i + target.len) cursor.ptr) (difference cursor.len (i + target.len)))
        target
]

-- `+=` of a pointer appends a C string, whatever the length of the slice.
unfoldable pub join : List Slice → Slice → Result Bytes
join [] glue = ok []
join (s ∷ []) glue = c_string s.ptr
join (s ∷ t ∷ rest) glue =
    bind (c_string s.ptr)
      λ a. bind (c_string glue.ptr) λ g. bind (join (t ∷ rest) glue) λ b. ok (a ++ (g ++ b))

unfoldable pub suffix : Slice → ℕ → Slice
suffix s advance =
    if ltb s.len advance then null_slice else slice (drop advance s.ptr) (s.len - advance)

unfoldable pub bytes_less : Bytes → Bytes → Bool
bytes_less [] [] = false
bytes_less [] (y ∷ ys) = true
bytes_less (x ∷ xs) [] = false
bytes_less (x ∷ xs) (y ∷ ys) = ltb x y || (x == y && bytes_less xs ys)

-- `operator<` by `strcmp`, which goes on behind the end of a slice.
unfoldable pub slice_less : Slice → Slice → Result Bool
unfolding bytes_less
slice_less l r = bind (c_string l.ptr) λ a. bind (c_string r.ptr) λ b. ok (bytes_less a b)
