-- ===== src/Prelude/Decimal.antt =====
-- What the sources use of `std::ostream << n`, `std::stoi` and `std::stoll`: decimal numbers, printed
-- and read. An `int64_t` is its pattern, a number below 2 ^ 64.
use Prim.Native.Nat.{ℕ, zero, suc, ◌+◌, ◌-◌, ◌*◌, ◌/◌, ◌%◌, ◌^◌, ◌<◌}
use mathlib.Core.Path.{◌≡◌, refl}
use mathlib.Core.Bool.{Bool, true, false, ◌&&◌, ◌||◌}
use mathlib.Core.Logic.{inl, inr}
use mathlib.Core.List.{[], ◌∷◌}
use native.Mathlib.Omega.{arith}
use reir.Prelude.Tests.{Bytes, ltb, leb, lt→ltb, ◌==◌, if◌then◌else◌, Bool-cases, contains}
use reir.Prelude.Outcome.{
  Result, ok, throw, invalid_argument, out_of_range, Runs, returns, raises, Runs-if,
}

-- The digits of `n` in front of `out`, the last one first; the fuel is above `n`.
unfoldable pub digits : ℕ → ℕ → Bytes → Bytes
digits zero n out = out
digits (suc f) n out =
    let out' = (b'0' + n % 10) ∷ out in
    let rest = digits f (n / 10) out' in if ltb n 10 then out' else rest

unfoldable pub print : ℕ → Bytes
unfolding digits
print n = digits (suc n) n []

unfoldable pub is_digit : ℕ → Bool
is_digit c = leb b'0' c && leb c b'9'

unfoldable pub is_space : ℕ → Bool
is_space c = c == 32 || leb 9 c && leb c 13

-- The number that the digits in front of a text spell, behind those already read.
unfoldable pub magnitude : ℕ → Bytes → ℕ
unfolding is_digit
magnitude n [] = n
magnitude n (c ∷ s) = let rest = magnitude (n * 10 + (c - b'0')) s in if is_digit c then rest else n

unfoldable pub in_range : ℕ → Bool → ℕ → Result ℕ
in_range width true m =
    if leb m (2 ^ (width - 1)) then ok ((2 ^ 64 - m) % 2 ^ 64) else throw out_of_range
in_range width false m = if ltb m (2 ^ (width - 1)) then ok m else throw out_of_range

unfoldable pub unsigned : ℕ → Bool → Bytes → Result ℕ
unfolding is_digit in_range
unsigned width negative [] = throw invalid_argument
unsigned width negative (c ∷ s) =
    if is_digit c then in_range width negative (magnitude 0 (c ∷ s)) else throw invalid_argument

unfoldable pub signed : ℕ → Bytes → Result ℕ
unfolding unsigned
signed width [] = throw invalid_argument
signed width (c ∷ s) =
    if c == b'-'
    then unsigned width true s
    else if c == b'+'
    then unsigned width false s
    else unsigned width false (c ∷ s)

unfoldable pub skip_space : Bytes → Bytes
unfolding is_space
skip_space [] = []
skip_space (c ∷ s) = if is_space c then skip_space s else c ∷ s

unfoldable pub read : ℕ → Bytes → Result ℕ
unfolding signed skip_space
read width s = signed width (skip_space s)

-- `std::stoi(s)`, cast to `int64_t`, and `std::stoll(s)`.
unfoldable pub stoi : Bytes → Result ℕ
unfolding read magnitude
stoi = read 32

unfoldable pub stoll : Bytes → Result ℕ
unfolding read magnitude
stoll = read 64

magnitude-digits : (f n : ℕ) (out : Bytes) → n < f → magnitude 0 (digits f n out) ≡ magnitude n out
unfolding digits magnitude
magnitude-digits zero n out h = absurd (omega arith)
magnitude-digits (suc f) n out h =
    ground (arith, magnitude-digits f (n / 10) ((b'0' + n % 10) ∷ out))

-- What `digits` puts in front begins with a digit.
abbrev StartsDigit : Bytes → Type 0
StartsDigit s = (c : ℕ) × (r : Bytes) × (s ≡ c ∷ r) × (is_digit c ≡ true)

digits-StartsDigit : (f n : ℕ) (out : Bytes) → n < f → StartsDigit (digits f n out)
unfolding digits is_digit
digits-StartsDigit zero n out h = absurd (omega arith)
digits-StartsDigit (suc f) n out h = elim (Bool-cases (ltb n 10)) [
  | inl small ↦ (b'0' + n % 10, out, rw small, ground arith)
  | inr large ↦ rw large (digits-StartsDigit f (n / 10) _ (ground arith))
]

digit_facts :
    (c : ℕ)
    → is_digit c ≡ true
    → (is_space c ≡ false) × ((c == b'-') ≡ false) × ((c == b'+') ≡ false)
unfolding is_digit is_space
digit_facts c h = (ground arith, ground arith, ground arith)

skip_space-digit : (c : ℕ) (r : Bytes) → is_digit c ≡ true → skip_space (c ∷ r) ≡ c ∷ r
unfolding skip_space
skip_space-digit c r h = rw (digit_facts c h).0

read-digit :
    (width c : ℕ) (r : Bytes) {n : ℕ}
    → is_digit c ≡ true
    → magnitude 0 (c ∷ r) ≡ n
    → n < 2 ^ (width - 1)
    → signed width (c ∷ r) ≡ ok n
unfolding signed
read-digit width c r {n} h m fits =
    let (_, dash, plus) = digit_facts c h in
    rw (dash, plus, h, m) (unfold in_range in rw (lt→ltb n (2 ^ (width - 1)) fits))

read-StartsDigit :
    (width n : ℕ) (s : Bytes)
    → StartsDigit s
    → magnitude 0 s ≡ n
    → n < 2 ^ (width - 1)
    → read width s ≡ ok n
unfolding read
read-StartsDigit width n s (c, r, e, d) m fits =
    rw (e, skip_space-digit c r d) (read-digit width c r d (rw e at m) fits)

-- A printed number is read back, also behind one blank.
pub read-print : (width n : ℕ) → n < 2 ^ (width - 1) → read width (print n) ≡ ok n
unfolding print magnitude
read-print width n =
    read-StartsDigit width n (digits (suc n) n []) (digits-StartsDigit (suc n) n [] (omega arith))
      (magnitude-digits (suc n) n [] (omega arith))

pub stoi-print : (n : ℕ) → n < 2 ^ 31 → stoi (print n) ≡ ok n
unfolding stoi
stoi-print = read-print 32

pub read-blank-print : (width n : ℕ) → n < 2 ^ (width - 1) → read width (b' ' ∷ print n) ≡ ok n
unfolding read
read-blank-print width n = read-print width n

-- A reader returns a number or throws.
abbrev Reads : Result ℕ → Type 0
Reads = Runs λ _. Unit {0}

in_range-Runs : (width : ℕ) (negative : Bool) (m : ℕ) → Reads (in_range width negative m)
unfolding in_range
in_range-Runs width true m = Runs-if _ (returns tt) raises
in_range-Runs width false m = Runs-if _ (returns tt) raises

unsigned-Runs : (width : ℕ) (negative : Bool) (s : Bytes) → Reads (unsigned width negative s)
unfolding unsigned
unsigned-Runs width negative [] = raises
unsigned-Runs width negative (c ∷ s) = Runs-if _ (in_range-Runs width negative _) raises

signed-Runs : (width : ℕ) (s : Bytes) → Reads (signed width s)
unfolding signed
signed-Runs width [] = raises
signed-Runs width (c ∷ s) =
    Runs-if _ (unsigned-Runs width true s)
      (Runs-if _ (unsigned-Runs width false s) (unsigned-Runs width false (c ∷ s)))

pub stoi-Runs : (s : Bytes) → Reads (stoi s)
unfolding stoi
stoi-Runs s = signed-Runs 32 (skip_space s)

-- No other byte than digits is printed.
contains-digits :
    (c : ℕ)
    → is_digit c ≡ false
    → (f n : ℕ) (out : Bytes) → contains (digits f n out) c ≡ contains out c
unfolding digits is_digit contains
contains-digits c h zero n out = refl
contains-digits c h (suc f) n out =
    let e = contains-digits c h f (n / 10) ((b'0' + n % 10) ∷ out) in ground arith

pub contains-print : (c n : ℕ) → is_digit c ≡ false → contains (print n) c ≡ false
unfolding print contains
contains-print c n h = contains-digits c h (suc n) n []
