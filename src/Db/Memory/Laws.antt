-- ===== src/Db/Memory/Laws.antt =====
-- Stores to and loads from the buffers of Memory.
use reir.Prelude.{
  ℕ, zero, suc, ◌+◌, ◌-◌, ◌/◌, ◌^◌, ◌≤◌, ◌<◌, ◌≡◌, refl, sym, subst, ap, true, false, Bool-cases,
  ◌⊎◌, inl, inr, [], ◌∷◌, ◌++◌, arith, Bytes, leb, length, take, drop, ok, fault, length-append,
  take-append, drop-append,
}
use native.Mathlib.Omega.{pow_step}
use reir.Db.Memory.{store, load, le_bytes, from_le, read_size_t}

ok_injective : {a b : Bytes} → ok a ≡ ok b → a ≡ b
ok_injective h = cc

absurd_fault {ℓ} : {C : Type ℓ} {b : Bytes} → fault ≡ ok b → C
absurd_fault h = cc

pub length-le_bytes : (k n : ℕ) → length (le_bytes k n) ≡ k
unfolding le_bytes
length-le_bytes zero n = refl
length-le_bytes (suc k) n = ap suc (length-le_bytes k (n / 256))

pub from_le-le_bytes : (k n : ℕ) → n < 256 ^ k → from_le (le_bytes k n) ≡ n
unfolding le_bytes from_le
from_le-le_bytes zero n h = omega arith
from_le-le_bytes (suc k) n h =
    rw (from_le-le_bytes k (n / 256) (omega (arith, pow_step 256 k))) (omega arith)

length-take : (n : ℕ) (xs : Bytes) → n ≤ length xs → length (take n xs) ≡ n
length-take zero xs h = refl
length-take (suc n) [] h = absurd (omega arith)
length-take (suc n) (x ∷ xs) h = ap suc (length-take n xs (omega arith))

-- A stretch that starts where the bytes `front` end.
pub load-behind :
    (front bytes back : Bytes)
    → load (front ++ (bytes ++ back)) (length front) (length bytes) ≡ ok bytes
unfolding load
load-behind front bytes back =
    let fits : leb (length front + length bytes) (length (front ++ (bytes ++ back))) ≡ true =
      (let e = length-append front (bytes ++ back) in
        let e' = length-append bytes back in ground arith) in
    rw (fits, drop-append front (bytes ++ back), take-append bytes back) refl

length-drop : (n : ℕ) (xs : Bytes) → length (drop n xs) ≡ length xs - n
length-drop zero xs = omega arith
length-drop (suc n) [] = omega arith
length-drop (suc n) (x ∷ xs) = omega (arith, length-drop n xs)

-- A successful store replaces a stretch of the buffer.
store-split :
    (buffer : Bytes) (at : ℕ) (bytes : Bytes) {after : Bytes}
    → store buffer at bytes ≡ ok after
    → (after ≡ take at buffer ++ (bytes ++ drop (at + length bytes) buffer))
      × (at + length bytes ≤ length buffer)
unfolding store
store-split buffer at bytes {after} h =
    elim (Bool-cases (leb (at + length bytes) (length buffer))) [
      | inl fits ↦ (sym (ok_injective (rw fits at h)), ground arith)
      | inr over ↦ absurd_fault (rw over at h)
    ]

pub length-store :
    (buffer : Bytes) (at : ℕ) (bytes : Bytes) {after : Bytes}
    → store buffer at bytes ≡ ok after
    → length after ≡ length buffer
length-store buffer at bytes h =
    let (e, le) = store-split buffer at bytes h in
    rw
      (
        e,
        length-append (take at buffer) (bytes ++ drop (at + length bytes) buffer),
        length-append bytes (drop (at + length bytes) buffer),
        length-drop (at + length bytes) buffer,
        length-take at buffer (omega arith),
      )
      (omega arith)

-- What was stored is loaded again.
pub load-store :
    (buffer : Bytes) (at : ℕ) (bytes : Bytes) {after : Bytes}
    → store buffer at bytes ≡ ok after
    → load after at (length bytes) ≡ ok bytes
load-store buffer at bytes h =
    let (e, le) = store-split buffer at bytes h in
    let n = length-take at buffer (omega arith) in
    rw e (
      subst
        (λ n.
          load (take at buffer ++ (bytes ++ drop (at + length bytes) buffer)) n (length bytes)
          ≡ ok bytes)
        n (load-behind (take at buffer) bytes (drop (at + length bytes) buffer)))

take-take :
    (n at : ℕ) (xs ys : Bytes) → n ≤ at → at ≤ length xs → take n (take at xs ++ ys) ≡ take n xs
take-take zero at xs ys h k = refl
take-take (suc n) zero xs ys h k = absurd (omega arith)
take-take (suc n) (suc at) [] ys h k = absurd (omega arith)
take-take (suc n) (suc at) (x ∷ xs) ys h k =
    ap (◌∷◌ x) (take-take n at xs ys (omega arith) (omega arith))

take-drop-take :
    (from n at : ℕ) (xs ys : Bytes)
    → from + n ≤ at
    → at ≤ length xs
    → take n (drop from (take at xs ++ ys)) ≡ take n (drop from xs)
take-drop-take zero n at xs ys h k = take-take n at xs ys (omega arith) k
take-drop-take (suc from) n zero xs ys h k = absurd (omega arith)
take-drop-take (suc from) n (suc at) [] ys h k = absurd (omega arith)
take-drop-take (suc from) n (suc at) (x ∷ xs) ys h k =
    take-drop-take from n at xs ys (omega arith) (omega arith)

-- A store behind a stretch leaves it as it is.
pub load-store-before :
    (buffer : Bytes) (at : ℕ) (bytes : Bytes) {after : Bytes} (from n : ℕ)
    → from + n ≤ at
    → store buffer at bytes ≡ ok after
    → load after from n ≡ load buffer from n
unfolding load
load-store-before buffer at bytes {after} from n le h =
    let (e, fits) = store-split buffer at bytes h in
    let same : take n (drop from after) ≡ take n (drop from buffer) =
      rw e (take-drop-take from n at buffer _ le (omega arith)) in
    rw (length-store buffer at bytes h, same) refl

-- The two loads of a word that was stored.
pub load-word :
    (buffer : Bytes) (at n : ℕ) {after : Bytes}
    → store buffer at (le_bytes 8 n) ≡ ok after
    → load after at 8 ≡ ok (le_bytes 8 n)
load-word buffer at n {after} h =
    subst (λ k. load after at k ≡ ok (le_bytes 8 n)) (length-le_bytes 8 n)
      (load-store buffer at (le_bytes 8 n) h)

pub read_size_t-store :
    (buffer : Bytes) (at n : ℕ) {after : Bytes}
    → n < 2 ^ 64
    → store buffer at (le_bytes 8 n) ≡ ok after
    → read_size_t after at ≡ ok n
unfolding read_size_t
read_size_t-store buffer at n h s = rw (load-word buffer at n s, from_le-le_bytes 8 n h) refl

-- A store is in the buffer, or is a fault.
pub store-cases :
    (buffer : Bytes) (at : ℕ) (bytes : Bytes)
    → (store buffer at bytes ≡ fault) ⊎ ((after : Bytes) × (store buffer at bytes ≡ ok after))
unfolding store
store-cases buffer at bytes = elim (Bool-cases (leb (at + length bytes) (length buffer))) [
  | inl fits ↦ inr (take at buffer ++ (bytes ++ drop (at + length bytes) buffer), rw fits refl)
  | inr over ↦ inl (rw over refl)
]

pub store-over :
    (buffer : Bytes) (at : ℕ) (bytes : Bytes)
    → length buffer < at + length bytes
    → store buffer at bytes ≡ fault
unfolding store
store-over buffer at bytes h =
    let e : leb (at + length bytes) (length buffer) ≡ false = ground arith in rw e refl
