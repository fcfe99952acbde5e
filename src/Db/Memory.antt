-- ===== src/Db/Memory.antt =====
-- Buffers behind a `char*`: the bytes from the start of the allocation to its end. A store or a load
-- that leaves the allocation is undefined in C++, and `fault` here. Words are little-endian.
pub mod Laws
use reir.Prelude.{
  ℕ, zero, suc, ◌+◌, ◌-◌, ◌*◌, ◌/◌, ◌%◌, ◌^◌, ◌≤◌, ◌<◌, ◌≡◌, refl, sym, ap, ◌∙◌, Bool, true, false,
  List, [], ◌∷◌, ◌++◌, arith, Bytes, leb, if◌then◌else◌, length, take, drop, Result, ok, fault,
  bind, length-append, take-append, drop-append, append_assoc,
}

-- `memcpy(&buffer[at], data, n)`.
unfoldable pub store : Bytes → ℕ → Bytes → Result Bytes
store buffer at bytes =
    if leb (at + length bytes) (length buffer)
    then ok (take at buffer ++ (bytes ++ drop (at + length bytes) buffer))
    else fault

-- `memcpy(data, &buffer[at], n)`.
unfoldable pub load : Bytes → ℕ → ℕ → Result Bytes
load buffer at n = if leb (at + n) (length buffer) then ok (take n (drop at buffer)) else fault

unfoldable pub le_bytes : ℕ → ℕ → Bytes
le_bytes zero n = []
le_bytes (suc k) n = (n % 256) ∷ le_bytes k (n / 256)

unfoldable pub from_le : Bytes → ℕ
from_le [] = 0
from_le (b ∷ bs) = b + 256 * from_le bs

unfoldable pub read_size_t : Bytes → ℕ → Result ℕ
read_size_t buffer at = bind (load buffer at 8) λ b. ok (from_le b)
