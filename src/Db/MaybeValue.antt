-- ===== src/Db/MaybeValue.antt =====
-- Nullable values, src/reir/db/maybe_value.hpp.
pub mod Laws
use reir.Prelude.{
  ℕ, ◌+◌, Bool, true, false, not, [], ◌∷◌, Bytes, ◌==◌, if◌then◌else◌, Result, ok, abort, bind,
}
use reir.Db.Memory.{store, load, from_le}
use reir.Db.Value.{
  Value, ValType, of_slice, of_int64, default, serialized_length, serialize, deserialize, value_eq,
}

pub record MaybeValue : Type 0 where
  pub exists : Bool
  pub value : Value

abbrev pub null : MaybeValue
null = record { exists = false; value = default }

-- The constructors and the assignment from a value.
abbrev pub of_value : Value → MaybeValue
of_value v = record { exists = true; value = v }

-- `value()`, with its assertion.
unfoldable pub value_of : MaybeValue → Result Value
value_of m = if m.exists then ok m.value else abort

unfoldable pub length_of : MaybeValue → Result ℕ
length_of m = if m.exists then (bind (serialized_length m.value) λ n. ok (1 + n)) else ok 1

unfoldable pub serialize_maybe : MaybeValue → Bytes → ℕ → Result Bytes
serialize_maybe m buffer at =
    if m.exists
    then (bind (store buffer at (1 ∷ [])) λ buffer'. serialize m.value buffer' (at + 1))
    else store buffer at (0 ∷ [])

-- `m.deserialize(&buffer[at], as)`: an absent value leaves the `value_` that `m` has.
unfoldable pub deserialize_maybe : MaybeValue → Bytes → ℕ → ValType → Result MaybeValue
deserialize_maybe m buffer at t = bind (load buffer at 1) λ flag.
    if from_le flag == 1
    then (bind (deserialize buffer (at + 1) t) λ v. ok (of_value v))
    else ok (record m { exists = false })

unfoldable pub maybe_eq : MaybeValue → MaybeValue → Bool
unfolding value_eq
maybe_eq m n =
    if m.exists then (if n.exists then value_eq m.value n.value else false) else not n.exists
