-- ===== src/Db/MaybeValue/Laws.antt =====
-- The codec of nullable values, serialize and deserialize of src/reir/db/maybe_value.hpp.
use reir.Prelude.{
  ℕ, ◌+◌, ◌≡◌, refl, sym, ◌∙◌, arith, true, false, Bool-cases, inl, inr, [], ◌∷◌, Bytes,
  if◌then◌else◌, ok, bind-eq-ok,
}
use reir.Db.Memory.{store, from_le}
use reir.Db.Memory.Laws.{load-store}
use reir.Db.Value.{ValType, serialize}
use reir.Db.Value.Laws.{IsStorable, deserialize-serialize, serialize-keeps}
use reir.Db.MaybeValue.{MaybeValue, of_value, serialize_maybe, deserialize_maybe}

-- A storable value that is there, once it is written, is read back as its type into any receiver,
-- and so is the absence of one, which leaves the receiver's value as it was.
pub deserialize-serialize_maybe :
    (m self : MaybeValue) (t : ValType) (buffer : Bytes) (at : ℕ) {after : Bytes}
    → (m.exists ≡ true → IsStorable m.value × (m.value.type ≡ t))
    → serialize_maybe m buffer at ≡ ok after
    → deserialize_maybe self after at t
      ≡ ok (if m.exists then of_value m.value else record self { exists = false })
unfolding serialize_maybe deserialize_maybe
deserialize-serialize_maybe m self t buffer at fits h = elim (Bool-cases m.exists) [
  | inl there ↦
      let (fit, as_t) = fits there in
      let (middle, s, e) =
        bind-eq-ok (store buffer at (1 ∷ [])) (λ b. serialize m.value b (at + 1)) (rw there at h) in
      let flag =
        serialize-keeps m.value middle (at + 1) at 1 fit (omega arith) e
        ∙ load-store buffer at (1 ∷ []) s in
      rw (there, flag, sym as_t, deserialize-serialize m.value middle (at + 1) fit e)
        (unfold from_le in refl)
  | inr absent ↦
      rw (absent, load-store buffer at (0 ∷ []) (rw absent at h)) (unfold from_le in refl)
]
