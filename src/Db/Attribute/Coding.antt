-- ===== src/Db/Attribute/Coding.antt =====
-- The codec of attributes, src/reir/db/attribute.cpp.
use reir.Prelude.{
  ℕ, ◌+◌, ◌≡◌, ◌≢◌, ap, subst, refl, ◌∙◌, arith, false, Bool-cases, inl, inr, [], ◌∷◌, Bytes, ◌==◌,
  Result, ok, bind, bind-eq-ok,
}
use reir.Db.Memory.{store, load, from_le}
use reir.Db.Memory.Laws.{load-store}
use reir.Db.Value.{Value}
use reir.Db.Value.Laws.{IsStorable}
use reir.Db.MaybeValue.{MaybeValue, value_of, of_value, null}
use reir.Db.AttrType.{AttrType, encode, decode}
use reir.Db.AttrType.Coding.{decode-encode, encode-keeps}
use reir.Db.Attribute.{Attribute, nullable, attribute_encode, attribute_decode}

ok_injective : {a b : Bytes} → ok a ≡ ok b → a ≡ b
ok_injective h = cc

there-ne-null : (m : Result Value) → bind m (λ v. ok (of_value v)) ≢ ok null
there-ne-null (ok v) h = let same = ap (λ r. elim r [ ok x ↦ x.exists | _ ↦ false ]) h in cc
there-ne-null _ h = cc

-- The flag in front of a cell.
flag-kept :
    (t : AttrType) (v : Value) (buffer : Bytes) (at : ℕ) {middle after : Bytes}
    → IsStorable v
    → store buffer at (1 ∷ []) ≡ ok middle
    → encode t v middle (at + 1) ≡ ok after
    → load after at 1 ≡ ok (1 ∷ [])
flag-kept t v buffer at {middle} fits s h =
    encode-keeps t v middle (at + 1) at 1 fits (omega arith) h ∙ load-store buffer at (1 ∷ []) s

-- If a storable value that is there is written to a buffer by the `encode` of an attribute, its
-- `decode` reads it there.
pub attribute_decode-encode :
    (a : Attribute) (v : Value) (buffer : Bytes) (at : ℕ) {after : Bytes}
    → IsStorable v
    → attribute_encode a (of_value v) buffer at ≡ ok after
    → attribute_decode a after at ≡ ok (of_value v)
unfolding attribute_encode attribute_decode value_of
attribute_decode-encode a v buffer at {after} fits h = elim (Bool-cases (a.property == nullable)) [
  | inl n ↦
      let (middle, s, e) =
        bind-eq-ok (store buffer at (1 ∷ [])) (λ b. encode a.type v b (at + 1)) (rw n at h) in
      rw (n, flag-kept a.type v buffer at fits s e, decode-encode a.type v middle (at + 1) fits e)
        (unfold from_le in refl)
  | inr n ↦ rw (n, decode-encode a.type v buffer at fits (rw n at h)) refl
]

-- A null that is encoded for a nullable column, where the byte in the buffer is not 0, is not
-- read back as a null.
pub attribute_decode-encode-null :
    (a : Attribute) (m : MaybeValue) (buffer : Bytes) (at b : ℕ) {after : Bytes}
    → a.property ≡ nullable
    → m.exists ≡ false
    → load buffer at 1 ≡ ok (b ∷ [])
    → (from_le (b ∷ []) == 0) ≡ false
    → attribute_encode a m buffer at ≡ ok after
    → attribute_decode a after at ≢ ok null
unfolding attribute_encode attribute_decode
attribute_decode-encode-null a m buffer at b {after} n e l b-ne h =
    let same : buffer ≡ after = ok_injective (rw (n, e) at h) in
    let flag : load after at 1 ≡ ok (b ∷ []) = subst (λ x. load x at 1 ≡ ok (b ∷ [])) same l in
    rw (n, flag, b-ne) (there-ne-null (decode a.type after (at + 1)))
