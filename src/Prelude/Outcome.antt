-- ===== src/Prelude/Outcome.antt =====
-- The outcome of a call. A `std::runtime_error` (and what `std::stoi` and `std::stoll` throw) is
-- `throw`, with a constructor of `Error` for the message; `abort()` and a failed `assert` end the
-- process; `fault` is an access outside a buffer, through null or of a pointer without a value, which
-- C++ leaves undefined; `diverge` is a loop that has used up the fuel of the model, and has no
-- counterpart in the program.
use mathlib.Core.Bool.{Bool, true, false}
use mathlib.Core.Path.{◌≡◌, refl, subst}
use mathlib.Core.Logic.{◌≢◌}
use reir.Prelude.Tests.{if◌then◌else◌}

pub data Error : Type 0 where
  identifier_inside_number unexpected_eof_in_string : Error
  reached_eof_of_tokens unexpected_token unknown_expr unparsable_token : Error
  unknown_property unknown_type invalid_define_tuple : Error
  invalid_argument out_of_range : Error
  type_mismatch unknown_valtype unknown_attr_type unimplemented bad_get : Error
  null_cell tuple_must_be_set size_mismatch variable_length table_not_found : Error
  array_operator tuple_operator date_operator different_types invalid_operator : Error
  undefined_variable not_an_array not_a_tuple no_member empty_array_literal : Error
  unknown_variable_type undefined_table fixed_length_needed already_initialized : Error
  unsupported_column undefined_function unknown_operator not_a_row : Error
  logical_with_double logical_with_others string_operator bool_operator no_operator undefined_type :
      Error

pub data Result {ℓ} (A : Type ℓ) : Type ℓ where
  ok : A → Result A
  throw : Error → Result A
  abort fault diverge : Result A

module _ {ℓ κ} {A : Type ℓ} {B : Type κ} where
  abbrev pub bind : Result A → (A → Result B) → Result B
  bind (ok a) f = f a
  bind (throw e) f = throw e
  bind abort f = abort
  bind fault f = fault
  bind diverge f = diverge

  pub bind-eq-ok :
      (m : Result A) (f : A → Result B) {b : B}
      → bind m f ≡ ok b
      → (a : A) × (m ≡ ok a) × (f a ≡ ok b)
  bind-eq-ok (ok a) f h = (a, refl, h)
  bind-eq-ok _ f h = cc

-- The call ends by a return, with `P` of its result, or by an exception.
pub data Runs {ℓ κ} {A : Type ℓ} (P : A → Type κ) : Result A → Type (ℓ ⊔ κ) where
  returns : {a : A} → P a → Runs P (ok a)
  raises : {e : Error} → Runs P (throw e)

module _ {ℓ κ} {A : Type ℓ} {P : A → Type κ} where
  pub Runs-bind {ℓ' κ'} :
      {B : Type ℓ'} {Q : B → Type κ'} {m : Result A} {f : A → Result B}
      → Runs P m
      → ((a : A) → P a → Runs Q (f a))
      → Runs Q (bind m f)
  Runs-bind (returns {a} h) k = k a h
  Runs-bind raises k = raises

  pub Runs-weaken {κ'} :
      {Q : A → Type κ'} {m : Result A} → Runs P m → ((a : A) → P a → Q a) → Runs Q m
  Runs-weaken (returns {a} h) k = returns (k a h)
  Runs-weaken raises k = raises

  pub Runs-eq-ok : {m : Result A} {a : A} → Runs P m → m ≡ ok a → P a
  Runs-eq-ok (returns h) e = subst P (cc) h
  Runs-eq-ok raises e = cc

  pub Runs-ne-diverge : {m : Result A} → Runs P m → m ≢ diverge
  Runs-ne-diverge (returns h) = cc
  Runs-ne-diverge raises = cc

  pub Runs-ne-abort : {m : Result A} → Runs P m → m ≢ abort
  Runs-ne-abort (returns h) = cc
  Runs-ne-abort raises = cc

  pub Runs-if : (b : Bool) {x y : Result A} → Runs P x → Runs P y → Runs P (if b then x else y)
  Runs-if true h k = h
  Runs-if false h k = k

-- If the call returns, `P` holds of its result.
pub data WhenOk {ℓ κ} {A : Type ℓ} (P : A → Type κ) : Result A → Type (ℓ ⊔ κ) where
  on_ok : {a : A} → P a → WhenOk P (ok a)
  on_throw : {e : Error} → WhenOk P (throw e)
  on_abort : WhenOk P abort
  on_fault : WhenOk P fault
  on_diverge : WhenOk P diverge

module _ {ℓ κ} {A : Type ℓ} {P : A → Type κ} where
  pub WhenOk-bind {ℓ' κ'} :
      {B : Type ℓ'} {Q : B → Type κ'} {m : Result A} {f : A → Result B}
      → WhenOk P m
      → ((a : A) → P a → WhenOk Q (f a))
      → WhenOk Q (bind m f)
  WhenOk-bind (on_ok {a} h) k = k a h
  WhenOk-bind on_throw k = on_throw
  WhenOk-bind on_abort k = on_abort
  WhenOk-bind on_fault k = on_fault
  WhenOk-bind on_diverge k = on_diverge

  pub WhenOk-weaken {κ'} :
      {Q : A → Type κ'} {m : Result A} → WhenOk P m → ((a : A) → P a → Q a) → WhenOk Q m
  WhenOk-weaken (on_ok {a} h) k = on_ok (k a h)
  WhenOk-weaken on_throw k = on_throw
  WhenOk-weaken on_abort k = on_abort
  WhenOk-weaken on_fault k = on_fault
  WhenOk-weaken on_diverge k = on_diverge

  pub WhenOk-eq : {m : Result A} {a : A} → WhenOk P m → m ≡ ok a → P a
  WhenOk-eq (on_ok h) e = subst P (cc) h
  WhenOk-eq on_throw e = cc
  WhenOk-eq on_abort e = cc
  WhenOk-eq on_fault e = cc
  WhenOk-eq on_diverge e = cc

  pub WhenOk-if :
      (b : Bool) {x y : Result A}
      → (b ≡ true → WhenOk P x)
      → (b ≡ false → WhenOk P y)
      → WhenOk P (if b then x else y)
  WhenOk-if true h k = h refl
  WhenOk-if false h k = k refl

-- The call ends, by a return with `P` of its result or otherwise.
pub data Ends {ℓ κ} {A : Type ℓ} (P : A → Type κ) : Result A → Type (ℓ ⊔ κ) where
  ends_ok : {a : A} → P a → Ends P (ok a)
  ends_throw : {e : Error} → Ends P (throw e)
  ends_abort : Ends P abort
  ends_fault : Ends P fault

module _ {ℓ κ} {A : Type ℓ} {P : A → Type κ} where
  pub Ends-bind {ℓ' κ'} :
      {B : Type ℓ'} {Q : B → Type κ'} {m : Result A} {f : A → Result B}
      → Ends P m
      → ((a : A) → P a → Ends Q (f a))
      → Ends Q (bind m f)
  Ends-bind (ends_ok {a} h) k = k a h
  Ends-bind ends_throw k = ends_throw
  Ends-bind ends_abort k = ends_abort
  Ends-bind ends_fault k = ends_fault

  pub Ends-if :
      (b : Bool) {x y : Result A}
      → (b ≡ true → Ends P x)
      → (b ≡ false → Ends P y)
      → Ends P (if b then x else y)
  Ends-if true h k = h refl
  Ends-if false h k = k refl

  pub Ends-weaken {κ'} :
      {Q : A → Type κ'} {m : Result A} → Ends P m → ((a : A) → P a → Q a) → Ends Q m
  Ends-weaken (ends_ok {a} h) k = ends_ok (k a h)
  Ends-weaken ends_throw k = ends_throw
  Ends-weaken ends_abort k = ends_abort
  Ends-weaken ends_fault k = ends_fault

-- What a call returns, it returns.
pub itself {ℓ} : {A : Type ℓ} (m : Result A) → WhenOk (λ a. m ≡ ok a) m
itself (ok a) = on_ok refl
itself (throw e) = on_throw
itself abort = on_abort
itself fault = on_fault
itself diverge = on_diverge
