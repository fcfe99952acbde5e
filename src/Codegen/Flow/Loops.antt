-- ===== src/Codegen/Flow/Loops.antt =====
-- The stack of loops of the code generator, src/reir/exec/ast_statement_codegen.cpp, and the pointers that
-- it follows without a test.
use reir.Prelude.{
  ◌≡◌, refl, ◌∙◌, Bool, true, false, none, some, Bytes, Result, throw, bind, undefined_variable,
  undefined_function, Error, Runs, returns, raises, Runs-bind, Runs-weaken,
}
use reir.Ast.{
  Part, unset_part, no_part, part, Operators, Expression, Expressions, number, string, binary,
  pointer_of, row_literal, array_literal, variable_reference, function_call, array_reference,
  member_reference, assign,
}
use reir.Codegen.Flow.{
  Builder, Emitter, get_conditional_value, binary_value, require, call_value, variable_value,
  reference_value, member_value, has_ref, store_value, get_value, row_values, array_values,
}

module _ (variables : Bytes → Bool) where
  -- Calls of names, references to the elements of variables and to the members of those that have a
  -- place, and assignments to what can be assigned to.
  abbrev mutual
    pub IsDirect : Expression → Type 0
    IsDirect (number n) = Unit
    IsDirect (string s) = Unit
    IsDirect (binary l op r) = IsDirect l × IsDirect r
    IsDirect (pointer_of e) = IsDirect e
    IsDirect (row_literal es) = AreDirect es
    IsDirect (array_literal es) = AreDirect es
    IsDirect (variable_reference n) = Unit
    IsDirect (function_call (variable_reference n) args) = AreDirect args
    IsDirect (function_call _ args) = ⊥
    IsDirect (array_reference none idx) = ⊥
    IsDirect (array_reference (some n) idx) = IsDirect idx
    IsDirect (member_reference (variable_reference n) m) = variables n ≡ true
    IsDirect (member_reference _ m) = ⊥
    IsDirect (assign e v) = (has_ref e ≡ true) × IsDirect e × IsDirect v

    pub AreDirect : Expressions → Type 0
    AreDirect Expressions.nil = Unit
    AreDirect (Expressions.cons e es) = IsDirect e × AreDirect es

  abbrev pub OptionalDirect : Part → Type 0
  OptionalDirect unset_part = ⊥
  OptionalDirect no_part = Unit
  OptionalDirect (part e) = IsDirect e

-- The loops are those that they were.
abbrev pub Keeps : Builder → Result Builder → Type 0
Keeps b = Runs (λ b'. b'.loops ≡ b.loops)

-- Of one emitter behind another.
pub after : (b c : Builder) (m : Result Builder) → c.loops ≡ b.loops → Keeps c m → Keeps b m
after b c m e h = Runs-weaken h λ b' e'. e' ∙ e

-- An emitter keeps the loops wherever it starts.
abbrev Steady : Emitter → Type 0
Steady f = (b : Builder) → Keeps b (f b)

both : (f g : Emitter) (b : Builder) → Steady f → Steady g → Keeps b (bind (f b) g)
both f g b hf hg = Runs-bind (hf b) λ b₁ e. after b b₁ (g b₁) e (hg b₁)

conditional-Keeps :
    (for_and : Bool) (left right : Emitter)
    → Steady left
    → Steady right
    → Steady (get_conditional_value for_and left right)
unfolding get_conditional_value
conditional-Keeps for_and left right hl hr b =
    Runs-bind (hl _) λ b₁ e. Runs-bind (hr _) λ b₂ e'. returns (e' ∙ e)

binary-Keeps :
    (op : Operators) (left right : Emitter)
    → Steady left
    → Steady right
    → Steady (binary_value op left right)
unfolding binary_value
binary-Keeps Operators.conditional_and left right hl hr b =
    conditional-Keeps true left right hl hr b
binary-Keeps Operators.conditional_or left right hl hr b =
    conditional-Keeps false left right hl hr b
binary-Keeps Operators.none left right hl hr b =
    Runs-bind (hl b) λ b₁ e. Runs-bind (hr b₁) λ b₂ e'. raises
binary-Keeps _ left right hl hr b = both left right b hl hr

pub require-Keeps : (there : Bool) (e : Error) → Steady (require there (throw e))
unfolding require
require-Keeps true e b = returns refl
require-Keeps false e b = raises

module _ (variables functions : Bytes → Bool) where
  variable-Keeps : (n : Bytes) → Steady (variable_value variables functions n)
  unfolding variable_value
  variable-Keeps n b = require-Keeps (variables n) undefined_variable b

  call-Keeps :
      (n : Bytes) (args : Emitter)
      → Steady args
      → Steady (call_value variables functions (variable_reference n) args)
  unfolding call_value
  call-Keeps n args h b =
      Runs-bind (require-Keeps (functions n) undefined_function b)
        λ b₁ e. after b b₁ (args b₁) e (h b₁)

  reference-Keeps :
      (n : Bytes) (idx : Emitter)
      → Steady idx
      → Steady (reference_value variables functions (some n) idx)
  unfolding reference_value
  reference-Keeps n idx h b = Runs-bind (variable-Keeps n b) λ b₁ e. after b b₁ (idx b₁) e (h b₁)

  member-Keeps :
      (n : Bytes)
      → variables n ≡ true
      → Steady (member_value variables functions (variable_reference n))
  unfolding member_value require
  member-Keeps n h b = rw h (returns refl)

  store-Keeps :
      (can : Bool) (ref value : Emitter)
      → can ≡ true
      → Steady ref
      → Steady value
      → Steady (store_value can ref value)
  unfolding store_value
  store-Keeps true ref value h hr hv b = both ref value b hr hv
  store-Keeps false ref value h hr hv b = cc

  mutual
    unfolding get_value

    pub value-Keeps :
        (e : Expression) (b : Builder)
        → IsDirect variables e
        → Keeps b (get_value variables functions e b)
    value-Keeps (number n) b h = returns refl
    value-Keeps (string s) b h = returns refl
    value-Keeps (binary l op r) b (h, k) =
        binary-Keeps op (get_value variables functions l) (get_value variables functions r)
          (λ c. value-Keeps l c h) (λ c. value-Keeps r c k) b
    value-Keeps (pointer_of e) b h = value-Keeps e b h
    value-Keeps (row_literal es) b h = row-Keeps es b h
    value-Keeps (array_literal es) b h = array-Keeps es b h
    value-Keeps (variable_reference n) b h = variable-Keeps n b
    value-Keeps (function_call (variable_reference n) args) b h =
        call-Keeps n (array_values variables functions args) (λ c. array-Keeps args c h) b
    value-Keeps (function_call _ args) b h = absurd h
    value-Keeps (array_reference none idx) b h = absurd h
    value-Keeps (array_reference (some n) idx) b h =
        reference-Keeps n (get_value variables functions idx) (λ c. value-Keeps idx c h) b
    value-Keeps (member_reference (variable_reference n) m) b h = member-Keeps n h b
    value-Keeps (member_reference _ m) b h = absurd h
    value-Keeps (assign e v) b (can, h, k) =
        store-Keeps (has_ref e) (get_value variables functions e) (get_value variables functions v)
          can (λ c. value-Keeps e c h) (λ c. value-Keeps v c k) b

    row-Keeps :
        (es : Expressions) (b : Builder)
        → AreDirect variables es
        → Keeps b (row_values variables functions es b)
    row-Keeps Expressions.nil b h = returns refl
    row-Keeps (Expressions.cons e es) b (h, k) = Runs-bind (value-Keeps e b h) λ b₁ s.
        Runs-bind (value-Keeps e b₁ h)
          λ b₂ t. after b b₂ (row_values variables functions es b₂) (t ∙ s) (row-Keeps es b₂ k)

    array-Keeps :
        (es : Expressions) (b : Builder)
        → AreDirect variables es
        → Keeps b (array_values variables functions es b)
    array-Keeps Expressions.nil b h = returns refl
    array-Keeps (Expressions.cons e es) b (h, k) =
        Runs-bind (value-Keeps e b h)
          λ b₁ s. after b b₁ (array_values variables functions es b₁) s (array-Keeps es b₁ k)
