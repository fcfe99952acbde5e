-- ===== src/Codegen/Flow/Closed.antt =====
-- The blocks that `codegen` of the statements of src/reir/exec/ast_statement_codegen.cpp and
-- `get_value` of the expressions of ast_expression_codegen.cpp leave behind.
use reir.Prelude.{
  suc, arith, Bool, true, false, Option, none, some, Bytes, Result, throw, fault, bind,
  undefined_variable, undefined_function, WhenOk, on_ok, on_throw, on_fault, WhenOk-bind,
  WhenOk-weaken, if◌then◌else◌,
}
use reir.Ast.{
  Operators, Expression, Expressions, number, string, binary, pointer_of, row_literal,
  array_literal, variable_reference, function_call, array_reference, member_reference, assign,
}
use reir.Codegen.Flow.{
  br, cond_br, Builder, Emitter, get_conditional_value, binary_value, require, call_value,
  variable_value, reference_value, member_value, has_ref, store_value, get_value, row_values,
  array_values,
}
use reir.Codegen.Flow.Endings.{
  IsOpen, Grows, no_blocks, Grows-stay, Grows-then, Grows-go, Grows-end, Grows-two,
}

-- From an open block, the code leads to an open block.
abbrev pub Closes : Builder → Result Builder → Type 0
Closes b = WhenOk (Grows no_blocks b)

abbrev pub Closing : Emitter → Type 0
Closing f = (b : Builder) → IsOpen b → Closes b (f b)

-- Behind code that may leave blocks to be filled.
pub both : (f g : Emitter) → Closing f → Closing g → Closing (λ b. bind (f b) g)
both f g hf hg b o =
    WhenOk-bind (hf b o) λ c h. WhenOk-weaken (hg c h.opened) λ d k. Grows-then o h k

pub require-Closing :
    (there : Bool) (m : Result Builder) → ((b : Builder) → Closes b m) → Closing (require there m)
unfolding require
require-Closing true m h b o = on_ok (Grows-stay o)
require-Closing false m h b o = h b

conditional-Closing :
    (for_and : Bool) (left right : Emitter)
    → Closing left
    → Closing right
    → Closing (get_conditional_value for_and left right)
unfolding get_conditional_value
conditional-Closing for_and left right hl hr b o = WhenOk-bind (hl _ (Grows-two o).opened) λ b₁ g₁.
    let h₁ =
      Grows-go (if for_and then cond_br b.count (suc b.count) else cond_br (suc b.count) b.count)
        b.count o (Grows-then o (Grows-two o) g₁) (ground arith) in
    WhenOk-bind (hr _ h₁.opened) λ b₂ g₂. on_ok (
      Grows-end (Grows-go (br (suc b.count)) (suc b.count) o (Grows-then o h₁ g₂) (ground arith))
        (λ n. ground arith))

binary-Closing :
    (op : Operators) (left right : Emitter)
    → Closing left
    → Closing right
    → Closing (binary_value op left right)
unfolding binary_value
binary-Closing Operators.conditional_and left right hl hr b o =
    conditional-Closing true left right hl hr b o
binary-Closing Operators.conditional_or left right hl hr b o =
    conditional-Closing false left right hl hr b o
binary-Closing Operators.none left right hl hr b o =
    WhenOk-bind (hl b o) λ b₁ h₁. WhenOk-bind (hr b₁ h₁.opened) λ b₂ h₂. on_throw
binary-Closing _ left right hl hr b o = both left right hl hr b o

store-Closing :
    (can : Bool) (ref value : Emitter)
    → Closing ref
    → Closing value
    → Closing (store_value can ref value)
unfolding store_value
store-Closing true ref value hr hv b o = both ref value hr hv b o
store-Closing false ref value hr hv b o = WhenOk-bind (hv b o) λ b₁ h₁. on_fault

module _ (variables functions : Bytes → Bool) where
  variable-Closing : (n : Bytes) → Closing (variable_value variables functions n)
  unfolding variable_value
  variable-Closing n = require-Closing (variables n) (throw undefined_variable) λ b. on_throw

  call-Closing :
      (p : Expression) (args : Emitter)
      → Closing args
      → Closing (call_value variables functions p args)
  unfolding call_value
  call-Closing (variable_reference n) args h b o =
      both (require (functions n) (throw undefined_function)) args
        (require-Closing (functions n) (throw undefined_function) λ b. on_throw) h b o
  call-Closing _ args h b o = on_fault

  reference-Closing :
      (n : Option Bytes) (idx : Emitter)
      → Closing idx
      → Closing (reference_value variables functions n idx)
  unfolding reference_value
  reference-Closing none idx h b o = on_fault
  reference-Closing (some n) idx h b o =
      both (variable_value variables functions n) idx (variable-Closing n) h b o

  member-Closing : (p : Expression) → Closing (member_value variables functions p)
  unfolding member_value
  member-Closing (variable_reference n) b o =
      require-Closing (variables n) fault (λ b. on_fault) b o
  member-Closing _ b o = on_fault

  mutual
    unfolding get_value

    pub value-Closing : (e : Expression) → Closing (get_value variables functions e)
    value-Closing (number n) b o = on_ok (Grows-stay o)
    value-Closing (string s) b o = on_ok (Grows-stay o)
    value-Closing (binary l op r) b o =
        binary-Closing op (get_value variables functions l) (get_value variables functions r)
          (value-Closing l) (value-Closing r) b o
    value-Closing (pointer_of e) b o = value-Closing e b o
    value-Closing (row_literal es) b o = row-Closing es b o
    value-Closing (array_literal es) b o = array-Closing es b o
    value-Closing (variable_reference n) b o = variable-Closing n b o
    value-Closing (function_call p args) b o =
        call-Closing p (array_values variables functions args) (array-Closing args) b o
    value-Closing (array_reference n idx) b o =
        reference-Closing n (get_value variables functions idx) (value-Closing idx) b o
    value-Closing (member_reference p n) b o = member-Closing p b o
    value-Closing (assign e v) b o =
        store-Closing (has_ref e) (get_value variables functions e)
          (get_value variables functions v) (value-Closing e) (value-Closing v) b o

    row-Closing : (es : Expressions) → Closing (row_values variables functions es)
    row-Closing Expressions.nil b o = on_ok (Grows-stay o)
    row-Closing (Expressions.cons e es) b o =
        both (get_value variables functions e)
          (λ c. bind (get_value variables functions e c) (row_values variables functions es))
          (value-Closing e)
          (both (get_value variables functions e) (row_values variables functions es)
            (value-Closing e) (row-Closing es))
          b o

    array-Closing : (es : Expressions) → Closing (array_values variables functions es)
    array-Closing Expressions.nil b o = on_ok (Grows-stay o)
    array-Closing (Expressions.cons e es) b o =
        both (get_value variables functions e) (array_values variables functions es)
          (value-Closing e) (array-Closing es) b o
