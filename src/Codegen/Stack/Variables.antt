-- ===== src/Codegen/Stack/Variables.antt =====
-- The variables that have a place, and the tables that have a schema, once the pass of src/reir/exec/compiler.cpp has gone over a block.
use reir.Prelude.{
  ◌≡◌, refl, ◌++◌, codes, Bool, Option, none, some, Bytes, bind, WhenOk, on_ok, on_throw, on_fault,
  WhenOk-bind, WhenOk-weaken, WhenOk-if, itself,
}
use reir.Ast.{
  Expression, Expressions, number, string, binary, pointer_of, row_literal, array_literal,
  variable_reference, function_call, array_reference, member_reference, assign, Statement, Init,
  block, define, emit, expr_statement, for, define_tuple, if_else, jump, insert, scan, let_,
  transaction, unset_init, no_init, init,
}
use reir.Db.Schema.{Schema, get_prefix}
use reir.Codegen.Rows.{insert_buffers}
use reir.Codegen.Types.{LlvmType, Setting, get_type, is_there}
use reir.Codegen.Stack.{
  Frame, Typed, alloca, alloca_struct, is_struct, set_variable, insert_frame, insert_place, typed,
  visit_value, parent_places, value_places, element_places, argument_places, alloca_stack,
  init_stack,
}
use reir.Codegen.Stack.Growth.{
  Has, HasSchema, Grows, Grows-stay, Grows-then, Growing, both, Has-set, Grows-set, define-Growing,
  variables-prefix, schemas-prefix, same-Grows, scan-Has, IsHarmless, struct-IsHarmless,
}

module _ (g : Setting) where
  abbrev typed_here : Typed
  typed_here = typed g

  typed-Growing :
      (e : Expression) (k : LlvmType → Frame → Frame) → IsHarmless k → Growing (typed_here e k)
  unfolding typed
  typed-Growing e k h f =
      WhenOk-bind (itself (get_type g f.variables e f.types))
        λ (t, types) e. on_ok (h t (record f { types = types }))

  visit-Growing : (e : Expression) → Growing (visit_value g e)
  unfolding visit_value
  visit-Growing e f = WhenOk-bind (itself (get_type g f.variables e f.types)) λ (t, types) h.
      WhenOk-if (is_struct t)
        (λ _. typed-Growing e alloca (λ t f. (λ n a. a, λ n a. a)) (record f { types = types }))
        (λ _. on_ok (λ n a. a, λ n a. a))

  parent-Growing : (n : Option Bytes) → Growing (parent_places g n)
  unfolding parent_places
  parent-Growing none f = on_fault
  parent-Growing (some n) f = visit-Growing (variable_reference n) f

  mutual
    unfolding value_places

    value-Growing : (e : Expression) → Growing (value_places g e)
    value-Growing (number n) f = on_ok (Grows-stay f)
    value-Growing (string s) f = on_ok (Grows-stay f)
    value-Growing (binary l op r) f = on_ok (Grows-stay f)
    value-Growing (pointer_of e) f = visit-Growing e f
    value-Growing (row_literal es) f = on_ok (Grows-stay f)
    value-Growing (array_literal es) f =
        both (element_places g es) (visit_value g (array_literal es)) (element-Growing es)
          (visit-Growing (array_literal es)) f
    value-Growing (variable_reference n) f = visit-Growing (variable_reference n) f
    value-Growing (function_call p args) f = argument-Growing args f
    value-Growing (array_reference n idx) f =
        both (visit_value g (array_reference n idx)) (parent_places g n)
          (visit-Growing (array_reference n idx)) (parent-Growing n) f
    value-Growing (member_reference p n) f =
        both (visit_value g (member_reference p n)) (value_places g p)
          (visit-Growing (member_reference p n)) (value-Growing p) f
    value-Growing (assign e v) f =
        both (visit_value g (assign e v)) (value_places g v) (visit-Growing (assign e v))
          (value-Growing v) f

    element-Growing : (es : Expressions) → Growing (element_places g es)
    element-Growing Expressions.nil f = on_ok (Grows-stay f)
    element-Growing (Expressions.cons e es) f =
        both (value_places g e) (element_places g es) (value-Growing e) (element-Growing es) f

    argument-Growing : (es : Expressions) → Growing (argument_places g es)
    argument-Growing Expressions.nil f = on_ok (Grows-stay f)
    argument-Growing (Expressions.cons e es) f =
        both (visit_value g e) (λ f₁. bind (value_places g e f₁) (argument_places g es))
          (visit-Growing e)
          (both (value_places g e) (argument_places g es) (value-Growing e) (argument-Growing es)) f

  -- What a statement takes.
  abbrev pub Placed : Statement → Frame → Type 0
  Placed (let_ type n e) f = Has n f
  Placed (scan table row b) f = Has row f × HasSchema table f
  Placed (insert table e) f = HasSchema table f
  Placed (for (init s) cond every b) f = Placed s f
  Placed _ f = Unit

  pub Placed-Grows : (s : Statement) (f f' : Frame) → Grows f f' → Placed s f → Placed s f'
  Placed-Grows (let_ type n e) f f' h p = h.0 n p
  Placed-Grows (scan table row b) f f' h (p, q) = (h.0 row p, h.1 table q)
  Placed-Grows (insert table e) f f' h p = h.1 table p
  Placed-Grows (for unset_init cond every b) f f' h p = tt
  Placed-Grows (for no_init cond every b) f f' h p = tt
  Placed-Grows (for (init s) cond every b) f f' h p = Placed-Grows s f f' h p
  Placed-Grows (block b) f f' h p = tt
  Placed-Grows (define schema name) f f' h p = tt
  Placed-Grows (emit e) f f' h p = tt
  Placed-Grows (expr_statement e) f f' h p = tt
  Placed-Grows (define_tuple name t) f f' h p = tt
  Placed-Grows (if_else cond b e) f f' h p = tt
  Placed-Grows (jump j) f f' h p = tt
  Placed-Grows (transaction isolation b) f f' h p = tt

  insert-Has :
      (o : Option Schema) (table : Bytes) (e : Expression) (again : Bool) (f : Frame)
      → f.schemas table ≡ o
      → WhenOk (λ f'. HasSchema table f' × Grows f f') (insert_place o (typed g) table e again f)
  unfolding insert_place insert_frame is_there
  insert-Has none table e again f there = on_throw
  insert-Has (some s) table e again f there =
      WhenOk-bind (itself (insert_buffers (some s) again)) λ (key, value) h.
        let f₁ = insert_frame table s key value f in
        let same =
          same-Grows f f₁ (variables-prefix (get_prefix s) (table ++ codes "_table_prefix") f)
            (schemas-prefix (get_prefix s) (table ++ codes "_table_prefix") f) in
        WhenOk-weaken (typed-Growing e alloca (λ t f. (λ n a. a, λ n a. a)) f₁) λ f' k.
          let grows = Grows-then f f₁ f' same k in
          (grows.1 table (rw (there, is_there) refl), grows)

  let-Has :
      (n : Bytes) (e : Expression) (f : Frame)
      → WhenOk (λ f'. Has n f' × Grows f f') (typed g e (λ t f. set_variable n t (alloca t f)) f)
  unfolding typed
  let-Has n e f = WhenOk-bind (itself (get_type g f.variables e f.types)) λ (t, types) h.
      let f₁ = alloca t (record f { types = types }) in on_ok (Has-set n t f₁, Grows-set n t f₁)

  mutual
    unfolding alloca_stack

    pub stack-Placed :
        (again : Bool) (s : Statement) (f : Frame)
        → WhenOk (λ f'. Placed s f' × Grows f f') (alloca_stack g again s f)
    stack-Placed again (block b) f = on_ok (tt, Grows-stay f)
    stack-Placed again (define schema name) f =
        WhenOk-weaken (define-Growing g.columns schema name f) λ f' h. (tt, h)
    stack-Placed again (emit e) f =
        WhenOk-weaken (typed-Growing e alloca (λ t f. (λ n a. a, λ n a. a)) f) λ f' h. (tt, h)
    stack-Placed again (expr_statement e) f =
        WhenOk-weaken
          (both (typed g e alloca_struct) (value_places g e)
            (typed-Growing e alloca_struct struct-IsHarmless) (value-Growing e) f)
          λ f' h. (tt, h)
    stack-Placed again (for unset_init cond every b) f = on_fault
    stack-Placed again (for no_init cond every b) f = on_ok (tt, Grows-stay f)
    stack-Placed again (for (init s) cond every b) f = stack-Placed again s f
    stack-Placed again (define_tuple name t) f = on_ok (tt, Grows-stay f)
    stack-Placed again (if_else cond b e) f = on_ok (tt, Grows-stay f)
    stack-Placed again (jump j) f = on_ok (tt, Grows-stay f)
    stack-Placed again (insert table e) f = insert-Has (f.schemas table) table e again f refl
    stack-Placed again (scan table row b) f = scan-Has (f.schemas table) table row again f refl
    stack-Placed again (let_ type n e) f = let-Has n e f
    stack-Placed again (transaction isolation b) f = on_ok (tt, Grows-stay f)

    pub init-Growing : (again : Bool) (i : Init) → Growing (init_stack g again i)
    init-Growing again unset_init f = on_fault
    init-Growing again no_init f = on_ok (Grows-stay f)
    init-Growing again (init s) f = WhenOk-weaken (stack-Placed again s f) λ f' (p, h). h
