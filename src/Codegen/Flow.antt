-- ===== src/Codegen/Flow.antt =====
-- Basic blocks: the branches that the code generator of src/reir/exec/ast_statement_codegen.cpp and
-- ast_expression_codegen.cpp builds, and its stack of loops in compiler_context.hpp. A block of LLVM
-- is a number, in the order of their creation; kept of it are its terminators, in the order in
-- which they are appended. The names of the variables that have a place on the stack, and of the
-- functions, are parameters: the generator only reads them here. Values and their types are those
-- of LLVM, and the exceptions that depend on a type are left out.
pub mod Statements
pub mod Loops
pub mod Jumps
pub mod Endings
pub mod Closed
pub mod Finished
use reir.Prelude.{
  ℕ, suc, Bool, true, false, List, [], ◌∷◌, ◌++◌, Option, none, some, Bytes, ◌==◌, if◌then◌else◌,
  Result, ok, throw, fault, bind, undefined_variable, undefined_function, unknown_operator,
}
use reir.Ast.{
  Operators, Expression, Expressions, number, string, binary, pointer_of, row_literal,
  array_literal, variable_reference, function_call, array_reference, member_reference, assign,
  Statement, Block, Init, ElseBlock, block, define, emit, expr_statement, for, define_tuple,
  if_else, jump, insert, scan, let_, transaction, unset_init, no_init, init, no_else, else_block,
  JumpType, continue_jump, break_jump,
}

-- `LoopContext`, without the pointer to the loop outside.
pub record Loop : Type 0 where
  pub begin : ℕ
  pub body : ℕ
  pub every : ℕ
  pub finish : ℕ

pub data Terminator : Type 0 where
  br : ℕ → Terminator
  cond_br : ℕ → ℕ → Terminator
  ret : Terminator

-- The innermost loop comes first.
pub record Builder : Type 0 where
  pub count : ℕ
  pub terminators : ℕ → List Terminator
  pub current : ℕ
  pub loops : List Loop

-- `BasicBlock::Create`; the new block is numbered by the count before.
abbrev pub create : Builder → Builder
create b = record b { count = suc b.count }

-- `SetInsertPoint`.
abbrev pub set_insert_point : ℕ → Builder → Builder
set_insert_point n b = record b { current = n }

-- `CreateBr` and `CreateCondBr`.
abbrev pub append : Terminator → Builder → Builder
append t b = record b {
  terminators = λ n. if n == b.current then b.terminators n ++ t ∷ [] else b.terminators n;
}

abbrev pub enter_loop : Loop → Builder → Builder
enter_loop l b = record b { loops = l ∷ b.loops }

unfoldable pub exit_loop_ctx : Builder → Result Builder
exit_loop_ctx b = elim b.loops [ [] ↦ fault | l ∷ out ↦ ok (record b { loops = out }) ]

abbrev pub Emitter : Type 0
Emitter = Builder → Result Builder

-- What a name is looked up in; a null pointer is dereferenced, or an exception is thrown.
unfoldable pub require : Bool → Result Builder → Emitter
require true otherwise b = ok b
require false otherwise b = otherwise

-- `get_conditional_value`: the right operand is evaluated in the first block.
unfoldable pub get_conditional_value : Bool → Emitter → Emitter → Emitter
get_conditional_value for_and left right b =
    let next = b.count in
    let fin = suc b.count in
    bind (left (create (create b))) λ b₁.
      bind
        (right (
          set_insert_point next
            (append (if for_and then cond_br next fin else cond_br fin next) b₁)))
        λ b₂. ok (set_insert_point fin (append (br fin) b₂))

-- `BinaryExpression::get_value`.
unfoldable pub binary_value : Operators → Emitter → Emitter → Emitter
unfolding get_conditional_value
binary_value Operators.conditional_and left right b = get_conditional_value true left right b
binary_value Operators.conditional_or left right b = get_conditional_value false left right b
binary_value Operators.none left right b =
    bind (left b) λ b₁. bind (right b₁) λ b₂. throw unknown_operator
binary_value _ left right b = bind (left b) right

-- `get_ref`, which is null of other expressions than these; the store to it comes behind the value.
unfoldable pub has_ref : Expression → Bool
has_ref (variable_reference n) = true
has_ref (array_reference n idx) = true
has_ref (member_reference p n) = true
has_ref _ = false

unfoldable pub store_value : Bool → Emitter → Emitter → Emitter
store_value true ref value b = bind (ref b) value
store_value false ref value b = bind (value b) λ _. fault

module _ (variables functions : Bytes → Bool) where
  -- The function of a call is taken for a variable, whatever it is.
  unfoldable pub call_value : Expression → Emitter → Emitter
  unfolding require
  call_value (variable_reference n) args b =
      bind (require (functions n) (throw undefined_function) b) args
  call_value _ args b = fault

  unfoldable pub variable_value : Bytes → Emitter
  unfolding require
  variable_value n b = require (variables n) (throw undefined_variable) b

  unfoldable pub reference_value : Option Bytes → Emitter → Emitter
  unfolding variable_value
  reference_value none idx b = fault
  reference_value (some n) idx b = bind (variable_value n b) idx

  -- The parent has to be a variable that has a place.
  unfoldable pub member_value : Expression → Emitter
  unfolding require
  member_value (variable_reference n) b = require (variables n) fault b
  member_value _ b = fault

  unfoldable mutual
    unfolding binary_value call_value variable_value reference_value member_value has_ref
        store_value

    pub get_value : Expression → Builder → Result Builder
    get_value (number n) b = ok b
    get_value (string s) b = ok b
    get_value (binary l op r) b = binary_value op (get_value l) (get_value r) b
    get_value (pointer_of e) b = get_value e b
    get_value (row_literal es) b = row_values es b
    get_value (array_literal es) b = array_values es b
    get_value (variable_reference n) b = variable_value n b
    get_value (function_call p args) b = call_value p (array_values args) b
    get_value (array_reference n idx) b = reference_value n (get_value idx) b
    get_value (member_reference p n) b = member_value p b
    get_value (assign e v) b = store_value (has_ref e) (get_value e) (get_value v) b

    -- The elements of a row: `get_value` is called for the type of an element, and again for the
    -- element.
    pub row_values : Expressions → Builder → Result Builder
    row_values Expressions.nil b = ok b
    row_values (Expressions.cons e es) b =
        bind (get_value e b) λ b₁. bind (get_value e b₁) (row_values es)

    -- The elements of an array, or the arguments of a call.
    pub array_values : Expressions → Builder → Result Builder
    array_values Expressions.nil b = ok b
    array_values (Expressions.cons e es) b = bind (get_value e b) (array_values es)
