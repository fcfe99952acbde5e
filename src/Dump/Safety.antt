-- ===== src/Dump/Safety.antt =====
-- Where the printers of the syntax tree dereference null: in an array reference whose parent is no
-- variable, which the parser leaves null, and in a `Define` without a schema.
use reir.Prelude.{
  ℕ, suc, ◌+◌, Bool, true, false, ◌&&◌, Option, none, some, Bytes, Result, ok, fault,
}
use reir.Ast.{
  Part, unset_part, no_part, part, TupleType, Expression, Expressions, number, string, binary,
  pointer_of, row_literal, array_literal, variable_reference, function_call, array_reference,
  member_reference, assign, Statement, Block, Init, ElseBlock, block, define, emit, expr_statement,
  for, define_tuple, if_else, jump, insert, scan, let_, transaction, unset_init, no_init, init,
  no_else, else_block,
}
use reir.Dump.{◌<<◌, dump, dump_elements, dump_variable, dump_types, dump_type}
use reir.Dump.Statements.{
  dump_statement, dump_lines, in_brackets, dump_block, dump_tuple, dump_init, dump_else,
  dump_schema, dump_optional,
}

-- Something stands behind the pointer.
unfoldable pub is_some {ℓ} : {A : Type ℓ} → Option A → Bool
is_some none = false
is_some (some a) = true

-- No array reference without a variable.
unfoldable mutual
  unfolding is_some

  pub is_named : Expression → Bool
  is_named (number n) = true
  is_named (string s) = true
  is_named (binary l op r) = is_named l && is_named r
  is_named (pointer_of e) = is_named e
  is_named (row_literal es) = are_named es
  is_named (array_literal es) = are_named es
  is_named (variable_reference n) = true
  is_named (function_call p args) = is_named p && are_named args
  is_named (array_reference n idx) = is_some n && is_named idx
  is_named (member_reference p n) = is_named p
  is_named (assign t v) = is_named t && is_named v

  pub are_named : Expressions → Bool
  are_named Expressions.nil = true
  are_named (Expressions.cons e es) = is_named e && are_named es

unfoldable pub named_optional : Part → Bool
named_optional unset_part = false
named_optional no_part = true
named_optional (part e) = is_named e

-- Nor a `Define` without a schema, nor a loop with a part whose pointer has no value.
unfoldable mutual
  unfolding is_some named_optional

  pub is_complete : Statement → Bool
  is_complete (block b) = are_complete b
  is_complete (define schema name) = is_some schema
  is_complete (emit e) = is_named e
  is_complete (expr_statement e) = is_named e
  is_complete (for i cond every b) =
      init_complete i && (named_optional cond && (named_optional every && are_complete b))
  is_complete (define_tuple name t) = true
  is_complete (if_else cond b e) = is_named cond && (are_complete b && else_complete e)
  is_complete (jump j) = true
  is_complete (insert table e) = is_named e
  is_complete (scan table row b) = are_complete b
  is_complete (let_ type name e) = is_named e
  is_complete (transaction isolation b) = are_complete b

  pub are_complete : Block → Bool
  are_complete Block.nil = true
  are_complete (Block.cons s b) = is_complete s && are_complete b

  pub init_complete : Init → Bool
  init_complete unset_init = false
  init_complete no_init = true
  init_complete (init s) = is_complete s

  pub else_complete : ElseBlock → Bool
  else_complete no_else = true
  else_complete (else_block b) = are_complete b

-- A text if the test holds, and an access through null if it does not.
pub data Prints : Bool → Result Bytes → Type 0 where
  prints : {s : Bytes} → Prints true (ok s)
  faults : Prints false fault

both : {b c : Bool} {m n : Result Bytes} → Prints b m → Prints c n → Prints (b && c) (m << n)
unfolding ◌<<◌
both prints prints = prints
both prints faults = faults
both faults _ = faults

-- A text on either side of what may fault.
behind : (s : Bytes) {c : Bool} {n : Result Bytes} → Prints c n → Prints c (ok s << n)
behind s h = both prints h

before : {b : Bool} (s : Bytes) {m : Result Bytes} → Prints b m → Prints b (m << ok s)
unfolding ◌<<◌
before s prints = prints
before s faults = faults

variable-Prints : (n : Option Bytes) → Prints (is_some n) (dump_variable n)
unfolding dump_variable is_some
variable-Prints none = faults
variable-Prints (some n) = prints

mutual
  unfolding dump is_named

  pub dump-Prints : (e : Expression) → Prints (is_named e) (dump e)
  dump-Prints (number n) = prints
  dump-Prints (string s) = prints
  dump-Prints (binary l op r) =
      behind _ (both (dump-Prints l) (behind _ (before _ (dump-Prints r))))
  dump-Prints (pointer_of e) = behind _ (dump-Prints e)
  dump-Prints (row_literal es) = behind _ (before _ (elements-Prints es 0))
  dump-Prints (array_literal es) = behind _ (behind _ (behind _ (before _ (elements-Prints es 0))))
  dump-Prints (variable_reference n) = variable-Prints (some n)
  dump-Prints (function_call p args) =
      behind _ (both (dump-Prints p) (behind _ (before _ (elements-Prints args 0))))
  dump-Prints (array_reference n idx) =
      behind _ (both (variable-Prints n) (behind _ (before _ (dump-Prints idx))))
  dump-Prints (member_reference p n) = before _ (dump-Prints p)
  dump-Prints (assign t v) = both (dump-Prints t) (behind _ (dump-Prints v))

  elements-Prints : (es : Expressions) (i : ℕ) → Prints (are_named es) (dump_elements es i)
  elements-Prints Expressions.nil i = prints
  elements-Prints (Expressions.cons e es) i =
      behind _ (both (dump-Prints e) (elements-Prints es (suc i)))

optional-Prints : (o : Part) → Prints (named_optional o) (dump_optional o)
unfolding named_optional dump_optional
optional-Prints unset_part = faults
optional-Prints no_part = prints
optional-Prints (part e) = dump-Prints e

tuple-Prints : (t : TupleType) → Prints true (dump_tuple t)
unfolding dump_type dump_types
tuple-Prints t = behind _ (before _ prints)

schema-Prints : (o : Option TupleType) → Prints (is_some o) (dump_schema o)
unfolding is_some dump_schema
schema-Prints none = faults
schema-Prints (some t) = tuple-Prints t

bracket : {b : Bool} {m : Result Bytes} (indent : ℕ) → Prints b m → Prints b (in_brackets m indent)
bracket indent h = behind _ (before _ h)

mutual
  unfolding dump_statement is_complete

  statement-Prints : (s : Statement) (n : ℕ) → Prints (is_complete s) (dump_statement s n)
  statement-Prints (block b) n = bracket n (lines-Prints b n)
  statement-Prints (define schema name) n = behind _ (schema-Prints schema)
  statement-Prints (emit e) n = behind _ (dump-Prints e)
  statement-Prints (expr_statement e) n = behind _ (before _ (dump-Prints e))
  statement-Prints (for i cond every b) n = behind _ (
      both (init-Prints i n) (
        behind _ (
          both (optional-Prints cond) (
            behind _ (
              both (optional-Prints every)
                (behind _ (before _ (bracket (n + 2) (lines-Prints b (n + 2))))))))))
  statement-Prints (define_tuple name t) n = behind _ (before _ (tuple-Prints t))
  statement-Prints (if_else cond b e) n = behind _ (
      both (dump-Prints cond)
        (behind _ (both (bracket (n + 2) (lines-Prints b (n + 2))) (before _ (else-Prints e n)))))
  statement-Prints (jump j) n = prints
  statement-Prints (insert table e) n = behind _ (dump-Prints e)
  statement-Prints (scan table row b) n = behind _ (bracket n (lines-Prints b n))
  statement-Prints (let_ type name e) n = behind _ (dump-Prints e)
  statement-Prints (transaction isolation b) n =
      behind _ (before _ (bracket (n + 2) (lines-Prints b (n + 2))))

  lines-Prints : (b : Block) (n : ℕ) → Prints (are_complete b) (dump_lines b n)
  lines-Prints Block.nil n = prints
  lines-Prints (Block.cons s b) n =
      behind _ (both (statement-Prints s (n + 2)) (behind _ (lines-Prints b n)))

  init-Prints : (i : Init) (n : ℕ) → Prints (init_complete i) (dump_init i n)
  init-Prints unset_init n = faults
  init-Prints no_init n = prints
  init-Prints (init s) n = statement-Prints s n

  else-Prints : (e : ElseBlock) (n : ℕ) → Prints (else_complete e) (dump_else e n)
  else-Prints no_else n = prints
  else-Prints (else_block b) n = behind _ (bracket (n + 2) (lines-Prints b (n + 2)))

-- A block is printed, at any indentation, if every array reference in it has a variable for a
-- parent, every `Define` has a schema and no part of the header of a loop is a pointer without a
-- value, and null is dereferenced or such a pointer read if not.
pub dump_block-Prints : (b : Block) (indent : ℕ) → Prints (are_complete b) (dump_block b indent)
unfolding dump_block
dump_block-Prints b indent = bracket indent (lines-Prints b indent)
