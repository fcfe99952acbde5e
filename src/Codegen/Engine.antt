-- ===== src/Codegen/Engine.antt =====
-- The functions that compiled code calls: those that src/reir/exec/db_interface.cpp declares for the
-- storage engine, those of `init_types` and `init_functions` in compiler.cpp, and the calls that
-- the statements of ast_statement_codegen.cpp emit through compiler_context.cpp. Kept of a value
-- is its type. The calls in expressions are not here.
pub mod Signatures
use reir.Prelude.{
  Bool, true, false, List, [], ◌∷◌, ◌++◌, Option, none, some, Bytes, codes, Result, ok, fault, bind,
}
use reir.Ast.{
  Statement, Block, Init, ElseBlock, block, define, emit, expr_statement, for, define_tuple,
  if_else, jump, insert, scan, let_, transaction, unset_init, no_init, init, no_else, else_block,
}
use reir.Codegen.Types.{
  LlvmType, int1, int8, int64, void, pointer_to, struct, LlvmTypes, Function, Map, put, TypeTable,
  required,
}

abbrev pub int64_ptr : LlvmType
int64_ptr = pointer_to int64

abbrev pub int8_ptr : LlvmType
int8_ptr = pointer_to int8

abbrev pub function : LlvmType → List LlvmType → Bytes → Function
function t ts n = record { returned = t; parameters = ts; name = n }

abbrev pub Functions : Type 0
Functions = Map Function

-- Entries of the table of functions, made one after another.
unfoldable pub declare : List (Bytes × Function) → Functions → Functions
declare [] m = m
declare ((n, f) ∷ fs) m = declare fs (put m n f)

-- A key and its length, and a value and its length; or two keys with theirs.
abbrev buffers : List LlvmType
buffers = int64_ptr ∷ int8_ptr ∷ int64 ∷ int8_ptr ∷ int64 ∷ []

abbrev engine_functions : List (Bytes × Function)
engine_functions =
    (codes "__begin_xct", function int1 (int64_ptr ∷ []) (codes "begin_xct"))
    ∷ (codes "__precommit_xct", function int1 (int64_ptr ∷ []) (codes "precommit_xct"))
    ∷ (codes "__insert", function int1 buffers (codes "foedus_insert"))
    ∷ (codes "__get_cursor", function int64_ptr buffers (codes "foedus_generate_cursor"))
    ∷ (codes "__cursor_next", function int1 (int64_ptr ∷ []) (codes "foedus_cursor_next"))
    ∷ (codes "__cursor_is_valid", function int1 (int64_ptr ∷ []) (codes "foedus_cursor_is_valid"))
    ∷ (
      codes "__cursor_copy_key",
      function void (int64_ptr ∷ int8_ptr ∷ []) (codes "foedus_cursor_copy_key"),
    )
    ∷ (
      codes "__cursor_copy_value",
      function void (int64_ptr ∷ int8_ptr ∷ []) (codes "foedus_cursor_copy_value"),
    )
    ∷ (codes "__cursor_destroy", function void (int64_ptr ∷ []) (codes "foedus_cursor_destroy"))
    ∷ []

-- `FoedusInterface::define_functions`.
unfoldable pub define_functions : Functions → Functions
unfolding declare
define_functions = declare engine_functions

-- The type that the module has under the name already, if it has one.
unfoldable pub init_types : Option LlvmType → TypeTable → TypeTable
init_types (some t) m = put m (codes "string") t
init_types none m = elim (m (codes "string")) [
  | none ↦
      put m (codes "string") (
        struct (codes "string_type") (LlvmTypes.cons int8_ptr (LlvmTypes.cons int64 LlvmTypes.nil)))
  | some t ↦ m
]

abbrev pub library_functions : LlvmType → List (Bytes × Function)
library_functions string_type =
    (codes "malloc", function int8_ptr (int64 ∷ []) (codes "malloc"))
    ∷ (codes "drop_table", function void (int64_ptr ∷ int64_ptr ∷ []) (codes "drop_table_func"))
    ∷ (codes "print_int", function void (int64 ∷ []) (codes "print_int"))
    ∷ (codes "print_string", function void (pointer_to string_type ∷ []) (codes "print_string"))
    ∷ (codes "rand", function int64 (int64 ∷ int64 ∷ []) (codes "rand_int"))
    ∷ (codes "__emit_func", function void (int64_ptr ∷ int8_ptr ∷ int64 ∷ []) (codes "__emit_func"))
    ∷ []

-- `Compiler::init_functions`; the type of strings is followed.
unfoldable pub init_functions : TypeTable → Functions → Result Functions
unfolding required declare
init_functions types m =
    bind (required fault (types (codes "string"))) λ t. ok (declare (library_functions t) m)

pub record Call : Type 0 where
  pub callee : Function
  pub arguments : List LlvmType

-- The calls so far, the last one first.
abbrev pub Calls : Type 0
Calls = List Call

abbrev pub Emission : Type 0
Emission = Calls → Result Calls

-- `CreateCall` of what stands in the table of functions, which is null where nothing does.
unfoldable pub create_call : Option Function → List LlvmType → Emission
create_call none arguments calls = fault
create_call (some f) arguments calls = ok (record { callee = f; arguments = arguments } ∷ calls)

-- The type of a call of the function.
unfoldable pub cursor_type : Option Function → Result LlvmType
cursor_type none = fault
cursor_type (some f) = ok f.returned

-- The calls that the engine has, with the types of what they are given: those of a cursor have it
-- first. The others are given the argument of the procedure, a pointer of the compiler, first.
pub data Request : Type 0 where
  begin_txn precommit_txn : Request
  cursor_next is_valid_cursor cursor_destroy : LlvmType → Request
  copy_key copy_value : LlvmType → LlvmType → Request
  insert_record get_cursor : LlvmType → LlvmType → LlvmType → LlvmType → Request

module _ (m : Functions) where
  unfoldable pub request : Request → Emission
  unfolding create_call
  request begin_txn = create_call (m (codes "__begin_xct")) (int64_ptr ∷ [])
  request precommit_txn = create_call (m (codes "__precommit_xct")) (int64_ptr ∷ [])
  request (insert_record k l v n) =
      create_call (m (codes "__insert")) (int64_ptr ∷ k ∷ l ∷ v ∷ n ∷ [])
  request (get_cursor a k b l) =
      create_call (m (codes "__get_cursor")) (int64_ptr ∷ a ∷ k ∷ b ∷ l ∷ [])
  request (is_valid_cursor c) = create_call (m (codes "__cursor_is_valid")) (c ∷ [])
  request (copy_key c b) = create_call (m (codes "__cursor_copy_key")) (c ∷ b ∷ [])
  request (cursor_next c) = create_call (m (codes "__cursor_next")) (c ∷ [])
  request (copy_value c b) = create_call (m (codes "__cursor_copy_value")) (c ∷ b ∷ [])
  request (cursor_destroy c) = create_call (m (codes "__cursor_destroy")) (c ∷ [])

  unfoldable pub requests : List Request → Emission
  unfolding request
  requests [] calls = ok calls
  requests (r ∷ rs) calls = bind (request r calls) (requests rs)

  -- An emitted row, which has to be a struct, is given with the context and its size.
  unfoldable pub emit_calls : Emission
  unfolding create_call
  emit_calls = create_call (m (codes "__emit_func")) (int64_ptr ∷ int8_ptr ∷ int64 ∷ [])

  unfoldable pub insert_calls : Emission
  unfolding requests
  insert_calls = requests (insert_record int8_ptr int64 int8_ptr int64 ∷ [])

  -- A cursor is what the call of `__get_cursor` returns.
  unfoldable pub scan_calls : Emission → Emission
  unfolding requests cursor_type
  scan_calls blk calls = bind (requests (get_cursor int8_ptr int64 int8_ptr int64 ∷ []) calls) λ c₁.
      bind (cursor_type (m (codes "__get_cursor"))) λ t.
        bind (requests (is_valid_cursor t ∷ copy_key t int8_ptr ∷ copy_value t int8_ptr ∷ []) c₁)
          λ c₂. bind (blk c₂) (requests (cursor_next t ∷ cursor_destroy t ∷ []))

  unfoldable pub transaction_calls : Emission → Emission
  unfolding requests
  transaction_calls blk calls =
      bind (requests (begin_txn ∷ []) calls) λ c. bind (blk c) (requests (precommit_txn ∷ []))

  unfoldable mutual
    unfolding emit_calls insert_calls scan_calls transaction_calls

    pub statement_calls : Statement → Calls → Result Calls
    statement_calls (block b) c = block_calls b c
    statement_calls (define schema name) c = ok c
    statement_calls (emit e) c = emit_calls c
    statement_calls (expr_statement e) c = ok c
    statement_calls (for i cond every b) c = bind (init_calls i c) (block_calls b)
    statement_calls (define_tuple name t) c = ok c
    statement_calls (if_else cond b e) c = bind (block_calls b c) (else_calls e)
    statement_calls (jump j) c = ok c
    statement_calls (insert table e) c = insert_calls c
    statement_calls (scan table row b) c = scan_calls (block_calls b) c
    statement_calls (let_ type name e) c = ok c
    statement_calls (transaction isolation b) c = transaction_calls (block_calls b) c

    pub block_calls : Block → Calls → Result Calls
    block_calls Block.nil c = ok c
    block_calls (Block.cons s b) c = bind (statement_calls s c) (block_calls b)

    pub init_calls : Init → Calls → Result Calls
    init_calls unset_init c = fault
    init_calls no_init c = ok c
    init_calls (init s) c = statement_calls s c

    pub else_calls : ElseBlock → Calls → Result Calls
    else_calls no_else c = ok c
    else_calls (else_block b) c = block_calls b c
