-- ===== src/Codegen/Engine/Signatures.antt =====
-- Whether the calls of compiled code suit the functions that src/reir/exec/db_interface.cpp and
-- compiler.cpp declare.
use reir.Prelude.{
  ◌≡◌, refl, List, [], ◌∷◌, Option, some, codes, ok, fault, bind, bytes_eq, WhenOk, itself, on_ok,
  on_fault, WhenOk-bind, WhenOk-eq,
}
use reir.Ast.{
  Statement, Block, Init, ElseBlock, block, define, emit, expr_statement, for, define_tuple,
  if_else, jump, insert, scan, let_, transaction, unset_init, no_init, init, no_else, else_block,
}
use reir.Codegen.Types.{LlvmType, Function, TypeTable, required, put, int64}
use reir.Codegen.Engine.{
  Functions, int8_ptr, int64_ptr, cursor_type, declare, library_functions, define_functions,
  init_functions, Calls, Emission, create_call, Request, begin_txn, precommit_txn, cursor_next,
  is_valid_cursor, cursor_destroy, copy_key, copy_value, insert_record, get_cursor, request,
  requests, emit_calls, insert_calls, scan_calls, transaction_calls, statement_calls, block_calls,
  init_calls, else_calls,
}

-- The arguments of a call have the types of the parameters.
abbrev pub AllTyped : Calls → Type 0
AllTyped [] = Unit
AllTyped (c ∷ cs) = (c.arguments ≡ c.callee.parameters) × AllTyped cs

-- If the calls are emitted, they suit their functions, as those before do.
abbrev pub Suits : Emission → Type 0
Suits f = (c : Calls) → AllTyped c → WhenOk AllTyped (f c)

-- What a request is given has the types that the engine wants.
abbrev IsProper : Request → Type 0
IsProper (cursor_next c) = c ≡ int64_ptr
IsProper (is_valid_cursor c) = c ≡ int64_ptr
IsProper (cursor_destroy c) = c ≡ int64_ptr
IsProper (copy_key c b) = (c ≡ int64_ptr) × (b ≡ int8_ptr)
IsProper (copy_value c b) = (c ≡ int64_ptr) × (b ≡ int8_ptr)
IsProper (insert_record k l v n) = (k ≡ int8_ptr) × (l ≡ int64) × (v ≡ int8_ptr) × (n ≡ int64)
IsProper (get_cursor a k b l) = (a ≡ int8_ptr) × (k ≡ int64) × (b ≡ int8_ptr) × (l ≡ int64)
IsProper _ = Unit

Suits-bind : (f g : Emission) → Suits f → Suits g → Suits (λ c. bind (f c) g)
Suits-bind f g hf hg c t = WhenOk-bind (hf c t) λ c₁ t₁. hg c₁ t₁

Suits-found :
    (o : Option Function) (f : Function) (arguments : List LlvmType)
    → o ≡ some f
    → arguments ≡ f.parameters
    → Suits (create_call o arguments)
unfolding create_call
Suits-found o f arguments e p c t = rw (e, create_call) (on_ok (p, t))

-- The functions that are declared before the code is generated.
abbrev declared : LlvmType → Functions → Functions
declared t m = declare (library_functions t) (define_functions m)

module _ (string_type : LlvmType) (m : Functions) where
  abbrev all : Functions
  all = declared string_type m

  request-Suits : (r : Request) → IsProper r → Suits (request all r)
  unfolding request define_functions put bytes_eq
  request-Suits begin_txn p = Suits-found _ _ _ refl refl
  request-Suits precommit_txn p = Suits-found _ _ _ refl refl
  request-Suits (cursor_next c) p = Suits-found _ _ _ refl (rw p refl)
  request-Suits (is_valid_cursor c) p = Suits-found _ _ _ refl (rw p refl)
  request-Suits (cursor_destroy c) p = Suits-found _ _ _ refl (rw p refl)
  request-Suits (copy_key c b) (p, q) = Suits-found _ _ _ refl (rw (p, q) refl)
  request-Suits (copy_value c b) (p, q) = Suits-found _ _ _ refl (rw (p, q) refl)
  request-Suits (insert_record k l v n) (p, q, r, t) = Suits-found _ _ _ refl (rw (p, q, r, t) refl)
  request-Suits (get_cursor a k b l) (p, q, r, t) = Suits-found _ _ _ refl (rw (p, q, r, t) refl)

  -- A cursor has the type that the functions on cursors take.
  cursor-IsProper : WhenOk (λ t. t ≡ int64_ptr) (cursor_type (all (codes "__get_cursor")))
  unfolding cursor_type define_functions put bytes_eq
  cursor-IsProper = on_ok refl

  abbrev AllProper : List Request → Type 0
  AllProper [] = Unit
  AllProper (r ∷ rs) = IsProper r × AllProper rs

  requests-Suits : (rs : List Request) → AllProper rs → Suits (requests all rs)
  unfolding requests
  requests-Suits [] p c t = on_ok t
  requests-Suits (r ∷ rs) (p, q) c t =
      Suits-bind (request all r) (requests all rs) (request-Suits r p) (requests-Suits rs q) c t

  emit-Suits : Suits (emit_calls all)
  unfolding emit_calls define_functions put bytes_eq
  emit-Suits = Suits-found _ _ _ refl refl

  scan-Suits : (blk : Emission) → Suits blk → Suits (scan_calls all blk)
  unfolding scan_calls
  scan-Suits blk h c t =
      WhenOk-bind
        (requests-Suits (get_cursor int8_ptr int64 int8_ptr int64 ∷ [])
          ((refl, refl, refl, refl), tt) c t)
        λ c₁ t₁. WhenOk-bind cursor-IsProper λ cursor p.
          WhenOk-bind
            (requests-Suits
              (is_valid_cursor cursor ∷ copy_key cursor int8_ptr ∷ copy_value cursor int8_ptr ∷ [])
              (p, ((p, refl), ((p, refl), tt))) c₁ t₁)
            λ c₂ t₂. WhenOk-bind (h c₂ t₂) λ c₃ t₃.
              requests-Suits (cursor_next cursor ∷ cursor_destroy cursor ∷ []) (p, (p, tt)) c₃ t₃

  transaction-Suits : (blk : Emission) → Suits blk → Suits (transaction_calls all blk)
  unfolding transaction_calls
  transaction-Suits blk h =
      Suits-bind (requests all (begin_txn ∷ []))
        (λ c. bind (blk c) (requests all (precommit_txn ∷ [])))
        (requests-Suits (begin_txn ∷ []) (tt, tt))
        (Suits-bind blk (requests all (precommit_txn ∷ [])) h
          (requests-Suits (precommit_txn ∷ []) (tt, tt)))

  insert-Suits : Suits (insert_calls all)
  unfolding insert_calls
  insert-Suits =
      requests-Suits (insert_record int8_ptr int64 int8_ptr int64 ∷ [])
        ((refl, refl, refl, refl), tt)

  mutual
    unfolding statement_calls

    statement-Suits : (s : Statement) → Suits (statement_calls all s)
    statement-Suits (block b) c t = block-Suits b c t
    statement-Suits (define schema name) c t = on_ok t
    statement-Suits (emit e) c t = emit-Suits c t
    statement-Suits (expr_statement e) c t = on_ok t
    statement-Suits (for i cond every b) c t =
        Suits-bind (init_calls all i) (block_calls all b) (init-Suits i) (block-Suits b) c t
    statement-Suits (define_tuple name type) c t = on_ok t
    statement-Suits (if_else cond b e) c t =
        Suits-bind (block_calls all b) (else_calls all e) (block-Suits b) (else-Suits e) c t
    statement-Suits (jump j) c t = on_ok t
    statement-Suits (insert table e) c t = insert-Suits c t
    statement-Suits (scan table row b) c t = scan-Suits (block_calls all b) (block-Suits b) c t
    statement-Suits (let_ type name e) c t = on_ok t
    statement-Suits (transaction isolation b) c t =
        transaction-Suits (block_calls all b) (block-Suits b) c t

    block-Suits : (b : Block) → Suits (block_calls all b)
    block-Suits Block.nil c t = on_ok t
    block-Suits (Block.cons s b) c t =
        Suits-bind (statement_calls all s) (block_calls all b) (statement-Suits s) (block-Suits b) c
          t

    init-Suits : (i : Init) → Suits (init_calls all i)
    init-Suits unset_init c t = on_fault
    init-Suits no_init c t = on_ok t
    init-Suits (init s) c t = statement-Suits s c t

    else-Suits : (e : ElseBlock) → Suits (else_calls all e)
    else-Suits no_else c t = on_ok t
    else-Suits (else_block b) c t = block-Suits b c t

IsDeclared :
    (types : TypeTable) (m : Functions)
    → WhenOk
        (λ m'. (t : LlvmType) × (m' ≡ declared t m))
        (init_functions types (define_functions m))
unfolding init_functions
IsDeclared types m =
    WhenOk-bind (itself (required fault (types (codes "string")))) λ t e. on_ok (t, refl)

-- Once the functions of the engine and then those of the compiler are declared, in whatever
-- table, the calls that a block of statements makes of the engine, and for its emitted rows, if
-- they are emitted, have arguments of the types that the functions take.
pub block_calls-AllTyped :
    (types : TypeTable) (m m' : Functions) (b : Block)
    → init_functions types (define_functions m) ≡ ok m'
    → WhenOk AllTyped (block_calls m' b [])
block_calls-AllTyped types m m' b h =
    let (t, e) = WhenOk-eq (IsDeclared types m) h in rw e (block-Suits t m b [] tt)
