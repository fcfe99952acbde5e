-- ===== src/Analyze/Scripts.antt =====
-- Which statements of src/reir/exec/ast_statement.hpp are analyzed without an access through null and
-- without a failed assertion.
use reir.Prelude.{◌≡◌, true, List, [], ◌∷◌, Option, none, some, Bytes}
use reir.Ast.{
  Part, unset_part, no_part, part, TupleType, NodeType, Types, tuple_type, Statement, Block, Init,
  ElseBlock, block, define, emit, expr_statement, for, define_tuple, if_else, jump, insert, scan,
  let_, transaction, unset_init, no_init, init, no_else, else_block,
}
use reir.Analyze.Statements.{Initializer, from_row, initializer}
use reir.Analyze.Tables.{is_among}
use reir.Analyze.Operands.{IsPlain}

-- As many type names as names, which the parser reads in pairs.
abbrev pub Paired : List Bytes → List Bytes → Type 0
Paired [] [] = Unit
Paired (t ∷ ts) (n ∷ ns) = Paired ts ns
Paired _ _ = ⊥

abbrev pub IsPaired : TupleType → Type 0
IsPaired t = Paired t.type_names t.names

-- A row may have a type, which is a tuple that was not analyzed.
abbrev pub IsRowType : Option NodeType → Type 0
IsRowType none = Unit
IsRowType (some (tuple_type i t Types.nil)) = IsPaired t
IsRowType (some _) = ⊥

abbrev pub IsDeclaration : Initializer → Option NodeType → Type 0
IsDeclaration from_row type = IsRowType type
IsDeclaration _ type = Unit

-- The pointer has a value.
abbrev pub AllPlain : Part → Type 0
AllPlain unset_part = ⊥
AllPlain no_part = Unit
AllPlain (part e) = IsPlain e

-- The types that are declared for sure when a statement has been analyzed, those before it in
-- `names`.
abbrev mutual
  pub declared : Statement → List Bytes → List Bytes
  declared (define schema name) names = name ∷ names
  declared (define_tuple name t) names = name ∷ names
  declared (block b) names = declared_block b names
  declared (for i cond every b) names = declared_block b (declared_init i names)
  declared (if_else cond b e) names = declared_else e (declared_block b names)
  declared (scan table row b) names = declared_block b names
  declared (transaction isolation b) names = declared_block b names
  declared _ names = names

  pub declared_block : Block → List Bytes → List Bytes
  declared_block Block.nil names = names
  declared_block (Block.cons s b) names = declared_block b (declared s names)

  pub declared_init : Init → List Bytes → List Bytes
  declared_init unset_init names = names
  declared_init no_init names = names
  declared_init (init s) names = declared s names

  pub declared_else : ElseBlock → List Bytes → List Bytes
  declared_else no_else names = names
  declared_else (else_block b) names = declared_block b names

-- Plain expressions, definitions with a schema, headers of loops without a pointer that has no value,
-- and scans of tables that are declared before.
abbrev mutual
  pub IsScript : Statement → List Bytes → Type 0
  IsScript (block b) names = IsScriptBlock b names
  IsScript (define none name) names = ⊥
  IsScript (define (some t) name) names = IsPaired t
  IsScript (emit e) names = IsPlain e
  IsScript (expr_statement e) names = IsPlain e
  IsScript (for i cond every b) names =
      IsScriptInit i names
      × AllPlain cond
      × AllPlain every
      × IsScriptBlock b (declared_init i names)
  IsScript (define_tuple name t) names = IsPaired t
  IsScript (if_else cond b e) names =
      IsPlain cond × IsScriptBlock b names × IsScriptElse e (declared_block b names)
  IsScript (jump j) names = Unit
  IsScript (insert table e) names = IsPlain e
  IsScript (scan table row b) names = (is_among names table ≡ true) × IsScriptBlock b names
  IsScript (let_ type name e) names = IsPlain e × IsDeclaration (initializer e) type
  IsScript (transaction isolation b) names = IsScriptBlock b names

  pub IsScriptBlock : Block → List Bytes → Type 0
  IsScriptBlock Block.nil names = Unit
  IsScriptBlock (Block.cons s b) names = IsScript s names × IsScriptBlock b (declared s names)

  pub IsScriptInit : Init → List Bytes → Type 0
  IsScriptInit unset_init names = ⊥
  IsScriptInit no_init names = Unit
  IsScriptInit (init s) names = IsScript s names

  pub IsScriptElse : ElseBlock → List Bytes → Type 0
  IsScriptElse no_else names = Unit
  IsScriptElse (else_block b) names = IsScriptBlock b names
