-- ===== src/Ast.antt =====
-- The syntax tree, src/reir/exec/ast_node.hpp, ast_expression.hpp and ast_statement.hpp: what the
-- parser fills in. A node that owns its children through pointers is a value here.
use reir.Prelude.{ℕ, List, Option, Bytes}

pub data TypeId : Type 0 where
  none_type integer double string date bool function pointer array tuple : TypeId

pub data Operators : Type 0 where
  plus minus multiple division equal modulo lessthan lessequal morethan moreequal notequal :
      Operators
  conditional_and conditional_or none : Operators

-- What the parser fills in. A property is the `uint32_t` of an `AttrProperty`.
pub record TupleType : Type 0 where
  pub type_names : List Bytes
  pub names : List Bytes
  pub props : List ℕ
  pub params : List (Option ℕ)

-- `PrimaryType` and `ArrayType` hold a `type_`; that of an array is the type of its elements. A tuple
-- has its `type_` and its `types_`, pointers that are empty until the analysis and may be null.
mutual
  pub data NodeType : Type 0 where
    primary_type : TypeId → NodeType
    array_type : TypeId → NodeType
    tuple_type : TypeId → TupleType → Types → NodeType

  pub data Types : Type 0 where
    nil : Types
    cons : NodeType → Types → Types
    cons_null : Types → Types

-- The parser makes a primary expression of a number or a string, and the parent of an array
-- reference is a variable, or the null pointer that `dynamic_cast` returns.
mutual
  pub data Expression : Type 0 where
    number : ℕ → Expression
    string : Bytes → Expression
    binary : Expression → Operators → Expression → Expression
    pointer_of : Expression → Expression
    row_literal : Expressions → Expression
    array_literal : Expressions → Expression
    variable_reference : Bytes → Expression
    function_call : Expression → Expressions → Expression
    array_reference : Option Bytes → Expression → Expression
    member_reference : Expression → Bytes → Expression
    assign : Expression → Expression → Expression

  pub data Expressions : Type 0 where
    nil : Expressions
    cons : Expression → Expressions → Expressions

pub data JumpType : Type 0 where
  continue_jump break_jump : JumpType

-- A pointer to an expression in the header of a `For`. The constructor that reads tokens leaves it
-- without a value in front of a semicolon, and to read it then is undefined; the constructor that is
-- given the parts may be given null.
pub data Part : Type 0 where
  unset_part no_part : Part
  part : Expression → Part

-- A pointer that may be null is an `Option`. The pointer to the first part of a `For` may have no value
-- too.
mutual
  pub data Statement : Type 0 where
    block : Block → Statement
    define : Option TupleType → Bytes → Statement
    emit : Expression → Statement
    expr_statement : Expression → Statement
    for : Init → Part → Part → Block → Statement
    define_tuple : Bytes → TupleType → Statement
    if_else : Expression → Block → ElseBlock → Statement
    jump : JumpType → Statement
    insert : Bytes → Expression → Statement
    scan : Bytes → Bytes → Block → Statement
    let_ : Option NodeType → Bytes → Expression → Statement
    transaction : Bytes → Block → Statement

  pub data Block : Type 0 where
    nil : Block
    cons : Statement → Block → Block

  pub data Init : Type 0 where
    unset_init no_init : Init
    init : Statement → Init

  pub data ElseBlock : Type 0 where
    no_else : ElseBlock
    else_block : Block → ElseBlock
