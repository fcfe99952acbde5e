-- ===== src/Codegen/Types.antt =====
-- `get_type` of the expressions of src/reir/exec/ast_expression_codegen.cpp: the types of LLVM that the
-- code generator asks for, as the calls that make them. Whether two of them are one, and how a
-- type is printed, LLVM says, and the types that the analysis has left in the nodes are the fields of
-- these: a `Setting` holds both. A null pointer to a type is followed where it is found.
use reir.Prelude.{
  ℕ, suc, Bool, true, false, List, [], ◌∷◌, ◌++◌, Option, none, some, Bytes, bytes_eq, codes,
  if◌then◌else◌, Result, ok, throw, fault, bind, undefined_variable, undefined_function,
  different_types, unknown_type, Error, empty_array_literal,
}
use reir.Ast.{
  TypeId, NodeType, TupleType, Types, Expression, Expressions, number, string, binary, pointer_of,
  row_literal, array_literal, variable_reference, function_call, array_reference, member_reference,
  assign,
}
use reir.Parser.Types.{type_id}

mutual
  pub data LlvmType : Type 0 where
    int1 int8 int32 int64 double void : LlvmType
    pointer_to : LlvmType → LlvmType
    array_of : LlvmType → ℕ → LlvmType
    struct : Bytes → LlvmTypes → LlvmType

  pub data LlvmTypes : Type 0 where
    nil : LlvmTypes
    cons : LlvmType → LlvmTypes → LlvmTypes

-- `llvm::Function::Create`: the type of what it returns, of what it takes, and the name that it is
-- linked by.
pub record Function : Type 0 where
  pub returned : LlvmType
  pub parameters : List LlvmType
  pub name : Bytes

abbrev pub Map : Type 0 → Type 0
Map A = Bytes → Option A

-- `m[key] = value`.
unfoldable pub put : {A : Type 0} → Map A → Bytes → A → Map A
put m k v j = if bytes_eq j k then some v else m j

unfoldable pub is_there : {A : Type 0} → Option A → Bool
is_there none = false
is_there (some a) = true

unfoldable pub required : {A : Type 0} → Result A → Option A → Result A
required otherwise none = otherwise
required otherwise (some a) = ok a

-- `type_table_`, which grows with each row literal of a new signature.
abbrev pub TypeTable : Type 0
TypeTable = Map LlvmType

-- A type, and the table behind it.
abbrev pub Typing : Type 0
Typing = TypeTable → Result (LlvmType × TypeTable)

abbrev pub Typings : Type 0
Typings = TypeTable → Result (List LlvmType × TypeTable)

unfoldable pub convert_type : TypeId → Typing
unfolding required
convert_type TypeId.integer t = ok (int64, t)
convert_type TypeId.string t = bind (required fault (t (codes "string"))) λ s. ok (s, t)
convert_type TypeId.double t = ok (double, t)
convert_type _ t = throw unknown_type

unfoldable pub element_type : LlvmType → Result LlvmType
element_type (array_of t n) = ok t
element_type _ = fault

unfoldable pub llvm_types : List LlvmType → LlvmTypes
llvm_types [] = LlvmTypes.nil
llvm_types (t ∷ ts) = LlvmTypes.cons t (llvm_types ts)

-- The result of a variable that is called.
unfoldable pub returned_type : Map Function → Expression → Result LlvmType
unfolding required
returned_type functions (variable_reference n) =
    bind (required (throw undefined_function) (functions n)) λ f. ok f.returned
returned_type functions _ = fault

unfoldable pub member_type : Option NodeType → Typing
unfolding convert_type
member_type none t = fault
member_type (some n) t = convert_type (type_id n) t

-- Of a table, the entry under a name.
unfoldable pub entry_of : Error → Map LlvmType → Bytes → Result LlvmType
unfolding required
entry_of e m n = required (throw e) (m n)

unfoldable pub keep : Result LlvmType → Typing
keep m t = bind m λ s. ok (s, t)

unfoldable pub parent_type : Map LlvmType → Option Bytes → Result LlvmType
unfolding entry_of element_type
parent_type variables none = fault
parent_type variables (some n) = bind (entry_of undefined_variable variables n) element_type

-- What the code generator is given: the comparison of two types of LLVM, as pointers, and their
-- text; the `type_` of a member reference and the `types_` of a tuple type, after the analysis; and
-- the table of functions, which it only reads.
pub record Setting : Type 0 where
  pub same_type : LlvmType → LlvmType → Bool
  pub print : LlvmType → Bytes
  pub member_types : Expression → Option NodeType
  pub columns : TupleType → Types
  pub functions : Map Function

unfoldable pub count : Expressions → ℕ
count Expressions.nil = 0
count (Expressions.cons e es) = suc (count es)

module _ (g : Setting) where
  unfoldable pub printed : List LlvmType → Bytes
  printed [] = codes "}"
  printed (t ∷ ts) = g.print t ++ (b',' ∷ printed ts)

  -- `get_type_signature`.
  unfoldable pub get_type_signature : List LlvmType → Bytes
  unfolding printed
  get_type_signature ts = b'{' ∷ printed ts

  unfoldable pub new_struct : Bytes → List LlvmType × TypeTable → LlvmType × TypeTable
  unfolding llvm_types put
  new_struct sign (ts, t) = let s = struct sign (llvm_types ts) in (s, put t sign s)

  unfoldable pub row_type : Typings → Typing
  unfolding get_type_signature new_struct
  row_type elements t = bind (elements t) λ (ts, t₁).
      let sign = get_type_signature ts in
      elim (t₁ sign) [ some s ↦ ok (s, t₁) | none ↦ bind (elements t₁) λ r. ok (new_struct sign r) ]

  unfoldable pub binary_type : Typing → Typing → Typing
  binary_type left right t = bind (right t) λ (r, t₁).
      bind (left t₁)
        λ (l, t₂). let again = right t₂ in if g.same_type r l then again else throw different_types

  module _ (variables : Map LlvmType) where
    unfoldable mutual
      unfolding convert_type keep entry_of returned_type parent_type member_type binary_type
          row_type

      pub get_type : Expression → TypeTable → Result (LlvmType × TypeTable)
      get_type (number n) t = ok (int64, t)
      get_type (string s) t = convert_type TypeId.string t
      get_type (binary l op r) t = binary_type (get_type l) (get_type r) t
      get_type (pointer_of e) t = bind (get_type e t) λ (s, t₁). ok (pointer_to s, t₁)
      get_type (row_literal es) t = row_type (get_types es) t
      get_type (array_literal Expressions.nil) t = throw empty_array_literal
      get_type (array_literal (Expressions.cons e es)) t =
          bind (get_type e t) λ (s, t₁). ok (array_of s (suc (count es)), t₁)
      get_type (variable_reference n) t = keep (entry_of undefined_variable variables n) t
      get_type (function_call p args) t = keep (returned_type g.functions p) t
      get_type (array_reference n idx) t = keep (parent_type variables n) t
      get_type (member_reference p n) t = member_type (g.member_types (member_reference p n)) t
      get_type (assign e v) t = get_type v t

      pub get_types : Expressions → TypeTable → Result (List LlvmType × TypeTable)
      get_types Expressions.nil t = ok ([], t)
      get_types (Expressions.cons e es) t =
          bind (get_type e t) λ (s, t₁). bind (get_types es t₁) λ (ss, t₂). ok (s ∷ ss, t₂)
