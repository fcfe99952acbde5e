-- ===== src/Lib.antt =====
-- A model of REIR, a small language for transactions over tables (its intermediate representation is
-- described in doc/IntermediateRepresentation.md), and of the schemas and values it stores.
--
-- A program is a text. `tokenize` (src/reir/exec/tokenize.hpp) cuts it into the tokens of
-- src/reir/exec/token.hpp; `parse` (src/reir/exec/parser.cpp) reads statements from them, with the
-- constructors in ast_statement_parser.cpp, ast_expression_parser.cpp and ast_node_parser.cpp, into
-- the tree of ast_node.hpp, ast_expression.hpp and ast_statement.hpp. The methods `analyze` of the
-- tree give a type to each expression, and those of ast_statement_codegen.cpp and
-- ast_expression_codegen.cpp generate its code. Tables have schemas (src/reir/db), which the catalogue
-- keeps as texts in a LevelDB, and whose tuples are encoded into keys and values.
--
-- Files:
--   Prelude    what the modules share: lists over native numbers, Boolean tests, the outcomes of a
--              call (a value, an exception, an abort, an access out of bounds, and no end within the
--              fuel), and decimal numbers, printed and read as std::stoi and std::stoll do
--   Token      token.hpp; Token/Reserved on the two searches of the reserved words
--   Tokenize   tokenize.hpp, a function for each branch of the loop; Tokenize/Images on the bytes
--              of the tokens, Tokenize/Total on aborts
--   Ast        the data of the tree
--   Parser     Stream is TokenStream, as the class and as the list of the tokens left, with View
--              between them; Types, Expressions and Statements are the three parsers. The constructor
--              of a node that reads tokens is a parser of that node. Under each, Fuel is about
--              termination; the Render of Expressions and of Statements prints, and RoundTrip
--              reads back, with what the files beside it say of each form
--   Db         Memory is the buffers behind a char*; Value, MaybeValue, AttrType, Attribute, Schema
--              and MetaData are the classes of src/reir/db, with their codecs and texts
--   Dump       the names of operators and types, and the printers of the nodes, in ast_node.hpp,
--              ast_expression.hpp and ast_statement.hpp, with util/blank.hpp; Dump/Statements is
--              those of the statements
--   Analyze    operate and TupleType::analyze of ast_node.cpp, with rules in Operate; Expressions and
--              Statements are the analyze methods, a function for each class of nodes, on the tables of
--              compiler_context.hpp. Rules has the typing rules of expressions, and Scripts says which
--              statements the theorems on runs are about
--   Codegen    ast_statement_codegen.cpp and ast_expression_codegen.cpp: Flow is the blocks and
--              branches, with the loops of compiler_context.hpp, a function for each class of nodes;
--              Rows is the layout of rows in keys and values, and the bounds of a scan; Types is
--              get_type, and Stack the places that alloca_stack takes; Engine is the functions of
--              db_interface.cpp and compiler.cpp and the calls of them; Compile is the passes of
--              compiler.cpp, one after another
--   Execute    executor.cpp and reir_context.cpp, from the text of a program to what it prints
--   Output     the rows that a program emits, in compiler_context.hpp and compiler.cpp
--   Equality   equals of the types of ast_node.hpp
--   Traverse   the methods that visit nodes, each_statement and each_value
--   Slice      util/slice.hpp
--   Examples   runs on concrete inputs
--
-- A byte string stands for std::string, and for util::slice outside Slice, which has the class with its
-- pointer. A type that the analysis has filled in is not changed again, and is a value; a pointer to a
-- type that may be null is an Option. The constructor of a loop leaves the pointers to the parts of its
-- header that are absent without a value; they are told from null, and to read one is undefined, as it
-- is to follow null. A row or array literal is entered in the table of types under
-- its address, a text that is a parameter: the address of the literal with the given number, in the
-- order of the analysis. Integers of a fixed width are their bit patterns, reduced where the source
-- can overflow. The sharing of a `pimpl_` between copies of a value, and memory management, are left
-- out.
--
-- Recursion of the parsers is on fuel, since what a call leaves of the tokens is no structural part of
-- them: one more than the tokens is enough for a type, three times the tokens and one for an
-- expression, and one more for a statement. One more than the length is enough for `split` of a slice
-- if the delimiter is not empty. The loop of `parse` may run for ever, and the fuel of the
-- model then always runs out.
--
-- Parameters: Codegen.Flow is given the names of the variables that have a place on the stack, of the
-- functions, and of the tables that have a schema; Codegen.Compile gives it those of the passes
-- before. Which keys a cursor of FOEDUS comes to is a parameter of Rows/Range, with its documented
-- range as a hypothesis. What LLVM knows of types
-- (whether two are one, their text, the bits of a primitive one) and the types that the analysis
-- leaves in the nodes are parameters of Types, Stack and Output. LevelDB is a type with a put and a
-- get; the theorems that need it suppose that a get returns what was put under the key, or that a put
-- leaves the other keys.
--
-- Not modelled: the values of LLVM, its set-up and optimizer, and the run of what it compiles
-- (compiler.cpp, compiler_context.cpp, llvm_util.cpp), the C functions that compiled code calls
-- (compiler.cpp, src/reir/engine), storage.cpp, which is not built, and
-- util/slide.hpp, which nothing includes.
pub mod Prelude
pub mod Token
pub mod Tokenize
pub mod Ast
pub mod Parser
pub mod Db
pub mod Analyze
pub mod Dump
pub mod Slice
pub mod Equality
pub mod Traverse
pub mod Codegen
pub mod Output
pub mod Execute
pub mod Examples
