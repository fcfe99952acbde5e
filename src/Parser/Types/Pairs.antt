-- ===== src/Parser/Types/Pairs.antt =====
-- The tuple types that src/reir/exec/ast_node_parser.cpp builds.
use reir.Prelude.{
  ℕ, zero, suc, Bool, true, false, List, [], ◌∷◌, ◌++◌, Bytes, if◌then◌else◌, Result, ok, throw,
  abort, fault, diverge, WhenOk, on_ok, on_throw, on_abort, on_fault, on_diverge, WhenOk-bind,
}
use reir.Token.{TokenType, same}
use reir.Ast.{TupleType, NodeType, Types, tuple_type}
use reir.Parser.Stream.{Tokens, Parser, skip_token, take_token, get, next, expect_token}
use reir.Parser.Types.{
  TypeStart, begin_array, begin_tuple, begin_primary, type_start, add_column, parse_param,
  parse_properties, parse_columns, parse_primary_type, parse_array_type, parse_tuple_type,
  parse_type_start, parse_type, lift, type_parse,
}
use reir.Analyze.Scripts.{Paired, IsPaired}

-- Nothing is said of the result.
anything {ℓ} : {A : Type ℓ} (m : Result A) → WhenOk (λ _. Unit {0}) m
anything (ok a) = on_ok tt
anything (throw e) = on_throw
anything abort = on_abort
anything fault = on_fault
anything diverge = on_diverge

either :
    {A : Type 0} {P : A × Tokens → Type 0} (b : Bool) (p q : Parser A) (ts : Tokens)
    → WhenOk P (p ts)
    → WhenOk P (q ts)
    → WhenOk P (if◌then◌else◌ {A = Parser A} b p q ts)
either true p q ts h k = h
either false p q ts h k = k

Paired-last :
    (types names : List Bytes) (t n : Bytes)
    → Paired types names
    → Paired (types ++ t ∷ []) (names ++ n ∷ [])
Paired-last [] [] t n h = tt
Paired-last [] (m ∷ names) t n h = absurd h
Paired-last (u ∷ types) [] t n h = absurd h
Paired-last (u ∷ types) (m ∷ names) t n h = Paired-last types names t n h

-- A tuple type has a name for each type name, and no types before the analysis.
abbrev pub IsParsed : NodeType × Tokens → Type 0
IsParsed (tuple_type i t Types.nil, ts) = IsPaired t
IsParsed (tuple_type i t _, ts) = ⊥
IsParsed (_, ts) = Unit

columns-IsPaired :
    (f : ℕ) (t : TupleType) (ts : Tokens)
    → IsPaired t
    → WhenOk (λ (u, _). IsPaired u) (parse_columns f t ts)
unfolding parse_columns
columns-IsPaired zero t ts h = on_diverge
columns-IsPaired (suc f) t ts h = WhenOk-bind (anything (take_token ts)) λ (type_name, ts₁) _.
    WhenOk-bind (anything (parse_param ts₁)) λ (param, ts₂) _.
      WhenOk-bind (anything (skip_token TokenType.colon ts₂)) λ (_, ts₃) _.
        WhenOk-bind (anything (expect_token TokenType.identifier ts₃)) λ (_, ts₄) _.
          WhenOk-bind (anything (take_token ts₄)) λ (name, ts₅) _.
            WhenOk-bind (anything (parse_properties f 0 ts₅)) λ (prop, ts₆) _.
              WhenOk-bind (anything (get ts₆)) λ (after, ts₇) _.
                let paired = Paired-last t.type_names t.names type_name.text name.text h in
                either (same after.type TokenType.comma) _ _ ts₇
                  (WhenOk-bind (anything (skip_token TokenType.comma ts₇)) λ (_, ts₈) _.
                    columns-IsPaired f (add_column t type_name.text name.text param prop) ts₈
                      paired)
                  (on_ok paired)

tuple-IsParsed : (f : ℕ) (ts : Tokens) → WhenOk IsParsed (parse_tuple_type f ts)
unfolding parse_tuple_type
tuple-IsParsed f ts = WhenOk-bind (anything (skip_token TokenType.open_brace ts)) λ (_, ts₁) _.
    WhenOk-bind
      (columns-IsPaired f (record { type_names = []; names = []; props = []; params = [] }) ts₁ tt)
      λ (t, ts₂) h.
        WhenOk-bind (anything (skip_token TokenType.close_brace ts₂)) λ (_, ts₃) _. on_ok h

start-IsParsed :
    (s : TypeStart) (f : ℕ) (again : Parser NodeType) (ts : Tokens)
    → WhenOk IsParsed (parse_type_start s f again ts)
unfolding parse_type_start parse_array_type parse_primary_type
start-IsParsed begin_tuple f again ts = tuple-IsParsed f ts
start-IsParsed begin_array f again ts =
    WhenOk-bind (anything (skip_token TokenType.open_bracket ts)) λ (_, ts₁) _.
      WhenOk-bind (anything (again ts₁)) λ (e, ts₂) _.
        WhenOk-bind (anything (skip_token TokenType.close_bracket ts₂)) λ (_, ts₃) _. on_ok tt
start-IsParsed begin_primary f again ts =
    WhenOk-bind (anything (expect_token TokenType.int ts)) λ (_, ts₁) _.
      WhenOk-bind (anything (get ts₁)) λ (t, ts₂) _.
        WhenOk-bind (anything (lift (type_parse t.text) ts₂))
          λ (i, ts₃) _. WhenOk-bind (anything (next ts₃)) λ (_, ts₄) _. on_ok tt

-- If the parser of types returns a tuple type, that has as many type names as names, and no types
-- before the analysis.
pub parse_type-IsParsed : (f : ℕ) (ts : Tokens) → WhenOk IsParsed (parse_type f ts)
unfolding parse_type
parse_type-IsParsed zero ts = on_diverge
parse_type-IsParsed (suc f) ts =
    WhenOk-bind (anything (get ts))
      λ (t, ts₁) _. start-IsParsed (type_start t.type) f (parse_type f) ts₁
