-- ===== src/Parser/Types/Fuel.antt =====
-- Fuel and progress of the parser of types, src/reir/exec/ast_node_parser.cpp.
use reir.Prelude.{
  ℕ, zero, suc, ◌≤◌, ◌<◌, ◌≡◌, refl, arith, Bool, Bytes, codes, bytes_eq, length, ap, Result, Runs,
  returns, raises, Runs-bind, Runs-weaken, Runs-if,
}
use Prim.Native.String.{String}
use reir.Prelude.Decimal.{stoi-Runs}
use reir.Token.{TokenType, same}
use reir.Ast.{TupleType, NodeType}
use reir.Parser.Stream.{Tokens, Parser}
use reir.Parser.Stream.Progress.{
  AtMost, Fewer, get-Runs, next-Runs, expect_token-Runs, skip_token-Runs, take_token-Runs, if-Runs,
}
use reir.Parser.Types.{
  lift, type_parse, property, parse_primary_type, parse_properties, parse_param, parse_columns,
  parse_tuple_type, parse_array_type, TypeStart, begin_array, begin_tuple, begin_primary,
  type_start, parse_type_start, parse_type, parse_row_type,
}

pub lift-Runs :
    {A : Type 0} {m : Result A} (ts : Tokens)
    → Runs (λ _. Unit {0}) m
    → Runs (λ r. r.1 ≡ ts) (lift m ts)
lift-Runs ts (returns _) = returns refl
lift-Runs ts raises = raises

type_parse-Runs : (s : Bytes) → Runs (λ _. Unit {0}) (type_parse s)
unfolding type_parse
type_parse-Runs s = Runs-if (is "int") (returns tt) (
    Runs-if (is "double") (returns tt) (
      Runs-if (is "bool") (returns tt)
        (Runs-if (is "string") (returns tt) (Runs-if (is "date") (returns tt) raises))))
  where
    is : String → Bool
    is t = bytes_eq s (codes t)

property-Runs : (s : Bytes) → Runs (λ _. Unit {0}) (property s)
unfolding property
property-Runs s =
    Runs-if (is "key") (returns tt)
      (Runs-if (is "nullable") (returns tt) (Runs-if (is "unique") (returns tt) raises))
  where
    is : String → Bool
    is t = bytes_eq s (codes t)

parse_primary_type-Fewer : (ts : Tokens) → Fewer (length ts) (parse_primary_type ts)
unfolding parse_primary_type
parse_primary_type-Fewer ts = Runs-bind (expect_token-Runs _ ts) λ (_, ts₁) (e₁, pos).
    Runs-bind (get-Runs ts₁) λ (t, ts₂) (e₂, _).
      Runs-bind (lift-Runs ts₂ (type_parse-Runs t.text)) λ (_, ts₃) e₃.
        Runs-bind (next-Runs ts₃)
          λ (_, ts₄) e₄. returns (omega (arith, ap length e₁, ap length e₂, ap length e₃))

parse_properties-AtMost :
    (f prop : ℕ) (ts : Tokens) → length ts < f → AtMost (length ts) (parse_properties f prop ts)
unfolding parse_properties
parse_properties-AtMost zero prop ts h = absurd (omega arith)
parse_properties-AtMost (suc f) prop ts h = Runs-bind (get-Runs ts) λ (t, ts₁) (e₁, pos).
    if-Runs (same t.type TokenType.identifier) _ _ ts₁
      (λ _. Runs-bind (lift-Runs ts₁ (property-Runs t.text)) λ (_, ts₂) e₂.
        Runs-bind (next-Runs ts₂) λ (_, ts₃) e₃.
          Runs-weaken (parse_properties-AtMost f _ ts₃ (omega (arith, ap length e₁, ap length e₂)))
            λ _ k. omega (arith, ap length e₁, ap length e₂))
      (λ _. returns (omega (arith, ap length e₁)))

parse_param-AtMost : (ts : Tokens) → AtMost (length ts) (parse_param ts)
unfolding parse_param
parse_param-AtMost ts = Runs-bind (get-Runs ts) λ (t, ts₁) (e₁, pos).
    if-Runs (same t.type TokenType.open_paren) _ _ ts₁
      (λ _. Runs-bind (next-Runs ts₁) λ (_, ts₂) e₂.
        Runs-bind (expect_token-Runs _ ts₂) λ (_, ts₃) (e₃, _).
          Runs-bind (get-Runs ts₃) λ (n, ts₄) (e₄, _).
            Runs-bind (lift-Runs ts₄ (stoi-Runs n.text)) λ (_, ts₅) e₅.
              Runs-bind (next-Runs ts₅) λ (_, ts₆) e₆.
                Runs-bind (skip_token-Runs _ ts₆) λ (_, ts₇) e₇.
                  returns (omega (arith, ap length e₁, ap length e₃, ap length e₄, ap length e₅)))
      (λ _. returns (omega (arith, ap length e₁)))

parse_columns-Fewer :
    (f : ℕ) (t : TupleType) (ts : Tokens) → length ts < f → Fewer (length ts) (parse_columns f t ts)
unfolding parse_columns
parse_columns-Fewer zero t ts h = absurd (omega arith)
parse_columns-Fewer (suc f) t ts h = Runs-bind (take_token-Runs ts) λ (_, ts₁) e₁.
    Runs-bind (parse_param-AtMost ts₁) λ (_, ts₂) e₂.
      Runs-bind (skip_token-Runs _ ts₂) λ (_, ts₃) e₃.
        Runs-bind (expect_token-Runs _ ts₃) λ (_, ts₄) (e₄, _).
          Runs-bind (take_token-Runs ts₄) λ (_, ts₅) e₅.
            Runs-bind (parse_properties-AtMost f 0 ts₅ (omega (arith, ap length e₄))) λ (_, ts₆) e₆.
              Runs-bind (get-Runs ts₆) λ (after, ts₇) (e₇, _).
                if-Runs (same after.type TokenType.comma) _ _ ts₇
                  (λ _. Runs-bind (skip_token-Runs _ ts₇) λ (_, ts₈) e₈.
                    Runs-weaken
                      (parse_columns-Fewer f _ ts₈ (omega (arith, ap length e₄, ap length e₇)))
                      λ _ k. omega (arith, ap length e₄, ap length e₇))
                  (λ _. returns (omega (arith, ap length e₄, ap length e₇)))

parse_tuple_type-Fewer :
    (f : ℕ) (ts : Tokens) → length ts ≤ f → Fewer (length ts) (parse_tuple_type f ts)
unfolding parse_tuple_type
parse_tuple_type-Fewer f ts h = Runs-bind (skip_token-Runs _ ts) λ (_, ts₁) e₁.
    Runs-bind (parse_columns-Fewer f _ ts₁ (omega arith))
      λ (_, ts₂) e₂. Runs-bind (skip_token-Runs _ ts₂) λ (_, ts₃) e₃. returns (omega arith)

parse_type_start-Fewer :
    (s : TypeStart) (f : ℕ) (again : Parser NodeType) (ts : Tokens)
    → length ts ≤ f
    → ((us : Tokens) → length us < length ts → Fewer (length us) (again us))
    → Fewer (length ts) (parse_type_start s f again ts)
unfolding parse_type_start parse_array_type
parse_type_start-Fewer begin_array f again ts h again-Fewer =
    Runs-bind (skip_token-Runs _ ts) λ (_, ts₁) e₁.
      Runs-bind (again-Fewer ts₁ (omega arith))
        λ (_, ts₂) e₂. Runs-bind (skip_token-Runs _ ts₂) λ (_, ts₃) e₃. returns (omega arith)
parse_type_start-Fewer begin_tuple f again ts h again-Fewer = parse_tuple_type-Fewer f ts h
parse_type_start-Fewer begin_primary f again ts h again-Fewer = parse_primary_type-Fewer ts

-- With more fuel than tokens, the parser of types returns a type with fewer tokens left, or
-- throws.
pub parse_type-Fewer :
    (f : ℕ) (ts : Tokens) → length ts < f → Runs (λ r. length r.1 < length ts) (parse_type f ts)
unfolding parse_type
parse_type-Fewer zero ts h = absurd (omega arith)
parse_type-Fewer (suc f) ts h = Runs-bind (get-Runs ts) λ (t, ts₁) (e₁, _).
    Runs-weaken
      (parse_type_start-Fewer (type_start t.type) f (parse_type f) ts₁ (omega (arith, ap length e₁))
        (λ us k. parse_type-Fewer f us (omega (arith, ap length e₁))))
      λ _ k. omega (arith, ap length e₁)

pub parse_row_type-Fewer :
    (f : ℕ) (ts : Tokens) → length ts ≤ f → Fewer (length ts) (parse_row_type f ts)
unfolding parse_row_type
parse_row_type-Fewer f ts h = Runs-bind (skip_token-Runs _ ts) λ (_, ts₁) e₁.
    Runs-bind (parse_type-Fewer f ts₁ (omega arith))
      λ (_, ts₂) e₂. Runs-bind (skip_token-Runs _ ts₂) λ (_, ts₃) e₃. returns (omega arith)
