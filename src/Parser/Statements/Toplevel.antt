-- ===== src/Parser/Statements/Toplevel.antt =====
-- The loop of `parse` (src/reir/exec/parser.cpp), and the closing braces at which
-- `parse_statement` returns a null pointer and reads nothing.
use reir.Prelude.{
  ℕ, zero, suc, ◌+◌, ◌*◌, ◌≤◌, ◌<◌, ◌≡◌, ◌↔◌, ◌⊎◌, inl, inr, refl, arith, true, false, Option, [],
  ◌∷◌, length, Bytes, Bool-cases, Result, ok, throw, diverge, bind, Runs, returns, raises,
  Runs-bind, Runs-ne-diverge,
}
use reir.Token.{TokenType, Token, same}
use reir.Tokenize.{tokenize}
use reir.Ast.{Statement, Block}
use reir.Parser.Stream.{Tokens, get, has_next}
use reir.Parser.Statements.{prepend, parse_statement, parse, parse_program, parse_start, start_of}
use reir.Parser.Statements.Fuel.{begins_close, parse_statement-Progress}

-- Behind some statements the tokens go on with a closing brace.
pub data StrayBrace (d : ℕ) : Tokens → Type 0 where
  brace : {ts : Tokens} → begins_close ts ≡ true → StrayBrace d ts
  behind :
      {ts rest : Tokens} {s : Option Statement}
      → begins_close ts ≡ false
      → 0 < length ts
      → parse_statement d ts ≡ ok (s, rest)
      → StrayBrace d rest
      → StrayBrace d ts

start_of-close :
    (t : TokenType)
    → same t TokenType.close_brace ≡ true
    → start_of t ≡ start_of TokenType.close_brace
unfolding start_of same
start_of-close TokenType.close_brace h = refl
start_of-close t h = ground arith

-- A closing brace is left where it is.
parse_statement-close :
    (d : ℕ) (ts : Tokens)
    → begins_close ts ≡ true
    → parse_statement (suc d) ts ≡ ok (Option.none, ts)
unfolding parse_statement has_next get
parse_statement-close d [] h = cc
parse_statement-close d (t ∷ ts) h =
    rw (start_of-close t.type h) (unfold start_of parse_start in refl)

parse_program-close :
    (f d : ℕ) (ts : Tokens) → begins_close ts ≡ true → parse_program f d ts ≡ diverge
unfolding parse_program
parse_program-close zero d ts h = refl
parse_program-close (suc f) d [] h = cc
parse_program-close (suc f) zero (t ∷ ts) h = unfold parse_statement in refl
parse_program-close (suc f) (suc d) (t ∷ ts) h =
    rw (parse_statement-close d (t ∷ ts) h) (rw (parse_program-close f (suc d) (t ∷ ts) h))

-- A stray closing brace keeps the loop running for ever, whatever the fuel.
pub StrayBrace-diverge : (d f : ℕ) {ts : Tokens} → StrayBrace d ts → parse_program f d ts ≡ diverge
unfolding parse_program
StrayBrace-diverge d f (brace {ts} h) = parse_program-close f d ts h
StrayBrace-diverge d zero (behind h pos e later) = refl
StrayBrace-diverge d (suc f) (behind {ts = []} h pos e later) = absurd (omega arith)
StrayBrace-diverge d (suc f) (behind {ts = t ∷ ts} h pos e later) =
    rw (e, StrayBrace-diverge d f later)

-- The loop ends, or has a stray brace before it.
abbrev EndsOrStray : ℕ → ℕ → Tokens → Type 0
EndsOrStray f d ts = Runs (λ _. Unit {0}) (parse_program f d ts) ⊎ StrayBrace d ts

prepend-Runs :
    {m : Result Block} (s : Option Statement)
    → Runs (λ _. Unit {0}) m
    → Runs (λ _. Unit {0}) (bind m λ b. ok (prepend s b))
prepend-Runs s h = Runs-bind h λ _ _. returns tt

round-ends :
    (f d : ℕ) (t : Token) (ts : Tokens) (m : Result (Option Statement × Tokens))
    → begins_close (t ∷ ts) ≡ false
    → parse_statement d (t ∷ ts) ≡ m
    → Runs
        (λ r.
          (length r.1 ≤ length (t ∷ ts))
          × (begins_close (t ∷ ts) ≡ false → length r.1 < length (t ∷ ts)))
        m
    → ((rest : Tokens) → length rest < length (t ∷ ts) → EndsOrStray f d rest)
    → EndsOrStray (suc f) d (t ∷ ts)
unfolding parse_program
round-ends f d t ts (ok (s, rest)) open_ e (returns (_, less)) later =
    elim (later rest (less open_)) [
      | inl ends ↦ inl (rw e (prepend-Runs s ends))
      | inr stray ↦ inr (behind open_ (omega arith) e stray)
    ]
round-ends f d t ts (throw _) open_ e raises later = inl (rw e raises)
round-ends f d t ts _ open_ e h later = elim h [ ]

-- With enough fuel for each statement and for their number, the loop of `parse` returns or throws,
-- unless it meets a stray closing brace.
pub parse_program-ends :
    (f d : ℕ) (ts : Tokens) → length ts < f → 3 * length ts + 1 < d → EndsOrStray f d ts
parse_program-ends zero d ts h k = absurd (omega arith)
parse_program-ends (suc f) d [] h k = inl (unfold parse_program in returns tt)
parse_program-ends (suc f) d (t ∷ ts) h k = elim (Bool-cases (begins_close (t ∷ ts))) [
  | inl stray ↦ inr (brace stray)
  | inr open_ ↦
      round-ends f d t ts (parse_statement d (t ∷ ts)) open_ refl
        (parse_statement-Progress d (t ∷ ts) k (omega arith))
        (λ rest less. parse_program-ends f d rest (omega arith) (omega arith))
]

-- Given that fuel, the loop runs for ever exactly when it meets a stray closing brace.
parse_program-diverge_iff :
    (f d : ℕ) (ts : Tokens)
    → length ts < f
    → 3 * length ts + 1 < d
    → (parse_program f d ts ≡ diverge) ↔ StrayBrace d ts
parse_program-diverge_iff f d ts h k =
    (to_stray (parse_program-ends f d ts h k), StrayBrace-diverge d f)
  where
    to_stray : EndsOrStray f d ts → parse_program f d ts ≡ diverge → StrayBrace d ts
    to_stray (inl ends) e = absurd (Runs-ne-diverge ends e)
    to_stray (inr stray) e = stray

-- With fuel above three times the tokens of the code and one, `parse` runs for ever exactly when
-- the tokens go on with a closing brace behind some statements.
pub parse-diverge_iff :
    (f : ℕ) (code : Bytes) (ts : Tokens)
    → tokenize code ≡ ok ts
    → 3 * length ts + 1 < f
    → (parse f code ≡ diverge) ↔ StrayBrace f ts
unfolding parse
parse-diverge_iff f code ts h k = rw h (parse_program-diverge_iff f f ts (omega arith) k)
