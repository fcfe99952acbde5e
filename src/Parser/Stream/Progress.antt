-- ===== src/Parser/Stream/Progress.antt =====
-- What the steps of a parser do to the number of tokens that are left.
use reir.Prelude.{
  ℕ, ◌+◌, ◌-◌, ◌≤◌, ◌<◌, ◌≡◌, refl, [], ◌∷◌, arith, if◌then◌else◌, Bool, true, false, length, ap,
  Result, Runs, returns, raises, Runs-bind, Runs-weaken,
}
use reir.Token.{TokenType, same}
use reir.Parser.Stream.{Tokens, Parser, get, next, has_next, expect_token, skip_token, take_token}

-- The call ends, and leaves at most, or fewer than, `n` tokens.
abbrev pub AtMost : ℕ → {A : Type 0} → Result (A × Tokens) → Type 0
AtMost n = Runs λ r. length r.1 ≤ n

abbrev pub Fewer : ℕ → {A : Type 0} → Result (A × Tokens) → Type 0
Fewer n = Runs λ r. length r.1 < n

-- The parser makes progress on inputs shorter than `n`.
abbrev pub Shorter : ℕ → {A : Type 0} → Parser A → Type 0
Shorter n p = (ts : Tokens) → length ts < n → Fewer (length ts) (p ts)

pub get-Runs : (ts : Tokens) → Runs (λ r. (r.1 ≡ ts) × (0 < length ts)) (get ts)
unfolding get
get-Runs [] = raises
get-Runs (t ∷ ts) = returns (refl, omega arith)

pub next-Runs : (ts : Tokens) → Runs (λ r. length r.1 ≡ length ts - 1) (next ts)
unfolding next
next-Runs [] = returns (omega arith)
next-Runs (t ∷ ts) = returns (omega arith)

pub has_next-Runs :
    (ts : Tokens) → Runs (λ r. (r.1 ≡ ts) × (r.0 ≡ true → 0 < length ts)) (has_next ts)
unfolding has_next
has_next-Runs [] = returns (refl, λ h. cc)
has_next-Runs (t ∷ ts) = returns (refl, λ h. omega arith)

-- A test between two parsers, with the outcome of the test at hand in each.
pub if-Runs :
    {A : Type 0} {P : A × Tokens → Type 0} (b : Bool) (p q : Parser A) (ts : Tokens)
    → (b ≡ true → Runs P (p ts))
    → (b ≡ false → Runs P (q ts))
    → Runs P (if◌then◌else◌ {A = Parser A} b p q ts)
if-Runs true p q ts yes_p no_q = yes_p refl
if-Runs false p q ts yes_p no_q = no_q refl

pub expect_token-Runs :
    (want : TokenType) (ts : Tokens)
    → Runs (λ r. (r.1 ≡ ts) × (0 < length ts)) (expect_token want ts)
unfolding expect_token
expect_token-Runs want [] = raises
expect_token-Runs want (t ∷ ts) =
    if-Runs (same t.type want) _ _ (t ∷ ts) (λ _. returns (refl, omega arith)) (λ _. raises)

pub skip_token-Runs :
    (want : TokenType) (ts : Tokens) → Runs (λ r. length r.1 + 1 ≡ length ts) (skip_token want ts)
unfolding skip_token
skip_token-Runs want ts =
    Runs-bind (expect_token-Runs want ts)
      λ (_, ts₁) (e₁, pos). Runs-weaken (next-Runs ts₁) λ _ e₂. omega (arith, ap length e₁)

pub take_token-Runs : (ts : Tokens) → Runs (λ r. length r.1 + 1 ≡ length ts) (take_token ts)
unfolding take_token
take_token-Runs ts = Runs-bind (get-Runs ts) λ (t, ts₁) (e₁, pos).
    Runs-bind (next-Runs ts₁) λ (_, ts₂) e₂. returns (omega (arith, ap length e₁))
