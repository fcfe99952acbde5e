-- ===== src/Codegen/Flow/Endings.antt =====
-- Which blocks of src/reir/exec/ast_statement_codegen.cpp and ast_expression_codegen.cpp end, and how
-- often: where the builder stands between two pieces of code, and how a piece moves it on.
use reir.Prelude.{
  ℕ, suc, ◌+◌, ◌≤◌, ◌<◌, ◌≡◌, ◌≢◌, refl, arith, ◌⊎◌, inl, inr, Bool, true, false, not, ◌&&◌, ◌||◌,
  List, [], ◌∷◌, ◌==◌, if◌then◌else◌, length, length-append, Bool-cases,
}
use reir.Codegen.Flow.{Loop, Terminator, Builder, create, set_insert_point, append}

-- How often a block is ended.
abbrev pub ends : Builder → ℕ → ℕ
ends b n = length (b.terminators n)

-- The current block is there and not ended, and nothing is known of blocks to come.
pub record IsOpen (b : Builder) : Type 0 where
  pub inside : b.current < b.count
  pub unended : ends b b.current ≡ 0
  pub above : (n : ℕ) → b.count ≤ n → ends b n ≡ 0

abbrev pub Blocks : Type 0
Blocks = ℕ → Bool

abbrev pub no_blocks : Blocks
no_blocks _ = false

-- From one builder to another, the blocks that are left behind are ended once, but for those that
-- wait to be filled, which are new; and the other blocks are as they were.
pub record Grows (waiting : Blocks) (b c : Builder) : Type 0 where
  pub more : b.count ≤ c.count
  pub opened : IsOpen c
  pub there : (c.current ≡ b.current) ⊎ (b.count ≤ c.current)
  pub waits :
      (n : ℕ) → waiting n ≡ true → (b.count ≤ n) × (n < c.count) × (n ≢ c.current) × (ends c n ≡ 0)
  pub old : (n : ℕ) → n < b.count → n ≢ b.current → ends c n ≡ ends b n
  pub fresh : (n : ℕ) → b.count ≤ n → n < c.count → n ≢ c.current → waiting n ≡ false → ends c n ≡ 1
  pub left : b.current ≢ c.current → ends c b.current ≡ 1

pub ends-append :
    (t : Terminator) (b : Builder) (n : ℕ)
    → ends (append t b) n ≡ (if n == b.current then ends b n + 1 else ends b n)
ends-append t b n = elim (Bool-cases (n == b.current)) [
  | inl e ↦ rw e (length-append (b.terminators n) (t ∷ []))
  | inr e ↦ rw e refl
]

pub Grows-stay : {b : Builder} → IsOpen b → Grows no_blocks b b
Grows-stay {b} h = record {
  more = omega arith;
  opened = h;
  there = inl refl;
  waits = λ n e. cc;
  old = λ n _ _. refl;
  fresh = λ n h k. absurd (omega arith);
  left = λ h. absurd (h refl);
}

-- Behind code that leaves blocks to be filled comes code that leaves none.
module _ {w : Blocks} {b c d : Builder} (o : IsOpen b) (h : Grows w b c)
    (k : Grows no_blocks c d) where
  then-waits :
      (n : ℕ) → w n ≡ true → (b.count ≤ n) × (n < d.count) × (n ≢ d.current) × (ends d n ≡ 0)
  then-waits n e = ground (arith, h.waits n, k.old n, k.there, k.more)

  then-old : (n : ℕ) → n < b.count → n ≢ b.current → ends d n ≡ ends b n
  then-old n p q = ground (arith, h.old n, k.old n)

  then-fresh : (n : ℕ) → b.count ≤ n → n < d.count → n ≢ d.current → w n ≡ false → ends d n ≡ 1
  then-fresh n p q r e = ground (arith, h.fresh n, k.old n, k.fresh n, k.left)

  then-left : b.current ≢ d.current → ends d b.current ≡ 1
  then-left p = ground (arith, h.left, k.old b.current, k.left, o.inside)

  pub Grows-then : Grows w b d
  Grows-then = record {
    more = omega arith;
    opened = k.opened;
    there = ground arith;
    waits = then-waits;
    old = then-old;
    fresh = then-fresh;
    left = then-left;
  }

-- A block is created, and waits.
module _ {w : Blocks} {b c : Builder} (h : Grows w b c) where
  create-waits :
      (n : ℕ)
      → (n == c.count || w n) ≡ true
      → (b.count ≤ n) × (n < c.count + 1) × (n ≢ c.current) × (ends c n ≡ 0)
  create-waits n e = ground (arith, h.waits n, h.opened.above n, h.opened.inside, h.more)

  create-fresh :
      (n : ℕ)
      → b.count ≤ n
      → n < c.count + 1
      → n ≢ c.current
      → (n == c.count || w n) ≡ false
      → ends c n ≡ 1
  create-fresh n p q r e = ground (arith, h.fresh n)

  pub Grows-create : Grows (λ n. n == c.count || w n) b (create c)
  Grows-create = record {
    more = omega arith;
    opened = record {
      inside = omega arith;
      unended = h.opened.unended;
      above = λ n p. h.opened.above n (omega arith);
    };
    there = h.there;
    waits = λ n e. (let (p, q, r, u) = create-waits n e in (p, omega (arith, q), r, u));
    old = h.old;
    fresh = λ n p q r e. create-fresh n p (omega arith) r e;
    left = h.left;
  }

-- The current block is ended, and the next one is taken from those that wait.
abbrev pub go : Terminator → ℕ → Builder → Builder
go t n b = set_insert_point n (append t b)

module _ {w : Blocks} {b c : Builder} (t : Terminator) (m : ℕ) (o : IsOpen b) (h : Grows w b c)
    (e : w m ≡ true) where
  go-IsOpen : IsOpen (go t m c)
  go-IsOpen = record {
    inside = (h.waits m e).1;
    unended = ground (arith, ends-append t c m, h.waits m e);
    above = λ n p. ground (arith, ends-append t c n, h.opened.above n, h.opened.inside);
  }

  go-waits :
      (n : ℕ)
      → (w n && not (n == m)) ≡ true
      → (b.count ≤ n) × (n < c.count) × (n ≢ m) × (ends (go t m c) n ≡ 0)
  go-waits n f = ground (arith, ends-append t c n, h.waits n)

  go-old : (n : ℕ) → n < b.count → n ≢ b.current → ends (go t m c) n ≡ ends b n
  go-old n p q = ground (arith, ends-append t c n, h.old n, h.there)

  go-fresh :
      (n : ℕ)
      → b.count ≤ n
      → n < c.count
      → n ≢ m
      → (w n && not (n == m)) ≡ false
      → ends (go t m c) n ≡ 1
  go-fresh n p q r f = ground (arith, ends-append t c n, h.fresh n, h.opened.unended)

  go-left : b.current ≢ m → ends (go t m c) b.current ≡ 1
  go-left p = ground (arith, ends-append t c b.current, h.left, h.opened.unended)

  pub Grows-go : Grows (λ n. w n && not (n == m)) b (go t m c)
  Grows-go = record {
    more = h.more;
    opened = go-IsOpen;
    there = inr (h.waits m e).0;
    waits = go-waits;
    old = go-old;
    fresh = go-fresh;
    left = go-left;
  }

-- At the end no block waits.
pub Grows-end :
    {w : Blocks} {b c : Builder} → Grows w b c → ((n : ℕ) → w n ≡ false) → Grows no_blocks b c
Grows-end h e = record {
  more = h.more;
  opened = h.opened;
  there = h.there;
  waits = λ n f. cc;
  old = h.old;
  fresh = λ n p q r f. h.fresh n p q r (e n);
  left = h.left;
}

-- Two, three and four blocks in a row.
abbrev pub two_blocks : ℕ → Blocks
two_blocks k n = n == suc k || (n == k || false)

abbrev pub three_blocks : ℕ → Blocks
three_blocks k n = n == suc (suc k) || two_blocks k n

abbrev pub four_blocks : ℕ → Blocks
four_blocks k n = n == suc (suc (suc k)) || three_blocks k n

module _ {b : Builder} (o : IsOpen b) where
  pub Grows-two : Grows (two_blocks b.count) b (create (create b))
  Grows-two = Grows-create (Grows-create (Grows-stay o))

  pub Grows-three : Grows (three_blocks b.count) b (create (create (create b)))
  Grows-three = Grows-create Grows-two

  pub Grows-four : Grows (four_blocks b.count) b (create (create (create (create b))))
  Grows-four = Grows-create Grows-three

-- The stack of loops is no part of this.
pub Grows-loops :
    {w : Blocks} {b c : Builder} (loops : List Loop)
    → Grows w b c
    → Grows w b (record c { loops = loops })
Grows-loops loops h = record {
  more = h.more;
  opened = record { inside = h.opened.inside; unended = h.opened.unended; above = h.opened.above };
  there = h.there;
  waits = h.waits;
  old = h.old;
  fresh = h.fresh;
  left = h.left;
}
