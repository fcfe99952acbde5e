-- ===== src/Traverse/Visits.antt =====
-- Which statements `each_statement` of src/reir/exec/ast_statement.hpp visits.
use reir.Prelude.{
  ◌≡◌, refl, sym, subst, Result, ok, bind, bind-eq-ok, ◌⊎◌, inl, inr, ◌↔◌, List, [], ◌∷◌, ◌++◌,
  Bytes,
}
use reir.Ast.{
  Part, Expression, Statement, Block, Init, ElseBlock, block, define, emit, expr_statement, for,
  define_tuple, if_else, jump, insert, scan, let_, transaction, unset_init, no_init, init, no_else,
  else_block,
}
use reir.Traverse.{both_visits, each_statement, block_statements, else_statements}

-- A statement stands within another: in a block of it, or in a block of a statement in such a block;
-- or it is the first statement of a loop.
mutual
  pub data IsWithin : Statement → Statement → Type 0 where
    in_block : {t : Statement} {b : Block} → IsInBlock t b → IsWithin t (block b)
    in_init :
        {t : Statement} {cond every : Part} {b : Block} → IsWithin t (for (init t) cond every b)
    in_for :
        {t : Statement} {i : Init} {cond every : Part} {b : Block}
        → IsInBlock t b
        → IsWithin t (for i cond every b)
    in_true :
        {t : Statement} {cond : Expression} {b : Block} {e : ElseBlock}
        → IsInBlock t b
        → IsWithin t (if_else cond b e)
    in_false :
        {t : Statement} {cond : Expression} {b c : Block}
        → IsInBlock t c
        → IsWithin t (if_else cond b (else_block c))
    in_scan :
        {t : Statement} {table row : Bytes} {b : Block}
        → IsInBlock t b
        → IsWithin t (scan table row b)
    in_transaction :
        {t : Statement} {isolation : Bytes} {b : Block}
        → IsInBlock t b
        → IsWithin t (transaction isolation b)

  pub data IsInBlock : Statement → Block → Type 0 where
    first : {s : Statement} {b : Block} → IsInBlock s (Block.cons s b)
    within : {t s : Statement} {b : Block} → IsWithin t s → IsInBlock t (Block.cons s b)
    later : {t s : Statement} {b : Block} → IsInBlock t b → IsInBlock t (Block.cons s b)

ok_injective {ℓ} : {A : Type ℓ} {a b : A} → ok a ≡ ok b → a ≡ b
ok_injective h = cc

abbrev pub Occurs : Statement → List Statement → Type 0
Occurs t [] = ⊥
Occurs t (s ∷ ss) = (t ≡ s) ⊎ Occurs t ss

left : (t : Statement) (ss rs : List Statement) → Occurs t ss → Occurs t (ss ++ rs)
left t [] rs h = absurd h
left t (s ∷ ss) rs (inl e) = inl e
left t (s ∷ ss) rs (inr h) = inr (left t ss rs h)

right : (t : Statement) (ss rs : List Statement) → Occurs t rs → Occurs t (ss ++ rs)
right t [] rs h = h
right t (s ∷ ss) rs h = inr (right t ss rs h)

split : (t : Statement) (ss rs : List Statement) → Occurs t (ss ++ rs) → Occurs t ss ⊎ Occurs t rs
split t [] rs h = inr h
split t (s ∷ ss) rs (inl e) = inl (inl e)
split t (s ∷ ss) rs (inr h) = elim (split t ss rs h) [ inl k ↦ inl (inr k) | inr k ↦ inr k ]

-- What is visited by one call and then by another.
both_visits-Occurs :
    (m n : Result (List Statement)) (ss : List Statement)
    → both_visits m n ≡ ok ss
    → (a : List Statement) × (c : List Statement) × (m ≡ ok a) × (n ≡ ok c) × (ss ≡ a ++ c)
both_visits-Occurs m n ss e =
    let (a, p, q) = bind-eq-ok m (λ a. bind n λ c. ok (a ++ c)) e in
    let (c, r, t) = bind-eq-ok n (λ c. ok (a ++ c)) q in (a, c, p, r, ok_injective (sym t))

cons-Occurs :
    (s : Statement) (m : Result (List Statement)) (ss : List Statement)
    → bind m (λ rs. ok (s ∷ rs)) ≡ ok ss
    → (rs : List Statement) × (m ≡ ok rs) × (ss ≡ s ∷ rs)
cons-Occurs s m ss e =
    let (rs, p, q) = bind-eq-ok m (λ rs. ok (s ∷ rs)) e in (rs, p, ok_injective (sym q))

mutual
  unfolding each_statement

  visited :
      {t s : Statement}
      → IsWithin t s
      → (ss : List Statement) → each_statement s ≡ ok ss
      → Occurs t ss
  visited (in_block h) ss e = visited_block h ss e
  visited (in_init {t} {b = b}) ss e =
      let (rs, p, q) = cons-Occurs t (block_statements b) ss e in
      subst (Occurs t) (sym q) (inl refl)
  visited (in_for {i = unset_init} h) ss e = cc
  visited (in_for {i = no_init} h) ss e = visited_block h ss e
  visited (in_for {t} {i = init s} {b = b} h) ss e =
      let (rs, p, q) = cons-Occurs s (block_statements b) ss e in
      subst (Occurs t) (sym q) (inr (visited_block h rs p))
  visited (in_true {t} {cond} {b} {e = f} h) ss e =
      let (a, c, p, q, r) = both_visits-Occurs (block_statements b) (else_statements f) ss e in
      subst (Occurs t) (sym r) (left t a c (visited_block h a p))
  visited (in_false {t} {cond} {b} {c = d} h) ss e =
      let (a, c, p, q, r) = both_visits-Occurs (block_statements b) (block_statements d) ss e in
      subst (Occurs t) (sym r) (right t a c (visited_block h c q))
  visited (in_scan h) ss e = visited_block h ss e
  visited (in_transaction h) ss e = visited_block h ss e

  visited_block :
      {t : Statement} {b : Block}
      → IsInBlock t b
      → (ss : List Statement) → block_statements b ≡ ok ss
      → Occurs t ss
  visited_block (first {s} {b}) ss e =
      let (rs, p, q) = cons-Occurs s (both_visits (each_statement s) (block_statements b)) ss e in
      subst (Occurs s) (sym q) (inl refl)
  visited_block (within {t} {s} {b} h) ss e =
      let (rs, p, q) = cons-Occurs s (both_visits (each_statement s) (block_statements b)) ss e in
      let (a, c, m, n, r) = both_visits-Occurs (each_statement s) (block_statements b) rs p in
      subst (Occurs t) (sym q) (inr (subst (Occurs t) (sym r) (left t a c (visited h a m))))
  visited_block (later {t} {s} {b} h) ss e =
      let (rs, p, q) = cons-Occurs s (both_visits (each_statement s) (block_statements b)) ss e in
      let (a, c, m, n, r) = both_visits-Occurs (each_statement s) (block_statements b) rs p in
      subst (Occurs t) (sym q) (inr (subst (Occurs t) (sym r) (right t a c (visited_block h c n))))

nothing : (t : Statement) (ss : List Statement) {C : Type 0} → ok [] ≡ ok ss → Occurs t ss → C
nothing t ss e o = absurd (subst (Occurs t) (sym (ok_injective e)) o)

mutual
  unfolding each_statement

  only :
      (t s : Statement) (ss : List Statement)
      → each_statement s ≡ ok ss
      → Occurs t ss
      → IsWithin t s
  only t (block b) ss e o = in_block (only_block t b ss e o)
  only t (for unset_init cond every b) ss e o = cc
  only t (for no_init cond every b) ss e o = in_for (only_block t b ss e o)
  only t (for (init s) cond every b) ss e o =
      let (rs, p, q) = cons-Occurs s (block_statements b) ss e in
      let o' : Occurs t (s ∷ rs) = subst (Occurs t) q o in
      elim o' [
        | inl same ↦ subst (λ u. IsWithin t (for (init u) cond every b)) same in_init
        | inr h ↦ in_for (only_block t b rs p h)
      ]
  only t (if_else cond b no_else) ss e o =
      let (a, c, p, q, r) = both_visits-Occurs (block_statements b) (ok []) ss e in
      elim (split t a c (subst (Occurs t) r o)) [
        | inl k ↦ in_true (only_block t b a p k)
        | inr k ↦ nothing t c q k
      ]
  only t (if_else cond b (else_block d)) ss e o =
      let (a, c, p, q, r) = both_visits-Occurs (block_statements b) (block_statements d) ss e in
      elim (split t a c (subst (Occurs t) r o)) [
        | inl k ↦ in_true (only_block t b a p k)
        | inr k ↦ in_false (only_block t d c q k)
      ]
  only t (scan table row b) ss e o = in_scan (only_block t b ss e o)
  only t (transaction isolation b) ss e o = in_transaction (only_block t b ss e o)
  only t (define schema name) ss e o = nothing t ss e o
  only t (emit value) ss e o = nothing t ss e o
  only t (expr_statement value) ss e o = nothing t ss e o
  only t (define_tuple name type) ss e o = nothing t ss e o
  only t (jump j) ss e o = nothing t ss e o
  only t (insert table value) ss e o = nothing t ss e o
  only t (let_ type name value) ss e o = nothing t ss e o

  only_block :
      (t : Statement) (b : Block) (ss : List Statement)
      → block_statements b ≡ ok ss
      → Occurs t ss
      → IsInBlock t b
  only_block t Block.nil ss e o = nothing t ss e o
  only_block t (Block.cons s b) ss e o =
      let (rs, p, q) = cons-Occurs s (both_visits (each_statement s) (block_statements b)) ss e in
      let (a, c, m, n, r) = both_visits-Occurs (each_statement s) (block_statements b) rs p in
      let o' : Occurs t (s ∷ rs) = subst (Occurs t) q o in
      elim o' [
        | inl same ↦ subst (λ u. IsInBlock t (Block.cons u b)) same first
        | inr h ↦ elim (split t a c (subst (Occurs t) r h)) [
          | inl k ↦ within (only t s a m k)
          | inr k ↦ later (only_block t b c n k)
        ]
      ]

-- If no pointer without a value is read, `each_statement` of a statement visits the statements in
-- its blocks, what it visits of these in turn, and the first statement of a loop, and no other.
pub each_statement-IsWithin :
    (t s : Statement) (ss : List Statement) → each_statement s ≡ ok ss → Occurs t ss ↔ IsWithin t s
each_statement-IsWithin t s ss e = (only t s ss e, λ h. visited h ss e)
