-- ===== src/Examples/Visiting.antt =====
-- The statements of a small program that are visited.
use reir.Prelude.{◌≡◌, ◌↔◌, refl, List, [], ◌∷◌, codes, ok, none}
use reir.Ast.{no_part, Statement, Block, block, for, init, let_, number, scan, jump, break_jump}
use reir.Traverse.{each_statement}
use reir.Traverse.Visits.{Occurs, IsWithin, each_statement-IsWithin}

abbrev leave : Statement
leave = jump break_jump

abbrev scan_once : Statement
scan_once = scan (codes "t") (codes "r") (Block.cons leave Block.nil)

-- A declaration in a block in front of a loop.
abbrev declares : Statement
declares = block (Block.cons (let_ none (codes "x") (number 1)) Block.nil)

abbrev loop : Statement
loop = for (init declares) no_part no_part (Block.cons scan_once Block.nil)

abbrev visits : List Statement
visits = declares ∷ scan_once ∷ leave ∷ []

-- It is not visited.
visited_statements : each_statement loop ≡ ok visits
unfolding each_statement
visited_statements = refl

each_statement-IsWithin_example : Occurs leave visits ↔ IsWithin leave loop
each_statement-IsWithin_example = each_statement-IsWithin leave loop visits visited_statements
