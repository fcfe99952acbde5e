-- ===== src/Examples/Slices.antt =====
-- Runs of slices.
use reir.Prelude.{◌≡◌, refl, [], ◌∷◌, ◌++◌, codes, ok, arith, Ends, bytes_eq}
use reir.Db.Memory.{load}
use reir.Slice.{Slice, slice, find, find_from, memcmp_is_zero, split, join, c_string, drop_head}
use reir.Slice.Find.{IsFirst, find-IsFirst}
use reir.Slice.Split.{Cut, split-Cut}

abbrev words : Slice
words = slice (codes "a,b" ++ 0 ∷ []) 3

abbrev glue : Slice
glue = slice (codes "," ++ 0 ∷ []) 1

two_pieces :
    split 4 glue words ≡ ok (slice (codes "a,b" ++ 0 ∷ []) 1 ∷ slice (codes "b" ++ 0 ∷ []) 1 ∷ [])
unfolding split find find_from memcmp_is_zero load bytes_eq drop_head
two_pieces = refl

-- The first piece is not cut off by `join`.
joined :
    join (slice (codes "a,b" ++ 0 ∷ []) 1 ∷ slice (codes "b" ++ 0 ∷ []) 1 ∷ []) glue
    ≡ ok (codes "a,b,b")
unfolding join c_string
joined = refl

split-Cut_example : Ends (Cut glue words) (split 4 glue words)
split-Cut_example = split-Cut 4 glue words (omega arith) (omega arith)

find-IsFirst_example : Ends (IsFirst words glue 0 3) (find words glue)
find-IsFirst_example = find-IsFirst words glue
