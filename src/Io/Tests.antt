-- ===== src/Io/Tests.antt =====
-- The theorems on `readn` and `writen` at answers that move some bytes at a time, with an interruption.
use dimdb.Prelude.{◌+◌, ◌≤◌, ◌≡◌, refl, true, List, [], ◌∷◌, take, drop, arith}
use dimdb.Prelude.Int.{pos}
use dimdb.Io.{Answer, moved, failed, returned, is_soft, all_soft, all_live, moves, readn, writen}
use dimdb.Io.Write.{writen_complete}
use dimdb.Io.Read.{readn_complete}

abbrev answers : List Answer
answers = moved 1 ∷ failed 4 ∷ moved 5 ∷ moved 2 ∷ []

soft : all_soft answers ≡ true
unfolding all_soft is_soft
soft = refl

live : all_live answers ≡ true
unfolding all_live is_soft
live = refl

many : moves answers ≡ 3
unfolding moves
many = refl

writen_complete_example :
    (answers' : List Answer) × (writen answers (1 ∷ 2 ∷ 3 ∷ []) (9 ∷ [])
      ≡ returned (0, 9 ∷ 1 ∷ 2 ∷ 3 ∷ [], answers'))
    × (all_soft answers' ≡ true)
    × (moves answers ≤ moves answers' + 3)
writen_complete_example =
    writen_complete answers (1 ∷ 2 ∷ 3 ∷ []) (9 ∷ []) soft (omega (arith, many))

readn_complete_example :
    (answers' : List Answer) × (readn answers 2 (1 ∷ 2 ∷ 3 ∷ []) []
      ≡ returned (pos 0, take 2 (1 ∷ 2 ∷ 3 ∷ []), drop 2 (1 ∷ 2 ∷ 3 ∷ []), answers'))
    × (all_live answers' ≡ true)
    × (moves answers ≤ moves answers' + 2)
readn_complete_example =
    readn_complete answers 2 (1 ∷ 2 ∷ 3 ∷ []) [] live (omega (arith, many)) (omega arith)
