-- ===== src/Queue/Tests.antt =====
-- Runs of the queue, across the end of its array.
use chess_games.Prelude.{[], arith, false, get_elem?, inr, refl, ℕ, ◌∷◌, ◌≡◌}
use chess_games.Queue.{CircularQueue, top}
use chess_games.Queue.Changes.{change_list, change_queue, change_queue-IsRing, pushes}
use chess_games.Queue.View.{IsRing, view}

abbrev wrapped : CircularQueue ℕ
wrapped = record { first = 2; last = 1; size = 2; items = 30 ∷ 0 ∷ 20 ∷ [] }

wrapped-IsRing : IsRing wrapped
wrapped-IsRing = record { fits = omega arith; starts = inr (omega arith); ends = refl }

change_queue-IsRing_example :
    IsRing (change_queue 0 (pushes 40) wrapped)
    × (view 0 (change_queue 0 (pushes 40) wrapped) ≡ change_list false (pushes 40) (view 0 wrapped))
    × (top wrapped ≡ get_elem? (view 0 wrapped) 0)
change_queue-IsRing_example = change_queue-IsRing 0 wrapped wrapped-IsRing (pushes 40)
