-- ===== src/Queue/Changes.antt =====
-- The queue as a list with a bound.
use chess_games.Queue.Refines.{pop-view, push-view, top-view}
use chess_games.Queue.View.{IsRing, view}
use chess_games.Queue.{CircularQueue, max_size, pop, push, top}
use chess_games.Prelude.{Bool, List, [], drop, get_elem?, if◌then◌else◌, ◌++◌, ◌==◌, ◌∷◌, ◌≡◌}

pub data QueueChange (A : Type 0) : Type 0 where
  pushes : A → QueueChange A
  pops : QueueChange A

abbrev pub change_queue : {A : Type 0} → A → QueueChange A → CircularQueue A → CircularQueue A
change_queue blank (pushes x) q = (push x q).1
change_queue blank pops q = pop blank q

-- The same on the list of the elements, if the queue is full or not.
abbrev pub change_list : {A : Type 0} → Bool → QueueChange A → List A → List A
change_list full (pushes x) l = if full then l else l ++ x ∷ []
change_list full pops l = drop 1 l

-- The circular queue is a queue with a bound: a push puts an element behind the others unless there
-- is no place left, a pop takes off the first, and the top is the first.
pub change_queue-IsRing :
    {A : Type 0} (blank : A) (q : CircularQueue A)
    → IsRing q
    → (c : QueueChange A)
    → IsRing (change_queue blank c q)
      × (view blank (change_queue blank c q) ≡ change_list (q.size == max_size q) c (view blank q))
      × (top q ≡ get_elem? (view blank q) 0)
change_queue-IsRing blank q ring (pushes x) =
    ((push-view blank q ring x).1, (push-view blank q ring x).2, top-view blank q ring)
change_queue-IsRing blank q ring pops =
    ((pop-view blank q ring).0, (pop-view blank q ring).1, top-view blank q ring)
