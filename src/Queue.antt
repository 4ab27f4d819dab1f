-- ===== src/Queue.antt =====
-- `CircularQueue` of server/water/componet/circular_queue.h. The element `blank` is `T()`; the
-- exception of `top` is none. Positions stay under the size of the array, so none is near the end
-- of a uint32_t.
pub mod View
pub mod Refines
mod Changes
mod Tests
use chess_games.Prelude.{
  Bool, List, Option, false, get_elem?, if◌then◌else◌, length, none, set, true, ℕ, ◌%◌, ◌+◌, ◌-◌,
  ◌==◌,
}

pub record CircularQueue (A : Type 0) : Type 0 where
  pub first : ℕ
  pub last : ℕ
  pub size : ℕ
  pub items : List A

abbrev pub max_size : {A : Type 0} → CircularQueue A → ℕ
max_size q = length q.items

abbrev pub next_pos : {A : Type 0} → CircularQueue A → ℕ → ℕ
next_pos q pos = (pos + 1) % max_size q

unfoldable pub top : {A : Type 0} → CircularQueue A → Option A
top q = if q.size == 0 then none else get_elem? q.items q.first

unfoldable pub push : {A : Type 0} → A → CircularQueue A → Bool × CircularQueue A
push x q = if q.size == max_size q then (false, q) else (
  true,
  record q { last = next_pos q q.last; size = q.size + 1; items = set q.items q.last x },
)

unfoldable pub pop : {A : Type 0} → A → CircularQueue A → CircularQueue A
pop blank q = if q.size == 0 then q else record q {
  first = next_pos q q.first;
  size = q.size - 1;
  items = set q.items q.first blank;
}
