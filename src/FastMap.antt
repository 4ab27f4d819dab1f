-- ===== src/FastMap.antt =====
-- `FastTravelUnorderedMap` of server/water/componet/fast_travel_unordered_map.h: the items in a
-- vector, and a map from keys to places in it. Keys are numbers. An exception is none.
pub mod Keys
mod Steps
pub mod Refines
pub mod Runs
mod Tests
use chess_games.Prelude.{
  Bool, List, Option, [], false, get_elem?, if◌then◌else◌, length, ltb, none, not, set, some, take,
  true, ℕ, ◌++◌, ◌+◌, ◌-◌, ◌==◌, ◌∷◌,
}

pub record FastMap (A : Type 0) : Type 0 where
  pub items : List (ℕ × A)
  pub index : ℕ → Option ℕ

-- `m_map[k] = i` and `m_map.erase(k)`.
abbrev pub put : ℕ → ℕ → (ℕ → Option ℕ) → ℕ → Option ℕ
put k i m j = if k == j then some i else m j

abbrev pub del : ℕ → (ℕ → Option ℕ) → ℕ → Option ℕ
del k m j = if k == j then none else m j

abbrev pub no_items : {A : Type 0} → FastMap A
no_items = record { items = []; index = λ j. none }

abbrev pub value_of : {A : Type 0} → Option (ℕ × A) → Option (Option A)
value_of none = none
value_of (some x) = some (some x.1)

abbrev pub find_at : {A : Type 0} → FastMap A → Option ℕ → Option (Option A)
find_at q none = some none
find_at q (some i) = value_of (get_elem? q.items i)

-- `find`; some none is `end()`.
unfoldable pub find : {A : Type 0} → ℕ → FastMap A → Option (Option A)
find k q = find_at q (q.index k)

abbrev pub is_there : Option ℕ → Bool
is_there none = false
is_there (some i) = true

abbrev pub added : {A : Type 0} → ℕ → A → FastMap A → FastMap A
added k v q = record { items = q.items ++ (k, v) ∷ []; index = put k (length q.items) q.index }

unfoldable pub insert : {A : Type 0} → ℕ → A → FastMap A → Bool × FastMap A
insert k v q = if is_there (q.index k) then (false, q) else (true, added k v q)

-- `operator[]` on a key, for which `blank` is the new value if there is none.
abbrev pub ensured : {A : Type 0} → ℕ → A → FastMap A → Option (Option A) → Option (FastMap A)
ensured k blank q none = none
ensured k blank q (some (some v)) = some q
ensured k blank q (some none) = some (added k blank q)

unfoldable pub ensure : {A : Type 0} → ℕ → A → FastMap A → Option (FastMap A)
ensure k blank q = ensured k blank q (find k q)

abbrev pub shrunk : {A : Type 0} → ℕ → FastMap A → FastMap A
shrunk k q = record { items = take (length q.items - 1) q.items; index = del k q.index }

-- The last item takes the place `i` of the one that goes.
abbrev pub moved : {A : Type 0} → ℕ → ℕ → FastMap A → Option (ℕ × A) → FastMap A
moved k i q none = q
moved k i q (some last) = record {
  items = take (length q.items - 1) (set q.items i last);
  index = del k (put last.0 i q.index);
}

abbrev pub erase_at : {A : Type 0} → ℕ → FastMap A → Option ℕ → Option (FastMap A)
erase_at k q none = some q
erase_at k q (some i) =
    if not (ltb i (length q.items))
    then none
    else if length q.items == 1
    then some no_items
    else if i + 1 == length q.items
    then some (shrunk k q)
    else some (moved k i q (get_elem? q.items (length q.items - 1)))

unfoldable pub erase : {A : Type 0} → ℕ → FastMap A → Option (FastMap A)
erase k q = erase_at k q (q.index k)

abbrev pub with_place : {A : Type 0} → ℕ → Option (FastMap A) → Option (ℕ × FastMap A)
with_place i none = none
with_place i (some q) = some (i, q)

abbrev pub erase_found : {A : Type 0} → ℕ → FastMap A → Option ℕ → Option (ℕ × FastMap A)
erase_found k q none = none
erase_found k q (some i) = with_place i (erase k q)

-- `erase` of the item `x`, which gives the place of the next one.
unfoldable pub erase_item : {A : Type 0} → ℕ × A → FastMap A → Option (ℕ × FastMap A)
erase_item x q = erase_found x.0 q (q.index x.0)

unfoldable pub get_values : {A : Type 0} → List (ℕ × A) → List A
get_values [] = []
get_values (x ∷ l) = x.1 ∷ get_values l
