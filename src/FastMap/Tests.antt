-- ===== src/FastMap/Tests.antt =====
-- A `FastTravelUnorderedMap` at work: what the theorems say of one.
use chess_games.FastMap.Runs.{
  Change, change, changed, changed-Models, changed_map, ensures, erases, inserts,
}
use chess_games.Prelude.{List, Option, [], none, refl, some, ℕ, ◌∷◌, ◌≡◌}
use chess_games.FastMap.{FastMap, ensure, erase, find, get_values, insert, no_items}

abbrev changes : List (Change ℕ)
changes =
    inserts 7 70
    ∷ inserts 8 80
    ∷ inserts 7 71
    ∷ ensures 9 0
    ∷ erases 7
    ∷ erases 5
    ∷ inserts 4 40
    ∷ []

abbrev values_of : Option (FastMap ℕ) → List ℕ
values_of none = []
values_of (some q) = get_values q.items

-- The last item took the place of the first.
filled_gap : values_of (changed changes (some no_items)) ≡ 0 ∷ 80 ∷ 40 ∷ []
unfolding change insert erase ensure find get_values
filled_gap = refl

changed-Models_example :
    (next : FastMap ℕ) × (changed changes (some no_items) ≡ some next)
    × ((k : ℕ) → find k next ≡ some (changed_map changes (λ j. none) k))
changed-Models_example = changed-Models changes
