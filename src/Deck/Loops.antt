-- ===== src/Deck/Loops.antt =====
-- Loops over the sorted ranks and suits of a hand that several routines of
-- server/processes/lobby/deck.cpp share.
use chess_games.Prelude.{
  Bool, List, Option, [], false, get_or, if◌then◌else◌, none, some, suc, ℕ, ◌*◌, ◌+◌, ◌-◌, ◌==◌,
  ◌||◌, ◌∷◌,
}

-- `isStright` after the loop over neighbours, from its value before.
unfoldable pub straight_loop : Bool → List ℕ → Bool
straight_loop ok [] = ok
straight_loop ok (x ∷ []) = ok
straight_loop ok (x ∷ y ∷ l) = straight_loop (if x + 1 == y then ok else false) (y ∷ l)

-- `isFlush` after the same loop.
unfoldable pub flush_loop : Bool → List ℕ → Bool
flush_loop ok [] = ok
flush_loop ok (x ∷ []) = ok
flush_loop ok (x ∷ y ∷ l) = flush_loop (if x == y then ok else false) (y ∷ l)

-- The table `pow` of powers of 14.
abbrev pub pow : ℕ → ℕ
pow i = get_or (1 ∷ 14 ∷ 196 ∷ 2744 ∷ 38416 ∷ 537824 ∷ 7529536 ∷ []) i 0

-- The first `i` with equal neighbours i - 1 and i; `none` is the -1 of the source.
unfoldable pub pair_index : ℕ → List ℕ → Option ℕ
pair_index i [] = none
pair_index i (x ∷ []) = none
pair_index i (x ∷ y ∷ l) = if x == y then some i else pair_index (suc i) (y ∷ l)

-- The points of the cards outside the pair at `p`, least card first.
unfoldable pub kicker_points : ℕ → ℕ → ℕ → List ℕ → ℕ
kicker_points p i hight [] = 0
kicker_points p i hight (v ∷ l) =
    if (i == p) || (i == p - 1)
    then kicker_points p (i + 1) hight l
    else v * pow hight + kicker_points p (i + 1) (hight + 1) l

-- The points of a hand with no pair.
unfoldable pub hight_points : ℕ → List ℕ → ℕ
hight_points i [] = 0
hight_points i (v ∷ l) = v * pow i + hight_points (i + 1) l
