-- ===== src/Deck.antt =====
-- Cards, brands and their comparison: server/processes/lobby/deck.h.
-- A card is a number from 1 to 52; a ghost card is any number above 52. Suits and ranks are the
-- values of the source's enumerations.
pub mod Sort
pub mod Loops
pub mod Five
pub mod Three
pub mod Ghost
pub mod Special
mod Tests
use chess_games.Prelude.{
  Bool, List, [], false, if◌then◌else◌, leb, ltb, not, true, ℕ, ◌%◌, ◌&&◌, ◌-◌, ◌/◌, ◌==◌, ◌∷◌, ◌≤◌,
}

abbrev pub Card : Type 0
Card = ℕ

-- The assertion of `suit` and `rank`.
abbrev pub IsCard : Card → Type 0
IsCard c = (1 ≤ c) × (c ≤ 52)

unfoldable pub is_card : Card → Bool
is_card c = leb 1 c && leb c 52

-- Whether the assertion holds for all cards of a list.
unfoldable pub are_cards : List Card → Bool
unfolding is_card
are_cards [] = true
are_cards (c ∷ l) = let rest = are_cards l in if is_card c then rest else false

-- The assertion is not tested here but by those who call it: see `evaluate`.
unfoldable pub suit : Card → ℕ
suit c = (c - 1) / 13

unfoldable pub rank : Card → ℕ
rank c = (c - 1) % 13

unfoldable pub less_suit : Card → Card → Bool
less_suit c1 c2 = ltb (suit c1) (suit c2)

unfoldable pub less_rank : Card → Card → Bool
less_rank c1 c2 = ltb (rank c1) (rank c2)

unfoldable pub less_card : Card → Card → Bool
unfolding less_rank less_suit
less_card c1 c2 = if not (rank c1 == rank c2) then less_rank c1 c2 else less_suit c1 c2

-- The ranks that the source names.
abbrev pub r2 : ℕ
r2 = 0

abbrev pub r3 : ℕ
r3 = 1

abbrev pub r4 : ℕ
r4 = 2

abbrev pub r5 : ℕ
r5 = 3

abbrev pub r8 : ℕ
r8 = 6

abbrev pub r_jack : ℕ
r_jack = 9

abbrev pub r_ace : ℕ
r_ace = 12

pub data Brand : Type 0 where
  hight_card one_pair two_pairs three_of_kind straight flush : Brand
  full_house four_of_kind straight_flush five_of_kind : Brand

-- The number of an enumerator.
abbrev pub brand_value : Brand → ℕ
brand_value hight_card = 0
brand_value one_pair = 1
brand_value two_pairs = 2
brand_value three_of_kind = 3
brand_value straight = 4
brand_value flush = 5
brand_value full_house = 6
brand_value four_of_kind = 7
brand_value straight_flush = 8
brand_value five_of_kind = 9

pub record BrandInfo : Type 0 where
  pub b : Brand
  pub point : ℕ
  pub is_ghost : Bool

-- The literals `{b, point}` and `{b, point, true}`.
abbrev pub info : Brand → ℕ → BrandInfo
info b p = record { b = b; point = p; is_ghost = false }

abbrev pub ghost_info : Brand → ℕ → BrandInfo
ghost_info b p = record { b = b; point = p; is_ghost = true }

-- 0 for a tie, 1 if the first is larger, 2 if the second is.
unfoldable pub cmp_brand_info : BrandInfo → BrandInfo → ℕ
cmp_brand_info x y =
    if not (brand_value x.b == brand_value y.b)
    then (if ltb (brand_value y.b) (brand_value x.b) then 1 else 2)
    else if not (x.point == y.point)
    then (if ltb y.point x.point then 1 else 2)
    else if x.is_ghost
    then (if y.is_ghost then 0 else 2)
    else if y.is_ghost
    then 1
    else 0
