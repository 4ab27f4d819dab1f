-- ===== src/Deck/Tests.antt =====
-- Hands that run through the deck's routines.
use chess_games.Prelude.{List, [], arith, refl, some, ◌∷◌, ◌≡◌}
use chess_games.Deck.{
  BrandInfo, Card, full_house, ghost_info, hight_card, info, less_card, one_pair, rank,
  straight_flush, suit,
}
use chess_games.Deck.Five.{brand5, brand_info5}
use chess_games.Deck.Five.Agree.{brand_info5-brand5}
use chess_games.Deck.Five.Correct.{brand5-meaning5}
use chess_games.Deck.Five.Meaning.{meaning5}
use chess_games.Deck.Ghost.{ghost5, ghost_info5}
use chess_games.Deck.Ghost.Agree.{Agrees, ghost_info5-ghost5}
use chess_games.Deck.Special.{flush_straight, g13_special_brand, penta_pairs_and_three_of_kind}
use chess_games.Deck.Sort.{sort}
use chess_games.Deck.Loops.{flush_loop, straight_loop}

-- Three sevens and two kings.
abbrev sevens_and_kings : List Card
sevens_and_kings = 6 ∷ 12 ∷ 19 ∷ 25 ∷ 32 ∷ []

full_house_test : brand5 sevens_and_kings ≡ full_house
unfolding brand5 sort rank suit less_card flush_loop
full_house_test = refl

full_house_points : brand_info5 sevens_and_kings ≡ info full_house 6
unfolding brand_info5 sort rank suit less_card flush_loop
full_house_points = refl

brand_info5-brand5_example : (brand_info5 sevens_and_kings).b ≡ brand5 sevens_and_kings
brand_info5-brand5_example = brand_info5-brand5 sevens_and_kings

brand5-meaning5_example : brand5 sevens_and_kings ≡ meaning5 sevens_and_kings
brand5-meaning5_example = brand5-meaning5 sevens_and_kings refl

-- 4, 6 and 9 of different suits, beside two ghosts.
abbrev three_cards : List Card
three_cards = 21 ∷ 3 ∷ 5 ∷ []

ghost_info5-ghost5_example :
    (i : BrandInfo) × (ghost_info5 three_cards ≡ some i) × Agrees (ghost5 three_cards) i
unfolding sort rank less_card
ghost_info5-ghost5_example =
    ghost_info5-ghost5 three_cards (omega arith) (omega arith) (omega arith)

-- 3, 4, 5 and 6, the 3 of another suit.
abbrev short_run : List Card
short_run = 15 ∷ 3 ∷ 4 ∷ 5 ∷ []

-- Two twos and two fives.
abbrev twos_and_fives : List Card
twos_and_fives = 1 ∷ 14 ∷ 4 ∷ 17 ∷ []

ghost_pair_test : ghost_info5 (1 ∷ 3 ∷ 21 ∷ 37 ∷ []) ≡ some (ghost_info one_pair 0)
unfolding ghost_info5 sort rank suit less_card flush_loop
ghost_pair_test = refl

abbrev one_suit : List Card
one_suit = 1 ∷ 2 ∷ 3 ∷ 4 ∷ 5 ∷ 6 ∷ 7 ∷ 8 ∷ 9 ∷ 10 ∷ 11 ∷ 12 ∷ 13 ∷ []

flush_straight_test : g13_special_brand one_suit straight_flush straight_flush ≡ flush_straight
unfolding g13_special_brand sort rank suit less_card flush_loop straight_loop
flush_straight_test = refl

-- Five pairs, and three sixes between them.
abbrev penta_hand : List Card
penta_hand = 1 ∷ 14 ∷ 2 ∷ 15 ∷ 5 ∷ 18 ∷ 31 ∷ 7 ∷ 20 ∷ 8 ∷ 21 ∷ 9 ∷ 22 ∷ []

penta_test : g13_special_brand penta_hand hight_card hight_card ≡ penta_pairs_and_three_of_kind
unfolding g13_special_brand sort rank suit less_card flush_loop straight_loop
penta_test = refl
