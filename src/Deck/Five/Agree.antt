-- ===== src/Deck/Five/Agree.antt =====
-- The two classifications of a hand of five agree.
use chess_games.Prelude.{Bool, List, arith, if◌then◌else◌, ltb, ℕ, ◌&&◌, ◌==◌, ◌||◌, ◌≡◌}
use chess_games.Deck.{Brand, Card, flush, hight_card, one_pair}
use chess_games.Deck.Loops.{pair_index}
use chess_games.Deck.Five.{
  brand5, brand5_ranked, brand_info5, brand_info5_ranked, flush_of, four_point, full_house_point,
  pair_or_hight, rank_at, three_point, two_pairs_point,
}

four_point_test : (a b c d e : ℕ) → ltb 0 (four_point a b c d e) ≡ (a == d) || (b == e)
unfolding four_point
four_point_test a b c d e = ground arith

full_house_point_test :
    (a b c d e : ℕ)
    → ltb 0 (full_house_point a b c d e) ≡ ((a == c) && (d == e)) || ((c == e) && (a == b))
unfolding full_house_point
full_house_point_test a b c d e = ground arith

three_point_test :
    (a b c d e : ℕ) → ltb 0 (three_point a b c d e) ≡ (a == c) || (c == e) || (b == d)
unfolding three_point
three_point_test a b c d e = ground arith

two_pairs_point_test :
    (a b c d e : ℕ)
    → ltb 0 (two_pairs_point a b c d e)
      ≡ ((a == b) && (c == d)) || ((a == b) && (d == e)) || ((b == c) && (d == e))
unfolding two_pairs_point
two_pairs_point_test a b c d e = ground arith

pair_or_hight_brand :
    (p q : Brand) (a b c d e : ℕ)
    → (pair_or_hight p q a b c d e).b
      ≡ (if (a == b) || (b == c) || (c == d) || (d == e) then p else q)
unfolding pair_or_hight pair_index
pair_or_hight_brand p q a b c d e = ground arith

brand_info5_ranked-brand :
    (a b c d e : ℕ) (f : Bool) → (brand_info5_ranked a b c d e f).b ≡ brand5_ranked a b c d e f
unfolding brand_info5_ranked brand5_ranked
brand_info5_ranked-brand a b c d e f = ground (
  arith,
  four_point_test a b c d e,
  full_house_point_test a b c d e,
  three_point_test a b c d e,
  two_pairs_point_test a b c d e,
  pair_or_hight_brand flush flush a b c d e,
  pair_or_hight_brand one_pair hight_card a b c d e,
)

-- `brandInfo5` gives the brand of `brand5`, for every hand.
pub brand_info5-brand5 : (cards : List Card) → (brand_info5 cards).b ≡ brand5 cards
unfolding brand_info5 brand5
brand_info5-brand5 cards =
    let r : ℕ → ℕ = rank_at cards in
    brand_info5_ranked-brand (r 0) (r 1) (r 2) (r 3) (r 4) (flush_of cards)
