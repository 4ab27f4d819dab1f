-- ===== src/Deck/Five.antt =====
-- `brand5` and `brandInfo5`: hands of five cards without a ghost.
pub mod Agree
pub mod Meaning
pub mod Ladder
pub mod Wheel
pub mod Correct
use chess_games.Prelude.{
  Bool, List, [], get_or, if◌then◌else◌, ltb, map, none, some, true, ℕ, ◌&&◌, ◌*◌, ◌+◌, ◌==◌, ◌||◌,
  ◌∷◌,
}
use chess_games.Deck.{
  Brand, BrandInfo, Card, five_of_kind, flush, four_of_kind, full_house, hight_card, info, one_pair,
  r2, r3, r4, r5, r_ace, rank, straight, straight_flush, suit, three_of_kind, two_pairs,
}
use chess_games.Deck.Sort.{sort}
use chess_games.Deck.Loops.{flush_loop, hight_points, kicker_points, pair_index, pow, straight_loop}

-- `isStright` for five ranks, A2345 included.
unfoldable pub is_straight5 : ℕ → ℕ → ℕ → ℕ → ℕ → Bool
unfolding straight_loop
is_straight5 a b c d e =
    if (a == r2) && (b == r3) && (c == r4) && (d == r5) && (e == r_ace)
    then true
    else straight_loop true (a ∷ b ∷ c ∷ d ∷ e ∷ [])

-- The checks of `brand5` on sorted ranks, with `isFlush`.
unfoldable pub brand5_ranked : ℕ → ℕ → ℕ → ℕ → ℕ → Bool → Brand
brand5_ranked a b c d e is_flush =
    if a == e
    then five_of_kind
    else if is_straight5 a b c d e && is_flush
    then straight_flush
    else if (a == d) || (b == e)
    then four_of_kind
    else if ((a == c) && (d == e)) || ((c == e) && (a == b))
    then full_house
    else if is_flush
    then flush
    else if is_straight5 a b c d e
    then straight
    else if (a == c) || (c == e) || (b == d)
    then three_of_kind
    else if ((a == b) && (c == d)) || ((a == b) && (d == e)) || ((b == c) && (d == e))
    then two_pairs
    else if (a == b) || (b == c) || (c == d) || (d == e)
    then one_pair
    else hight_card

-- `r[i]` and `isFlush` of a hand, after the sort.
abbrev pub rank_at : List Card → ℕ → ℕ
rank_at cards i = rank (get_or (sort cards) i 0)

abbrev pub flush_of : List Card → Bool
flush_of cards = flush_loop true (map suit (sort cards))

-- A routine over the five sorted ranks and the suits' flush test.
abbrev pub sorted5 {ℓ} : {A : Type ℓ} → (ℕ → ℕ → ℕ → ℕ → ℕ → Bool → A) → List Card → A
sorted5 f cards = let r : ℕ → ℕ = rank_at cards in f (r 0) (r 1) (r 2) (r 3) (r 4) (flush_of cards)

unfoldable pub brand5 : List Card → Brand
unfolding brand5_ranked is_straight5
brand5 cards = sorted5 brand5_ranked cards

abbrev pub rtoi : ℕ → ℕ
rtoi r = r + 1

-- The points of a straight: 14 for A2345, 15 with the ace on top.
unfoldable pub straight_point : ℕ → ℕ → ℕ
straight_point a e = if e == r_ace then (if a == r2 then 14 else 15) else rtoi e

unfoldable pub four_point : ℕ → ℕ → ℕ → ℕ → ℕ → ℕ
four_point a b c d e = if a == d then rtoi d else if b == e then rtoi e else 0

unfoldable pub full_house_point : ℕ → ℕ → ℕ → ℕ → ℕ → ℕ
full_house_point a b c d e =
    if (a == c) && (d == e) then rtoi c else if (c == e) && (a == b) then rtoi e else 0

unfoldable pub three_point : ℕ → ℕ → ℕ → ℕ → ℕ → ℕ
three_point a b c d e =
    if a == c then rtoi c else if b == d then rtoi d else if c == e then rtoi e else 0

-- The larger pair, the smaller pair, the single card.
unfoldable pub two_pairs_point : ℕ → ℕ → ℕ → ℕ → ℕ → ℕ
two_pairs_point a b c d e =
    if (a == b) && (c == d)
    then rtoi d * pow 6 + rtoi b * pow 5 + rtoi e
    else if (a == b) && (d == e)
    then rtoi e * pow 6 + rtoi b * pow 5 + rtoi c
    else if (b == c) && (d == e)
    then rtoi e * pow 6 + rtoi c * pow 5 + rtoi a
    else 0

-- The result for a hand that has at most one pair: the pair and its three kickers as the brand
-- `paired`, or all five cards as the brand `single`.
unfoldable pub pair_or_hight : Brand → Brand → ℕ → ℕ → ℕ → ℕ → ℕ → BrandInfo
unfolding pair_index kicker_points hight_points
pair_or_hight paired single a b c d e =
    let values = rtoi a ∷ rtoi b ∷ rtoi c ∷ rtoi d ∷ rtoi e ∷ [] in
    elim (pair_index 1 (a ∷ b ∷ c ∷ d ∷ e ∷ [])) [
      | none ↦ info single (hight_points 0 values)
      | some p ↦ info paired (get_or values p 0 * pow 5 + kicker_points p 0 0 values)
    ]

-- The checks of `brandInfo5` on sorted ranks, with `isFlush`.
pub brand_info5_ranked : ℕ → ℕ → ℕ → ℕ → ℕ → Bool → BrandInfo
brand_info5_ranked a b c d e is_flush =
    if a == e
    then info five_of_kind (rtoi a)
    else if is_straight5 a b c d e && is_flush
    then info straight_flush (straight_point a e)
    else if ltb 0 (four_point a b c d e)
    then info four_of_kind (four_point a b c d e)
    else if ltb 0 (full_house_point a b c d e)
    then info full_house (full_house_point a b c d e)
    else if is_flush
    then (if ltb 0 (two_pairs_point a b c d e)
        then info flush (two_pairs_point a b c d e)
        else pair_or_hight flush flush a b c d e)
    else if is_straight5 a b c d e
    then info straight (straight_point a e)
    else if ltb 0 (three_point a b c d e)
    then info three_of_kind (three_point a b c d e)
    else if ltb 0 (two_pairs_point a b c d e)
    then info two_pairs (two_pairs_point a b c d e)
    else pair_or_hight one_pair hight_card a b c d e

unfoldable pub brand_info5 : List Card → BrandInfo
unfolding brand_info5_ranked is_straight5 straight_point four_point full_house_point three_point
    two_pairs_point pair_or_hight
brand_info5 cards = sorted5 brand_info5_ranked cards
