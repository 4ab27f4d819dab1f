-- ===== src/Deck/Three.antt =====
-- `brand3` and `brandInfo3`: hands of three cards without a ghost.
use chess_games.Prelude.{List, [], get_or, if◌then◌else◌, ltb, ℕ, ◌*◌, ◌+◌, ◌==◌, ◌||◌, ◌∷◌}
use chess_games.Deck.{Brand, BrandInfo, Card, hight_card, info, one_pair, rank, three_of_kind}
use chess_games.Deck.Sort.{sort}
use chess_games.Deck.Loops.{hight_points, pow}

unfoldable pub brand3_ranked : ℕ → ℕ → ℕ → Brand
brand3_ranked a b c =
    if a == c then three_of_kind else if (a == b) || (b == c) then one_pair else hight_card

-- A routine over the three sorted ranks.
abbrev pub sorted3 {ℓ} : {A : Type ℓ} → (ℕ → ℕ → ℕ → A) → List Card → A
sorted3 f cards =
    let s = sort cards in f (rank (get_or s 0 0)) (rank (get_or s 1 0)) (rank (get_or s 2 0))

unfoldable pub brand3 : List Card → Brand
unfolding brand3_ranked
brand3 cards = sorted3 brand3_ranked cards

abbrev pub rtoi3 : ℕ → ℕ
rtoi3 r = r + 2

unfoldable pub pair_point3 : ℕ → ℕ → ℕ → ℕ
pair_point3 a b c =
    if a == b then rtoi3 b * pow 3 + rtoi3 c else if b == c then rtoi3 c * pow 3 + rtoi3 a else 0

unfoldable pub brand_info3_ranked : ℕ → ℕ → ℕ → BrandInfo
unfolding pair_point3 hight_points
brand_info3_ranked a b c =
    if a == c
    then info three_of_kind (rtoi3 c)
    else if ltb 0 (pair_point3 a b c)
    then info one_pair (pair_point3 a b c)
    else info hight_card (hight_points 0 (rtoi3 a ∷ rtoi3 b ∷ rtoi3 c ∷ []))

unfoldable pub brand_info3 : List Card → BrandInfo
unfolding brand_info3_ranked
brand_info3 cards = sorted3 brand_info3_ranked cards
