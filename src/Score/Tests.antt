-- ===== src/Score/Tests.antt =====
-- Rounds that run through the settlement.
use chess_games.Score.Round.{calc_round-total}
use chess_games.Score.Total.{total}
use chess_games.Prelude.{List, Option, [], arith, false, length, some, true, ℕ, ◌∷◌, ◌≡◌}
use chess_games.Prelude.Int.{pos}
use chess_games.Deck.Ghost.{non_ghosts}
use chess_games.Score.Players.{Player, PlayerData, evaluate_all}
use chess_games.Score.Pay.{calc_round}
use chess_games.Deck.{BrandInfo, cmp_brand_info, full_house, info, straight_flush}
use chess_games.Score.Compare.{head_prize, middle_prize, tail_prize}
use chess_games.Score.Rows.{head_worth, middle_worth, rows-worth, tail_worth, worth}
use chess_games.Deck.Special.{SpecialBrand}

abbrev alice : Player
alice = record {
  cuid = 1;
  cards_spec_brand = false;
  cards = 1 ∷ 14 ∷ 27 ∷ 2 ∷ 15 ∷ 28 ∷ 3 ∷ 16 ∷ 13 ∷ 26 ∷ 39 ∷ 12 ∷ 25 ∷ [];
}

abbrev bob : Player
bob = record {
  cuid = 2;
  cards_spec_brand = false;
  cards = 40 ∷ 5 ∷ 20 ∷ 41 ∷ 29 ∷ 7 ∷ 9 ∷ 24 ∷ 4 ∷ 17 ∷ 30 ∷ 8 ∷ 21 ∷ [];
}

calc_round-total_example :
    (ds : List PlayerData) × (calc_round (alice ∷ bob ∷ []) 1 5 (pos 1) true ≡ some ds)
    × (length ds ≡ length (alice ∷ bob ∷ []))
    × (total ds ≡ pos 0)
unfolding non_ghosts
calc_round-total_example = calc_round-total (alice ∷ bob ∷ []) 1 5 (pos 1) true (omega arith)

abbrev small_house : BrandInfo
small_house = info full_house 3

abbrev great_flush : BrandInfo
great_flush = info straight_flush 15

rows-worth_example :
    (head_prize small_house great_flush
      ≡ worth head_worth (cmp_brand_info small_house great_flush) full_house straight_flush)
    × (middle_prize small_house great_flush
        ≡ worth middle_worth (cmp_brand_info small_house great_flush) full_house straight_flush)
    × (tail_prize small_house great_flush
        ≡ worth tail_worth (cmp_brand_info small_house great_flush) full_house straight_flush)
rows-worth_example = rows-worth small_house great_flush

abbrev test_data : List ℕ → BrandInfo → BrandInfo → BrandInfo → PlayerData
test_data cards head middle tail = record {
  cuid = 1;
  cards = cards;
  dun0 = head;
  dun1 = middle;
  dun2 = tail;
  spec = SpecialBrand.none;
  dun_prize0 = pos 0;
  dun_prize1 = pos 0;
  dun_prize2 = pos 0;
  prize = pos 0;
  losers = [];
  quan_lei_da = false;
  has_ma_pai = false;
}

abbrev strong : PlayerData
strong = test_data (1 ∷ []) small_house great_flush great_flush

abbrev weak : PlayerData
weak = test_data (2 ∷ []) great_flush small_house small_house

abbrev judged : List PlayerData
judged = elim (evaluate_all 1 (alice ∷ bob ∷ [])) [ Option.none ↦ [] | some ds ↦ ds ]
