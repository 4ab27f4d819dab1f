-- ===== src/Deck/Ghost/Faults.antt =====
-- Hands with one ghost that `ghost5` and `ghostInfo5` misjudge.
use chess_games.Prelude.{
  List, [], ap, arith, false, length, map, some, suc, true, ℕ, ◌+◌, ◌<◌, ◌∷◌, ◌≡◌, ◌≤◌,
}
use chess_games.Deck.Five.{brand5_ranked, is_straight5}
use chess_games.Deck.Ghost.{
  Gaps, gap_loop, ghost5, ghost5_ranked, ghost_info5, ghost_info5_ranked, ghost_straight,
  ghost_straight_point, ghosts_left, pair_loop, raise_top,
}
use chess_games.Deck.{BrandInfo, Card, full_house, one_pair, rank, straight, suit}
use chess_games.Deck.Sort.{sort}
use chess_games.Deck.Loops.{flush_loop, straight_loop}

missed_run :
    (a : ℕ)
    → 1 ≤ a
    → ghost5_ranked (a ∷ suc a ∷ suc (suc a) ∷ suc (suc (suc a)) ∷ []) false ≡ one_pair
unfolding ghost5_ranked ghost_straight ghosts_left pair_loop
missed_run a h = ground arith

run_of_five :
    (a : ℕ)
    → brand5_ranked a (suc a) (suc (suc a)) (suc (suc (suc a))) (suc (suc (suc (suc a)))) false
      ≡ straight
unfolding brand5_ranked is_straight5 straight_loop
run_of_five a = ground arith

-- Four cards in sequence from rank 3 on, not of one suit, with a ghost: `ghost5` gives a pair. The
-- five cards in sequence that the ghost could complete are a straight for the tests of `brand5`.
pub ghost5-missed_run :
    (a : ℕ) (cards : List Card)
    → 1 ≤ a
    → length cards ≡ 4
    → map rank (sort cards) ≡ a ∷ suc a ∷ suc (suc a) ∷ suc (suc (suc a)) ∷ []
    → flush_loop true (map suit (sort cards)) ≡ false
    → (ghost5 cards ≡ one_pair)
      × (brand5_ranked a (suc a) (suc (suc a)) (suc (suc (suc a))) (suc (suc (suc (suc a)))) false
          ≡ straight)
unfolding ghost5
ghost5-missed_run a cards h n r s = (rw (n, r, s) (missed_run a h), run_of_five a)

module _ (a : ℕ) (low : a + 3 < 12) where
  -- Two pairs, three ranks apart.
  abbrev apart : List ℕ
  apart = a ∷ a ∷ (a + 3) ∷ (a + 3) ∷ []

  apart-gaps :
      gap_loop (record { is_straight = true; ghosts = 1 }) apart
      ≡ record { is_straight = true; ghosts = 1 }
  unfolding gap_loop
  apart-gaps = ground arith

  apart-pairs : pair_loop 1 (0, 0) apart ≡ (2, 3)
  unfolding pair_loop
  apart-pairs = ground arith

  apart-straight : ghost_straight apart ≡ true
  unfolding ghost_straight
  apart-straight = rw apart-gaps

  apart-left : ghosts_left apart ≡ 1
  unfolding ghosts_left
  apart-left = ap (λ (g : Gaps). g.ghosts) apart-gaps

  apart-raised : (ghost_straight_point apart).1 ≡ 0
  unfolding ghost_straight_point raise_top
  apart-raised = rw apart-gaps (ground arith)

  two_pairs_brand : ghost5_ranked apart false ≡ full_house
  unfolding ghost5_ranked
  two_pairs_brand = rw (apart-straight, apart-left, apart-pairs) (ground arith)

  two_pairs_info : (ghost_info5_ranked apart false).b ≡ straight
  unfolding ghost_info5_ranked
  two_pairs_info = rw (apart-straight, apart-raised) (ground arith)

-- Two pairs three ranks apart, below the ace and not of one suit, with a ghost: `ghost5` gives a
-- full house, and `ghostInfo5` a straight.
pub ghost_info5-two_pairs :
    (a : ℕ) (cards : List Card)
    → a + 3 < 12
    → length cards ≡ 4
    → map rank (sort cards) ≡ a ∷ a ∷ (a + 3) ∷ (a + 3) ∷ []
    → flush_loop true (map suit (sort cards)) ≡ false
    → (ghost5 cards ≡ full_house)
      × (i : BrandInfo) × (ghost_info5 cards ≡ some i)
      × (i.b ≡ straight)
unfolding ghost5 ghost_info5
ghost_info5-two_pairs a cards h n r s = (
  rw (n, r, s) (two_pairs_brand a h),
  ghost_info5_ranked (a ∷ a ∷ (a + 3) ∷ (a + 3) ∷ []) false,
  rw (n, r, s),
  two_pairs_info a h,
)
