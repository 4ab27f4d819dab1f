-- ===== src/Deck/Ghost/Agree.antt =====
-- `ghost5` and `ghostInfo5` beside one another.
use chess_games.Prelude.{
  ==_iff, Bool, Bool-cases, List, [], arith, false, get_or, inl, inr, length, length-map, ltb, map,
  some, true, ℕ, ◌-◌, ◌<◌, ◌==◌, ◌∙◌, ◌∷◌, ◌≡◌, ◌≤◌, ◌⊎◌,
}
use chess_games.Deck.{
  Brand, BrandInfo, Card, five_of_kind, ghost_info, hight_card, one_pair, rank, suit,
}
use chess_games.Deck.Five.{rtoi}
use chess_games.Deck.Ghost.{
  gap_loop, ghost5, ghost5_ranked, ghost_info5, ghost_info5_ranked, ghost_straight_point,
  ghosts_left, pair_loop, raise_top,
}
use chess_games.Deck.Sort.{length-sort, sort}
use chess_games.Deck.Loops.{flush_loop}

-- The outcomes of the two routines that go together.
abbrev pub Agrees : Brand → BrandInfo → Type 0
Agrees b i = (i.b ≡ b) ⊎ ((b ≡ hight_card) × (i ≡ ghost_info one_pair 0))

module _ (a b : ℕ) (f : Bool) (ab : a < b) where
  agree_two : Agrees (ghost5_ranked (a ∷ b ∷ []) f) (ghost_info5_ranked (a ∷ b ∷ []) f)
  unfolding ghost5_ranked ghost_info5_ranked
  agree_two = ground arith

-- With no ghost left over, the top of a straight is not raised.
same_ghosts :
    (r : List ℕ)
    → ((gap_loop (record { is_straight = true; ghosts = 5 - length r }) r).is_straight ≡ true
        → (gap_loop (record { is_straight = true; ghosts = 5 - length r }) r).ghosts ≡ 0)
    → (ghost_straight_point r).1 ≡ ghosts_left r
unfolding ghosts_left ghost_straight_point raise_top
same_ghosts r h =
    elim (Bool-cases
      (gap_loop (record { is_straight = true; ghosts = 5 - length r }) r).is_straight) [
        | inl e ↦ rw (e, h e, raise_top)
        | inr e ↦ rw e
      ]

module _ (a b c : ℕ) (ab : a < b) (bc : b < c) where
  no_pairs_three : pair_loop 1 (0, 0) (a ∷ b ∷ c ∷ []) ≡ (0, 0)
  unfolding pair_loop
  no_pairs_three = ground arith

  no_rest_three :
      (gap_loop (record { is_straight = true; ghosts = 2 }) (a ∷ b ∷ c ∷ [])).is_straight ≡ true
      → (gap_loop (record { is_straight = true; ghosts = 2 }) (a ∷ b ∷ c ∷ [])).ghosts ≡ 0
  unfolding gap_loop
  no_rest_three h = ground arith

  same_ghosts_three : (ghost_straight_point (a ∷ b ∷ c ∷ [])).1 ≡ ghosts_left (a ∷ b ∷ c ∷ [])
  unfolding ghosts_left ghost_straight_point
  same_ghosts_three = same_ghosts (a ∷ b ∷ c ∷ []) no_rest_three

  agree_three :
      (f : Bool) → Agrees (ghost5_ranked (a ∷ b ∷ c ∷ []) f) (ghost_info5_ranked (a ∷ b ∷ c ∷ []) f)
  unfolding ghost5_ranked ghost_info5_ranked
  agree_three f = rw (same_ghosts_three, no_pairs_three) (ground arith)

module _ (a b c d : ℕ) (ab : a < b) (bc : b < c) (cd : c < d) where
  no_pairs_four : pair_loop 1 (0, 0) (a ∷ b ∷ c ∷ d ∷ []) ≡ (0, 0)
  unfolding pair_loop
  no_pairs_four = ground arith

  no_rest_four :
      (gap_loop (record { is_straight = true; ghosts = 1 }) (a ∷ b ∷ c ∷ d ∷ [])).is_straight ≡ true
      → (gap_loop (record { is_straight = true; ghosts = 1 }) (a ∷ b ∷ c ∷ d ∷ [])).ghosts ≡ 0
  unfolding gap_loop
  no_rest_four h = ground arith

  same_ghosts_four :
      (ghost_straight_point (a ∷ b ∷ c ∷ d ∷ [])).1 ≡ ghosts_left (a ∷ b ∷ c ∷ d ∷ [])
  unfolding ghosts_left ghost_straight_point
  same_ghosts_four = same_ghosts (a ∷ b ∷ c ∷ d ∷ []) no_rest_four

  agree_four :
      (f : Bool)
      → Agrees (ghost5_ranked (a ∷ b ∷ c ∷ d ∷ []) f) (ghost_info5_ranked (a ∷ b ∷ c ∷ d ∷ []) f)
  unfolding ghost5_ranked ghost_info5_ranked
  agree_four f = rw (same_ghosts_four, no_pairs_four) (ground arith)

-- The ranks of the cards, in order, rise.
abbrev pub Rises : List ℕ → Type 0
Rises [] = Unit {0}
Rises (x ∷ []) = Unit {0}
Rises (x ∷ y ∷ l) = (x < y) × Rises (y ∷ l)

agree_ranked :
    (r : List ℕ) (f : Bool)
    → Rises r
    → 2 ≤ length r
    → length r ≤ 4
    → Agrees (ghost5_ranked r f) (ghost_info5_ranked r f)
agree_ranked [] f h m n = absurd (omega arith)
agree_ranked (a ∷ []) f h m n = absurd (omega arith)
agree_ranked (a ∷ b ∷ []) f h m n = agree_two a b f h.0
agree_ranked (a ∷ b ∷ c ∷ []) f h m n = agree_three a b c h.0 h.1.0 f
agree_ranked (a ∷ b ∷ c ∷ d ∷ []) f h m n = agree_four a b c d h.0 h.1.0 h.1.1.0 f
agree_ranked (a ∷ b ∷ c ∷ d ∷ e ∷ l) f h m n = absurd (omega arith)

not_zero : (n : ℕ) → 1 ≤ n → (n == 0) ≡ false
not_zero n h = ground arith

not_less : (n : ℕ) → 2 ≤ n → ltb n 2 ≡ false
not_less n h = ground arith

-- For one to four cards of different ranks beside ghosts, `ghostInfo5` gives the brand of `ghost5`,
-- or both have run through all their tests: a high card here, a pair of no points there.
pub ghost_info5-ghost5 :
    (cards : List Card)
    → Rises (map rank (sort cards))
    → 1 ≤ length cards
    → length cards ≤ 4
    → (i : BrandInfo) × (ghost_info5 cards ≡ some i) × Agrees (ghost5 cards) i
unfolding ghost_info5 ghost5
ghost_info5-ghost5 cards h m n = elim (Bool-cases (length cards == 1)) [
  | inl e ↦ (
    ghost_info five_of_kind (rtoi (rank (get_or (sort cards) 0 0))),
    rw ((==_iff (length cards) 1).0 e),
    inl (rw ((==_iff (length cards) 1).0 e)),
  )
  | inr e ↦
      let two : 2 ≤ length cards = ground arith in
      let ranks : List ℕ = map rank (sort cards) in
      let size : length ranks ≡ length cards = length-map (sort cards) rank ∙ length-sort cards in
      let suits : Bool = flush_loop true (map suit (sort cards)) in
      (
        ghost_info5_ranked ranks suits,
        rw (e, not_zero _ m),
        rw (not_less _ two) (agree_ranked ranks suits h (omega arith) (omega arith)),
      )
]
