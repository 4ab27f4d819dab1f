-- ===== src/Score/Rows.antt =====
-- The points of the rows.
-- The comparison turns round with its arguments.
use chess_games.Prelude.{ap, arith, if◌then◌else◌, inl, inr, refl, ℕ, ◌==◌, ◌∙◌, ◌≡◌, ◌≤◌, ◌⊎◌}
use chess_games.Prelude.Int.{int_laws, neg_ℤ, pos, ℤ, ◌+ℤ◌, ◌-ℤ◌}
use chess_games.Deck.{
  Brand, BrandInfo, cmp_brand_info, five_of_kind, four_of_kind, full_house, hight_card,
  straight_flush, three_of_kind,
}
use chess_games.Deck.Ghost.{brand}
use chess_games.Score.Compare.{base_prize, bonus, head_prize, middle_prize, tail_prize}

abbrev pub turn : ℕ → ℕ
turn cmp = if cmp == 1 then 2 else if cmp == 2 then 1 else cmp

pub cmp_brand_info-turn : (x y : BrandInfo) → cmp_brand_info y x ≡ turn (cmp_brand_info x y)
unfolding cmp_brand_info
cmp_brand_info-turn x y = ground arith

cmp-le : (x y : BrandInfo) → cmp_brand_info x y ≤ 2
unfolding cmp_brand_info
cmp-le x y = ground arith

neg_ℤ-+ℤ : (a b : ℤ) → neg_ℤ a +ℤ b ≡ neg_ℤ (a -ℤ b)
neg_ℤ-+ℤ a b = omega int_laws

neg_ℤ--ℤ : (a b : ℤ) → neg_ℤ a -ℤ b ≡ neg_ℤ (a +ℤ b)
neg_ℤ--ℤ a b = omega int_laws

bonus-turn :
    (cmp : ℕ) (bx by brand : Brand) (extra : ℕ) (prize : ℤ)
    → bonus (turn cmp) by bx brand extra (neg_ℤ prize) ≡ neg_ℤ (bonus cmp bx by brand extra prize)
unfolding bonus
bonus-turn cmp bx by brand extra prize =
    ground (arith, neg_ℤ-+ℤ prize (pos extra), neg_ℤ--ℤ prize (pos extra))

base_prize-turn : (cmp : ℕ) → base_prize (turn cmp) ≡ neg_ℤ (base_prize cmp)
unfolding base_prize neg_ℤ
base_prize-turn cmp = ground arith

-- With the two players swapped the points of each row are the same with the other sign, so what
-- one player takes the other gives.
pub rows-turn :
    (x y : BrandInfo)
    → (head_prize y x ≡ neg_ℤ (head_prize x y))
      × (middle_prize y x ≡ neg_ℤ (middle_prize x y))
      × (tail_prize y x ≡ neg_ℤ (tail_prize x y))
unfolding head_prize middle_prize tail_prize
rows-turn x y =
    let c = cmp_brand_info x y in
    (
      rw (cmp_brand_info-turn x y, base_prize-turn c, bonus-turn c),
      rw (cmp_brand_info-turn x y, base_prize-turn c) (simp (bonus-turn c)),
      rw (cmp_brand_info-turn x y, base_prize-turn c) (simp (bonus-turn c)),
    )

-- What a row is worth to its winner, after the rules of the game.
abbrev pub head_worth : Brand → ℕ
head_worth three_of_kind = 3
head_worth _ = 1

abbrev pub middle_worth : Brand → ℕ
middle_worth full_house = 2
middle_worth four_of_kind = 8
middle_worth straight_flush = 10
middle_worth five_of_kind = 20
middle_worth _ = 1

abbrev pub tail_worth : Brand → ℕ
tail_worth four_of_kind = 4
tail_worth straight_flush = 5
tail_worth five_of_kind = 10
tail_worth _ = 1

-- What the rows of two infos are worth to the first, if `cmp` compares them.
abbrev pub worth : (Brand → ℕ) → ℕ → Brand → Brand → ℤ
worth w cmp b c = if cmp == 1 then pos (w b) else if cmp == 2 then neg_ℤ (pos (w c)) else pos 0

head_won : (b c : Brand) → bonus 1 b c three_of_kind 2 (base_prize 1) ≡ pos (head_worth b)
unfolding bonus base_prize ◌+ℤ◌
head_won hight_card c = refl
head_won _ c = refl

middle_won :
    (b c : Brand)
    → bonus 1 b c four_of_kind 7 (
        bonus 1 b c straight_flush 9
          (bonus 1 b c five_of_kind 19 (bonus 1 b c full_house 1 (base_prize 1))))
      ≡ pos (middle_worth b)
unfolding bonus base_prize ◌+ℤ◌
middle_won hight_card c = refl
middle_won _ c = refl

tail_won :
    (b c : Brand)
    → bonus 1 b c four_of_kind 3
        (bonus 1 b c straight_flush 4 (bonus 1 b c five_of_kind 9 (base_prize 1)))
      ≡ pos (tail_worth b)
unfolding bonus base_prize ◌+ℤ◌
tail_won hight_card c = refl
tail_won _ c = refl

cmp-cases :
    (x y : BrandInfo)
    → (cmp_brand_info x y ≡ 0) ⊎ (cmp_brand_info x y ≡ 1) ⊎ (cmp_brand_info x y ≡ 2)
cmp-cases x y = omega (arith, cmp-le x y)

rows_won :
    (x y : BrandInfo)
    → cmp_brand_info x y ≡ 1
    → (head_prize x y ≡ pos (head_worth x.b))
      × (middle_prize x y ≡ pos (middle_worth x.b))
      × (tail_prize x y ≡ pos (tail_worth x.b))
unfolding head_prize middle_prize tail_prize
rows_won x y e = rw e (head_won x.b y.b, middle_won x.b y.b, tail_won x.b y.b)

rows_tied :
    (x y : BrandInfo)
    → cmp_brand_info x y ≡ 0
    → (head_prize x y ≡ pos 0) × (middle_prize x y ≡ pos 0) × (tail_prize x y ≡ pos 0)
unfolding head_prize middle_prize tail_prize
rows_tied x y e = rw e (refl, refl, refl)

-- Each row pays what its winner's brand is worth in that row, and nothing on a tie.
pub rows-worth :
    (x y : BrandInfo)
    → (head_prize x y ≡ worth head_worth (cmp_brand_info x y) x.b y.b)
      × (middle_prize x y ≡ worth middle_worth (cmp_brand_info x y) x.b y.b)
      × (tail_prize x y ≡ worth tail_worth (cmp_brand_info x y) x.b y.b)
rows-worth x y = elim (cmp-cases x y) [
  | inl e ↦ rw e (rows_tied x y e)
  | inr (inl e) ↦ rw e (rows_won x y e)
  | inr (inr e) ↦
      let turned : cmp_brand_info y x ≡ 1 = cmp_brand_info-turn x y ∙ ap turn e in
      let (head, middle, tail) = rows_won y x turned in
      let (h, m, t) = rows-turn y x in
      rw e (h ∙ ap neg_ℤ head, m ∙ ap neg_ℤ middle, t ∙ ap neg_ℤ tail)
]
