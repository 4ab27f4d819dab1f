-- ===== src/Score/Compare.antt =====
-- The second loop of `calcRound`: each two players are compared row by row.
-- `losers[key] = value`.
use chess_games.Prelude.{
  Bool, List, Option, [], get_elem?, if◌then◌else◌, ltb, not, set, some, suc, zero, ℕ, ◌%◌, ◌&&◌,
  ◌+◌, ◌==◌, ◌||◌, ◌∷◌,
}
use chess_games.Prelude.Int.{ltb_ℤ, negsuc, pos, ℤ, ◌+ℤ◌, ◌-ℤ◌}
use chess_games.Deck.{
  Brand, BrandInfo, brand_value, cmp_brand_info, five_of_kind, four_of_kind, full_house,
  straight_flush, three_of_kind,
}
use chess_games.Deck.Ghost.{brand}
use chess_games.Deck.Special.{SpecialBrand, special_value}
use chess_games.Score.Players.{Losers, Loss, PlayerData, neg_u32, to_i32, to_u32}

unfoldable pub set_loser : ℕ → Loss → Losers → Losers
set_loser k v [] = (k, v) ∷ []
set_loser k v ((j, w) ∷ m) =
    if k == j then (k, v) ∷ m else if ltb k j then (k, v) ∷ (j, w) ∷ m else (j, w) ∷ set_loser k v m

abbrev pub lose : ℕ → ℤ → ℕ → PlayerData → PlayerData
lose k price shot d = record d {
  losers = set_loser k (record { price = price; shot = shot }) d.losers;
}

-- The points of a special brand.
unfoldable pub special_prize : SpecialBrand → ℕ
special_prize SpecialBrand.flush_straight = 104
special_prize SpecialBrand.straight = 52
special_prize SpecialBrand.royal = 26
special_prize SpecialBrand.triple_straight_flush = 26
special_prize SpecialBrand.triple_bombs = 26
special_prize SpecialBrand.none = 0
special_prize _ = 6

abbrev pub special_rank : PlayerData → ℕ
special_rank d = special_value d.spec % 10

abbrev pub is_special : PlayerData → Bool
is_special d = not (special_value d.spec == 0)

-- The branch of two players of whom one has a special brand.
unfoldable pub compare_special : ℕ → ℕ → PlayerData → PlayerData → PlayerData × PlayerData
unfolding set_loser special_prize
compare_special i j x y =
    if special_rank x == special_rank y
    then (x, y)
    else if ltb (special_rank y) (special_rank x)
    then (lose j (pos (special_prize x.spec)) 0 x, y)
    else (x, lose i (pos (special_prize y.spec)) 0 y)

-- An extra that the winner of a row gets if its brand is `brand`; `cmp` is the row's comparison.
unfoldable pub bonus : ℕ → Brand → Brand → Brand → ℕ → ℤ → ℤ
bonus cmp bx by brand extra prize =
    if cmp == 0
    then prize
    else if (cmp == 1) && (brand_value bx == brand_value brand)
    then prize +ℤ pos extra
    else if (cmp == 2) && (brand_value by == brand_value brand)
    then prize -ℤ pos extra
    else prize

-- Rules 1 to 3.
unfoldable pub base_prize : ℕ → ℤ
base_prize cmp = if cmp == 1 then pos 1 else if cmp == 2 then negsuc 0 else pos 0

-- `dunPrize[0]`, `dunPrize[1]` and `dunPrize[2]`, from the infos of the row.
unfoldable pub head_prize : BrandInfo → BrandInfo → ℤ
unfolding bonus base_prize
head_prize x y = let cmp = cmp_brand_info x y in bonus cmp x.b y.b three_of_kind 2 (base_prize cmp)

unfoldable pub middle_prize : BrandInfo → BrandInfo → ℤ
unfolding bonus base_prize
middle_prize x y =
    let cmp = cmp_brand_info x y in
    bonus cmp x.b y.b four_of_kind 7 (
      bonus cmp x.b y.b straight_flush 9
        (bonus cmp x.b y.b five_of_kind 19 (bonus cmp x.b y.b full_house 1 (base_prize cmp))))

unfoldable pub tail_prize : BrandInfo → BrandInfo → ℤ
unfolding bonus base_prize
tail_prize x y =
    let cmp = cmp_brand_info x y in
    bonus cmp x.b y.b four_of_kind 3
      (bonus cmp x.b y.b straight_flush 4 (bonus cmp x.b y.b five_of_kind 9 (base_prize cmp)))

-- The sum of the rows, in which the points of a pair of players are.
abbrev pub rows_prize : PlayerData → PlayerData → ℤ
rows_prize x y = head_prize x.dun0 y.dun0 +ℤ middle_prize x.dun1 y.dun1 +ℤ tail_prize x.dun2 y.dun2

abbrev pub add_dun_prizes : PlayerData → PlayerData → PlayerData
add_dun_prizes x y = record x {
  dun_prize0 = x.dun_prize0 +ℤ head_prize x.dun0 y.dun0;
  dun_prize1 = x.dun_prize1 +ℤ middle_prize x.dun1 y.dun1;
  dun_prize2 = x.dun_prize2 +ℤ tail_prize x.dun2 y.dun2;
}

abbrev pub all_won : PlayerData → PlayerData → Bool
all_won x y =
    ltb_ℤ (pos 0) (head_prize x.dun0 y.dun0)
    && ltb_ℤ (pos 0) (middle_prize x.dun1 y.dun1)
    && ltb_ℤ (pos 0) (tail_prize x.dun2 y.dun2)

abbrev pub all_lost : PlayerData → PlayerData → Bool
all_lost x y =
    ltb_ℤ (head_prize x.dun0 y.dun0) (pos 0)
    && ltb_ℤ (middle_prize x.dun1 y.dun1) (pos 0)
    && ltb_ℤ (tail_prize x.dun2 y.dun2) (pos 0)

-- The branch of two players with common brands. `prize` is unsigned in the source, so `prize > 0`
-- holds of every value but 0.
unfoldable pub compare_common : ℕ → ℕ → ℕ → PlayerData → PlayerData → PlayerData × PlayerData
unfolding set_loser
compare_common da_qiang i j x y =
    let x' = add_dun_prizes x y in
    let prize = to_u32 (rows_prize x y) in
    if not (da_qiang == 0) && all_won x y
    then (lose j (to_i32 prize) 1 x', y)
    else if not (da_qiang == 0) && all_lost x y
    then (x', lose i (to_i32 (neg_u32 prize)) 1 y)
    else if prize == 0
    then (x', y)
    else if ltb 0 prize
    then (lose j (to_i32 prize) 0 x', y)
    else (x', lose i (to_i32 (neg_u32 prize)) 0 y)

unfoldable pub compare_players : ℕ → ℕ → ℕ → PlayerData → PlayerData → PlayerData × PlayerData
compare_players da_qiang i j x y =
    if is_special x || is_special y
    then compare_special i j x y
    else compare_common da_qiang i j x y

-- `dataI` and `dataJ` are references into `datas`.
unfoldable pub compare_at : ℕ → ℕ → ℕ → List PlayerData → List PlayerData
compare_at da_qiang i j datas = elim (get_elem? datas i) [
  | Option.none ↦ datas
  | some x ↦ elim (get_elem? datas j) [
    | Option.none ↦ datas
    | some y ↦
        set (set datas i (compare_players da_qiang i j x y).0) j
          (compare_players da_qiang i j x y).1
  ]
]

-- The inner loop from `j` on, with `left` rounds to go, and the outer loop from `i` on.
unfoldable pub inner_loop : ℕ → ℕ → ℕ → ℕ → List PlayerData → List PlayerData
inner_loop da_qiang zero i j datas = datas
inner_loop da_qiang (suc left) i j datas =
    inner_loop da_qiang left i (j + 1) (compare_at da_qiang i j datas)

unfoldable pub outer_loop : ℕ → ℕ → ℕ → List PlayerData → List PlayerData
outer_loop da_qiang zero i datas = datas
outer_loop da_qiang (suc left) i datas =
    outer_loop da_qiang left (i + 1) (inner_loop da_qiang left i (i + 1) datas)
