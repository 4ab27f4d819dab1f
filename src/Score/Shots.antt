-- ===== src/Score/Shots.antt =====
-- Which entry of `losers` a comparison makes, and when players are shot.
use chess_games.Score.Rows.{head_worth, middle_worth, rows-worth, tail_worth, worth}
use chess_games.Prelude.{
  Bool, Bool-cases, arith, false, if◌then◌else◌, inl, inr, ltb, not, true, ℕ, ◌&&◌, ◌+◌, ◌<◌, ◌==◌,
  ◌≡◌, ◌≢◌, ◌≤◌,
}
use chess_games.Prelude.Int.{ltb_ℤ, neg_part, neg_ℤ, negsuc, pos, pos_part, ℤ, ◌+ℤ◌}
use chess_games.Deck.{Brand, cmp_brand_info, hight_card}
use chess_games.Score.Players.{PlayerData, neg_u32, to_i32, to_u32}
use chess_games.Score.Compare.{add_dun_prizes, all_lost, all_won, compare_common, lose, rows_prize}

-- The values between -2^31 and 2^31 - 1 survive the way through uint32_t.
abbrev IsSmall : ℤ → Type 0
IsSmall z = (pos_part z < 100) × (neg_part z < 100)

to_i32-to_u32 : (z : ℤ) → IsSmall z → to_i32 (to_u32 z) ≡ z
unfolding to_i32 to_u32
to_i32-to_u32 (pos n) h = ground arith
to_i32-to_u32 (negsuc n) h = ground arith

and_right : (p q : Bool) → (p && q) ≡ true → q ≡ true
and_right p q h = ground arith

to_i32-neg_u32 : (z : ℤ) → IsSmall z → z ≢ pos 0 → to_i32 (neg_u32 (to_u32 z)) ≡ neg_ℤ z
unfolding to_i32 to_u32 neg_u32 neg_ℤ
to_i32-neg_u32 (pos n) h nz = ground arith
to_i32-neg_u32 (negsuc n) h nz = ground arith

worth-small :
    (w : Brand → ℕ) (k cmp : ℕ) (b c : Brand)
    → w b ≤ k
    → w c ≤ k
    → (pos_part (worth w cmp b c) ≤ k) × (neg_part (worth w cmp b c) ≤ k)
unfolding neg_ℤ
worth-small w k cmp b c h g = ground arith

head_worth-le : (b : Brand) → head_worth b ≤ 3
head_worth-le hight_card = omega arith
head_worth-le _ = omega arith

middle_worth-le : (b : Brand) → middle_worth b ≤ 20
middle_worth-le hight_card = omega arith
middle_worth-le _ = omega arith

tail_worth-le : (b : Brand) → tail_worth b ≤ 10
tail_worth-le hight_card = omega arith
tail_worth-le _ = omega arith

+ℤ-le :
    (a b : ℤ)
    → (pos_part (a +ℤ b) ≤ pos_part a + pos_part b) × (neg_part (a +ℤ b) ≤ neg_part a + neg_part b)
unfolding ◌+ℤ◌
+ℤ-le a b = ground arith

IsSmall-sum :
    (a b c : ℤ)
    → (pos_part a ≤ 3) × (neg_part a ≤ 3)
    → (pos_part b ≤ 20) × (neg_part b ≤ 20)
    → (pos_part c ≤ 10) × (neg_part c ≤ 10)
    → IsSmall (a +ℤ b +ℤ c)
IsSmall-sum a b c ha hb hc = omega (arith, +ℤ-le a b, +ℤ-le (a +ℤ b) c)

-- The rows of two players are worth 33 points at most.
rows_prize-IsSmall : (x y : PlayerData) → IsSmall (rows_prize x y)
rows_prize-IsSmall x y =
    let c0 : ℕ = cmp_brand_info x.dun0 y.dun0 in
    let c1 : ℕ = cmp_brand_info x.dun1 y.dun1 in
    let c2 : ℕ = cmp_brand_info x.dun2 y.dun2 in
    rw ((rows-worth x.dun0 y.dun0).0, (rows-worth x.dun1 y.dun1).1, (rows-worth x.dun2 y.dun2).2)
      (IsSmall-sum _ _ _
        (worth-small head_worth 3 c0 _ _ (head_worth-le x.dun0.b) (head_worth-le y.dun0.b))
        (worth-small middle_worth 20 c1 _ _ (middle_worth-le x.dun1.b) (middle_worth-le y.dun1.b))
        (worth-small tail_worth 10 c2 _ _ (tail_worth-le x.dun2.b) (tail_worth-le y.dun2.b)))

lost_sum :
    (a b c : ℤ)
    → (ltb_ℤ a (pos 0) && ltb_ℤ b (pos 0) && ltb_ℤ c (pos 0)) ≡ true
    → a +ℤ b +ℤ c ≢ pos 0
unfolding ◌+ℤ◌
lost_sum a b c h = ground arith

abbrev pub is_zero : ℤ → Bool
is_zero (pos n) = n == 0
is_zero (negsuc n) = false

to_u32-is_zero : (z : ℤ) → IsSmall z → (to_u32 z == 0) ≡ is_zero z
unfolding to_u32
to_u32-is_zero (pos n) h = ground arith
to_u32-is_zero (negsuc n) h = ground arith

pos_or_zero : (n : ℕ) → (n == 0) ≡ false → ltb 0 n ≡ true
pos_or_zero n h = ground arith

-- With common brands the points of the rows go into one entry, and nothing is lost on the way
-- through uint32_t. If shots are set and one player has won all rows, that player makes the entry,
-- a shot. Otherwise a tie makes none, and else the first player makes it, of a negative price where
-- the second has won.
pub compare_common-files :
    (da_qiang i j : ℕ) (x y : PlayerData)
    → compare_common da_qiang i j x y ≡ (
        if not (da_qiang == 0) && all_won x y
        then (lose j (rows_prize x y) 1 (add_dun_prizes x y), y)
        else if not (da_qiang == 0) && all_lost x y
        then (add_dun_prizes x y, lose i (neg_ℤ (rows_prize x y)) 1 y)
        else if is_zero (rows_prize x y)
        then (add_dun_prizes x y, y)
        else (lose j (rows_prize x y) 0 (add_dun_prizes x y), y))
unfolding compare_common
compare_common-files da_qiang i j x y = elim (Bool-cases (not (da_qiang == 0) && all_won x y)) [
  | inl e ↦ rw (e, to_i32-to_u32 _ (rows_prize-IsSmall x y))
  | inr e ↦ elim (Bool-cases (not (da_qiang == 0) && all_lost x y)) [
    | inl f ↦ rw (
      e,
      f,
      to_i32-neg_u32 (rows_prize x y) (rows_prize-IsSmall x y)
          (lost_sum _ _ _ (and_right (not (da_qiang == 0)) (all_lost x y) f)),
    )
    | inr f ↦ elim (Bool-cases (to_u32 (rows_prize x y) == 0)) [
      | inl g ↦ rw (e, f, ← to_u32-is_zero (rows_prize x y) (rows_prize-IsSmall x y), g)
      | inr g ↦ rw (
        e,
        f,
        ← to_u32-is_zero (rows_prize x y) (rows_prize-IsSmall x y),
        g,
        pos_or_zero (to_u32 (rows_prize x y)) g,
        to_i32-to_u32 (rows_prize x y) (rows_prize-IsSmall x y),
      )
    ]
  ]
]
