-- ===== src/Deck/Special.antt =====
-- `g13SpecialBrand`: brands of all thirteen cards. The first sort leaves the first three in order.
use chess_games.Prelude.{
  Bool, List, Option, [], drop, false, get_or, if◌then◌else◌, leb, ltb, map, not, suc, take, true,
  zero, ℕ, ◌&&◌, ◌++◌, ◌+◌, ◌==◌, ◌||◌, ◌∷◌,
}
use chess_games.Deck.{
  Brand, Card, brand_value, flush, r2, r3, r8, r_ace, r_jack, rank, straight_flush, suit,
}
use chess_games.Deck.Sort.{sort}
use chess_games.Deck.Loops.{flush_loop, straight_loop}

pub data SpecialBrand : Type 0 where
  flush_straight straight royal triple_straight_flush triple_bombs all_big : SpecialBrand
  all_little red_or_black quad_three_of_kind penta_pairs_and_three_of_kind : SpecialBrand
  six_pairs triple_straight triple_flush none : SpecialBrand

abbrev pub special_value : SpecialBrand → ℕ
special_value flush_straight = 135
special_value straight = 124
special_value royal = 113
special_value triple_straight_flush = 103
special_value triple_bombs = 93
special_value all_big = 82
special_value all_little = 72
special_value red_or_black = 62
special_value quad_three_of_kind = 52
special_value penta_pairs_and_three_of_kind = 42
special_value six_pairs = 32
special_value triple_straight = 22
special_value triple_flush = 12
special_value none = 0

abbrev is_straight_brand : Brand → Bool
is_straight_brand b =
    (brand_value b == brand_value Brand.straight) || (brand_value b == brand_value straight_flush)

abbrev is_flush_brand : Brand → Bool
is_flush_brand b =
    (brand_value b == brand_value flush) || (brand_value b == brand_value straight_flush)

-- The checks of `g13SpecialBrandByDun` on the sorted ranks and suits of the first three cards.
unfoldable pub by_dun_ranked : ℕ → ℕ → ℕ → ℕ → ℕ → ℕ → Brand → Brand → SpecialBrand
by_dun_ranked a b c s t u b2 b3 =
    let is_straight = ((a + 1 == b) && (b + 1 == c)) || ((a == r2) && (b == r3) && (c == r_ace)) in
    let is_flush = (s == t) && (t == u) in
    if is_straight
      && is_flush
      && (brand_value b2 == brand_value straight_flush)
      && (brand_value b3 == brand_value straight_flush)
    then triple_straight_flush
    else if is_straight && is_straight_brand b2 && is_straight_brand b3
    then triple_straight
    else if is_flush && is_flush_brand b2 && is_flush_brand b3
    then triple_flush
    else none

unfoldable pub g13_special_brand_by_dun : List Card → Brand → Brand → SpecialBrand
unfolding by_dun_ranked
g13_special_brand_by_dun cards b2 b3 =
    let c = sort (take 3 cards) in
    let r : ℕ → ℕ = λ i. rank (get_or c i 0) in
    let s : ℕ → ℕ = λ i. suit (get_or c i 0) in
    by_dun_ranked (r 0) (r 1) (r 2) (s 0) (s 1) (s 2) b2 b3

-- Are the ranks at `i` and `j` equal?
abbrev same : List ℕ → ℕ → ℕ → Bool
same r i j = get_or r i 0 == get_or r j 0

-- Three fours of a kind; the single card is at 0, 4, 8 or 12.
unfoldable pub triple_bombs_test : List ℕ → Bool
triple_bombs_test r =
    (same r 1 4 && same r 5 8 && same r 9 12)
    || (same r 0 3 && same r 5 8 && same r 9 12)
    || (same r 0 3 && same r 4 7 && same r 9 12)
    || (same r 0 3 && same r 4 7 && same r 8 11)

-- Four threes of a kind; the single card is at 0, 3, 6, 9 or 12.
unfoldable pub quad_three_test : List ℕ → Bool
quad_three_test r =
    (same r 1 3 && same r 4 6 && same r 7 9 && same r 10 12)
    || (same r 0 2 && same r 4 6 && same r 7 9 && same r 10 12)
    || (same r 0 2 && same r 3 5 && same r 7 9 && same r 10 12)
    || (same r 0 2 && same r 3 5 && same r 6 8 && same r 10 12)
    || (same r 0 2 && same r 3 5 && same r 6 8 && same r 9 11)

-- `allRed` after its loop over the suits, from the value before; so too `allBlack`.
unfoldable pub all_red : List ℕ → Bool
all_red [] = true
all_red (s ∷ l) = if not (s == 2) && not (s == 0) then false else all_red l

unfoldable pub all_black : List ℕ → Bool
all_black [] = true
all_black (s ∷ l) = if not (s == 3) && not (s == 1) then false else all_black l

-- The loop that looks for three of a kind which is not four, from index `i` on, in the list from
-- there; it ends where three cards are left.
unfoldable pub three_of_kind_from : ℕ → List ℕ → Option ℕ
three_of_kind_from i (a ∷ b ∷ c ∷ d ∷ l) =
    let next = three_of_kind_from (i + 1) (b ∷ c ∷ d ∷ l) in
    let over = three_of_kind_from (i + 4) l in
    if (a == b) && (b == c) then (if a == d then over else Option.some i) else next
three_of_kind_from i l = Option.none

-- `threeOfKindBegin`.
unfoldable pub three_of_kind_begin : List ℕ → Option ℕ
unfolding three_of_kind_from
three_of_kind_begin r =
    let found = three_of_kind_from 0 r in
    if not (same r 9 10) && same r 10 11 && same r 11 12 then Option.some 10 else found

-- The loop that pairs the other ten cards, from index `i` on, with the three of a kind at `t`. Each
-- round moves `i` on by two at least.
unfoldable pub penta_loop : ℕ → ℕ → List ℕ → ℕ → Bool
penta_loop zero t r i = leb 12 i
penta_loop (suc fuel) t r i =
    let past = penta_loop fuel t r (i + 3) in
    let j = if i + 1 == t then i + 1 + 3 else i + 1 in
    let on = penta_loop fuel t r (j + 1) in
    if not (ltb i 12) then true else if t == i then past else if same r i j then on else false

unfoldable pub penta_pairs_test : List ℕ → Bool
unfolding three_of_kind_begin penta_loop
penta_pairs_test r = elim (three_of_kind_begin r) [
  | Option.none ↦ false
  | Option.some t ↦ penta_loop 12 t r 0
]

-- `pairSize` after its loop.
unfoldable pub pair_size : List ℕ → ℕ
pair_size (a ∷ b ∷ l) =
    let pair = pair_size l + 1 in let next = pair_size (b ∷ l) in if a == b then pair else next
pair_size l = 0

-- `g13SpecialBrandByAll` on the sorted ranks and the suits in that order.
unfoldable pub by_all_ranked : List ℕ → List ℕ → SpecialBrand → SpecialBrand
by_all_ranked r s dun =
    if straight_loop true r && flush_loop true s
    then flush_straight
    else if straight_loop true r
    then straight
    else if leb r_jack (get_or r 0 0)
    then royal
    else if special_value dun == special_value triple_straight_flush
    then dun
    else if triple_bombs_test r
    then triple_bombs
    else if leb r8 (get_or r 0 0)
    then all_big
    else if leb (get_or r 12 0) r8
    then all_little
    else if all_red s || all_black s
    then red_or_black
    else if quad_three_test r
    then quad_three_of_kind
    else if penta_pairs_test r
    then penta_pairs_and_three_of_kind
    else if pair_size r == 6
    then six_pairs
    else dun

unfoldable pub g13_special_brand_by_all : List Card → SpecialBrand → SpecialBrand
unfolding by_all_ranked straight_loop flush_loop triple_bombs_test all_red all_black quad_three_test
    penta_pairs_test pair_size
g13_special_brand_by_all c dun = by_all_ranked (map rank (sort c)) (map suit (sort c)) dun

unfoldable pub g13_special_brand : List Card → Brand → Brand → SpecialBrand
unfolding g13_special_brand_by_dun g13_special_brand_by_all
g13_special_brand c b2 b3 =
    g13_special_brand_by_all (sort (take 3 c) ++ drop 3 c) (g13_special_brand_by_dun c b2 b3)
