-- ===== src/Deck/Ghost.antt =====
-- Hands with ghost cards: `hasGhost`, `isSubset`, `ghost3`, `ghost5`, `ghostInfo3`, `ghostInfo5`,
-- `brand` and `brandInfo`. The routines named after ghosts take the other cards of the hand.
-- `none` is a read outside the array, which the source leaves undefined.
pub mod Agree
pub mod Faults
use chess_games.Prelude.{
  Bool, List, Option, [], false, get_or, if◌then◌else◌, leb, length, ltb, map, none, some, suc,
  true, zero, ℕ, ◌&&◌, ◌*◌, ◌+◌, ◌-◌, ◌==◌, ◌||◌, ◌∷◌,
}
use chess_games.Deck.{
  Brand, BrandInfo, Card, five_of_kind, flush, four_of_kind, full_house, ghost_info, hight_card,
  info, one_pair, r2, r3, r4, r5, r_ace, rank, straight, straight_flush, suit, three_of_kind,
}
use chess_games.Deck.Sort.{sort}
use chess_games.Deck.Loops.{flush_loop, pow}
use chess_games.Deck.Five.{brand5, brand_info5, rtoi}
use chess_games.Deck.Three.{brand3, brand_info3, rtoi3}

unfoldable pub has_ghost : List Card → Bool
has_ghost [] = false
has_ghost (c ∷ l) = if ltb 52 c then true else has_ghost l

-- The first loop of `brand` and `brandInfo`: the cards that are no ghosts.
unfoldable pub non_ghosts : List Card → List Card
non_ghosts [] = []
non_ghosts (c ∷ l) = if leb c 52 then c ∷ non_ghosts l else non_ghosts l

-- The loop of `isSubset` from `v1[j]` and the card `card[i]` on.
unfoldable pub is_subset_loop : List ℕ → List ℕ → Bool
is_subset_loop v [] = true
is_subset_loop [] (r ∷ rs) = false
is_subset_loop (v ∷ vs) (r ∷ rs) =
    let skip = is_subset_loop vs (r ∷ rs) in
    let both = is_subset_loop vs rs in if ltb v r then skip else if v == r then both else false

-- `isSubset`, with the ranks of the cards.
unfoldable pub is_subset : List ℕ → List ℕ → Bool
unfolding is_subset_loop
is_subset v1 ranks = if ltb (length v1) (length ranks) then false else is_subset_loop v1 ranks

abbrev pub small_straight : List ℕ
small_straight = r2 ∷ r3 ∷ r4 ∷ r5 ∷ r_ace ∷ []

-- `isStright` and `ghostBrandCount`.
pub record Gaps : Type 0 where
  pub is_straight : Bool
  pub ghosts : ℕ

-- The loop over neighbours, with v = cur - prev - 1. Ranks do not fall, so v is -1 or more. The
-- count is written `ghosts + prev + 1 - cur` where v is at most `ghosts`, so it does not stop at 0.
unfoldable pub gap_loop : Gaps → List ℕ → Gaps
gap_loop g [] = g
gap_loop g (x ∷ []) = g
gap_loop g (prev ∷ cur ∷ l) =
    gap_loop
      (if (cur == prev + 1) || ltb (g.ghosts + prev + 1) cur
        then record g { is_straight = false }
        else record g { ghosts = g.ghosts + prev + 1 - cur })
      (cur ∷ l)

-- The loop that raises the top of a straight by the ghosts left: the top and the ghosts after it.
unfoldable pub raise_top : ℕ → ℕ → ℕ × ℕ
raise_top zero top = (top, 0)
raise_top (suc g) top =
    let rest = raise_top g (top + 1) in if top == r_ace then (top, suc g) else rest

-- `pairCount` and the last `pairIndex` of the loop from index `i` on.
unfoldable pub pair_loop : ℕ → ℕ × ℕ → List ℕ → ℕ × ℕ
pair_loop i acc [] = acc
pair_loop i acc (x ∷ []) = acc
pair_loop i acc (x ∷ y ∷ l) = pair_loop (i + 1) (if x == y then (acc.0 + 1, i) else acc) (y ∷ l)

-- Both routines on ghosts of a five: is the hand a straight, A2345 included?
unfoldable pub ghost_straight : List ℕ → Bool
unfolding gap_loop is_subset
ghost_straight r =
    let gaps = gap_loop (record { is_straight = true; ghosts = 5 - length r }) r in
    if gaps.is_straight then true else is_subset small_straight r

-- `ghostBrandCount` after the loop over neighbours.
unfoldable pub ghosts_left : List ℕ → ℕ
unfolding gap_loop
ghosts_left r = (gap_loop (record { is_straight = true; ghosts = 5 - length r }) r).ghosts

-- `rank(c[0]) == rank(c[size - 2]) || rank(c[1]) == rank(c[size - 1])`.
abbrev pub four_test : List ℕ → Bool
four_test r =
    (get_or r 0 0 == get_or r (length r - 2) 0) || (get_or r 1 0 == get_or r (length r - 1) 0)

-- `ghost5` on the sorted ranks of two cards or more.
unfoldable pub ghost5_ranked : List ℕ → Bool → Brand
ghost5_ranked r is_flush =
    let size = length r in
    let ghosts = ghosts_left r in
    let pairs = (pair_loop 1 (0, 0) r).0 in
    if get_or r 0 0 == get_or r (size - 1) 0
    then five_of_kind
    else if ghost_straight r && is_flush
    then straight_flush
    else if size == 2
    then four_of_kind
    else if four_test r
    then four_of_kind
    else if (ghosts == 1) && (pairs == 2)
    then full_house
    else if (ghosts == 2) && (pairs == 1)
    then full_house
    else if is_flush
    then flush
    else if ghost_straight r
    then straight
    else if ltb 0 pairs || (ghosts == 2)
    then three_of_kind
    else if ghosts == 1
    then one_pair
    else hight_card

unfoldable pub ghost5 : List Card → Brand
unfolding ghost5_ranked ghost_straight ghosts_left pair_loop
ghost5 cards =
    if ltb (length cards) 2
    then five_of_kind
    else ghost5_ranked (map rank (sort cards)) (flush_loop true (map suit (sort cards)))

-- `ghost3`, which does not sort.
unfoldable pub ghost3 : List Card → Brand
ghost3 cards =
    if ltb (length cards) 2
    then three_of_kind
    else if rank (get_or cards 0 0) == rank (get_or cards 1 0)
    then three_of_kind
    else one_pair

unfoldable pub ghost_info3 : List Card → BrandInfo
ghost_info3 cards =
    let r : ℕ → ℕ = λ i. rank (get_or (sort cards) i 0) in
    if length cards == 0
    then ghost_info three_of_kind (rtoi3 (rank 52))
    else if ltb (length cards) 2
    then ghost_info three_of_kind (rtoi3 (r (length cards - 1)))
    else if r 0 == r 1
    then ghost_info three_of_kind (rtoi3 (r (length cards - 1)))
    else ghost_info one_pair (rtoi3 (r 1) * pow 3 + rtoi3 (r 0))

-- The points of a straight, and `ghostBrandCount` from there on.
unfoldable pub ghost_straight_point : List ℕ → ℕ × ℕ
unfolding gap_loop raise_top
ghost_straight_point r =
    let gaps = gap_loop (record { is_straight = true; ghosts = 5 - length r }) r in
    let raised = raise_top gaps.ghosts (get_or r (length r - 1) 0) in
    if gaps.is_straight
    then (if raised.0 == r_ace then 15 else raised.0 + 1, raised.1)
    else (14, gaps.ghosts)

-- The branch of `ghostInfo5` for flushes.
unfoldable pub ghost_flush_point : List ℕ → ℕ → ℕ → ℕ → ℕ
ghost_flush_point r ghosts pairs index =
    let v : ℕ → ℕ = λ i. rtoi (get_or r i 0) in
    let last = length r - 1 in
    if ghosts == 2
    then v last * pow 6 + v 1 * pow 5 + v 0
    else if (ghosts == 1) && ltb 0 pairs
    then (if get_or r last 0 == get_or r (last - 1) 0
        then v last * pow 6 + v 1 * pow 5 + v 0
        else if last - 1 == index
        then v last * pow 6 + (v index * pow 5 + v 0)
        else v last * pow 6 + (v index * pow 5 + v (last - 1)))
    else v last * pow 5 + v 0 * pow 0 + v 1 * pow 1 + v 2 * pow 2

-- `ghostInfo5` on the sorted ranks of two cards or more.
unfoldable pub ghost_info5_ranked : List ℕ → Bool → BrandInfo
ghost_info5_ranked r is_flush =
    let size = length r in
    let v : ℕ → ℕ = λ i. rtoi (get_or r i 0) in
    let point = (ghost_straight_point r).0 in
    let ghosts = (ghost_straight_point r).1 in
    let pairs = (pair_loop 1 (0, 0) r).0 in
    let index = (pair_loop 1 (0, 0) r).1 in
    if get_or r 0 0 == get_or r (size - 1) 0
    then ghost_info five_of_kind (v (size - 1))
    else if ghost_straight r && is_flush
    then ghost_info straight_flush point
    else if size == 2
    then ghost_info four_of_kind (v (size - 1))
    else if four_test r
    then ghost_info four_of_kind
        (if get_or r 1 0 == get_or r (size - 1) 0 then v (size - 1) else v (size - 2))
    else if (ghosts == 1) && (pairs == 2)
    then ghost_info full_house (v (size - 1))
    else if (ghosts == 2) && (pairs == 1)
    then ghost_info full_house (v (size - 1))
    else if is_flush
    then ghost_info flush (ghost_flush_point r ghosts pairs index)
    else if ghost_straight r
    then ghost_info straight point
    else if ghosts == 2
    then ghost_info three_of_kind (v (size - 1))
    else if ltb 0 pairs
    then ghost_info three_of_kind (v index)
    else if ghosts == 1
    then ghost_info one_pair (v (size - 1))
    else ghost_info one_pair 0

unfoldable pub ghost_info5 : List Card → Option BrandInfo
unfolding ghost_info5_ranked ghost_straight ghost_straight_point ghost_flush_point pair_loop
ghost_info5 cards =
    if length cards == 0
    then none
    else if length cards == 1
    then some (ghost_info five_of_kind (rtoi (rank (get_or (sort cards) 0 0))))
    else some (ghost_info5_ranked (map rank (sort cards)) (flush_loop true (map suit (sort cards))))

-- Any other size than 3 and 5 counts as a high card.
unfoldable pub brand : List Card → Brand
unfolding non_ghosts
brand c =
    let cards = non_ghosts c in
    if length c == 5
    then (if length cards == 5 then brand5 c else ghost5 cards)
    else if length c == 3
    then (if length cards == 3 then brand3 c else ghost3 cards)
    else hight_card

unfoldable pub brand_info : List Card → Option BrandInfo
unfolding non_ghosts
brand_info c =
    let cards = non_ghosts c in
    if length c == 5
    then (if length cards == 5 then some (brand_info5 c) else ghost_info5 cards)
    else if length c == 3
    then (if length cards == 3 then some (brand_info3 c) else some (ghost_info3 cards))
    else some (info hight_card 0)
